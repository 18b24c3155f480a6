-- ===== src/SortedList/Memory.antt =====
-- The nodes of project 2b/SortedList.h at addresses, and commands that read and write their fields.
-- Nodes are never freed while the list is in use (all come from one array that `main` frees at the
-- end), so an access faults only at `NULL`.
use some_low_level_tasks.Prelude.{
  ℕ, ◌≡◌, ◌≢◌, arith, Bool, true, false, Option, none, some, List, [], ◌∷◌, ◌==◌, if◌then◌else◌,
}
use some_low_level_tasks.Prelude.Int.{ℤ, pos, negsuc, sub_ℕ}

abbrev pub Ptr : Type 0
Ptr = ℕ

abbrev pub null : Ptr
null = 0

-- A C string: its bytes up to the terminating NUL.
abbrev pub Key : Type 0
Key = List ℕ

-- `struct SortedListElement`, field by field over all addresses. The header's key is `NULL`.
pub record Heap : Type 0 where
  pub prev : Ptr → Ptr
  pub next : Ptr → Ptr
  pub key : Ptr → Option Key

abbrev pub update : (Ptr → Ptr) → Ptr → Ptr → Ptr → Ptr
update f p v a = if a == p then v else f a

-- The result of a command on memory; `none` is an access through a null pointer.
abbrev pub Cmd : Type 0 → Type 0
Cmd A = Heap → Option (A × Heap)

abbrev pub pure : {A : Type 0} → A → Cmd A
pure a h = some (a, h)

abbrev pub and_then : {A B : Type 0} → Option (A × Heap) → (A → Cmd B) → Option (B × Heap)
and_then none f = none
and_then (some (a, h)) f = f a h

infixl 5 ◌>>=◌ ◌>>◌
abbrev pub ◌>>=◌ : {A B : Type 0} → Cmd A → (A → Cmd B) → Cmd B
m >>= f = λ h. and_then (m h) f

abbrev pub ◌>>◌ : {A B : Type 0} → Cmd A → Cmd B → Cmd B
m >> n = m >>= λ _. n

unfoldable pub get_next : Ptr → Cmd Ptr
get_next p h = if p == null then none else some (h.next p, h)

unfoldable pub get_prev : Ptr → Cmd Ptr
get_prev p h = if p == null then none else some (h.prev p, h)

-- A key that is about to be compared; `strcmp` reads through it, so `NULL` faults.
unfoldable pub get_key : Ptr → Cmd Key
get_key p h = if p == null then none else elim (h.key p) [ none ↦ none | some k ↦ some (k, h) ]

unfoldable pub set_next : Ptr → Ptr → Cmd (Unit {0})
set_next p q h = if p == null then none else some (tt, record h { next = update h.next p q })

unfoldable pub set_prev : Ptr → Ptr → Cmd (Unit {0})
set_prev p q h = if p == null then none else some (tt, record h { prev = update h.prev p q })

-- Each command where its pointer is not null.
pub get_next-ok : (h : Heap) (p : Ptr) → p ≢ null → get_next p h ≡ some (h.next p, h)
unfolding get_next
get_next-ok h p n = ground arith

pub get_prev-ok : (h : Heap) (p : Ptr) → p ≢ null → get_prev p h ≡ some (h.prev p, h)
unfolding get_prev
get_prev-ok h p n = ground arith

pub get_key-ok :
    (h : Heap) (p : Ptr) (k : Key) → p ≢ null → h.key p ≡ some k → get_key p h ≡ some (k, h)
unfolding get_key
get_key-ok h p k n e = ground arith

pub set_next-ok :
    (h : Heap) (p q : Ptr)
    → p ≢ null
    → set_next p q h ≡ some (tt, record h { next = update h.next p q })
unfolding set_next
set_next-ok h p q n = ground arith

pub set_prev-ok :
    (h : Heap) (p q : Ptr)
    → p ≢ null
    → set_prev p q h ≡ some (tt, record h { prev = update h.prev p q })
unfolding set_prev
set_prev-ok h p q n = ground arith

-- `strcmp`: the difference of the first bytes that differ, up to a NUL; a list ends in one.
unfoldable pub strcmp : Key → Key → ℤ
strcmp [] [] = pos 0
strcmp [] (y ∷ ys) = sub_ℕ 0 y
strcmp (x ∷ xs) [] = sub_ℕ x 0
strcmp (x ∷ xs) (y ∷ ys) = if x == y then (if x == 0 then pos 0 else strcmp xs ys) else sub_ℕ x y

abbrev pub is_negative : ℤ → Bool
is_negative (pos n) = false
is_negative (negsuc n) = true

abbrev pub is_zero : ℤ → Bool
is_zero (pos n) = n == 0
is_zero (negsuc n) = false
