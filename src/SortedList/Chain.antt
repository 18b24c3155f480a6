-- ===== src/SortedList/Chain.antt =====
-- What a linked list of project 2b/SortedList.c stands for: the elements behind a node, each with its
-- address and its key, doubly linked and ended by NULL.
use some_low_level_tasks.Prelude.{
  ◌≡◌, ◌≢◌, refl, Bool, true, false, ◌||◌, some, List, [], ◌∷◌, arith, ◌==◌, ◌∙◌, if◌then◌else◌,
}
use some_low_level_tasks.SortedList.Memory.{Ptr, null, Key, Heap, strcmp, is_negative, is_zero}

abbrev pub Elements : Type 0
Elements = List (Ptr × Key)

abbrev pub has : Ptr → Elements → Bool
has a [] = false
has a ((p, _) ∷ xs) = (a == p) || has a xs

-- From node `p` the links lead through `xs`, forwards and backwards.
abbrev pub Chain : Heap → Ptr → Elements → Type 0
Chain h p [] = h.next p ≡ null
Chain h p ((q, k) ∷ xs) =
    (h.next p ≡ q) × (q ≢ null) × (h.prev q ≡ p) × (h.key q ≡ some k) × Chain h q xs

-- The node `p` and the elements behind it are different nodes.
abbrev pub Distinct : Ptr → Elements → Type 0
Distinct p [] = Unit {0}
Distinct p ((q, _) ∷ xs) = (has p ((q, []) ∷ xs) ≡ false) × Distinct q xs

-- A list with its header: `xs` are its elements in order.
pub record IsList (h : Heap) (head : Ptr) (xs : Elements) : Type 0 where
  pub head_ne_null : head ≢ null
  pub chain : Chain h head xs
  pub distinct : Distinct head xs

-- The elements with a new one before the first whose key is not smaller.
unfoldable pub sorted_insert : Ptr → Key → Elements → Elements
sorted_insert e k [] = (e, k) ∷ []
sorted_insert e k ((q, j) ∷ xs) =
    if is_negative (strcmp j k) then (q, j) ∷ sorted_insert e k xs else (e, k) ∷ (q, j) ∷ xs

unfoldable pub erase : Ptr → Elements → Elements
erase e [] = []
erase e ((q, j) ∷ xs) = if q == e then xs else (q, j) ∷ erase e xs

-- The first element whose key compares equal, `NULL` where there is none.
unfoldable pub find : Key → Elements → Ptr
find k [] = null
find k ((q, j) ∷ xs) = if is_zero (strcmp j k) then q else find k xs

-- A chain is kept where its nodes keep their links and keys.
pub Chain-frame :
    (h g : Heap) (p : Ptr) (xs : Elements)
    → Chain h p xs
    → g.next p ≡ h.next p
    → ((a : Ptr) → has a xs ≡ true → g.next a ≡ h.next a)
    → ((a : Ptr) → has a xs ≡ true → g.prev a ≡ h.prev a)
    → ((a : Ptr) → g.key a ≡ h.key a)
    → Chain g p xs
Chain-frame h g p [] c n ns ps ks = n ∙ c
Chain-frame h g p ((q, j) ∷ xs) c n ns ps ks = (
  n ∙ c.0,
  c.1,
  ps q (ground arith) ∙ c.2,
  ks q ∙ c.3,
  Chain-frame h g q xs c.4 (ns q (ground arith)) (λ a m. ns a (ground (arith, m)))
      (λ a m. ps a (ground (arith, m))) ks,
)

pub Distinct-fresh : (p : Ptr) (xs : Elements) → Distinct p xs → has p xs ≡ false
Distinct-fresh p [] d = refl
Distinct-fresh p ((q, j) ∷ xs) d = d.0
