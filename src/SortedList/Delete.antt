-- ===== src/SortedList/Delete.antt =====
-- `SortedList_delete` of project 2b/SortedList.c on memory: its tests pass on an element of a list, and
-- its writes take the element out.
use some_low_level_tasks.Prelude.{
  ◌≡◌, ◌≢◌, refl, ◌⊎◌, inl, inr, true, false, ◌∙◌, some, [], ◌∷◌, arith, ◌==◌, if◌then◌else◌,
  Bool-cases, ne→==, ==_iff,
}
use some_low_level_tasks.SortedList.Memory.{
  Ptr, null, Key, Heap, update, get_next-ok, get_prev-ok, set_next-ok, set_prev-ok,
}
use some_low_level_tasks.SortedList.Bodies.{neighbour_differs, is_corrupted, unlink, clear_links}
use some_low_level_tasks.SortedList.Chain.{
  Elements, has, Chain, Distinct, IsList, erase, Chain-frame, Distinct-fresh,
}

-- Memory after `unlink`, and after `clear_links`.
unfoldable pub detached : Ptr → Heap → Heap
detached el h = record h {
  prev = if h.next el == null then h.prev else update h.prev (h.next el) (h.prev el);
  next = update h.next (h.prev el) (h.next el);
}

unfoldable pub cleared : Ptr → Heap → Heap
cleared el h = record h { prev = update h.prev el null; next = update h.next el null }

-- What the links around an element of a chain are.
prev-has :
    (h : Heap) (el p : Ptr) (xs : Elements)
    → Chain h p xs
    → has el xs ≡ true
    → has (h.prev el) ((p, []) ∷ xs) ≡ true
prev-has h el p [] c m = ground arith
prev-has h el p ((q, j) ∷ xs) c m = ground (arith, prev-has h el q xs c.4)

next-has :
    (h : Heap) (el p : Ptr) (xs : Elements)
    → Chain h p xs
    → has el xs ≡ true
    → (h.next el ≡ null) ⊎ (has (h.next el) xs ≡ true)
next-has h el p [] c m = ground arith
next-has h el p ((q, j) ∷ []) c m = ground arith
next-has h el p ((q, j) ∷ (r, i) ∷ xs) c m = ground (arith, next-has h el q ((r, i) ∷ xs) c.4)

next-ne :
    (h : Heap) (el p : Ptr) (xs : Elements)
    → Chain h p xs
    → has el xs ≡ true
    → (a : Ptr) → has a xs ≡ false
    → (h.next el ≡ null) ⊎ (a ≢ h.next el)
next-ne h el p xs c m a out = elim (next-has h el p xs c m) [
  | inl z ↦ inl z
  | inr i ↦ inr (λ e. cc (e, i, out))
]

-- `el->prev != NULL`, `el->prev->next == el`, and `el->next->prev == el` where there is a next one.
record IsLinked (h : Heap) (el : Ptr) : Type 0 where
  el_ne_null : el ≢ null
  prev_ne_null : h.prev el ≢ null
  from_prev : h.next (h.prev el) ≡ el
  from_next : h.next el ≢ null → h.prev (h.next el) ≡ el

Chain-IsLinked :
    (h : Heap) (el p : Ptr) (xs : Elements)
    → Chain h p xs
    → p ≢ null
    → has el xs ≡ true
    → IsLinked h el
Chain-IsLinked h el p [] c n m = absurd (ground arith)
Chain-IsLinked h el p ((q, j) ∷ []) c n m = ground arith
Chain-IsLinked h el p ((q, j) ∷ (r, i) ∷ xs) c n m =
    ground (arith, Chain-IsLinked h el q ((r, i) ∷ xs) c.4 c.1)

neighbour-agrees : (h : Heap) (el : Ptr) → IsLinked h el → neighbour_differs el h ≡ some (false, h)
unfolding neighbour_differs
neighbour-agrees h el l = elim (Bool-cases (h.next el == null)) [
  | inl end ↦ rw (get_next-ok h el l.el_ne_null, end)
  | inr more ↦ rw (
    get_next-ok h el l.el_ne_null,
    more,
    get_prev-ok h (h.next el) (ground arith),
    (==_iff _ _).1 (l.from_next (ground arith)),
  )
]

not-is_corrupted : (h : Heap) (el : Ptr) → IsLinked h el → is_corrupted el h ≡ some (false, h)
unfolding is_corrupted
not-is_corrupted h el l =
    rw
      (
        get_prev-ok h el l.el_ne_null,
        ne→== _ _ l.prev_ne_null,
        get_next-ok h (h.prev el) l.prev_ne_null,
        (==_iff _ _).1 l.from_prev,
      )
      (neighbour-agrees h el l)

unlink-detached : (h : Heap) (el : Ptr) → IsLinked h el → unlink el h ≡ some (tt, detached el h)
unfolding unlink detached
unlink-detached h el l = elim (Bool-cases (h.next el == null)) [
  | inl end ↦
      let z : h.next el ≡ null = (==_iff _ _).0 end in
      rw (
        get_prev-ok h el l.el_ne_null,
        get_next-ok h el l.el_ne_null,
        end,
        set_next-ok h _ null l.prev_ne_null,
        z,
      )
  | inr more ↦ rw (
    get_prev-ok h el l.el_ne_null,
    get_next-ok h el l.el_ne_null,
    more,
    set_next-ok h _ (h.next el) l.prev_ne_null,
    set_prev-ok _ (h.next el) (h.prev el) (ground arith),
  )
]

clear_links-cleared : (h : Heap) (el : Ptr) → el ≢ null → clear_links el h ≡ some (tt, cleared el h)
unfolding clear_links cleared
clear_links-cleared h el n = rw (set_next-ok h el null n, set_prev-ok _ el null n)

-- What the writes leave.
removed-next :
    (el : Ptr) (h : Heap) (a : Ptr)
    → a ≢ el
    → a ≢ h.prev el
    → (cleared el (detached el h)).next a ≡ h.next a
unfolding cleared detached
removed-next el h a ne np = ground arith

removed-prev :
    (el : Ptr) (h : Heap) (a : Ptr)
    → a ≢ el
    → (h.next el ≡ null) ⊎ (a ≢ h.next el)
    → (cleared el (detached el h)).prev a ≡ h.prev a
unfolding cleared detached
removed-prev el h a ne (inl z) = ground arith
removed-prev el h a ne (inr n) = ground arith

-- The first element goes.
remove_front :
    (h : Heap) (el q : Ptr) (k : Key) (p : Ptr) (xs : Elements)
    → q ≡ el
    → Chain h p ((q, k) ∷ xs)
    → Distinct p ((q, k) ∷ xs)
    → Chain (cleared el (detached el h)) p xs
unfolding cleared detached
remove_front h el q k p [] e c d = ground arith
remove_front h el q k p ((r, i) ∷ xs) e c d = (
  ground arith,
  c.4.1,
  ground arith,
  c.4.3,
  Chain-frame h _ r xs c.4.4 (ground arith) (λ a m. ground arith)
      (λ a m. ground (arith, Distinct-fresh r xs d.1.1)) (λ a. refl),
)

remove-Chain :
    (h : Heap) (el p : Ptr) (xs : Elements)
    → Chain h p xs
    → Distinct p xs
    → has el xs ≡ true
    → Chain (cleared el (detached el h)) p (erase el xs)
unfolding erase cleared detached
remove-Chain h el p [] c d m = absurd (ground arith)
remove-Chain h el p ((q, j) ∷ xs) c d m = elim (Bool-cases (q == el)) [
  | inl here ↦ rw here (remove_front h el q j p xs ((==_iff _ _).0 here) c d)
  | inr later ↦ rw later (
    removed-next el h p (ground arith) (λ e. ground (arith, prev-has h el q xs c.4)) ∙ c.0,
    c.1,
    removed-prev el h q (ground arith)
          (next-ne h el q xs c.4 (ground arith) q (Distinct-fresh q xs d.1))
        ∙ c.2,
    c.3,
    remove-Chain h el q xs c.4 d.1 (ground arith),
  )
]

has-erase : (a el : Ptr) (xs : Elements) → has a xs ≡ false → has a (erase el xs) ≡ false
unfolding erase
has-erase a el [] m = refl
has-erase a el ((q, j) ∷ xs) m = ground (arith, has-erase a el xs)

erase-Distinct : (el p : Ptr) (xs : Elements) → Distinct p xs → Distinct p (erase el xs)
unfolding erase
erase-Distinct el p [] d = d
erase-Distinct el p ((q, j) ∷ xs) d = elim (Bool-cases (q == el)) [
  | inl here ↦ rw here (skip xs d)
  | inr later ↦ rw later (ground (arith, has-erase p el xs), erase-Distinct el q xs d.1)
]
  where
    skip : (ys : Elements) → Distinct p ((q, j) ∷ ys) → Distinct p ys
    skip [] e = tt
    skip ((r, i) ∷ ys) e = (ground arith, e.1.1)

-- The tests and the writes of `SortedList_delete`, from an element of a list.
pub delete_body :
    (h : Heap) (el head : Ptr) (xs : Elements)
    → IsList h head xs
    → has el xs ≡ true
    → (is_corrupted el h ≡ some (false, h))
      × (unlink el h ≡ some (tt, detached el h))
      × (clear_links el (detached el h) ≡ some (tt, cleared el (detached el h)))
      × IsList (cleared el (detached el h)) head (erase el xs)
delete_body h el head xs is m =
    let l = Chain-IsLinked h el head xs is.chain is.head_ne_null m in
    (
      not-is_corrupted h el l,
      unlink-detached h el l,
      clear_links-cleared (detached el h) el l.el_ne_null,
      record {
        head_ne_null = is.head_ne_null;
        chain = remove-Chain h el head xs is.chain is.distinct m;
        distinct = erase-Distinct el head xs is.distinct;
      },
    )
