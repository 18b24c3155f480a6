-- ===== src/SortedList/Insert.antt =====
-- `SortedList_insert` of project 2b/SortedList.c on memory: the list that its writes leave.
use some_low_level_tasks.Prelude.{
  ℕ, ◌≤◌, ◌≡◌, ◌≢◌, refl, ◌⊎◌, inl, inr, false, ◌∙◌, ◌||◌, some, [], ◌∷◌, arith, ◌==◌, length,
  Bool-cases,
}
use native.Mathlib.Nat.{zero-add}
use some_low_level_tasks.SortedList.Memory.{Ptr, null, Key, Heap, strcmp, is_negative}
use some_low_level_tasks.SortedList.Bodies.{insert_walk, link}
use some_low_level_tasks.SortedList.Chain.{
  Elements, has, Chain, Distinct, IsList, sorted_insert, Chain-frame, Distinct-fresh,
}
use some_low_level_tasks.SortedList.Walk.{
  stop, passed, splice, insert_walk_lem, passed-le, passed-all, next-stop, stop-ne-null,
  link-splice,
}

-- What the writes change, and what they leave.
splice-next : (e it : Ptr) (h : Heap) (a : Ptr) → a ≢ e → a ≢ it → (splice e it h).next a ≡ h.next a
unfolding splice
splice-next e it h a ne ni = ground arith

splice-prev :
    (e it : Ptr) (h : Heap) (a : Ptr)
    → a ≢ e
    → (a ≢ h.next it) ⊎ (h.next it ≡ null)
    → (splice e it h).prev a ≡ h.prev a
unfolding splice
splice-prev e it h a ne (inl nn) = ground arith
splice-prev e it h a ne (inr z) = ground arith

-- A node that is not on the chain is not the one where the loop stops, nor the one behind it.
stop-ne : (k : Key) (p : Ptr) (xs : Elements) (a : Ptr) → a ≢ p → has a xs ≡ false → a ≢ stop k p xs
unfolding stop
stop-ne k p [] a n m = n
stop-ne k p ((q, j) ∷ xs) a n m = ground (arith, stop-ne k q xs a)

next-stop-ne :
    (h : Heap) (k : Key) (p : Ptr) (xs : Elements) (a : Ptr)
    → Chain h p xs
    → has a xs ≡ false
    → (a ≢ h.next (stop k p xs)) ⊎ (h.next (stop k p xs) ≡ null)
next-stop-ne h k p xs a c m = elim (next-stop h k p xs c) [
  | inl z ↦ inr z
  | inr i ↦ inl (λ e. cc (e, i, m))
]

-- The writes behind `p` itself.
splice_front :
    (h : Heap) (e : Ptr) (k : Key) (p : Ptr) (xs : Elements)
    → Chain h p xs
    → Distinct p xs
    → e ≢ null
    → e ≢ p
    → has e xs ≡ false
    → h.key e ≡ some k
    → Chain (splice e p h) p ((e, k) ∷ xs)
unfolding splice
splice_front h e k p [] c d en ep m ek = (ground arith, en, ground arith, ek, ground arith)
splice_front h e k p ((q, j) ∷ xs) c d en ep m ek = (
  ground arith,
  en,
  ground arith,
  ek,
  (
    ground arith,
    c.1,
    ground arith,
    c.3,
    Chain-frame h _ q xs c.4 (ground arith) (λ a i. ground arith)
        (λ a i. ground (arith, Distinct-fresh q xs d.1)) (λ a. refl),
  ),
)

splice-Chain :
    (h : Heap) (e : Ptr) (k : Key) (p : Ptr) (xs : Elements)
    → Chain h p xs
    → Distinct p xs
    → e ≢ null
    → e ≢ p
    → has e xs ≡ false
    → h.key e ≡ some k
    → Chain (splice e (stop k p xs) h) p (sorted_insert e k xs)
unfolding stop sorted_insert splice
splice-Chain h e k p [] c d en ep m ek = splice_front h e k p [] c d en ep m ek
splice-Chain h e k p ((q, j) ∷ xs) c d en ep m ek = elim (Bool-cases (is_negative (strcmp j k))) [
  | inl more ↦ rw more (
    splice-next e _ h p (ground arith) (stop-ne k q xs p (ground arith) (ground arith)) ∙ c.0,
    c.1,
    splice-prev e _ h q (ground arith) (next-stop-ne h k q xs q c.4 (Distinct-fresh q xs d.1))
        ∙ c.2,
    c.3,
    splice-Chain h e k q xs c.4 d.1 en (ground arith) (ground arith) ek,
  )
  | inr less ↦ rw less (splice_front h e k p ((q, j) ∷ xs) c d en ep m ek)
]

pub has-sorted_insert :
    (a e : Ptr) (k : Key) (xs : Elements) → has a (sorted_insert e k xs) ≡ ((a == e) || has a xs)
unfolding sorted_insert
has-sorted_insert a e k [] = refl
has-sorted_insert a e k ((q, j) ∷ xs) = ground (arith, has-sorted_insert a e k xs)

sorted_insert-Distinct :
    (e : Ptr) (k : Key) (p : Ptr) (xs : Elements)
    → Distinct p xs
    → e ≢ p
    → has e xs ≡ false
    → Distinct p (sorted_insert e k xs)
unfolding sorted_insert
sorted_insert-Distinct e k p [] d n m = (ground arith, tt)
sorted_insert-Distinct e k p ((q, j) ∷ xs) d n m = elim (Bool-cases (is_negative (strcmp j k))) [
  | inl more ↦ rw more (
    ground (arith, has-sorted_insert p e k xs),
    sorted_insert-Distinct e k q xs d.1 (ground arith) (ground arith),
  )
  | inr less ↦ rw less (ground arith, (m, d.1))
]

-- The loop and the writes of `SortedList_insert`, from a list of at most `num_elements` elements.
pub insert_body :
    (h : Heap) (n : ℕ) (e : Ptr) (k : Key) (head : Ptr) (xs : Elements)
    → IsList h head xs
    → e ≢ null
    → e ≢ head
    → has e xs ≡ false
    → h.key e ≡ some k
    → length xs ≤ n
    → (insert_walk e n 0 head h ≡ some ((stop k head xs, passed k xs), h))
      × (link n e (stop k head xs) (passed k xs) h ≡ some (tt, splice e (stop k head xs) h))
      × IsList (splice e (stop k head xs) h) head (sorted_insert e k xs)
insert_body h n e k head xs is en eh m ek l = (
  insert_walk_lem h e k head xs n 0 is.chain is.head_ne_null en ek l ∙ rw zero-add,
  link-splice h n (passed k xs) e (stop k head xs) en
      (stop-ne-null h k head xs is.chain is.head_ne_null) (omega (arith, passed-le k xs))
      (λ all. passed-all h k head xs is.chain (omega (arith, passed-le k xs))),
  record {
    head_ne_null = is.head_ne_null;
    chain = splice-Chain h e k head xs is.chain is.distinct en eh m ek;
    distinct = sorted_insert-Distinct e k head xs is.distinct eh m;
  },
)
