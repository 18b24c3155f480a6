-- ===== src/SortedList/Search.antt =====
-- `SortedList_lookup` and `SortedList_length` of project 2b/SortedList.c on memory: what their loops
-- find and count. Neither writes.
use native.Mathlib.Nat.{zero-add}
use some_low_level_tasks.Prelude.{
  ℕ, zero, suc, ◌+◌, ◌≤◌, ◌≡◌, ◌≢◌, inl, inr, false, not, ◌∙◌, some, [], ◌∷◌, arith, length,
  if◌then◌else◌, Bool-cases, ne→==, ==_iff, le→leb, leb,
}
use some_low_level_tasks.Prelude.Int.{pos, negsuc}
use some_low_level_tasks.SortedList.Memory.{
  Ptr, null, Key, Heap, strcmp, is_zero, get_next-ok, get_prev-ok, get_key-ok,
}
use some_low_level_tasks.SortedList.Bodies.{differs, lookup_walk, lookup_result, length_walk}
use some_low_level_tasks.SortedList.Chain.{Elements, Chain, IsList, find}

-- The node where the loop of the lookup stops, and how many it has passed.
pub stop : Key → Ptr → Elements → Ptr
stop k p [] = p
stop k p ((q, j) ∷ xs) = if is_zero (strcmp j k) then p else stop k q xs

pub passed : Key → Elements → ℕ
passed k [] = 0
passed k ((q, j) ∷ xs) = if is_zero (strcmp j k) then 0 else suc (passed k xs)

differs-nil :
    (h : Heap) (k : Key) (p : Ptr) → p ≢ null → h.next p ≡ null → differs k p h ≡ some (false, h)
unfolding differs
differs-nil h k p pn c = rw (get_next-ok h p pn, c)

differs-cons :
    (h : Heap) (k : Key) (p : Ptr) (j : Key)
    → p ≢ null
    → h.next p ≢ null
    → h.key (h.next p) ≡ some j
    → differs k p h ≡ some (not (is_zero (strcmp j k)), h)
unfolding differs
differs-cons h k p j pn qn jk = rw (get_next-ok h p pn, ne→== _ _ qn, get_key-ok h _ j qn jk)

lookup_walk_lem :
    (h : Heap) (k : Key) (p : Ptr) (xs : Elements) (left limiter : ℕ)
    → Chain h p xs
    → p ≢ null
    → length xs ≤ left
    → lookup_walk k left limiter p h ≡ some ((stop k p xs, limiter + passed k xs), h)
unfolding lookup_walk stop passed
lookup_walk_lem h k p [] zero limiter c pn l =
    rw (differs-nil h k p pn c, lookup_walk) (ground arith)
lookup_walk_lem h k p [] (suc left) limiter c pn l =
    rw (differs-nil h k p pn c, lookup_walk) (ground arith)
lookup_walk_lem h k p ((q, j) ∷ xs) zero limiter c pn l = absurd (omega arith)
lookup_walk_lem h k p ((q, j) ∷ xs) (suc left) limiter c pn l =
    rw (differs-cons h k p j pn (ground arith) (ground arith), lookup_walk)
      (elim (Bool-cases (is_zero (strcmp j k))) [
        | inl same ↦ rw same (ground arith)
        | inr other ↦
            rw
              (
                other,
                get_next-ok h p pn,
                c.0,
                lookup_walk_lem h k q xs left (limiter + 1) c.4 c.1 (omega arith),
              )
              (ground arith)
      ])

-- What stands behind the stopping node is what is looked for.
next-stop :
    (h : Heap) (k : Key) (p : Ptr) (xs : Elements)
    → Chain h p xs
    → p ≢ null
    → (stop k p xs ≢ null)
      × (h.next (stop k p xs) ≡ find k xs)
      × (passed k xs ≤ length xs)
      × (passed k xs ≡ length xs → find k xs ≡ null)
unfolding stop passed find
next-stop h k p [] c n = ground arith
next-stop h k p ((q, j) ∷ xs) c n = ground (arith, next-stop h k q xs c.4 c.1)

lookup_result_lem :
    (h : Heap) (n limiter : ℕ) (it : Ptr)
    → it ≢ null
    → limiter ≤ n
    → (limiter ≡ n → h.next it ≡ null)
    → lookup_result n it limiter h ≡ some (h.next it, h)
unfolding lookup_result
lookup_result_lem h n limiter it itn le last =
    rw (le→leb _ _ le, get_next-ok h it itn) (ground arith)

-- The loop and the result of `SortedList_lookup`, on a list of at most `num_elements` elements.
pub lookup_body :
    (h : Heap) (n : ℕ) (k : Key) (head : Ptr) (xs : Elements)
    → IsList h head xs
    → length xs ≤ n
    → (lookup_walk k n 0 head h ≡ some ((stop k head xs, passed k xs), h))
      × (lookup_result n (stop k head xs) (passed k xs) h ≡ some (find k xs, h))
lookup_body h n k head xs is l =
    let f = next-stop h k head xs is.chain is.head_ne_null in
    (
      lookup_walk_lem h k head xs n 0 is.chain is.head_ne_null l ∙ rw zero-add,
      rw (← f.1)
          (lookup_result_lem h n (passed k xs) (stop k head xs) f.0 (omega arith) (ground arith)),
    )

-- `SortedList_length` counts a list of at most `num_elements` elements, and gives -1 for a longer one.
pub length_body :
    (h : Heap) (p : Ptr) (xs : Elements) (left limiter : ℕ)
    → Chain h p xs
    → p ≢ null
    → length_walk left limiter p h
      ≡ some (if leb (length xs) left then pos (limiter + length xs) else negsuc 0, h)
unfolding length_walk
length_body h p [] zero limiter c n = rw (get_next-ok h p n, c, length_walk) (ground arith)
length_body h p [] (suc left) limiter c n = rw (get_next-ok h p n, c, length_walk) (ground arith)
length_body h p ((q, j) ∷ xs) zero limiter c n =
    rw (get_next-ok h p n, c.0, ne→== _ _ c.1, get_prev-ok h q c.1, length_walk) (ground arith)
length_body h p ((q, j) ∷ xs) (suc left) limiter c n =
    rw
      (
        get_next-ok h p n,
        c.0,
        ne→== _ _ c.1,
        get_prev-ok h q c.1,
        length_walk,
        (==_iff _ _).1 c.2,
        length_body h q xs left (limiter + 1) c.4 c.1,
      )
      (ground arith)
