-- ===== src/SortedList/Walk.antt =====
-- The loop of `SortedList_insert` of project 2b/SortedList.c: where it stops, and what its writes do.
use some_low_level_tasks.Prelude.{
  ℕ, zero, suc, ◌+◌, ◌≤◌, ◌≡◌, ◌≢◌, ◌⊎◌, inl, inr, true, false, some, [], ◌∷◌, arith, ◌==◌, length,
  if◌then◌else◌, Bool-cases, ne→==, ==_iff, le→leb,
}
use some_low_level_tasks.SortedList.Memory.{
  Ptr, null, Key, Heap, strcmp, is_negative, update, get_next-ok, get_key-ok, set_next-ok,
  set_prev-ok,
}
use some_low_level_tasks.SortedList.Bodies.{precedes, insert_walk, link_behind, link}
use some_low_level_tasks.SortedList.Chain.{Elements, has, Chain}

-- The node where the loop stops: the last one whose successors it has passed.
unfoldable pub stop : Key → Ptr → Elements → Ptr
stop k p [] = p
stop k p ((q, j) ∷ xs) = if is_negative (strcmp j k) then stop k q xs else p

unfoldable pub passed : Key → Elements → ℕ
passed k [] = 0
passed k ((q, j) ∷ xs) = if is_negative (strcmp j k) then suc (passed k xs) else 0

-- Memory after the writes that put `e` behind `it`.
unfoldable pub splice : Ptr → Ptr → Heap → Heap
splice e it h = record h {
  prev =
      if h.next it == null then update h.prev e it else update (update h.prev (h.next it) e) e it;
  next = update (update h.next e (h.next it)) it e;
}

precedes-nil :
    (h : Heap) (e p : Ptr) → p ≢ null → h.next p ≡ null → precedes e p h ≡ some (false, h)
unfolding precedes
precedes-nil h e p pn c = rw (get_next-ok h p pn, c)

precedes-cons :
    (h : Heap) (e p : Ptr) (j k : Key)
    → p ≢ null
    → e ≢ null
    → h.next p ≢ null
    → h.key (h.next p) ≡ some j
    → h.key e ≡ some k
    → precedes e p h ≡ some (is_negative (strcmp j k), h)
unfolding precedes
precedes-cons h e p j k pn en qn jk ek =
    rw (get_next-ok h p pn, ne→== _ _ qn, get_key-ok h _ j qn jk, get_key-ok h e k en ek)

pub insert_walk_lem :
    (h : Heap) (e : Ptr) (k : Key) (p : Ptr) (xs : Elements) (left limiter : ℕ)
    → Chain h p xs
    → p ≢ null
    → e ≢ null
    → h.key e ≡ some k
    → length xs ≤ left
    → insert_walk e left limiter p h ≡ some ((stop k p xs, limiter + passed k xs), h)
unfolding insert_walk stop passed
insert_walk_lem h e k p [] zero limiter c pn en ek l =
    rw (precedes-nil h e p pn c, insert_walk) (ground arith)
insert_walk_lem h e k p [] (suc left) limiter c pn en ek l =
    rw (precedes-nil h e p pn c, insert_walk) (ground arith)
insert_walk_lem h e k p ((q, j) ∷ xs) zero limiter c pn en ek l = absurd (omega arith)
insert_walk_lem h e k p ((q, j) ∷ xs) (suc left) limiter c pn en ek l =
    rw (precedes-cons h e p j k pn en (ground arith) (ground arith) ek, insert_walk)
      (elim (Bool-cases (is_negative (strcmp j k))) [
        | inl more ↦
            rw
              (
                more,
                get_next-ok h p pn,
                c.0,
                insert_walk_lem h e k q xs left (limiter + 1) c.4 c.1 en ek (omega arith),
              )
              (ground arith)
        | inr less ↦ rw less (ground arith)
      ])

pub passed-le : (k : Key) (xs : Elements) → passed k xs ≤ length xs
unfolding passed
passed-le k [] = omega arith
passed-le k ((q, j) ∷ xs) = ground (arith, passed-le k xs)

-- Where the loop has passed every element it stands on the last one.
pub passed-all :
    (h : Heap) (k : Key) (p : Ptr) (xs : Elements)
    → Chain h p xs
    → passed k xs ≡ length xs
    → h.next (stop k p xs) ≡ null
unfolding passed stop
passed-all h k p [] c e = c
passed-all h k p ((q, j) ∷ xs) c e = ground (arith, passed-all h k q xs c.4)

stop-has : (k : Key) (p : Ptr) (xs : Elements) → has (stop k p xs) ((p, []) ∷ xs) ≡ true
unfolding stop
stop-has k p [] = ground arith
stop-has k p ((q, j) ∷ xs) = ground (arith, stop-has k q xs)

pub next-stop :
    (h : Heap) (k : Key) (p : Ptr) (xs : Elements)
    → Chain h p xs
    → (h.next (stop k p xs) ≡ null) ⊎ (has (h.next (stop k p xs)) xs ≡ true)
unfolding stop
next-stop h k p [] c = inl c
next-stop h k p ((q, j) ∷ xs) c = ground (arith, next-stop h k q xs c.4)

pub stop-ne-null :
    (h : Heap) (k : Key) (p : Ptr) (xs : Elements) → Chain h p xs → p ≢ null → stop k p xs ≢ null
unfolding stop
stop-ne-null h k p [] c n = n
stop-ne-null h k p ((q, j) ∷ xs) c n = ground (arith, stop-ne-null h k q xs c.4 c.1)

-- The writes of `link_behind`, at the end of the list and before another element.
link_behind-last :
    (h : Heap) (e it : Ptr)
    → e ≢ null
    → link_behind e it true h ≡ some (tt, record h { next = update h.next e null })
unfolding link_behind
link_behind-last h e it en = set_next-ok h e null en

link_behind-inner :
    (h : Heap) (e it : Ptr)
    → e ≢ null
    → it ≢ null
    → h.next it ≢ null
    → link_behind e it false h
      ≡ some
          (tt, record h { prev = update h.prev (h.next it) e; next = update h.next e (h.next it) })
unfolding link_behind
link_behind-inner h e it en itn qn =
    rw (get_next-ok h it itn, set_prev-ok h _ e qn, get_next-ok _ it itn, set_next-ok _ e _ en)

pub link-splice :
    (h : Heap) (num_elements limiter : ℕ) (e it : Ptr)
    → e ≢ null
    → it ≢ null
    → limiter ≤ num_elements
    → (limiter ≡ num_elements → h.next it ≡ null)
    → link num_elements e it limiter h ≡ some (tt, splice e it h)
unfolding link splice
link-splice h num_elements limiter e it en itn le last = elim (Bool-cases (h.next it == null)) [
  | inl end ↦
      let z : h.next it ≡ null = (==_iff _ _).0 end in
      rw (
        le→leb _ _ le,
        get_next-ok h it itn,
        end,
        link_behind-last h e it en,
        set_prev-ok _ e it en,
        set_next-ok _ it e itn,
        z,
      )
  | inr more ↦ rw (
    le→leb _ _ le,
    get_next-ok h it itn,
    more,
    ne→== limiter num_elements (ground arith),
    link_behind-inner h e it en itn (ground arith),
    set_prev-ok _ e it en,
    set_next-ok _ it e itn,
  )
]
