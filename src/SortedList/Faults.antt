-- ===== src/SortedList/Faults.antt =====
-- The error paths of project 2b/SortedList.c: a delete that finds the links corrupted, and what
-- `SortedList_length` says of a list.
use some_low_level_tasks.Prelude.{
  ℕ, zero, suc, ◌+◌, ◌≤◌, ◌≡◌, ◌≢◌, refl, ◌⊎◌, inl, inr, true, false, Option, none, some, List, [],
  ◌∷◌, arith, ◌==◌, length, Bool-cases, ne→==, ==_iff, ◌∙◌, sym,
}
use some_low_level_tasks.Prelude.Int.{ℤ, pos, negsuc}
use some_low_level_tasks.Timer.{TimeSpec}
use some_low_level_tasks.SortedList.Memory.{Ptr, null, Heap, get_next-ok, get_prev-ok}
use some_low_level_tasks.SortedList.World.{unsynced, World, done, blocked}
use some_low_level_tasks.SortedList.Operations.{
  ListInfo, set_lock, sorted_list_delete, sorted_list_length,
}
use some_low_level_tasks.SortedList.Bodies.{neighbour_differs, is_corrupted, length_walk}
use some_low_level_tasks.SortedList.Locks.{
  waited, locked, set_lock-free, set_lock-held, locked-IsHeld,
}
use some_low_level_tasks.SortedList.Laws.{IsReady, length-outcome}

-- The links around a node are not those of an element of a list: it has none before it, or the one
-- before or behind it does not point back.
abbrev pub IsCorrupted : Heap → Ptr → Type 0
IsCorrupted h el =
    (h.prev el ≡ null)
    ⊎ ((h.prev el ≢ null) × (h.next (h.prev el) ≢ el))
    ⊎ ((h.prev el ≢ null)
        × (h.next (h.prev el) ≡ el)
        × (h.next el ≢ null)
        × (h.prev (h.next el) ≢ el))

neighbour-disagrees :
    (h : Heap) (el : Ptr)
    → el ≢ null
    → h.next el ≢ null
    → h.prev (h.next el) ≢ el
    → neighbour_differs el h ≡ some (true, h)
unfolding neighbour_differs
neighbour-disagrees h el n m d =
    rw (get_next-ok h el n, ne→== _ _ m, get_prev-ok h _ m, ne→== _ _ d)

is_corrupted-true :
    (h : Heap) (el : Ptr) → el ≢ null → IsCorrupted h el → is_corrupted el h ≡ some (true, h)
unfolding is_corrupted
is_corrupted-true h el n (inl z) = rw (get_prev-ok h el n, z)
is_corrupted-true h el n (inr (inl (m, d))) =
    rw (get_prev-ok h el n, ne→== _ _ m, get_next-ok h _ m, ne→== _ _ d)
is_corrupted-true h el n (inr (inr (m, e, o, d))) =
    rw (get_prev-ok h el n, ne→== _ _ m, get_next-ok h _ m, (==_iff _ _).1 e)
      (neighbour-disagrees h el n o d)

-- Under a mutex or a spin lock, `SortedList_delete` of a node with corrupted links (one that was
-- deleted before, say) returns 1, changes nothing in memory, and does not release the lock: whoever
-- asks for it next waits for ever.
pub delete-keeps_lock :
    (info : ListInfo) (w : World) (ready : IsReady info.bin w)
    → info.list_obj ≢ null
    → IsCorrupted w.heap info.list_obj
    → w.sync_opt ≢ unsynced
    → (third : TimeSpec) → w.clock (w.clock_calls + 1 + 1) ≡ some third
    → (w' : World) × (sorted_list_delete info w
        ≡ done
            (
              1,
              record info { timer = waited w.sync_opt ready.readings.first ready.readings.second },
            )
            w')
      × (w'.heap ≡ w.heap)
      × (set_lock info.bin w' ≡ blocked)
unfolding sorted_list_delete locked
delete-keeps_lock info w ready n c s third r = (
  locked info.bin w,
  rw (
    set_lock-free info.bin w ready.in_range ready.readings ready.free,
    is_corrupted-true w.heap info.list_obj n c,
  ),
  refl,
  set_lock-held info.bin (locked info.bin w) ready.in_range third
      (locked-IsHeld info.bin w ready.in_range s) r,
)

-- The rounds of the walk: at the end, past the limit, at a link that does not point back, and on.
walk-end :
    (h : Heap) (left limiter : ℕ) (p : Ptr)
    → p ≢ null
    → (h.next p == null) ≡ true
    → length_walk left limiter p h ≡ some (pos limiter, h)
unfolding length_walk
walk-end h zero limiter p n e = rw (get_next-ok h p n, e, length_walk)
walk-end h (suc left) limiter p n e = rw (get_next-ok h p n, e, length_walk)

walk-over :
    (h : Heap) (limiter : ℕ) (p : Ptr)
    → p ≢ null
    → (h.next p == null) ≡ false
    → length_walk 0 limiter p h ≡ some (negsuc 0, h)
unfolding length_walk
walk-over h limiter p n e =
    rw (get_next-ok h p n, e, get_prev-ok h (h.next p) (ground arith), length_walk)

walk-broken :
    (h : Heap) (left limiter : ℕ) (p : Ptr)
    → p ≢ null
    → (h.next p == null) ≡ false
    → (h.prev (h.next p) == p) ≡ false
    → length_walk (suc left) limiter p h ≡ some (negsuc 0, h)
unfolding length_walk
walk-broken h left limiter p n e b =
    rw (get_next-ok h p n, e, get_prev-ok h (h.next p) (ground arith), b, length_walk)

walk-on :
    (h : Heap) (left limiter : ℕ) (p : Ptr)
    → p ≢ null
    → (h.next p == null) ≡ false
    → (h.prev (h.next p) == p) ≡ true
    → length_walk (suc left) limiter p h ≡ length_walk left (limiter + 1) (h.next p) h
unfolding length_walk
walk-on h left limiter p n e b =
    rw (get_next-ok h p n, e, get_prev-ok h (h.next p) (ground arith), b, length_walk)

-- From `p` on, the links go to these addresses, each of which points back, and end in NULL.
abbrev pub Linked : Heap → Ptr → List Ptr → Type 0
Linked h p [] = h.next p ≡ null
Linked h p (a ∷ rest) = (h.next p ≡ a) × (a ≢ null) × (h.prev a ≡ p) × Linked h a rest

-- What a count of `c` from `limiter` says: so many elements, linked in both directions, behind `p`.
abbrev pub Counts : Heap → ℕ → ℕ → ℕ → Ptr → Type 0
Counts h left limiter c p =
    (xs : List Ptr) × Linked h p xs × (c ≡ limiter + length xs) × (length xs ≤ left)

module _ (h : Heap) where
  count_end :
      (g : Heap) (left limiter c : ℕ) (p : Ptr)
      → p ≢ null
      → (h.next p == null) ≡ true
      → length_walk left limiter p h ≡ some (pos c, g)
      → Counts h left limiter c p
  count_end g left limiter c p n end e =
      ([], (==_iff _ _).0 end, ground (arith, walk-end h left limiter p n end), omega arith)

  count_next :
      (left limiter c : ℕ) (p : Ptr)
      → (h.next p == null) ≡ false
      → (h.prev (h.next p) == p) ≡ true
      → Counts h left (limiter + 1) c (h.next p)
      → Counts h (suc left) limiter c p
  count_next left limiter c p more back (xs, linked, total, few) =
      let behind : h.next p ≢ null = ground arith in
      (h.next p ∷ xs, (refl, behind, (==_iff _ _).0 back, linked), omega arith, omega arith)

  -- Where the walk of `SortedList_length` counts to `c` without an error, there are that many
  -- elements, at most the rounds allowed, linked in both directions and ended by NULL.
  pub length_walk_sound :
      (g : Heap) (left limiter c : ℕ) (p : Ptr)
      → p ≢ null
      → length_walk left limiter p h ≡ some (pos c, g)
      → Counts h left limiter c p
  length_walk_sound g zero limiter c p n e = elim (Bool-cases (h.next p == null)) [
    | inl end ↦ count_end g zero limiter c p n end e
    | inr more ↦ absurd (ground (arith, walk-over h limiter p n more))
  ]
  length_walk_sound g (suc left) limiter c p n e = elim (Bool-cases (h.next p == null)) [
    | inl end ↦ count_end g (suc left) limiter c p n end e
    | inr more ↦ elim (Bool-cases (h.prev (h.next p) == p)) [
      | inl back ↦ count_next left limiter c p more back (
          length_walk_sound g left (limiter + 1) c (h.next p) (ground arith)
            (sym (walk-on h left limiter p n more back) ∙ e))
      | inr broken ↦ absurd (ground (arith, walk-broken h left limiter p n more broken))
    ]
  ]

-- A call that counts to `c` has a walk that does.
length-walk :
    (info : ListInfo) (w : World) (ready : IsReady info.bin w) (c : ℕ)
    → {after : ListInfo} {w' : World} → sorted_list_length info w ≡ done (pos c, after) w'
    → (g : Heap) × (length_walk w.num_elements 0 info.list_obj w.heap ≡ some (pos c, g))
length-walk info w ready c e = by (length_walk w.num_elements 0 info.list_obj w.heap) refl
  where
    by :
        (o : Option (ℤ × Heap))
        → length_walk w.num_elements 0 info.list_obj w.heap ≡ o
        → (g : Heap) × (length_walk w.num_elements 0 info.list_obj w.heap ≡ some (pos c, g))
    by none q = absurd (cc (e, length-outcome info w ready none q))
    by (some (r, g)) q = (g, ground (arith, q, e, length-outcome info w ready (some (r, g)) q))

-- A list whose lock is free, with links that are not known to be sound and nodes with or without keys:
-- where `SortedList_length` returns a count and not -1, the list has exactly that many elements, at
-- most `num_elements`, linked in both directions and ended by NULL. So a broken `prev` link or a
-- cycle is never counted as a list.
pub length_sound :
    (info : ListInfo) (w : World) (ready : IsReady info.bin w)
    → info.list_obj ≢ null
    → (c : ℕ) {after : ListInfo} {w' : World} → sorted_list_length info w ≡ done (pos c, after) w'
    → Counts w.heap w.num_elements 0 c info.list_obj
length_sound info w ready n c e =
    let (g, walk) = length-walk info w ready c e in
    length_walk_sound w.heap g w.num_elements 0 c info.list_obj n walk
