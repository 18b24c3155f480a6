-- ===== src/OneList/Laws.antt =====
-- The operations of project 2a/SortedList.c on a list whose lock is free.
use some_low_level_tasks.Prelude.{
  ℕ, ◌<◌, ◌≤◌, ◌≡◌, ◌≢◌, refl, true, false, some, if◌then◌else◌, leb, length,
}
use native.Mathlib.Nat.{zero-add}
use some_low_level_tasks.Prelude.Int.{pos, negsuc}
use some_low_level_tasks.SortedList.Memory.{Ptr, null, Key, Heap}
use some_low_level_tasks.SortedList.World.{SyncOption, unsynced, mutex, spinlock, World, done}
use some_low_level_tasks.SortedList.Operations.{insert_yield, delete_yield, lookup_yield}
use some_low_level_tasks.SortedList.Chain.{Elements, has, IsList, sorted_insert, erase, find}
use some_low_level_tasks.SortedList.Walk.{stop, splice}
use some_low_level_tasks.SortedList.Insert.{insert_body}
use some_low_level_tasks.SortedList.Delete.{detached, cleared, delete_body}
use some_low_level_tasks.SortedList.Search.{lookup_body, length_body}
use some_low_level_tasks.SortedList.Locks.{
  IsFree, acquire-free, release-ok, take_mutex, take_spin, free_mutex, free_spin,
}
use some_low_level_tasks.SortedList.Laws.{yields_after, yield_if_lem}
use some_low_level_tasks.OneList.Operations.{
  sorted_list_insert, sorted_list_delete, sorted_list_lookup, sorted_list_length,
}

-- The lock of the list is there, and free.
pub record Ready (w : World) : Type 0 where
  pub in_range : 0 < w.num_lists
  pub free : IsFree w.sync_opt 0 w

-- What an operation leaves as it was: the options, and the keys of all nodes.
pub record Kept (w w' : World) : Type 0 where
  pub sync_kept : w'.sync_opt ≡ w.sync_opt
  pub yield_kept : w'.opt_yield ≡ w.opt_yield
  pub elements_kept : w'.num_elements ≡ w.num_elements
  pub keys_kept : (a : Ptr) → w'.heap.key a ≡ w.heap.key a

-- The world behind the lock, the operation's writes and yields, and the release.
unfoldable pub behind : World → Heap → ℕ → World
behind w h n = record w {
  heap = h;
  yields = n;
  mutexes = free_mutex w.sync_opt (take_mutex w.sync_opt w.mutexes 0) 0;
  spinlocks = free_spin w.sync_opt (take_spin w.sync_opt w.spinlocks 0) 0;
}

behind-Ready : (w : World) (h : Heap) (n : ℕ) → Ready w → Ready (behind w h n)
unfolding behind
behind-Ready w h n r = record {
  in_range = r.in_range;
  free = free w.sync_opt (behind w h n) refl refl;
}
  where
    free :
        (s : SyncOption) (v : World)
        → v.mutexes ≡ free_mutex s (take_mutex s w.mutexes 0) 0
        → v.spinlocks ≡ free_spin s (take_spin s w.spinlocks 0) 0
        → IsFree s 0 v
    free unsynced v m p = tt
    free mutex v m p = rw m refl
    free spinlock v m p = rw p refl

behind-Kept :
    (w : World) (h : Heap) (n : ℕ) → ((a : Ptr) → h.key a ≡ w.heap.key a) → Kept w (behind w h n)
unfolding behind
behind-Kept w h n k = record {
  sync_kept = refl;
  yield_kept = refl;
  elements_kept = refl;
  keys_kept = k;
}

module _ (w : World) (ready : Ready w) (list : Ptr) (xs : Elements)
    (is : IsList w.heap list xs) where
  pub insert-Ready :
      length xs ≤ w.num_elements
      → (e : Ptr) (k : Key) → e ≢ null
      → e ≢ list
      → has e xs ≡ false
      → w.heap.key e ≡ some k
      → (w' : World) × (sorted_list_insert list e w ≡ done tt w')
        × IsList w'.heap list (sorted_insert e k xs)
        × Ready w'
        × Kept w w'
  unfolding sorted_list_insert behind splice yields_after
  insert-Ready fits e k en eh m ek =
      let (walk, writes, result) =
        insert_body w.heap w.num_elements e k list xs is en eh m ek fits in
      let h = splice e (stop k list xs) w.heap in
      let n = yields_after insert_yield w in
      (
        behind w h n,
        rw (
          acquire-free w.sync_opt 0 w ready.free ready.in_range,
          walk,
          yield_if_lem,
          writes,
          release-ok,
          ready.in_range,
        ),
        result,
        behind-Ready w h n ready,
        behind-Kept w h n (λ a. refl),
      )

  pub delete-Ready :
      (el : Ptr)
      → has el xs ≡ true
      → (w' : World) × (sorted_list_delete el w ≡ done 0 w')
        × IsList w'.heap list (erase el xs)
        × Ready w'
        × Kept w w'
  unfolding sorted_list_delete behind detached cleared yields_after
  delete-Ready el m =
      let (tests, writes, clears, result) = delete_body w.heap el list xs is m in
      let h = cleared el (detached el w.heap) in
      let n = yields_after delete_yield w in
      (
        behind w h n,
        rw (
          acquire-free w.sync_opt 0 w ready.free ready.in_range,
          tests,
          yield_if_lem,
          writes,
          release-ok,
          ready.in_range,
          clears,
        ),
        result,
        behind-Ready w h n ready,
        behind-Kept w h n (λ a. refl),
      )

  pub lookup-Ready :
      length xs ≤ w.num_elements
      → (k : Key)
      → (w' : World) × (sorted_list_lookup list k w ≡ done (find k xs) w')
        × (w'.heap ≡ w.heap)
        × Ready w'
        × Kept w w'
  unfolding sorted_list_lookup behind yields_after
  lookup-Ready fits k =
      let (walk, result) = lookup_body w.heap w.num_elements k list xs is fits in
      let n = yields_after lookup_yield w in
      (
        behind w w.heap n,
        rw (
          acquire-free w.sync_opt 0 w ready.free ready.in_range,
          walk,
          yield_if_lem,
          result,
          release-ok,
          ready.in_range,
        ),
        refl,
        behind-Ready w w.heap n ready,
        behind-Kept w w.heap n (λ a. refl),
      )

  pub length-Ready :
      (w' : World) × (sorted_list_length list w
        ≡ done (if leb (length xs) w.num_elements then pos (length xs) else negsuc 0) w')
      × (w'.heap ≡ w.heap)
      × Ready w'
      × Kept w w'
  unfolding sorted_list_length behind yields_after
  length-Ready =
      let n = yields_after lookup_yield w in
      let count = length_body w.heap list xs w.num_elements 0 is.chain is.head_ne_null in
      (
        behind w w.heap n,
        rw (
          yield_if_lem,
          acquire-free w.sync_opt 0 (record w { yields = yields_after lookup_yield w })
              (yielded w.sync_opt ready.free) ready.in_range,
          count,
          release-ok,
          ready.in_range,
          zero-add,
        ),
        refl,
        behind-Ready w w.heap n ready,
        behind-Kept w w.heap n (λ a. refl),
      )
    where
      yielded :
          (s : SyncOption)
          → IsFree s 0 w
          → IsFree s 0 (record w { yields = yields_after lookup_yield w })
      yielded unsynced g = tt
      yielded mutex g = g
      yielded spinlock g = g
