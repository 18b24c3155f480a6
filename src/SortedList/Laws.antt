-- ===== src/SortedList/Laws.antt =====
-- What the operations of project 2b/SortedList.c do to a list: each takes its lock, changes the list as
-- its specification says, and leaves every lock as it was.
use Prim.Native.Nat.{bit_and}
use native.Mathlib.Nat.{zero-add}
use some_low_level_tasks.Prelude.{
  ℕ, ◌+◌, ◌<◌, ◌≤◌, ◌≡◌, ◌≢◌, refl, true, false, Option, none, some, arith, ◌==◌, if◌then◌else◌,
  leb, length, ◌∙◌,
}
use some_low_level_tasks.Prelude.Int.{ℤ, pos, negsuc}
use some_low_level_tasks.Timer.{TimeSpec}
use some_low_level_tasks.SortedList.Bodies.{length_walk}
use some_low_level_tasks.SortedList.Memory.{Ptr, null, Key, Heap}
use some_low_level_tasks.SortedList.World.{
  SyncOption, unsynced, mutex, spinlock, World, Outcome, fault, done, sched_yield,
}
use some_low_level_tasks.SortedList.Operations.{
  ListInfo, yield_if, insert_yield, delete_yield, lookup_yield, sorted_list_insert,
  sorted_list_delete, sorted_list_lookup, sorted_list_length,
}
use some_low_level_tasks.SortedList.Chain.{Elements, has, IsList, sorted_insert, erase, find}
use some_low_level_tasks.SortedList.Walk.{stop, splice}
use some_low_level_tasks.SortedList.Insert.{insert_body}
use some_low_level_tasks.SortedList.Delete.{detached, cleared, delete_body}
use some_low_level_tasks.SortedList.Search.{lookup_body, length_body}
use some_low_level_tasks.SortedList.Order.{IsSorted, sorted_insert-IsSorted, erase-IsSorted}
use some_low_level_tasks.SortedList.Locks.{
  IsFree, Readings, SameLocks, waited, locked, released, set_lock-free, release_lock-ok,
  released-SameLocks,
}

-- A yield changes nothing but the count of yields.
unfoldable pub yields_after : ℕ → World → ℕ
yields_after flag w = if bit_and w.opt_yield flag == 0 then w.yields else w.yields + 1

pub yield_if_lem :
    (flag : ℕ) (w : World) → yield_if flag w ≡ done tt (record w { yields = yields_after flag w })
unfolding yield_if yields_after sched_yield
yield_if_lem flag w = ground arith

-- A world whose lock is free and whose clock runs, about to run an operation on sublist `bin`.
pub record IsReady (bin : ℕ) (w : World) : Type 0 where
  pub in_range : bin < w.num_lists
  pub free : IsFree w.sync_opt bin w
  pub readings : Readings w

yielded-IsReady :
    (flag bin : ℕ) (w : World)
    → IsReady bin w
    → IsReady bin (record w { yields = yields_after flag w })
yielded-IsReady flag bin w r = record {
  in_range = r.in_range;
  free = free w.sync_opt r.free;
  readings = record {
    first = r.readings.first;
    second = r.readings.second;
    first_read = r.readings.first_read;
    second_read = r.readings.second_read;
  };
}
  where
    free :
        (s : SyncOption) → IsFree s bin w → IsFree s bin (record w { yields = yields_after flag w })
    free unsynced g = tt
    free mutex g = g
    free spinlock g = g

-- What `SortedList_length` does with the outcome of its walk, whatever the list is.
abbrev pub length_end :
    ListInfo → (w : World) → TimeSpec → TimeSpec → Option (ℤ × Heap) → Outcome (ℤ × ListInfo)
length_end info w first second none = fault
length_end info w first second (some (count, h)) =
    done (count, record info { timer = waited w.sync_opt first second })
      (released info.bin
        (record (locked info.bin w) { heap = h; yields = yields_after lookup_yield w }))

pub length-outcome :
    (info : ListInfo) (w : World) (ready : IsReady info.bin w) (o : Option (ℤ × Heap))
    → length_walk w.num_elements 0 info.list_obj w.heap ≡ o
    → sorted_list_length info w ≡ length_end info w ready.readings.first ready.readings.second o
unfolding sorted_list_length locked released yields_after yielded-IsReady
length-outcome info w ready none e =
    let r = yielded-IsReady lookup_yield info.bin w ready in
    rw (
      yield_if_lem,
      set_lock-free info.bin (record w { yields = yields_after lookup_yield w }) r.in_range
          r.readings r.free,
      e,
    )
length-outcome info w ready (some (count, h)) e =
    let r = yielded-IsReady lookup_yield info.bin w ready in
    rw (
      yield_if_lem,
      set_lock-free info.bin (record w { yields = yields_after lookup_yield w }) r.in_range
          r.readings r.free,
      e,
      release_lock-ok,
      ready.in_range,
    )

module _ (info : ListInfo) (w : World) (ready : IsReady info.bin w) (xs : Elements)
    (is : IsList w.heap info.list_obj xs) where
  -- What a call leaves in `timer`.
  abbrev pub timed_info : ListInfo
  timed_info = record info { timer = waited w.sync_opt ready.readings.first ready.readings.second }

  same_locks :
      (h : Heap) (n : ℕ)
      → SameLocks (released info.bin (record (locked info.bin w) { heap = h; yields = n })) w
  unfolding locked released
  same_locks h n =
      released-SameLocks info.bin w (record (locked info.bin w) { heap = h; yields = n }) ready.free
        refl refl refl

  -- On a sorted list of at most `num_elements` elements whose lock is free, `SortedList_insert` of a
  -- node that is not in it returns with the node put before the first element whose key is not
  -- smaller. The list stays doubly linked and sorted, and every lock is as it was.
  pub insert-sorted_insert :
      (fits : length xs ≤ w.num_elements) (sorted : IsSorted xs) (e : Ptr) (k : Key)
      → e ≢ null
      → e ≢ info.list_obj
      → has e xs ≡ false
      → w.heap.key e ≡ some k
      → (w' : World) × (sorted_list_insert info e w ≡ done timed_info w')
        × IsList w'.heap info.list_obj (sorted_insert e k xs)
        × IsSorted (sorted_insert e k xs)
        × SameLocks w' w
  unfolding sorted_list_insert locked released yields_after
  insert-sorted_insert fits sorted e k en eh m ek =
      let (walk, writes, result) =
        insert_body w.heap w.num_elements e k info.list_obj xs is en eh m ek fits in
      (
        _,
        rw (
          set_lock-free info.bin w ready.in_range ready.readings ready.free,
          walk,
          yield_if_lem,
          writes,
          release_lock-ok,
          ready.in_range,
        ),
        result,
        sorted_insert-IsSorted e k xs sorted,
        same_locks (splice e (stop k info.list_obj xs) w.heap) (yields_after insert_yield w),
      )

  -- `SortedList_delete` of an element of a sorted list whose lock is free returns 0 with the element
  -- taken out and its links cleared. The list stays doubly linked and sorted, and every lock is as it
  -- was.
  pub delete-erase :
      (sorted : IsSorted xs) (el : Ptr)
      → has el xs ≡ true
      → (w' : World) × (sorted_list_delete (record info { list_obj = el }) w
          ≡ done (0, record timed_info { list_obj = el }) w')
        × IsList w'.heap info.list_obj (erase el xs)
        × IsSorted (erase el xs)
        × (w'.heap.next el ≡ null)
        × (w'.heap.prev el ≡ null)
        × SameLocks w' w
  unfolding sorted_list_delete locked released yields_after cleared
  delete-erase sorted el m =
      let (tests, writes, clears, result) = delete_body w.heap el info.list_obj xs is m in
      (
        _,
        rw (
          set_lock-free info.bin w ready.in_range ready.readings ready.free,
          tests,
          yield_if_lem,
          writes,
          release_lock-ok,
          ready.in_range,
          clears,
        ),
        result,
        erase-IsSorted el xs sorted,
        ground arith,
        ground arith,
        same_locks (cleared el (detached el w.heap)) (yields_after delete_yield w),
      )

  -- On a list of at most `num_elements` elements whose lock is free, `SortedList_lookup` returns the
  -- first element whose key compares equal, or NULL. Nothing in memory changes, and every lock is as
  -- it was.
  pub lookup-find :
      (fits : length xs ≤ w.num_elements) (k : Key)
      → (w' : World) × (sorted_list_lookup info k w ≡ done (find k xs, timed_info) w')
        × (w'.heap ≡ w.heap)
        × SameLocks w' w
  unfolding sorted_list_lookup locked released yields_after
  lookup-find fits k =
      let (walk, result) = lookup_body w.heap w.num_elements k info.list_obj xs is fits in
      (
        _,
        rw (
          set_lock-free info.bin w ready.in_range ready.readings ready.free,
          walk,
          yield_if_lem,
          result,
          release_lock-ok,
          ready.in_range,
        ),
        refl,
        same_locks w.heap (yields_after lookup_yield w),
      )

  -- On a list whose lock is free `SortedList_length` returns the number of elements where that is at
  -- most `num_elements`, and -1 where it is more. Nothing in memory changes, and every lock is as it
  -- was.
  pub length-length :
      (w' : World) × (sorted_list_length info w
        ≡ done
            (if leb (length xs) w.num_elements then pos (length xs) else negsuc 0, timed_info)
            w')
      × (w'.heap ≡ w.heap)
      × SameLocks w' w
  unfolding released
  length-length = (
    released info.bin
        (record (locked info.bin w) { heap = w.heap; yields = yields_after lookup_yield w }),
    length-outcome info w ready
        (some (if leb (length xs) w.num_elements then pos (length xs) else negsuc 0, w.heap))
        (length_body w.heap info.list_obj xs w.num_elements 0 is.chain is.head_ne_null
          ∙ rw zero-add),
    refl,
    same_locks w.heap (yields_after lookup_yield w),
  )
