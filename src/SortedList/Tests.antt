-- ===== src/SortedList/Tests.antt =====
-- Runs of the sorted list of project 2b/SortedList.c at a concrete list, and the theorems at it.
use some_low_level_tasks.Prelude.{
  ℕ, ◌≡◌, refl, inl, false, none, some, [], ◌∷◌, arith, ◌==◌, if◌then◌else◌,
}
use some_low_level_tasks.Prelude.Int.{pos}
use some_low_level_tasks.Timer.{get_diff, start, end}
use some_low_level_tasks.SortedList.Memory.{
  Ptr, Key, Heap, get_next, get_prev, get_key, set_next, set_prev, strcmp,
}
use some_low_level_tasks.SortedList.World.{
  mutex, World, done, blocked, lock_mutex, unlock_mutex, sched_yield,
}
use some_low_level_tasks.SortedList.Operations.{
  ListInfo, set_lock, release_lock, yield_if, sorted_list_insert, sorted_list_delete,
  sorted_list_lookup, sorted_list_length,
}
use some_low_level_tasks.SortedList.Chain.{Elements, IsList, sorted_insert, erase, find}
use some_low_level_tasks.SortedList.Order.{IsSorted}
use some_low_level_tasks.SortedList.Locks.{SameLocks}
use some_low_level_tasks.SortedList.Laws.{IsReady, insert-sorted_insert, delete-erase, lookup-find}
use some_low_level_tasks.SortedList.Options.{yield_by, yield_loop}
use some_low_level_tasks.SortedList.Faults.{Counts, delete-keeps_lock, length_sound}
use some_low_level_tasks.SortedList.Bodies.{precedes, insert_walk, link, link_behind, length_walk}

abbrev word : ℕ → Key
word c = c ∷ []

-- The header stands at 1, the elements "b" and "d" at 2 and 3, and a new node with key "c" at 4.
abbrev table {ℓ} : {A : Type ℓ} → A → A → A → A → A → Ptr → A
table a b c d other p =
    if p == 1 then a else if p == 2 then b else if p == 3 then c else if p == 4 then d else other

abbrev nodes : Heap
nodes = record {
  prev = table 0 1 2 0 0;
  next = table 2 3 0 0 0;
  key = table none (some (word b'b')) (some (word b'd')) (some (word b'c')) none;
}

abbrev elements : Elements
elements = (2, word b'b') ∷ (3, word b'd') ∷ []

abbrev world : World
world = record {
  heap = nodes;
  sync_opt = mutex;
  opt_yield = 5;
  num_elements = 3;
  num_lists = 1;
  mutexes = λ _. false;
  spinlocks = λ _. 0;
  clock = λ n. some (record { tv_sec = n; tv_nsec = 0 });
  clock_calls = 0;
  yields = 0;
}

abbrev info : ListInfo
info = record { list_obj = 1; timer = pos 0; bin = 0 }

abbrev after : ListInfo
after = record info {
  timer = get_diff (record { tv_sec = 0; tv_nsec = 0 }) (record { tv_sec = 1; tv_nsec = 0 });
}

nodes-IsList : IsList nodes 1 elements
nodes-IsList = record {
  head_ne_null = omega arith;
  chain = (refl, omega arith, refl, refl, (refl, omega arith, refl, refl, refl));
  distinct = (refl, (refl, tt));
}

ready : IsReady 0 world
ready = record {
  in_range = omega arith;
  free = refl;
  readings = record {
    first = record { tv_sec = 0; tv_nsec = 0 };
    second = record { tv_sec = 1; tv_nsec = 0 };
    first_read = refl;
    second_read = refl;
  };
}

elements-IsSorted : IsSorted elements
unfolding strcmp
elements-IsSorted = (refl, tt)

insert-sorted_insert_example :
    (w' : World) × (sorted_list_insert info 4 world ≡ done after w')
    × IsList w'.heap 1 (sorted_insert 4 (word b'c') elements)
    × IsSorted (sorted_insert 4 (word b'c') elements)
    × SameLocks w' world
unfolding ready
insert-sorted_insert_example =
    insert-sorted_insert info world ready elements nodes-IsList (omega arith) elements-IsSorted 4
      (word b'c') (omega arith) (omega arith) refl refl

delete-erase_example :
    (w' : World) × (sorted_list_delete (record info { list_obj = 2 }) world
      ≡ done (0, record after { list_obj = 2 }) w')
    × IsList w'.heap 1 (erase 2 elements)
    × IsSorted (erase 2 elements)
    × (w'.heap.next 2 ≡ 0)
    × (w'.heap.prev 2 ≡ 0)
    × SameLocks w' world
unfolding ready
delete-erase_example = delete-erase info world ready elements nodes-IsList elements-IsSorted 2 refl

lookup-find_example :
    (w' : World) × (sorted_list_lookup info (word b'd') world
      ≡ done (find (word b'd') elements, after) w')
    × (w'.heap ≡ nodes)
    × SameLocks w' world
unfolding ready
lookup-find_example = lookup-find info world ready elements nodes-IsList (omega arith) (word b'd')

-- Node 4 is in no list.
delete-keeps_lock_example :
    (w' : World) × (sorted_list_delete (record info { list_obj = 4 }) world
      ≡ done (1, record after { list_obj = 4 }) w')
    × (w'.heap ≡ nodes)
    × (set_lock 0 w' ≡ blocked)
unfolding ready
delete-keeps_lock_example =
    delete-keeps_lock (record info { list_obj = 4 }) world ready (omega arith) (inl refl) (λ e. cc)
      (record { tv_sec = 2; tv_nsec = 0 }) refl

length_run : (w' : World) × (sorted_list_length info world ≡ done (pos 2, after) w')
unfolding sorted_list_length set_lock release_lock yield_if lock_mutex unlock_mutex sched_yield
    start end length_walk get_next get_prev
length_run = (_, refl)

length_sound_example : Counts nodes 3 0 2 1
length_sound_example =
    length_sound info world ready (omega arith) 2 {after = after} {w' = length_run.0} length_run.1

-- The node "c" goes between "b" and "d".
insert_run :
    (w' : World) × (sorted_list_insert info 4 world ≡ done after w')
    × (w'.heap.next 2 ≡ 4)
    × (w'.heap.next 4 ≡ 3)
    × (w'.heap.prev 3 ≡ 4)
    × (w'.heap.prev 4 ≡ 2)
    × (w'.yields ≡ 1)
unfolding sorted_list_insert set_lock release_lock yield_if lock_mutex unlock_mutex sched_yield
    start end insert_walk precedes link link_behind get_next get_prev get_key set_next set_prev
    strcmp
insert_run = (_, refl, refl, refl, refl, refl, refl)

yield_run :
    (w' : World) × (yield_by (b'i' ∷ b'l' ∷ []) (record world { opt_yield = 0 }) ≡ (0, w'))
    × (w'.opt_yield ≡ 5)
unfolding yield_by yield_loop
yield_run = (_, refl, refl)
