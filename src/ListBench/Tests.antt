-- ===== src/ListBench/Tests.antt =====
-- Runs of the program of project 2b/lab2_list.c with one thread, and the theorems at concrete values.
use some_low_level_tasks.Prelude.{
  ℕ, ◌+◌, ◌-◌, ◌/◌, ◌<◌, ◌≡◌, refl, false, none, some, [], ◌∷◌, arith, ◌==◌, if◌then◌else◌,
}
use some_low_level_tasks.Prelude.Int.{pos, ◌+ℤ◌, ◌-ℤ◌, ◌*ℤ◌}
use some_low_level_tasks.Text.{Bytes, codes, atoi, read_digits}
use some_low_level_tasks.System.{done, overflow, Opt}
use some_low_level_tasks.Timer.{start, end}
use some_low_level_tasks.SortedList.Memory.{get_next, get_prev, get_key, set_next, set_prev, strcmp}
use some_low_level_tasks.SortedList.World.{unsynced, World, lock_mutex, unlock_mutex, sched_yield}
use some_low_level_tasks.SortedList.Options.{yield_by, yield_loop, sync_by, limit_iterations}
use some_low_level_tasks.SortedList.Operations.{
  set_lock, release_lock, yield_if, sorted_list_insert, sorted_list_delete, sorted_list_lookup,
  sorted_list_length,
}
use some_low_level_tasks.SortedList.Bodies.{
  precedes, insert_walk, link, link_behind, length_walk, lookup_walk, lookup_result, differs,
  is_corrupted, neighbour_differs, unlink, clear_links,
}
use some_low_level_tasks.ListBench.Bins.{get_bin, bin_loop, bin_size, get_bin-div}
use some_low_level_tasks.ListBench.Options.{Settings, process_args}
use some_low_level_tasks.ListBench.Report.{compute_test_name, as_format}
use some_low_level_tasks.ListBench.State.{Bench}
use some_low_level_tasks.ListBench.Threads.{
  insert_loop, count_loop, check_correct_list_length, delete_loop, list_operations,
}
use some_low_level_tasks.ListBench.Keys.{AllApart}

get_bin-div_example :
    (get_bin (pos 4) (codes "zoo") ≡ done ((122 - 95) / bin_size 4)) × ((122 - 95) / bin_size 4 < 4)
get_bin-div_example = get_bin-div 4 (codes "zoo") (omega arith) (omega arith)

abbrev world : World
world = record {
  heap = record { prev = λ _. 0; next = λ _. 0; key = λ _. none };
  sync_opt = unsynced;
  opt_yield = 0;
  num_elements = 0;
  num_lists = 1;
  mutexes = λ _. false;
  spinlocks = λ _. 0;
  clock = λ n. some (record { tv_sec = n; tv_nsec = 0 });
  clock_calls = 0;
  yields = 0;
}

abbrev opt : ℕ → Bytes → Opt
opt code optarg = record { code = code; optarg = optarg }

-- Two elements for one thread, with yields and a mutex.
two_elements :
    (s : Settings) × (process_args
        (opt b'i' (codes "2") ∷ opt b'y' (codes "id") ∷ opt b's' (codes "m") ∷ [])
        []
        world
      ≡ done s)
    × (s.num_elements ≡ pos 2)
    × (s.lists.opt_yield ≡ 3)
    × (s.str_yield ≡ codes "id")
unfolding process_args yield_by yield_loop sync_by limit_iterations atoi read_digits ◌*ℤ◌
two_elements = (_, refl, refl, refl, refl)

-- `--sync=mutex` fills `str_sync`, and the name of the test is read on behind it.
long_sync :
    (s : Settings) × (process_args (opt b's' (codes "mutex") ∷ []) [] world ≡ done s)
    × (compute_test_name s ≡ overflow)
unfolding process_args sync_by limit_iterations ◌*ℤ◌ compute_test_name
long_sync = (_, refl, refl)

-- `--sync=m%n` puts a conversion into the format of the last `fprintf`.
sync_format :
    (s : Settings) × (name : Bytes) × (process_args (opt b's' (codes "m%n") ∷ []) [] world ≡ done s)
    × (compute_test_name s ≡ done name)
    × (as_format name ≡ overflow)
unfolding process_args sync_by limit_iterations ◌*ℤ◌ compute_test_name as_format
sync_format = (_, _, refl, refl, refl)

-- The header stands at 1 and the elements from 10 on.
abbrev bench : Bench
bench = record {
  settings = record {
    num_threads = pos 1;
    num_iterations = pos 2;
    num_lists = pos 1;
    num_elements = pos 2;
    str_sync = codes "none";
    str_yield = codes "none";
    lists = record world { num_elements = 2 };
  };
  list = λ bin. bin + 1;
  list_elements = λ n. n + 10;
  mut = false;
  threads_finished_inserting = pos 0;
  threads_finished_deleting = pos 0;
  list_count = λ _. 0;
  list_count_total = pos 0;
  wait_for_time = pos 0;
  list_deleted = false;
  timer_message = [];
}

bench_apart : AllApart bench.list_elements
bench_apart i j n e = n (omega (arith, e))

abbrev keyed : Bench
keyed = record bench {
  settings = record bench.settings {
    lists = record world {
      num_elements = 2;
      heap = record {
        prev = λ _. 0;
        next = λ _. 0;
        key = λ p. if p == 10 then some (codes "b") else if p == 11 then some (codes "a") else none;
      };
    };
  };
}

-- The thread inserts both elements, counts two and deletes them: the list is empty again.
one_thread :
    (b : Bench) × (list_operations 0 (pos 0) keyed ≡ done (tt, b))
    × (b.list_count_total ≡ pos 2)
    × (b.settings.lists.heap.next 1 ≡ 0)
    × (b.mut ≡ false)
unfolding list_operations insert_loop check_correct_list_length count_loop delete_loop get_bin
    bin_loop sorted_list_insert sorted_list_delete sorted_list_lookup sorted_list_length set_lock
    release_lock yield_if lock_mutex unlock_mutex sched_yield start end insert_walk precedes link
    link_behind length_walk lookup_walk lookup_result differs is_corrupted neighbour_differs unlink
    clear_links get_next get_prev get_key set_next set_prev strcmp ◌+ℤ◌ ◌-ℤ◌
one_thread = (_, refl, refl, refl, refl)
