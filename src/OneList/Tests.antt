-- ===== src/OneList/Tests.antt =====
-- A run of one thread of project 2a/lab2_list.c.
use some_low_level_tasks.Prelude.{
  ℕ, zero, suc, ◌+◌, ◌<◌, ◌≤◌, ◌==◌, ◌≡◌, refl, true, false, none, some, [], ◌∷◌, if◌then◌else◌,
  arith, inr,
}
use some_low_level_tasks.Prelude.Int.{pos, ◌*ℤ◌}
use some_low_level_tasks.Text.{codes, decimal, print_digits}
use some_low_level_tasks.System.{done}
use some_low_level_tasks.SortedList.Memory.{
  Key, get_next, get_prev, get_key, set_next, set_prev, strcmp,
}
use some_low_level_tasks.SortedList.World.{mutex, World, lock_mutex, unlock_mutex, sched_yield}
use some_low_level_tasks.SortedList.Operations.{yield_if}
use some_low_level_tasks.SortedList.Bodies.{
  precedes, insert_walk, link, link_behind, length_walk, lookup_walk, lookup_result, differs,
  is_corrupted, neighbour_differs, unlink, clear_links,
}
use some_low_level_tasks.SortedList.Chain.{IsList}
use some_low_level_tasks.System as Sys
use some_low_level_tasks.Timer.{TimeSpec}
use some_low_level_tasks.Adder.Main.{diff_time}
use some_low_level_tasks.OneList.Main.{Calls, delete_list, measure}
use some_low_level_tasks.OneList.InTurn.{in_turn, measure-in_turn}
use some_low_level_tasks.OneList.Laws.{Ready, Kept}
use some_low_level_tasks.OneList.Emptied.{IsArray, list_operations-empties}
use some_low_level_tasks.ListBench.Report.{as_format}
use some_low_level_tasks.OneList.Operations.{
  sorted_list_insert, sorted_list_delete, sorted_list_lookup, sorted_list_length,
}
use some_low_level_tasks.OneList.Options.{append_csv, compute_test_name}
use some_low_level_tasks.OneList.Threads.{
  Bench, set_world, insert_loop, check_correct_list_length, delete_loop, list_operations,
}

-- The header stands at 1, and the elements "b" and "a" at 10 and 11.
abbrev world : World
world = record {
  heap = record {
    prev = λ _. 0;
    next = λ _. 0;
    key = λ p. if p == 10 then some (codes "b") else if p == 11 then some (codes "a") else none;
  };
  sync_opt = mutex;
  opt_yield = 7;
  num_elements = 2;
  num_lists = 1;
  mutexes = λ _. false;
  spinlocks = λ _. 0;
  clock = λ _. none;
  clock_calls = 0;
  yields = 0;
}

abbrev bench : Bench
bench = record {
  settings = record {
    num_threads = pos 1;
    num_iterations = pos 2;
    num_elements = pos 2;
    str_sync = codes "m";
    str_yield = codes "idl";
    lists = world;
  };
  list = 1;
  list_elements = λ n. n + 10;
  list_deleted = false;
}

-- The thread inserts both elements and deletes them again; the lock is free behind it.
one_thread :
    (b : Bench) × (list_operations 0 bench ≡ done (tt, b))
    × (b.settings.lists.heap.next 1 ≡ 0)
    × (b.settings.lists.mutexes 0 ≡ false)
    × (b.settings.lists.yields ≡ 7)
unfolding list_operations insert_loop check_correct_list_length delete_loop sorted_list_insert
    sorted_list_delete sorted_list_lookup sorted_list_length yield_if lock_mutex unlock_mutex
    sched_yield insert_walk precedes link link_behind length_walk lookup_walk lookup_result differs
    is_corrupted neighbour_differs unlink clear_links get_next get_prev get_key set_next set_prev
    strcmp
one_thread = (_, refl, refl, refl, refl)

abbrev keys : ℕ → Key
keys n = if n == 0 then codes "b" else codes "a"

bench-IsArray : IsArray bench keys 0 2 world
bench-IsArray = record {
  not_null = λ i p q. omega arith;
  not_header = λ i p q. omega arith;
  different = λ i j p q r e. omega (arith, q, e);
  keys = stored;
}
  where
    stored : (i : ℕ) → 0 ≤ i → i < 2 → world.heap.key (i + 10) ≡ some (keys i)
    stored zero p q = refl
    stored (suc zero) p q = refl
    stored (suc (suc i)) p q = absurd (omega (arith, q))

list_operations-empties_example :
    (w : World) × (list_operations 0 bench ≡ done (tt, set_world bench w))
    × IsList w.heap 1 []
    × Ready w
    × Kept world w
list_operations-empties_example =
    list_operations-empties bench keys 0 (record { in_range = omega arith; free = refl })
      (record { head_ne_null = omega arith; chain = refl; distinct = tt }) bench-IsArray
      (omega arith)

-- Two threads with one element each; the second one runs first.
abbrev two_threads : Bench
two_threads = record bench {
  settings = record bench.settings { num_threads = pos 2; num_iterations = pos 1 };
}

abbrev at_second : ℕ → TimeSpec
at_second n = record { tv_sec = n; tv_nsec = 0 }

abbrev calls : Calls
calls = record {
  strerror = λ e. [];
  registered = true;
  list = 1;
  list_elements = λ n. n + 10;
  rand = λ n. 0;
  start_clock = inr (at_second 3);
  created = λ t. none;
  joined = λ t. none;
  run_threads = in_turn (1 ∷ 0 ∷ []);
  relocked = done tt;
  end_clock = inr (at_second 4);
  outputs = record { opened = none; printed = none; written = none };
}

measure-in_turn_example :
    (w : World) × IsList w.heap 1 []
    × Ready w
    × (measure calls two_threads
        ≡ Sys.and_then
            (append_csv calls.strerror calls.outputs two_threads.settings
              (diff_time (at_second 3) (at_second 4)))
            (λ lines. done (lines, delete_list (set_world two_threads w))))
measure-in_turn_example =
    measure-in_turn two_threads keys 2 calls (1 ∷ 0 ∷ []) (at_second 3) (at_second 4) refl refl refl
      (λ t. refl) (λ t. refl) (λ e. refl) (omega arith, (omega arith, tt))
      (record { in_range = omega arith; free = refl })
      (record { head_ne_null = omega arith; chain = refl; distinct = tt })
      (record {
        not_null = bench-IsArray.not_null;
        not_header = bench-IsArray.not_header;
        different = bench-IsArray.different;
        keys = bench-IsArray.keys;
      })
      (omega arith)

csv_run :
    append_csv
      (λ e. [])
      (record { opened = none; printed = none; written = none })
      bench.settings
      (pos 600)
    ≡ done (codes "list-idl-m,1,2,1,6,600,100\n", codes "list-idl-m,1,2,1,6,600,100\n")
unfolding append_csv compute_test_name as_format ◌*ℤ◌ decimal print_digits
csv_run = refl
