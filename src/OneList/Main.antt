-- ===== src/OneList/Main.antt =====
-- `main` of project 2a/lab2_list.c and the functions that it calls around the threads. The clock and
-- the messages of its failure are those of `lab2_add.c`.
use some_low_level_tasks.Prelude.{ℕ, Bool, true, false, Option, List, ◌⊎◌, if◌then◌else◌}
use some_low_level_tasks.Prelude.Int.{ℤ, pos_part}
use some_low_level_tasks.Text.{Bytes}
use some_low_level_tasks.System.{Errno, Run, done, exited, called, each_thread, Opt, Outputs}
use some_low_level_tasks.System as Sys
use some_low_level_tasks.System.Messages.{create_error, join_error}
use some_low_level_tasks.Timer.{TimeSpec}
use some_low_level_tasks.Adder.Main.{get_monotonic_time, diff_time}
use some_low_level_tasks.SortedList.Memory.{Ptr}
use some_low_level_tasks.SortedList.World.{SyncOption, mutex, World}
use some_low_level_tasks.ListBench.Main.{randomize_elements, clear_elements, cannot_register}
use some_low_level_tasks.OneList.Options.{process_args, append_csv}
use some_low_level_tasks.OneList.Threads.{
  Bench, Act, pure, ◌>>=◌, ◌>>◌, on_run, set_world, check_correct_list_length,
}

-- What the calls of the C library and of pthreads give, as in ListBench. `relocked` is what becomes of a
-- lock of the mutex when it is destroyed, which POSIX leaves open.
pub record Calls : Type 0 where
  pub strerror : Errno → Bytes
  pub registered : Bool
  pub list : Ptr
  pub list_elements : ℕ → Ptr
  pub rand : ℕ → ℕ
  pub start_clock : Errno ⊎ TimeSpec
  pub created : ℕ → Option Errno
  pub joined : ℕ → Option Errno
  pub run_threads : Act (Unit {0})
  pub relocked : Run (Unit {0})
  pub end_clock : Errno ⊎ TimeSpec
  pub outputs : Outputs

unfoldable pub randomize_list_elements : (rand : ℕ → ℕ) → Bench → Bench
randomize_list_elements rand b =
    let w = b.settings.lists in
    set_world b (record w {
      heap = randomize_elements rand b.list_elements 0 (pos_part b.settings.num_elements) w.heap;
    })

abbrev pub create_threads : (Errno → Bytes) → (ℕ → Option Errno) → ℤ → Run (List ℕ)
create_threads strerror created num_threads =
    each_thread (λ t. called (create_error strerror t) (created t) tt) 0 (pos_part num_threads)

abbrev pub join_threads : (Errno → Bytes) → (ℕ → Option Errno) → ℤ → Run (List ℕ)
join_threads strerror joined num_threads =
    each_thread (λ t. called (join_error strerror t) (joined t) tt) 0 (pos_part num_threads)

abbrev is_mutex : SyncOption → Bool
is_mutex mutex = true
is_mutex _ = false

-- `destroy_mutex`, with what that does to the lock in the `SortedList_length` that `main` calls next: under
-- `--sync=m` it meets the destroyed mutex. Where that lock returns, the list is walked as ever.
abbrev pub destroy_mutex : Calls → Act (Unit {0})
destroy_mutex calls b =
    on_run (if is_mutex b.settings.lists.sync_opt then calls.relocked else done tt) b

-- The links that `delete_list` sets; what it frees is not in the model.
unfoldable pub delete_list : Bench → Bench
delete_list b =
    let w = b.settings.lists in
    set_world (record b { list_deleted = true })
      (record w {
        heap = clear_elements b.list_elements 0 (pos_part b.settings.num_elements) w.heap;
      })

-- Behind the set-up. The results are the bytes written to the file and to stdout.
unfoldable pub measure : Calls → Act (Bytes × Bytes)
measure calls b =
    (do
      start ← on_run (get_monotonic_time calls.strerror calls.start_clock)
      on_run (create_threads calls.strerror calls.created b.settings.num_threads)
      calls.run_threads
      on_run (join_threads calls.strerror calls.joined b.settings.num_threads)
      destroy_mutex calls
      check_correct_list_length true
      end ← on_run (get_monotonic_time calls.strerror calls.end_clock)
      λ b. pure tt (delete_list b)
      λ b. on_run (append_csv calls.strerror calls.outputs b.settings (diff_time start end)) b)
      b

unfoldable pub main : Calls → List Opt → List Bytes → World → Run ((Bytes × Bytes) × Bench)
main calls opts words lists =
    Sys.and_then (if calls.registered then done tt else exited 2 cannot_register) (λ _.
      Sys.and_then (process_args opts words lists) (λ s. measure calls (
        randomize_list_elements calls.rand (record {
          settings = s;
          list = calls.list;
          list_elements = calls.list_elements;
          list_deleted = false;
        }))))
