-- ===== src/Adder/Endings.antt =====
-- How the program of project 2a/lab2_add.c ends: what its options mean, its line, and its errors.
mod Tests
use some_low_level_tasks.Prelude.{
  ℕ, suc, ◌+◌, ◌/◌, ◌≤◌, ◌<◌, ◌≡◌, ◌≢◌, refl, ◌⊎◌, inl, inr, Bool, true, false, List, [], ◌∷◌, ◌++◌,
  none, Option, some, length, leb, gt→leb, arith, if◌then◌else◌,
}
use some_low_level_tasks.Prelude.Int.{ℤ, pos, pos_part, ◌*ℤ◌, *ℤ_zero, zero_*ℤ}
use some_low_level_tasks.Text.{Bytes, codes, signed, atoi}
use some_low_level_tasks.Text.RoundTrip.{atoi-signed}
use some_low_level_tasks.Text.Csv.{
  csv_line, read_fields, IsField, AllFields, signed-IsField, read_fields-csv_line,
}
use some_low_level_tasks.System.{Errno, Run, done, exited, crashed, Opt, quot, Outputs}
use some_low_level_tasks.System.Laws.{each_thread-all, each_thread-first, count_from, quot_zero}
use some_low_level_tasks.System.Messages.{create_error, join_error}
use some_low_level_tasks.Timer.{TimeSpec}
use some_low_level_tasks.Adder.Worker.{
  SyncOption, sync_mutex, sync_spin_lock, sync_compare_swap, unsynced, finished,
}
use some_low_level_tasks.Adder.System.{System, Reach}
use some_low_level_tasks.Adder.Safety.{counter_zero}
use some_low_level_tasks.Adder.Options.{Settings, process_args}
use some_low_level_tasks.Adder.Report.{append_csv, num_operations, fields, compute_test_name}
use some_low_level_tasks.Adder.Main.{Calls, diff_time, create_threads, main}

abbrev sync_words : SyncOption → List Opt
sync_words unsynced = []
sync_words sync_mutex = record { code = b's'; optarg = codes "m" } ∷ []
sync_words sync_spin_lock = record { code = b's'; optarg = codes "s" } ∷ []
sync_words sync_compare_swap = record { code = b's'; optarg = codes "c" } ∷ []

-- Options that ask for some settings, with `%d` for the numbers.
abbrev pub options : Settings → List Opt
options s =
    record { code = b't'; optarg = signed s.num_threads }
      ∷ record { code = b'i'; optarg = signed s.num_iterations }
      ∷ (if s.opt_yield then record { code = b'y'; optarg = [] } ∷ [] else [])
    ++ sync_words s.sync_opt

-- The settings that are written as options are those that `process_args` reads.
pub process_args-options : (s : Settings) → process_args (options s) [] ≡ done s
unfolding process_args
process_args-options s = rw (atoi-signed s.num_threads, atoi-signed s.num_iterations) (ground arith)

test_name-IsField :
    (opt_yield : Bool) (sync_opt : SyncOption) → IsField (compute_test_name opt_yield sync_opt)
test_name-IsField false unsynced = omega arith
test_name-IsField false sync_mutex = omega arith
test_name-IsField false sync_spin_lock = omega arith
test_name-IsField false sync_compare_swap = omega arith
test_name-IsField true unsynced = omega arith
test_name-IsField true sync_mutex = omega arith
test_name-IsField true sync_spin_lock = omega arith
test_name-IsField true sync_compare_swap = omega arith

-- Reading the line of `append_csv` at its commas gives the seven values back.
read_fields-fields :
    (s : Settings) (run_time average counter : ℤ)
    → read_fields [] (csv_line (fields s run_time average counter))
      ≡ fields s run_time average counter
read_fields-fields s run_time average counter =
    read_fields-csv_line (compute_test_name s.opt_yield s.sync_opt)
      (signed s.num_threads
        ∷ signed s.num_iterations
        ∷ signed (num_operations s)
        ∷ signed run_time
        ∷ signed average
        ∷ signed counter
        ∷ [])
      (
        test_name-IsField s.opt_yield s.sync_opt,
        (
          signed-IsField _,
          (
            signed-IsField _,
            (signed-IsField _, (signed-IsField _, (signed-IsField _, (signed-IsField _, tt)))),
          ),
        ),
      )

-- The calls of the C library give the two readings and never fail.
abbrev pub AllSucceed : Calls → TimeSpec → TimeSpec → Type 0
AllSucceed calls start end =
    (calls.start_clock ≡ inr start)
    × (calls.end_clock ≡ inr end)
    × ((t : ℕ) → calls.created t ≡ none)
    × ((t : ℕ) → calls.joined t ≡ none)
    × (calls.outputs ≡ record { opened = none; printed = none; written = none })

-- A run of the program under a mutex, a spin lock or compare-and-swap whose calls of the C library
-- succeed, whose threads have all finished, in any order, with a number of operations by which the time
-- can be divided and a line that fits into `output`: `main` ends with a line whose fields are those of
-- the settings, with 0 in the field of the counter.
pub main-counter_zero :
    (calls : Calls) (opts : List Opt) (words : List Bytes) (s : Settings) (start end : TimeSpec)
    (u : System) (average : ℤ)
    → process_args opts words ≡ done s
    → AllSucceed calls start end
    → s.sync_opt ≢ unsynced
    → Reach s.sync_opt (pos_part s.num_iterations) (pos_part s.num_threads) u
    → ((i : ℕ) → i < pos_part s.num_threads → u.pc i ≡ finished)
    → quot (diff_time start end) (num_operations s) ≡ done average
    → length (csv_line (fields s (diff_time start end) average (pos 0))) < 64
    → (line : Bytes) × (main calls opts words u.shared.counter ≡ done line)
      × (read_fields [] line ≡ fields s (diff_time start end) average (pos 0))
unfolding main append_csv
main-counter_zero calls opts words s start end u average e ok sync r all q short = (
  csv_line (fields s (diff_time start end) average (pos 0)),
  rw
      (
        e,
        ok.0,
        ok.1,
        each_thread-all (create_error calls.strerror) calls.created 0 (pos_part s.num_threads)
            (λ i p l. ok.2 i),
        each_thread-all (join_error calls.strerror) calls.joined 0 (pos_part s.num_threads)
            (λ i p l. ok.3 i),
        counter_zero sync r all,
        ok.4,
        q,
        gt→leb 64 (length (csv_line (fields s (diff_time start end) average (pos 0))))
            (omega (arith, short)),
      )
      refl,
  read_fields-fields s (diff_time start end) average (pos 0),
)

no_operations :
    (s : Settings) → (s.num_threads ≡ pos 0) ⊎ (s.num_iterations ≡ pos 0) → num_operations s ≡ pos 0
no_operations s (inl z) = rw (z, *ℤ_zero (pos 2), zero_*ℤ s.num_iterations) refl
no_operations s (inr z) = rw (z, *ℤ_zero (pos 2 *ℤ s.num_threads)) refl

-- With no threads or with no iterations `append_csv` divides by zero, whatever the time and the counter,
-- once the file is open.
pub append_csv-crashes :
    (strerror : Errno → Bytes) (out : Outputs) (s : Settings) (run_time counter : ℤ)
    → out.opened ≡ none
    → (s.num_threads ≡ pos 0) ⊎ (s.num_iterations ≡ pos 0)
    → append_csv strerror out s run_time counter ≡ crashed
unfolding append_csv
append_csv-crashes strerror out s run_time counter e none_left =
    rw (e, no_operations s none_left, quot_zero run_time) refl

-- Where `pthread_create` fails for a thread, and for none before it, the program exits with 2 and that
-- thread's message.
pub main-create_error :
    (calls : Calls) (opts : List Opt) (words : List Bytes) (s : Settings) (start : TimeSpec) (k : ℕ)
    (e : Errno) (counter : ℤ)
    → process_args opts words ≡ done s
    → calls.start_clock ≡ inr start
    → k < pos_part s.num_threads
    → ((i : ℕ) → i < k → calls.created i ≡ none)
    → calls.created k ≡ some e
    → main calls opts words counter ≡ exited 2 (create_error calls.strerror k e)
unfolding main
main-create_error calls opts words s start k e counter parsed clock less before bad =
    rw
      (
        parsed,
        clock,
        each_thread-first (create_error calls.strerror) calls.created 0 (pos_part s.num_threads) k e
            (omega arith) (omega (arith, less)) (λ i p l. before i l) bad,
      )
      refl
