-- ===== src/Adder/Endings/Tests.antt =====
-- Runs of the program of project 2a/lab2_add.c.
use some_low_level_tasks.Prelude.{
  ℕ, zero, suc, ◌<◌, ◌≡◌, refl, inr, true, [], ◌∷◌, none, some, Option, arith, if◌then◌else◌, ◌==◌,
}
use some_low_level_tasks.Prelude.Int.{pos, ◌*ℤ◌, ◌+ℤ◌}
use some_low_level_tasks.Text.{Bytes, codes, decimal, print_digits}
use some_low_level_tasks.Text.Csv.{read_fields}
use some_low_level_tasks.System.{Errno, eagain, done, exited, overflow, Outputs}
use some_low_level_tasks.Timer.{TimeSpec}
use some_low_level_tasks.Adder.Worker.{sync_compare_swap, unsynced}
use some_low_level_tasks.Adder.Tests.{swapped, all_finished}
use some_low_level_tasks.Adder.Options.{Settings, process_args, sync_usage}
use some_low_level_tasks.Adder.Report.{append_csv, fields}
use some_low_level_tasks.Adder.Main.{Calls, diff_time, main}
use some_low_level_tasks.Adder.Endings.{process_args-options, options, main-counter_zero}

abbrev two_by_two : Settings
two_by_two = record {
  num_threads = pos 2;
  num_iterations = pos 2;
  opt_yield = true;
  sync_opt = sync_compare_swap;
}

process_args-options_example : process_args (options two_by_two) [] ≡ done two_by_two
process_args-options_example = process_args-options two_by_two

bad_sync : process_args (record { code = b's'; optarg = codes "x" } ∷ []) [] ≡ exited 1 sync_usage
unfolding process_args
bad_sync = refl

abbrev from : TimeSpec
from = record { tv_sec = 1; tv_nsec = 900 }

abbrev till : TimeSpec
till = record { tv_sec = 2; tv_nsec = 100 }

abbrev good_outputs : Outputs
good_outputs = record { opened = none; printed = none; written = none }

abbrev good_calls : Calls
good_calls = record {
  strerror = λ e. [];
  start_clock = inr from;
  created = λ t. none;
  joined = λ t. none;
  end_clock = inr till;
  outputs = good_outputs;
}

main-counter_zero_example :
    (line : Bytes) × (main good_calls (options two_by_two) [] swapped.last.shared.counter
      ≡ done line)
    × (read_fields [] line ≡ fields two_by_two (pos 999_999_200) (pos 124_999_900) (pos 0))
unfolding ◌*ℤ◌ ◌+ℤ◌ diff_time decimal print_digits
main-counter_zero_example =
    main-counter_zero good_calls (options two_by_two) [] two_by_two from till swapped.last
      (pos 124_999_900) (process_args-options two_by_two)
      (refl, refl, (λ t. refl), (λ t. refl), refl) (λ e. cc) swapped.reach all_finished refl
      (omega arith)

abbrev second_fails : ℕ → Option Errno
second_fails t = if t == 1 then some eagain else none

abbrev bad_calls : Calls
bad_calls = record good_calls { created = second_fails }

first_starts : (i : ℕ) → i < 1 → second_fails i ≡ none
first_starts zero l = refl
first_starts (suc i) l = absurd (omega (arith, l))

-- 1000 unsynchronised threads with 1000000000 iterations, and a run of 28 hours: the line has more than
-- 63 bytes.
long_line :
    append_csv
      (λ e. [])
      good_outputs
      (record two_by_two {
        num_threads = pos 1000;
        num_iterations = pos 1_000_000_000;
        sync_opt = unsynced;
      })
      (pos 100_000_000_000_000)
      (pos 123_456_789)
    ≡ overflow
unfolding append_csv ◌*ℤ◌ decimal print_digits
long_line = refl
