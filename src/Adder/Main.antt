-- ===== src/Adder/Main.antt =====
-- `main` of project 2a/lab2_add.c with `get_monotonic_time`, `diff_time`, `create_threads` and
-- `join_threads`. What the threads do between their creation and their end is `Step` of Adder.System;
-- here the counter that they leave is given.
use some_low_level_tasks.Prelude.{ℕ, Option, List, ◌⊎◌, inl, inr}
use some_low_level_tasks.Prelude.Int.{ℤ, pos, pos_part, sub_ℕ, ◌+ℤ◌, ◌*ℤ◌}
use some_low_level_tasks.Text.{Bytes}
use some_low_level_tasks.System.{
  Errno, Run, done, exited, ◌>>=◌, ◌>>◌, called, Opt, each_thread, Outputs,
}
use some_low_level_tasks.System.Messages.{clock_error, create_error, join_error}
use some_low_level_tasks.Timer.{TimeSpec, billion}
use some_low_level_tasks.Adder.Options.{process_args}
use some_low_level_tasks.Adder.Report.{append_csv}

-- What the calls of the C library and of pthreads give: `created` and `joined` have the value of `errno`
-- behind a call that does not return 0 for the thread of a number.
pub record Calls : Type 0 where
  pub strerror : Errno → Bytes
  pub start_clock : Errno ⊎ TimeSpec
  pub created : ℕ → Option Errno
  pub joined : ℕ → Option Errno
  pub end_clock : Errno ⊎ TimeSpec
  pub outputs : Outputs

abbrev pub get_monotonic_time : (Errno → Bytes) → Errno ⊎ TimeSpec → Run TimeSpec
get_monotonic_time strerror (inl e) = exited 2 (clock_error strerror e)
get_monotonic_time strerror (inr tp) = done tp

unfoldable pub diff_time : TimeSpec → TimeSpec → ℤ
diff_time start end =
    let sec_diff = pos billion *ℤ sub_ℕ end.tv_sec start.tv_sec in
    let nsec_diff = sub_ℕ end.tv_nsec start.tv_nsec in sec_diff +ℤ nsec_diff

-- The numbers of the threads, in the order in which they start. A negative count starts none.
abbrev pub create_threads : (Errno → Bytes) → (ℕ → Option Errno) → ℤ → Run (List ℕ)
create_threads strerror created num_threads =
    each_thread (λ t. called (create_error strerror t) (created t) tt) 0 (pos_part num_threads)

-- The threads that have ended, in the order in which they are waited for.
abbrev pub join_threads : (Errno → Bytes) → (ℕ → Option Errno) → ℤ → Run (List ℕ)
join_threads strerror joined num_threads =
    each_thread (λ t. called (join_error strerror t) (joined t) tt) 0 (pos_part num_threads)

unfoldable pub main : Calls → List Opt → List Bytes → (counter : ℤ) → Run Bytes
main calls opts words counter = do
  s ← process_args opts words
  start_time ← get_monotonic_time calls.strerror calls.start_clock
  create_threads calls.strerror calls.created s.num_threads
  join_threads calls.strerror calls.joined s.num_threads
  end_time ← get_monotonic_time calls.strerror calls.end_clock
  append_csv calls.strerror calls.outputs s (diff_time start_time end_time) counter
