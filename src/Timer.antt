-- ===== src/Timer.antt =====
-- PreciseTimer.c of projects 2b and 4c: a stopwatch over the monotonic clock.
-- The clock is a parameter: `clock n` is what the n-th call of `clock_gettime` stores, or `none`
-- where it returns -1. A field of `struct timespec` is a natural number here.
pub mod Laws
mod Tests
use some_low_level_tasks.Prelude.{ℕ, ◌+◌, ◌/◌, ◌≡◌, Option, none, some}
use some_low_level_tasks.Prelude.Int.{ℤ, pos, sub_ℕ, ◌+ℤ◌, ◌*ℤ◌}

-- `struct timespec`
pub record TimeSpec : Type 0 where
  pub tv_sec : ℕ
  pub tv_nsec : ℕ

-- `struct PreciseTimer`
pub record PreciseTimer : Type 0 where
  pub start_time : TimeSpec
  pub end_time : TimeSpec
  pub diff : ℤ

abbrev pub billion : ℕ
billion = 1_000_000_000

abbrev pub million : ℕ
million = 1_000_000

-- `none` is the `exit(2)` of `get_monotonic_time`.
unfoldable pub get_monotonic_time : (ℕ → Option TimeSpec) → ℕ → Option (TimeSpec × ℕ)
get_monotonic_time clock n = elim (clock n) [ none ↦ none | some t ↦ some (t, n + 1) ]

unfoldable pub get_diff : TimeSpec → TimeSpec → ℤ
get_diff start end =
    let sec_diff = sub_ℕ end.tv_sec start.tv_sec in
    let nsec_diff = sub_ℕ end.tv_nsec start.tv_nsec in sec_diff *ℤ pos billion +ℤ nsec_diff

unfoldable pub start : (ℕ → Option TimeSpec) → ℕ → PreciseTimer → Option (PreciseTimer × ℕ)
unfolding get_monotonic_time
start clock n timer = elim (get_monotonic_time clock n) [
  | none ↦ none
  | some (t, n') ↦ some (record timer { start_time = t }, n')
]

unfoldable pub end : (ℕ → Option TimeSpec) → ℕ → PreciseTimer → Option (PreciseTimer × ℕ)
unfolding get_monotonic_time get_diff
end clock n timer = elim (get_monotonic_time clock n) [
  | none ↦ none
  | some (t, n') ↦ some (record timer { end_time = t; diff = get_diff timer.start_time t }, n')
]

-- `PreciseTimer_elapsedFloat`, in milliseconds: the float is this number over 1000.
unfoldable pub elapsed_float : (ℕ → Option TimeSpec) → ℕ → PreciseTimer → Option (ℤ × ℕ)
unfolding get_monotonic_time
elapsed_float clock n timer = elim (get_monotonic_time clock n) [
  | none ↦ none
  | some (now, n') ↦
      let start_msec = timer.start_time.tv_nsec / million in
      let now_msec = now.tv_nsec / million in
      let whole_seconds = sub_ℕ now.tv_sec timer.start_time.tv_sec in
      some (whole_seconds *ℤ pos 1000 +ℤ sub_ℕ now_msec start_msec, n')
]

-- The calls where the clock can be read.
pub start-ok :
    (clock : ℕ → Option TimeSpec) (n : ℕ) (timer : PreciseTimer) (t : TimeSpec)
    → clock n ≡ some t
    → start clock n timer ≡ some (record timer { start_time = t }, n + 1)
unfolding start
start-ok clock n timer t e = rw (e, get_monotonic_time, start)

pub end-ok :
    (clock : ℕ → Option TimeSpec) (n : ℕ) (timer : PreciseTimer) (t : TimeSpec)
    → clock n ≡ some t
    → end clock n timer
      ≡ some (record timer { end_time = t; diff = get_diff timer.start_time t }, n + 1)
unfolding end
end-ok clock n timer t e = rw (e, get_monotonic_time, end)
