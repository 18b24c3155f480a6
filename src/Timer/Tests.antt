-- ===== src/Timer/Tests.antt =====
-- The theorems on PreciseTimer.c at a clock whose n-th reading is n and a half seconds.
use some_low_level_tasks.Prelude.{ℕ, ◌+◌, ◌-◌, ◌≡◌, refl, Option, some, arith}
use some_low_level_tasks.Prelude.Int.{pos}
use some_low_level_tasks.Timer.{TimeSpec, PreciseTimer, start, end}
use some_low_level_tasks.Timer.Laws.{nanos, start-end}

abbrev reading : ℕ → TimeSpec
reading n = record { tv_sec = n; tv_nsec = 500_000_000 }

abbrev half_seconds : ℕ → Option TimeSpec
half_seconds n = some (reading n)

abbrev stopped : PreciseTimer
stopped = record {
  start_time = record { tv_sec = 1; tv_nsec = 999_999_999 };
  end_time = record { tv_sec = 0; tv_nsec = 0 };
  diff = pos 0;
}

start-end_example :
    (started ended : PreciseTimer) × (start half_seconds 3 stopped ≡ some (started, 3 + 1))
    × (end half_seconds (3 + 1) started ≡ some (ended, 3 + 1 + 1))
    × (ended.diff ≡ pos (nanos (reading 4) - nanos (reading 3)))
start-end_example = start-end half_seconds 3 stopped (reading 3) (reading 4) refl refl (omega arith)
