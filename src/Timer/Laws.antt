-- ===== src/Timer/Laws.antt =====
-- Time differences of PreciseTimer.c (projects 2b and 4c) add up, keep the order of the readings, and
-- are what the elapsed milliseconds approximate.
use some_low_level_tasks.Prelude.{ℕ, ◌+◌, ◌*◌, ◌/◌, ◌-◌, ◌≤◌, ◌≡◌, refl, Option, some, arith}
use some_low_level_tasks.Prelude.Int.{
  ℤ, pos, negsuc, pos_part, neg_part, sub_ℕ, ◌+ℤ◌, ◌*ℤ◌, ◌≤ℤ◌, +ℤ_parts, eq_of_parts,
}
use some_low_level_tasks.Timer.{
  TimeSpec, PreciseTimer, billion, million, get_diff, get_monotonic_time, start, end, elapsed_float,
}

sub_ℕ_parts : (a b : ℕ) → pos_part (sub_ℕ a b) + b ≡ neg_part (sub_ℕ a b) + a
sub_ℕ_parts a b = ground arith

scale_parts :
    (a : ℤ) (k : ℕ)
    → pos_part (a *ℤ pos k) + neg_part a * k ≡ neg_part (a *ℤ pos k) + pos_part a * k
unfolding ◌*ℤ◌
scale_parts (pos n) k = ground arith
scale_parts (negsuc n) k = ground arith

-- The difference of two readings as an equation between natural numbers of nanoseconds.
get_diff_parts :
    (s e : TimeSpec)
    → pos_part (get_diff s e) + (s.tv_sec * billion + s.tv_nsec)
      ≡ neg_part (get_diff s e) + (e.tv_sec * billion + e.tv_nsec)
unfolding get_diff
get_diff_parts s e = omega (
  arith,
  +ℤ_parts (sub_ℕ e.tv_sec s.tv_sec *ℤ pos billion) (sub_ℕ e.tv_nsec s.tv_nsec),
  scale_parts (sub_ℕ e.tv_sec s.tv_sec) billion,
  sub_ℕ_parts e.tv_sec s.tv_sec,
  sub_ℕ_parts e.tv_nsec s.tv_nsec,
)

-- Differences over consecutive spans add up.
pub get_diff-add : (a b c : TimeSpec) → get_diff a b +ℤ get_diff b c ≡ get_diff a c
get_diff-add a b c = eq_of_parts _ _ (
    omega (
      arith,
      +ℤ_parts (get_diff a b) (get_diff b c),
      get_diff_parts a b,
      get_diff_parts b c,
      get_diff_parts a c,
    ))

-- A reading in nanoseconds.
abbrev pub nanos : TimeSpec → ℕ
nanos t = t.tv_sec * billion + t.tv_nsec

-- A stopwatch that is started and ended at two readings of a clock, the second not before the first,
-- holds the nanoseconds between them, and each call reads the clock once.
pub start-end :
    (clock : ℕ → Option TimeSpec) (n : ℕ) (timer : PreciseTimer) (s e : TimeSpec)
    → clock n ≡ some s
    → clock (n + 1) ≡ some e
    → nanos s ≤ nanos e
    → (started ended : PreciseTimer) × (start clock n timer ≡ some (started, n + 1))
      × (end clock (n + 1) started ≡ some (ended, n + 1 + 1))
      × (ended.diff ≡ pos (nanos e - nanos s))
unfolding start end
start-end clock n timer s e first second le = (
  record timer { start_time = s },
  record timer { start_time = s; end_time = e; diff = get_diff s e },
  rw (first, get_monotonic_time, start),
  rw (second, get_monotonic_time, end),
  eq_of_parts _ _ (omega (arith, get_diff_parts s e)),
)

elapsed_parts :
    (s now : TimeSpec) (ms : ℤ)
    → ms
      ≡ sub_ℕ now.tv_sec s.tv_sec *ℤ pos 1000 +ℤ sub_ℕ (now.tv_nsec / million) (s.tv_nsec / million)
    → pos_part ms + (s.tv_sec * 1000 + s.tv_nsec / million)
      ≡ neg_part ms + (now.tv_sec * 1000 + now.tv_nsec / million)
elapsed_parts s now ms h = rw h (
    omega (
      arith,
      +ℤ_parts (sub_ℕ now.tv_sec s.tv_sec *ℤ pos 1000)
          (sub_ℕ (now.tv_nsec / million) (s.tv_nsec / million)),
      scale_parts (sub_ℕ now.tv_sec s.tv_sec) 1000,
      sub_ℕ_parts now.tv_sec s.tv_sec,
      sub_ℕ_parts (now.tv_nsec / million) (s.tv_nsec / million),
    ))

-- `PreciseTimer_elapsedFloat` reads the clock once, and is within a millisecond of the nanoseconds
-- since the start, above and below.
pub elapsed_float_close :
    (clock : ℕ → Option TimeSpec) (n : ℕ) (timer : PreciseTimer) (now : TimeSpec)
    → clock n ≡ some now
    → (ms : ℤ) × (elapsed_float clock n timer ≡ some (ms, n + 1))
      × (ms *ℤ pos million ≤ℤ get_diff timer.start_time now +ℤ pos (million - 1))
      × (get_diff timer.start_time now ≤ℤ ms *ℤ pos million +ℤ pos (million - 1))
unfolding elapsed_float
elapsed_float_close clock n timer now e =
    let ms : ℤ =
      sub_ℕ now.tv_sec timer.start_time.tv_sec *ℤ pos 1000
      +ℤ sub_ℕ (now.tv_nsec / million) (timer.start_time.tv_nsec / million) in
    let p = elapsed_parts timer.start_time now ms refl in
    let d = get_diff_parts timer.start_time now in
    let q = scale_parts ms million in
    (
      ms,
      rw (e, get_monotonic_time, elapsed_float),
      omega (arith, p, d, q, +ℤ_parts (get_diff timer.start_time now) (pos (million - 1))),
      omega (arith, p, d, q, +ℤ_parts (ms *ℤ pos million) (pos (million - 1))),
    )
