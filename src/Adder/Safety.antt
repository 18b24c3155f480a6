-- ===== src/Adder/Safety.antt =====
-- What the threads of project 2a/lab2_add.c achieve, whatever the order in which they run.
use some_low_level_tasks.Prelude.{ℕ, ◌+◌, ◌*◌, ◌^◌, ◌≤◌, ◌<◌, ◌≡◌, ◌≢◌, true, arith}
use some_low_level_tasks.Prelude.Int.{ℤ, pos, pos_part, neg_part, eq_of_parts, negsuc}
use some_low_level_tasks.Adder.Tally.{tally, tally-le, tally-const}
use some_low_level_tasks.Adder.Worker.{SyncOption, unsynced, Pc, finished, locks}
use some_low_level_tasks.Adder.System.{System, Reach}
use some_low_level_tasks.Adder.Invariant.{pluses, minuses, is_inside, InRange, Reach-Inv}

-- Under a mutex, a spin lock or compare-and-swap, and with any number of threads and rounds, the
-- counter is 0 whenever all threads have finished.
pub counter_zero :
    {s : SyncOption} {k n : ℕ} {u : System}
    → s ≢ unsynced
    → Reach s k n u
    → ((i : ℕ) → i < n → u.pc i ≡ finished)
    → u.shared.counter ≡ pos 0
counter_zero {k} {n} {u} sync r all =
    eq_of_parts _ _ (omega (arith, (Reach-Inv sync r).kept, ups, downs))
  where
    ups : tally (pluses k) n u.pc ≡ n * k
    ups = tally-const (pluses k) k n u.pc (λ i l. rw (all i l))

    downs : tally (minuses k) n u.pc ≡ n * k
    downs = tally-const (minuses k) k n u.pc (λ i l. rw (all i l))

pluses-le : (k : ℕ) → k < 2 ^ 31 → (p : Pc) → InRange k p → pluses k p ≤ k
pluses-le k few p h = ground arith

minuses-le : (k : ℕ) → k < 2 ^ 31 → (p : Pc) → InRange k p → minuses k p ≤ k
minuses-le k few p h = ground arith

-- Under each of the three synchronisations, and where the `int` of the loops can count the rounds (their
-- number is below 2^31), the counter lies between minus and plus the number of threads times the
-- number of rounds at every moment: it cannot overflow a `long long` unless that product does.
pub counter_bounds :
    {s : SyncOption} {k n : ℕ} {u : System}
    → s ≢ unsynced
    → k < 2 ^ 31
    → Reach s k n u
    → (pos_part u.shared.counter ≤ n * k) × (neg_part u.shared.counter ≤ n * k)
counter_bounds {k} {n} {u} sync few r = one_sided u.shared.counter (Reach-Inv sync r).kept
  where
    ups : tally (pluses k) n u.pc ≤ n * k
    ups =
        tally-le (pluses k) k n u.pc (λ i. pluses-le k few (u.pc i) ((Reach-Inv sync r).in_range i))

    downs : tally (minuses k) n u.pc ≤ n * k
    downs =
        tally-le (minuses k) k n u.pc
          (λ i. minuses-le k few (u.pc i) ((Reach-Inv sync r).in_range i))

    one_sided :
        (c : ℤ)
        → pos_part c + tally (minuses k) n u.pc ≡ neg_part c + tally (pluses k) n u.pc
        → (pos_part c ≤ n * k) × (neg_part c ≤ n * k)
    one_sided (pos c) e = omega (arith, ups, downs)
    one_sided (negsuc c) e = omega (arith, ups, downs)

-- Under a lock, two threads are never between its acquisition and its release together.
pub mutual_exclusion :
    {s : SyncOption} {k n : ℕ} {u : System}
    → locks s ≡ true
    → Reach s k n u
    → (i j : ℕ) → is_inside (u.pc i) ≡ true
    → is_inside (u.pc j) ≡ true
    → i ≡ j
mutual_exclusion l r = (Reach-Inv (λ e. cc (e, l)) r).alone l
