-- ===== src/Adder/Invariant/Defs.antt =====
-- What holds between any two steps of the threads of project 2a/lab2_add.c.
use some_low_level_tasks.Prelude.{ℕ, ◌+◌, ◌^◌, ◌≤◌, ◌<◌, ◌≡◌, Bool, true, false, not, ◌==◌}
use some_low_level_tasks.Prelude.Int.{pos_part, neg_part}
use some_low_level_tasks.Adder.Tally.{tally}
use some_low_level_tasks.Adder.Worker.{
  SyncOption, sync_mutex, sync_spin_lock, Shared, up, down, Pc, starting, at_loop, calling,
  computed, unlocking, finished, locks,
}

-- How often a thread has added 1, and how often -1.
abbrev pub pluses : ℕ → Pc → ℕ
pluses k starting = 0
pluses k (at_loop up n) = n
pluses k (calling up n) = n
pluses k (computed up n prev) = n
pluses k _ = k

abbrev pub minuses : ℕ → Pc → ℕ
minuses k (at_loop down n) = n
minuses k (calling down n) = n
minuses k (computed down n prev) = n
minuses k unlocking = k
minuses k finished = k
minuses k _ = 0

-- Between the lock and the unlock.
abbrev pub is_inside : Pc → Bool
is_inside starting = false
is_inside finished = false
is_inside _ = true

abbrev pub is_taken : SyncOption → Shared → Bool
is_taken sync_mutex m = m.mutex
is_taken sync_spin_lock m = not (m.spinlock == 0)
is_taken _ m = false

-- The rounds are in their range where the `int` that counts them can reach the bound; where it cannot, no
-- thread leaves the first loop.
abbrev pub InRange : ℕ → Pc → Type 0
InRange k starting = Unit {0}
InRange k (at_loop up n) = k < 2 ^ 31 → n ≤ k
InRange k (calling up n) = k < 2 ^ 31 → n < k
InRange k (computed up n prev) = k < 2 ^ 31 → n < k
InRange k (at_loop down n) = (k < 2 ^ 31) × (n ≤ k)
InRange k (calling down n) = (k < 2 ^ 31) × (n < k)
InRange k (computed down n prev) = (k < 2 ^ 31) × (n < k)
InRange k _ = k < 2 ^ 31

-- What a thread has read is still there.
abbrev pub IsFresh : Shared → Pc → Type 0
IsFresh m (computed p n prev) = m.counter ≡ prev
IsFresh m _ = Unit {0}

pub record Inv (s : SyncOption) (k n : ℕ) (m : Shared) (pc : ℕ → Pc) : Type 0 where
  -- The counter is the number of additions of 1 less those of -1: no update is lost.
  pub kept :
      pos_part m.counter + tally (minuses k) n pc ≡ neg_part m.counter + tally (pluses k) n pc
  pub in_range : (i : ℕ) → InRange k (pc i)
  pub held : locks s ≡ true → (i : ℕ) → is_inside (pc i) ≡ true → is_taken s m ≡ true
  pub alone : locks s ≡ true → (i j : ℕ) → is_inside (pc i) ≡ true → is_inside (pc j) ≡ true → i ≡ j
  pub fresh : locks s ≡ true → (i : ℕ) → IsFresh m (pc i)
  pub owned : locks s ≡ true → is_taken s m ≡ true → (i : ℕ) × (i < n) × (is_inside (pc i) ≡ true)
