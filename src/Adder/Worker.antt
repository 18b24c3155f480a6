-- ===== src/Adder/Worker.antt =====
-- One thread of project 2a/lab2_add.c, from `add_wrapper`, a shared access at a time. The counter is an
-- integer here: `counter_bounds` shows that it stays inside of a `long long` where the
-- threads do few rounds.
use some_low_level_tasks.Prelude.{ℕ, ◌+◌, ◌%◌, ◌^◌, ◌≡◌, ◌≢◌, Bool, true, false, not, ◌||◌, ltb}
use some_low_level_tasks.Prelude.Int.{ℤ, pos, negsuc, ◌+ℤ◌}

-- `enum sync_option`
pub data SyncOption : Type 0 where
  sync_mutex sync_spin_lock sync_compare_swap unsynced : SyncOption

-- The variables that the threads share.
pub record Shared : Type 0 where
  pub counter : ℤ
  pub mutex : Bool  -- held or not
  pub spinlock : ℕ

-- The two loops of `add_wrapper`: the one that adds 1, and the one that adds -1.
pub data Phase : Type 0 where
  up down : Phase

abbrev pub value : Phase → ℤ
value up = pos 1
value down = negsuc 0

-- `n < num_iterations` behind `n` rounds: the variable is an `int`, which wraps around, and the bound is a
-- `long`. A negative value is below every bound that is not negative.
abbrev pub is_below : (n num_iterations : ℕ) → Bool
is_below n num_iterations =
    let bits = n % 2 ^ 32 in not (ltb bits (2 ^ 31)) || ltb bits num_iterations

-- Where a thread stands; `n` is how often the loop's `n++` has run, and `prev` what the operation has read.
pub data Pc : Type 0 where
  starting : Pc  -- before the lock
  at_loop : Phase → (n : ℕ) → Pc  -- at the test of a `for`
  calling : Phase → (n : ℕ) → Pc  -- in `add` or `add_compare_and_swap`, before the read
  computed : Phase → (n : ℕ) → (prev : ℤ) → Pc  -- `sum` is known; `sched_yield` may follow
  unlocking : Pc  -- behind the loops
  finished : Pc

-- The operation is `add_compare_and_swap` under `sync_compare_swap`, and `add` under the others.
abbrev pub swaps : SyncOption → Bool
swaps sync_compare_swap = true
swaps _ = false

-- The thread takes a lock around its loops.
abbrev pub locks : SyncOption → Bool
locks sync_mutex = true
locks sync_spin_lock = true
locks _ = false

-- One step of a thread, with `num_iterations` rounds in each loop. `yield` changes nothing that is
-- shared, and any thread may move next anyway.
pub data Move (s : SyncOption) (num_iterations : ℕ) (m : Shared) : Pc → Shared → Pc → Type 0 where
  pass : locks s ≡ false → Move s num_iterations m starting m (at_loop up 0)
  lock_mutex :
      s ≡ sync_mutex
      → m.mutex ≡ false
      → Move s num_iterations m starting (record m { mutex = true }) (at_loop up 0)
  take_spin :
      s ≡ sync_spin_lock
      → m.spinlock ≡ 0
      → Move s num_iterations m starting (record m { spinlock = 1 }) (at_loop up 0)
  wait_spin :
      s ≡ sync_spin_lock
      → m.spinlock ≢ 0
      → Move s num_iterations m starting (record m { spinlock = 1 }) starting
  enter :
      {p : Phase} {n : ℕ}
      → is_below n num_iterations ≡ true
      → Move s num_iterations m (at_loop p n) m (calling p n)
  load : {p : Phase} {n : ℕ} → Move s num_iterations m (calling p n) m (computed p n m.counter)
  store :
      {p : Phase} {n : ℕ} {prev : ℤ}
      → swaps s ≡ false
      → Move s num_iterations m
          (computed p n prev)
          (record m { counter = prev +ℤ value p })
          (at_loop p (n + 1))
  swap :
      {p : Phase} {n : ℕ} {prev : ℤ}
      → swaps s ≡ true
      → m.counter ≡ prev
      → Move s num_iterations m
          (computed p n prev)
          (record m { counter = prev +ℤ value p })
          (at_loop p (n + 1))
  retry :
      {p : Phase} {n : ℕ} {prev : ℤ}
      → swaps s ≡ true
      → m.counter ≢ prev
      → Move s num_iterations m (computed p n prev) m (calling p n)
  turn :
      {n : ℕ}
      → is_below n num_iterations ≡ false
      → Move s num_iterations m (at_loop up n) m (at_loop down 0)
  leave :
      {n : ℕ}
      → is_below n num_iterations ≡ false
      → Move s num_iterations m (at_loop down n) m unlocking
  unlock_mutex :
      s ≡ sync_mutex → Move s num_iterations m unlocking (record m { mutex = false }) finished
  release_spin :
      s ≡ sync_spin_lock → Move s num_iterations m unlocking (record m { spinlock = 0 }) finished
  return : locks s ≡ false → Move s num_iterations m unlocking m finished
