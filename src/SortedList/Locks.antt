-- ===== src/SortedList/Locks.antt =====
-- `set_lock` and `release_lock` of project 2b/SortedList.c: what they do to a lock that is free, and to
-- one that is held.
use mathlib.Core.Path.{ap₂}
use some_low_level_tasks.Prelude.{
  ℕ, ◌+◌, ◌<◌, ◌≡◌, ◌≢◌, refl, Bool, true, false, some, arith, lt→ltb, ==_iff, ◌∙◌, ap,
}
use some_low_level_tasks.Prelude.Int.{ℤ, pos}
use some_low_level_tasks.Timer.{TimeSpec, PreciseTimer, get_diff, start-ok, end-ok}
use some_low_level_tasks.SortedList.World.{
  SyncOption, unsynced, mutex, spinlock, World, done, blocked, set_at, lock_mutex, unlock_mutex,
  spin, release_spin,
}
use some_low_level_tasks.SortedList.Operations.{acquire, release, lock_time, set_lock, release_lock}

-- The lock of sublist `bin` that the option in force uses is free.
abbrev pub IsFree : SyncOption → ℕ → World → Type 0
IsFree unsynced bin w = Unit {0}
IsFree mutex bin w = w.mutexes bin ≡ false
IsFree spinlock bin w = w.spinlocks bin ≡ 0

abbrev pub IsHeld : SyncOption → ℕ → World → Type 0
IsHeld unsynced bin w = ⊥
IsHeld mutex bin w = w.mutexes bin ≡ true
IsHeld spinlock bin w = w.spinlocks bin ≡ 1

-- The clock can be read twice more.
pub record Readings (w : World) : Type 0 where
  pub first : TimeSpec
  pub second : TimeSpec
  pub first_read : w.clock w.clock_calls ≡ some first
  pub second_read : w.clock (w.clock_calls + 1) ≡ some second

-- The two worlds have the same locks.
pub record SameLocks (v w : World) : Type 0 where
  pub mutexes_same : (b : ℕ) → v.mutexes b ≡ w.mutexes b
  pub spinlocks_same : (b : ℕ) → v.spinlocks b ≡ w.spinlocks b

-- How long the operation waited for its lock.
abbrev pub waited : SyncOption → TimeSpec → TimeSpec → ℤ
waited unsynced first second = pos 0
waited _ first second = get_diff first second

abbrev pub take_mutex : SyncOption → (ℕ → Bool) → ℕ → ℕ → Bool
take_mutex mutex m bin = set_at m bin true
take_mutex _ m bin = m

abbrev pub take_spin : SyncOption → (ℕ → ℕ) → ℕ → ℕ → ℕ
take_spin spinlock s bin = set_at s bin 1
take_spin _ s bin = s

abbrev pub free_mutex : SyncOption → (ℕ → Bool) → ℕ → ℕ → Bool
free_mutex mutex m bin = set_at m bin false
free_mutex _ m bin = m

abbrev pub free_spin : SyncOption → (ℕ → ℕ) → ℕ → ℕ → ℕ
free_spin spinlock s bin = set_at s bin 0
free_spin _ s bin = s

-- The world once the lock is taken, and once it is released.
unfoldable pub locked : ℕ → World → World
locked bin w = record w {
  clock_calls = w.clock_calls + 1 + 1;
  mutexes = take_mutex w.sync_opt w.mutexes bin;
  spinlocks = take_spin w.sync_opt w.spinlocks bin;
}

unfoldable pub released : ℕ → World → World
released bin w = record w {
  mutexes = free_mutex w.sync_opt w.mutexes bin;
  spinlocks = free_spin w.sync_opt w.spinlocks bin;
}

lock_mutex-free :
    (bin : ℕ) (w : World)
    → w.mutexes bin ≡ false
    → bin < w.num_lists
    → lock_mutex bin w ≡ done tt (record w { mutexes = set_at w.mutexes bin true })
unfolding lock_mutex
lock_mutex-free bin w f l = rw (lt→ltb _ _ l, f)

spin-free :
    (bin : ℕ) (w : World)
    → w.spinlocks bin ≡ 0
    → bin < w.num_lists
    → spin bin w ≡ done tt (record w { spinlocks = set_at w.spinlocks bin 1 })
unfolding spin
spin-free bin w f l = rw (lt→ltb _ _ l, (==_iff (w.spinlocks bin) 0).1 f)

pub acquire-free :
    (s : SyncOption) (bin : ℕ) (w : World)
    → IsFree s bin w
    → bin < w.num_lists
    → acquire s bin w
      ≡ done tt (record w {
        mutexes = take_mutex s w.mutexes bin;
        spinlocks = take_spin s w.spinlocks bin;
      })
acquire-free unsynced bin w f l = refl
acquire-free mutex bin w f l = lock_mutex-free bin w f l
acquire-free spinlock bin w f l = spin-free bin w f l

acquire-held :
    (s : SyncOption) (bin : ℕ) (w : World)
    → IsHeld s bin w
    → bin < w.num_lists
    → acquire s bin w ≡ blocked
unfolding lock_mutex spin
acquire-held unsynced bin w f l = absurd f
acquire-held mutex bin w f l = rw (lt→ltb _ _ l, f)
acquire-held spinlock bin w f l = rw (lt→ltb _ _ l, f)

unlock_mutex-ok :
    (bin : ℕ) (w : World)
    → bin < w.num_lists
    → unlock_mutex bin w ≡ done tt (record w { mutexes = set_at w.mutexes bin false })
unfolding unlock_mutex
unlock_mutex-ok bin w l = rw (lt→ltb _ _ l)

release_spin-ok :
    (bin : ℕ) (w : World)
    → bin < w.num_lists
    → release_spin bin w ≡ done tt (record w { spinlocks = set_at w.spinlocks bin 0 })
unfolding release_spin
release_spin-ok bin w l = rw (lt→ltb _ _ l)

pub release-ok :
    (s : SyncOption) (bin : ℕ) (w : World)
    → bin < w.num_lists
    → release s bin w
      ≡ done tt (record w {
        mutexes = free_mutex s w.mutexes bin;
        spinlocks = free_spin s w.spinlocks bin;
      })
release-ok unsynced bin w l = refl
release-ok mutex bin w l = unlock_mutex-ok bin w l
release-ok spinlock bin w l = release_spin-ok bin w l

lock_time-waited :
    (s : SyncOption) (t : PreciseTimer) (first second : TimeSpec)
    → t.diff ≡ get_diff first second
    → lock_time s t ≡ waited s first second
lock_time-waited unsynced t first second e = refl
lock_time-waited mutex t first second e = e
lock_time-waited spinlock t first second e = e

IsHeld-set_at :
    (s : SyncOption) (bin : ℕ) (w : World)
    → s ≢ unsynced
    → IsHeld s bin (record w {
      clock_calls = w.clock_calls + 1 + 1;
      mutexes = take_mutex s w.mutexes bin;
      spinlocks = take_spin s w.spinlocks bin;
    })
IsHeld-set_at unsynced bin w ne = absurd (ne refl)
IsHeld-set_at mutex bin w ne = ground arith
IsHeld-set_at spinlock bin w ne = ground arith

-- Taking and releasing a free lock leaves all locks as they were.
restored_by :
    (s : SyncOption) (bin : ℕ) (w : World)
    → IsFree s bin w
    → ((b : ℕ) → free_mutex s (take_mutex s w.mutexes bin) bin b ≡ w.mutexes b)
      × ((b : ℕ) → free_spin s (take_spin s w.spinlocks bin) bin b ≡ w.spinlocks b)
restored_by unsynced bin w f = (λ b. refl, λ b. refl)
restored_by mutex bin w f = (λ b. ground arith, λ b. refl)
restored_by spinlock bin w f = (λ b. refl, λ b. ground arith)

module _ (bin : ℕ) (w : World) (small : bin < w.num_lists) where
  -- A free lock is taken, and the time between the two readings is the time waited.
  pub set_lock-free :
      (r : Readings w)
      → IsFree w.sync_opt bin w
      → set_lock bin w ≡ done (waited w.sync_opt r.first r.second) (locked bin w)
  unfolding set_lock locked
  set_lock-free r f =
      rw
        (
          start-ok _ _ _ _ r.first_read,
          acquire-free w.sync_opt bin (record w { clock_calls = w.clock_calls + 1 })
              (free w.sync_opt f) small,
          end-ok _ _ _ _ r.second_read,
        )
        (ap (λ t. done t (locked bin w)) (lock_time-waited w.sync_opt _ r.first r.second refl))
    where
      free :
          (s : SyncOption)
          → IsFree s bin w
          → IsFree s bin (record w { clock_calls = w.clock_calls + 1 })
      free unsynced g = tt
      free mutex g = g
      free spinlock g = g

  -- A held lock blocks the caller.
  pub set_lock-held :
      (t : TimeSpec)
      → IsHeld w.sync_opt bin w
      → w.clock w.clock_calls ≡ some t
      → set_lock bin w ≡ blocked
  unfolding set_lock
  set_lock-held t f r = rw (
    start-ok _ _ _ _ r,
    acquire-held w.sync_opt bin (record w { clock_calls = w.clock_calls + 1 }) (held w.sync_opt f)
        small,
  )
    where
      held :
          (s : SyncOption)
          → IsHeld s bin w
          → IsHeld s bin (record w { clock_calls = w.clock_calls + 1 })
      held unsynced g = absurd g
      held mutex g = g
      held spinlock g = g

  pub release_lock-ok : release_lock bin w ≡ done tt (released bin w)
  unfolding release_lock released
  release_lock-ok = release-ok w.sync_opt bin w small

  -- Once taken, the lock is held.
  pub locked-IsHeld : w.sync_opt ≢ unsynced → IsHeld w.sync_opt bin (locked bin w)
  unfolding locked
  locked-IsHeld ne = IsHeld-set_at w.sync_opt bin w ne

-- Everything that decides where a release leads is as `locked` left it.
pub released-SameLocks :
    (bin : ℕ) (w v : World)
    → IsFree w.sync_opt bin w
    → v.sync_opt ≡ w.sync_opt
    → v.mutexes ≡ (locked bin w).mutexes
    → v.spinlocks ≡ (locked bin w).spinlocks
    → SameLocks (released bin v) w
unfolding locked released
released-SameLocks bin w v f e em es =
    let r = restored_by w.sync_opt bin w f in
    record {
      mutexes_same = λ b. ap₂ (λ s m. free_mutex s m bin b) e em ∙ r.0 b;
      spinlocks_same = λ b. ap₂ (λ s m. free_spin s m bin b) e es ∙ r.1 b;
    }
