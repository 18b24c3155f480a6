-- ===== src/Adder/Invariant/Moves.antt =====
-- A step of thread `i` keeps each part of the invariant.
use native.Mathlib.Nat.{mod-eq_of_lt}
use some_low_level_tasks.Prelude.{ℕ, ◌+◌, ◌%◌, ◌^◌, ◌<◌, ◌≤◌, ◌≡◌, ◌≢◌, refl, true, false, arith}
use some_low_level_tasks.Prelude.Int.{ℤ, pos, negsuc, pos_part, neg_part, ◌+ℤ◌, +ℤ_parts}
use some_low_level_tasks.Adder.Tally.{change, tally, tally-change}
use some_low_level_tasks.Adder.Worker.{
  SyncOption, sync_mutex, sync_spin_lock, unsynced, Shared, up, down, value, is_below, Pc, locks,
  swaps, Move, pass, lock_mutex, take_spin, wait_spin, enter, load, store, swap, retry, turn, leave,
  unlock_mutex, release_spin, return,
}
use some_low_level_tasks.Adder.Invariant.Defs.{
  pluses, minuses, is_inside, is_taken, InRange, IsFresh, Inv,
}

-- The premises of the moves that touch a lock, for the catch-all clauses below.
abbrev Guard : {s : SyncOption} {k : ℕ} {m m' : Shared} {p p' : Pc} → Move s k m p m' p' → Type 0
Guard {s} (pass g) = locks s ≡ false
Guard {s} {m} (lock_mutex e g) = (s ≡ sync_mutex) × (m.mutex ≡ false)
Guard {s} {m} (take_spin e g) = (s ≡ sync_spin_lock) × (m.spinlock ≡ 0)
Guard {s} {m} (wait_spin e g) = (s ≡ sync_spin_lock) × (m.spinlock ≢ 0)
Guard {s} (swap g e) = swaps s ≡ true
Guard {s} (retry g e) = swaps s ≡ true
Guard {s} (unlock_mutex e) = s ≡ sync_mutex
Guard {s} (release_spin e) = s ≡ sync_spin_lock
Guard {s} (return e) = locks s ≡ false
Guard _ = Unit {0}

guard : {s : SyncOption} {k : ℕ} {m m' : Shared} {p p' : Pc} (mv : Move s k m p m' p') → Guard mv
guard (pass g) = g
guard (lock_mutex e g) = (e, g)
guard (take_spin e g) = (e, g)
guard (wait_spin e g) = (e, g)
guard (swap g e) = g
guard (retry g e) = g
guard (unlock_mutex e) = e
guard (release_spin e) = e
guard (return e) = e
guard _ = tt

-- The test of the loop, where the variable has not passed a bound that it can reach.
below-lt : (n k : ℕ) → k < 2 ^ 31 → n ≤ k → is_below n k ≡ true → n < k
below-lt n k few le e =
    let same : n % 2 ^ 32 ≡ n = mod-eq_of_lt (omega (arith, few, le)) in
    ground (arith, same, few, le, e)

not_below : (n k : ℕ) → is_below n k ≡ false → k < 2 ^ 31
not_below n k e = ground (arith, e)

not_below-eq : (n k : ℕ) → n ≤ k → is_below n k ≡ false → n ≡ k
not_below-eq n k le e =
    let few = not_below n k e in
    let same : n % 2 ^ 32 ≡ n = mod-eq_of_lt (omega (arith, few, le)) in
    ground (arith, same, few, le, e)

-- Whether the lock is taken does not depend on the counter.
is_taken-counter :
    (s : SyncOption) (m : Shared) (c : ℤ) → is_taken s (record m { counter = c }) ≡ is_taken s m
is_taken-counter sync_mutex m c = refl
is_taken-counter _ m c = refl

-- `add` runs under a lock.
locks_of_add : (s : SyncOption) → s ≢ unsynced → swaps s ≡ false → locks s ≡ true
locks_of_add s ne e = ground arith

-- One addition to what was read moves the counter by one.
plus_one :
    (c prev : ℤ) (a b : ℕ)
    → c ≡ prev
    → pos_part c + a ≡ neg_part c + b
    → pos_part (prev +ℤ pos 1) + a ≡ neg_part (prev +ℤ pos 1) + (b + 1)
plus_one c prev a b e h =
    let h' : pos_part prev + a ≡ neg_part prev + b = rw e at h in
    omega (arith, +ℤ_parts prev (pos 1))

minus_one :
    (c prev : ℤ) (a b : ℕ)
    → c ≡ prev
    → pos_part c + a ≡ neg_part c + b
    → pos_part (prev +ℤ negsuc 0) + (a + 1) ≡ neg_part (prev +ℤ negsuc 0) + b
minus_one c prev a b e h =
    let h' : pos_part prev + a ≡ neg_part prev + b = rw e at h in
    omega (arith, +ℤ_parts prev (negsuc 0))

module _ {s : SyncOption} {k n : ℕ} {m : Shared} {pc : ℕ → Pc} (sync : s ≢ unsynced)
    (inv : Inv s k n m pc) (i : ℕ) where
  open inv use {kept, in_range, held, alone, fresh, owned}

  -- Thread `i` goes from `p` to `p'`.
  pub record Mover (p p' : Pc) : Type 0 where
    pub here : pc i ≡ p
    pub ranged : InRange k p
    pub current : locks s ≡ true → IsFresh m p
    pub up_count :
        tally (pluses k) n (change pc i p') + pluses k p ≡ tally (pluses k) n pc + pluses k p'
    pub down_count :
        tally (minuses k) n (change pc i p') + minuses k p ≡ tally (minuses k) n pc + minuses k p'

  pub mover : i < n → (p' : Pc) → Mover (pc i) p'
  mover lt p' = record {
    here = refl;
    ranged = in_range i;
    current = λ l. fresh l i;
    up_count = tally-change (pluses k) n pc i p' lt;
    down_count = tally-change (minuses k) n pc i p' lt;
  }

  pub Move-kept :
      {p p' : Pc} {m' : Shared}
      → Move s k m p m' p'
      → Mover p p'
      → pos_part m'.counter + tally (minuses k) n (change pc i p')
        ≡ neg_part m'.counter + tally (pluses k) n (change pc i p')
  Move-kept (pass g) f = omega arith
  Move-kept (lock_mutex e g) f = omega arith
  Move-kept (take_spin e g) f = omega arith
  Move-kept (wait_spin e g) f = omega arith
  Move-kept (enter {p = up} g) f = omega arith
  Move-kept (enter {p = down} g) f = omega arith
  Move-kept (load {p = up}) f = omega arith
  Move-kept (load {p = down}) f = omega arith
  Move-kept (store {p = up} {prev = prev} g) f = omega (
    arith,
    plus_one m.counter prev (tally (minuses k) n pc) (tally (pluses k) n pc)
        (f.current (locks_of_add s sync g)) kept,
  )
  Move-kept (store {p = down} {prev = prev} g) f = omega (
    arith,
    minus_one m.counter prev (tally (minuses k) n pc) (tally (pluses k) n pc)
        (f.current (locks_of_add s sync g)) kept,
  )
  Move-kept (swap {p = up} {prev = prev} g e) f =
      omega
        (arith, plus_one m.counter prev (tally (minuses k) n pc) (tally (pluses k) n pc) (e) kept)
  Move-kept (swap {p = down} {prev = prev} g e) f =
      omega
        (arith, minus_one m.counter prev (tally (minuses k) n pc) (tally (pluses k) n pc) (e) kept)
  Move-kept (retry {p = up} g e) f = omega arith
  Move-kept (retry {p = down} g e) f = omega arith
  Move-kept (turn {n = c} g) f = omega (arith, not_below-eq c k (f.ranged (not_below c k g)) g)
  Move-kept (leave {n = c} g) f = omega (arith, not_below-eq c k f.ranged.1 g)
  Move-kept (unlock_mutex e) f = omega arith
  Move-kept (release_spin e) f = omega arith
  Move-kept (return e) f = omega arith

  pub Move-InRange : {p p' : Pc} {m' : Shared} → Move s k m p m' p' → Mover p p' → InRange k p'
  Move-InRange (pass g) f = λ few. omega arith
  Move-InRange (lock_mutex e g) f = λ few. omega arith
  Move-InRange (take_spin e g) f = λ few. omega arith
  Move-InRange (wait_spin e g) f = tt
  Move-InRange (enter {p = up} {n = c} g) f = λ few. below-lt c k few (f.ranged few) g
  Move-InRange (enter {p = down} {n = c} g) f = (f.ranged.0, below-lt c k f.ranged.0 f.ranged.1 g)
  Move-InRange (load {p = up}) f = f.ranged
  Move-InRange (load {p = down}) f = f.ranged
  Move-InRange (store {p = up} g) f = λ few. omega (arith, f.ranged few)
  Move-InRange (store {p = down} g) f = (f.ranged.0, omega (arith, f.ranged.1))
  Move-InRange (swap {p = up} g e) f = λ few. omega (arith, f.ranged few)
  Move-InRange (swap {p = down} g e) f = (f.ranged.0, omega (arith, f.ranged.1))
  Move-InRange (retry {p = up} g e) f = f.ranged
  Move-InRange (retry {p = down} g e) f = f.ranged
  Move-InRange (turn {n = c} g) f = (not_below c k g, omega arith)
  Move-InRange (leave g) f = f.ranged.0
  Move-InRange (unlock_mutex e) f = f.ranged
  Move-InRange (release_spin e) f = f.ranged
  Move-InRange (return e) f = f.ranged

  pub Move-held :
      {p p' : Pc} {m' : Shared}
      → Move s k m p m' p'
      → pc i ≡ p
      → locks s ≡ true
      → (j : ℕ) → is_inside (change pc i p' j) ≡ true
      → is_taken s m' ≡ true
  Move-held (pass g) e l j q = ground (arith, held l j, held l i)
  Move-held (store {p = p} {prev = prev} g) e l j q =
      ground (arith, held l j, held l i, is_taken-counter s m (prev +ℤ value p))
  Move-held (swap {p = p} {prev = prev} g a) e l j q =
      ground (arith, held l j, held l i, is_taken-counter s m (prev +ℤ value p))
  Move-held mv e l j q = ground (arith, guard mv, held l j, held l i, alone l i j)

  pub Move-alone :
      {p p' : Pc} {m' : Shared}
      → Move s k m p m' p'
      → pc i ≡ p
      → locks s ≡ true
      → (a b : ℕ) → is_inside (change pc i p' a) ≡ true
      → is_inside (change pc i p' b) ≡ true
      → a ≡ b
  Move-alone (pass g) e l a b qa qb = ground (arith)
  Move-alone mv e l a b qa qb =
      ground (arith, guard mv, alone l a b, alone l i a, alone l i b, held l a, held l b)

  pub Move-IsFresh :
      {p p' : Pc} {m' : Shared}
      → Move s k m p m' p'
      → pc i ≡ p
      → locks s ≡ true
      → (j : ℕ) → IsFresh m' (change pc i p' j)
  Move-IsFresh (pass g) e l j = ground (arith, fresh l j)
  Move-IsFresh mv e l j = ground (arith, guard mv, fresh l j, alone l i j)

  pub Move-owned :
      {p p' : Pc} {m' : Shared}
      → Move s k m p m' p'
      → pc i ≡ p
      → i < n
      → locks s ≡ true
      → is_taken s m' ≡ true
      → (j : ℕ) × (j < n) × (is_inside (change pc i p' j) ≡ true)
  Move-owned (pass g) e lt l q = absurd (ground arith)
  Move-owned (wait_spin a g) e lt l q =
      let (j, below, in_j) = owned l (ground arith) in (j, below, ground arith)
  Move-owned (unlock_mutex a) e lt l q = absurd (ground arith)
  Move-owned (release_spin a) e lt l q = absurd (ground arith)
  Move-owned (return a) e lt l q = absurd (ground arith)
  Move-owned mv e lt l q = (i, lt, ground (arith, guard mv))
