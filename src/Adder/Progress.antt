-- ===== src/Adder/Progress.antt =====
-- The threads of project 2a/lab2_add.c cannot deadlock.
use mathlib.Core.Path.{subst}
use some_low_level_tasks.Prelude.{
  ℕ, ◌+◌, ◌<◌, ◌≡◌, ◌≢◌, refl, inl, inr, true, false, arith, Bool-cases, sym, ℕ_discrete,
}
use some_low_level_tasks.Prelude.Int.{ℤ}
use some_low_level_tasks.Adder.Worker.{
  SyncOption, is_below, sync_mutex, sync_spin_lock, sync_compare_swap, unsynced, Shared, Phase, up,
  down, Pc, starting, at_loop, calling, computed, unlocking, finished, locks, swaps, Move, pass,
  lock_mutex, take_spin, enter, load, store, swap, retry, turn, leave, unlock_mutex, release_spin,
  return,
}
use some_low_level_tasks.Adder.System.{System, Reach}
use some_low_level_tasks.Adder.Invariant.{is_inside, is_taken, Reach-Inv}

ℤ-discrete : Discrete ℤ
ℤ-discrete = hlevel ℕ_discrete

-- A thread at `p` can go on to another place.
abbrev pub CanGoOn : SyncOption → ℕ → Shared → Pc → Type 0
CanGoOn s k m p = (m' : Shared) × (p' : Pc) × Move s k m p m' p' × (p ≢ p')

module _ (s : SyncOption) (k : ℕ) (m : Shared) where
  computed_moves : (p : Phase) (n : ℕ) (prev : ℤ) → CanGoOn s k m (computed p n prev)
  computed_moves p n prev = elim (Bool-cases (swaps s)) [
    | inl cas ↦ elim (ℤ-discrete m.counter prev) [
      | yes same ↦ (_, at_loop p (n + 1), swap cas same, λ e. cc)
      | no other ↦ (m, calling p n, retry cas other, λ e. cc)
    ]
    | inr add ↦ (_, at_loop p (n + 1), store add, λ e. cc)
  ]

  loop_moves : (p : Phase) (n : ℕ) → CanGoOn s k m (at_loop p n)
  loop_moves p n = elim (Bool-cases (is_below n k)) [
    | inl more ↦ (m, calling p n, enter more, λ e. cc)
    | inr done ↦ ends p done
  ]
    where
      ends : (q : Phase) → is_below n k ≡ false → CanGoOn s k m (at_loop q n)
      ends up d = (m, at_loop down 0, turn d, λ e. cc)
      ends down d = (m, unlocking, leave d, λ e. cc)

  unlocking_moves : (t : SyncOption) → s ≡ t → CanGoOn s k m unlocking
  unlocking_moves sync_mutex e = (_, finished, unlock_mutex e, λ q. cc)
  unlocking_moves sync_spin_lock e = (_, finished, release_spin e, λ q. cc)
  unlocking_moves sync_compare_swap e = (m, finished, return (rw e), λ q. cc)
  unlocking_moves unsynced e = (m, finished, return (rw e), λ q. cc)

  -- A thread behind its lock can always go on.
  inside_moves : (p : Pc) → is_inside p ≡ true → CanGoOn s k m p
  inside_moves starting h = absurd (cc h)
  inside_moves (at_loop p n) h = loop_moves p n
  inside_moves (calling p n) h = (m, computed p n m.counter, load, λ e. cc)
  inside_moves (computed p n prev) h = computed_moves p n prev
  inside_moves unlocking h = unlocking_moves s refl
  inside_moves finished h = absurd (cc h)

  -- A thread before its lock can go on where the lock is free.
  starting_moves : (t : SyncOption) → s ≡ t → is_taken s m ≡ false → CanGoOn s k m starting
  starting_moves sync_mutex e f = (_, at_loop up 0, lock_mutex e (ground arith), λ q. cc)
  starting_moves sync_spin_lock e f = (_, at_loop up 0, take_spin e (ground arith), λ q. cc)
  starting_moves sync_compare_swap e f = (m, at_loop up 0, pass (rw e), λ q. cc)
  starting_moves unsynced e f = (m, at_loop up 0, pass (rw e), λ q. cc)

-- In every reachable state, while some thread has not finished, some thread can go on to another
-- place: there is no deadlock, under any of the three synchronisations.
pub no_deadlock :
    {s : SyncOption} {k n : ℕ} {u : System}
    → s ≢ unsynced
    → Reach s k n u
    → (i : ℕ) → i < n
    → u.pc i ≢ finished
    → (j : ℕ) × (j < n) × CanGoOn s k u.shared (u.pc j)
no_deadlock {s} {k} {n} {u} sync r i lt busy = elim (Bool-cases (is_inside (u.pc i))) [
  | inl inside ↦ (i, lt, inside_moves s k u.shared (u.pc i) inside)
  | inr outside ↦ elim (Bool-cases (is_taken s u.shared)) [
    | inl taken ↦
        let (j, below, in_j) = (Reach-Inv sync r).owned (locks_of_taken s taken) taken in
        (j, below, inside_moves s k u.shared (u.pc j) in_j)
    | inr free ↦
        let at_start : u.pc i ≡ starting = ground arith in
        (
          i,
          lt,
          subst (CanGoOn s k u.shared) (sym at_start) (starting_moves s k u.shared s refl free),
        )
  ]
]
  where
    locks_of_taken : (t : SyncOption) → is_taken t u.shared ≡ true → locks t ≡ true
    locks_of_taken t h = ground arith
