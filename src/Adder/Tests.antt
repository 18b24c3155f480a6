-- ===== src/Adder/Tests.antt =====
-- Schedules of the threads of project 2a/lab2_add.c, the theorems at the states that they reach, and a
-- schedule of unsynchronised threads that loses an update.
use mathlib.Core.List.{foldl}
use some_low_level_tasks.Prelude.{
  ℕ, Bool, true, false, zero, suc, ◌+◌, ◌*◌, ◌≤◌, ◌<◌, ◌≡◌, refl, inl, inr, arith, dec_lt, Option,
  none, some, List, [], ◌∷◌, ◌++◌, Bool-cases, ℕ_discrete,
}
use some_low_level_tasks.Prelude.Int.{ℤ, pos, pos_part, neg_part, negsuc, ◌+ℤ◌}
use some_low_level_tasks.Adder.Worker.{
  SyncOption, is_below, sync_mutex, sync_spin_lock, sync_compare_swap, unsynced, Shared, Phase, up,
  down, Pc, starting, at_loop, calling, computed, unlocking, finished, Move, pass, lock_mutex,
  take_spin, enter, load, store, swap, retry, turn, leave, unlock_mutex, release_spin, return,
}
use some_low_level_tasks.Adder.System.{System, init, Reach, start, later, run}
use some_low_level_tasks.Adder.Safety.{counter_zero, counter_bounds, mutual_exclusion}
use some_low_level_tasks.Adder.Progress.{CanGoOn, no_deadlock}

ℤ-discrete : Discrete ℤ
ℤ-discrete = hlevel ℕ_discrete

abbrev Next : SyncOption → ℕ → Shared → Pc → Type 0
Next s k m p = Option ((m' : Shared) × (p' : Pc) × Move s k m p m' p')

begin : (s : SyncOption) (k : ℕ) (m : Shared) → Next s k m starting
unfolding ℕ_discrete
begin sync_mutex k m = elim (Bool-cases m.mutex) [
  | inl held ↦ none
  | inr free ↦ some (_, at_loop up 0, lock_mutex refl free)
]
begin sync_spin_lock k m = elim (ℕ_discrete m.spinlock 0) [
  | yes free ↦ some (_, at_loop up 0, take_spin refl free)
  | no held ↦ none
]
begin sync_compare_swap k m = some (m, at_loop up 0, pass refl)
begin unsynced k m = some (m, at_loop up 0, pass refl)

end : (s : SyncOption) (k : ℕ) (m : Shared) → Next s k m unlocking
end sync_mutex k m = some (_, finished, unlock_mutex refl)
end sync_spin_lock k m = some (_, finished, release_spin refl)
end sync_compare_swap k m = some (m, finished, return refl)
end unsynced k m = some (m, finished, return refl)

update :
    (s : SyncOption) (k : ℕ) (m : Shared) (p : Phase) (n : ℕ) (prev : ℤ)
    → Next s k m (computed p n prev)
unfolding ℤ-discrete
update sync_mutex k m p n prev = some (_, at_loop p (n + 1), store refl)
update sync_spin_lock k m p n prev = some (_, at_loop p (n + 1), store refl)
update unsynced k m p n prev = some (_, at_loop p (n + 1), store refl)
update sync_compare_swap k m p n prev = elim (ℤ-discrete m.counter prev) [
  | yes same ↦ some (_, at_loop p (n + 1), swap refl same)
  | no other ↦ some (m, calling p n, retry refl other)
]

-- The loop behind its test.
loop :
    (s : SyncOption) (k : ℕ) (m : Shared) (p : Phase) (n : ℕ) (test : Bool)
    → is_below n k ≡ test
    → Next s k m (at_loop p n)
loop s k m p n true more = some (m, calling p n, enter more)
loop s k m up n false all = some (m, at_loop down 0, turn all)
loop s k m down n false all = some (m, unlocking, leave all)

next : (s : SyncOption) (k : ℕ) (m : Shared) (p : Pc) → Next s k m p
unfolding begin loop update end
next s k m starting = begin s k m
next s k m (at_loop p n) = loop s k m p n (is_below n k) refl
next s k m (calling p n) = some (m, computed p n m.counter, load)
next s k m (computed p n prev) = update s k m p n prev
next s k m unlocking = end s k m
next s k m finished = none

pub record Run (s : SyncOption) (k n : ℕ) : Type 0 where
  pub last : System
  pub reach : Reach s k n last

-- The thread moves if it can.
turn_of : {s : SyncOption} {k n : ℕ} → Run s k n → ℕ → Run s k n
unfolding next dec_lt
turn_of {s} {k} {n} r i = elim (dec_lt i n) [
  | yes lt ↦ elim (next s k r.last.shared (r.last.pc i)) [
    | none ↦ r
    | some (m, p, mv) ↦ record { last = _; reach = later r.reach (run i lt mv) }
  ]
  | no _ ↦ r
]

play : (s : SyncOption) (k n : ℕ) → List ℕ → Run s k n
unfolding turn_of
play s k n = foldl turn_of (record { last = init; reach = start })

abbrev in_turns : ℕ → List ℕ
in_turns zero = []
in_turns (suc n) = 0 ∷ 1 ∷ in_turns n

pub swapped : Run sync_compare_swap 2 2
swapped = play sync_compare_swap 2 2 (in_turns 30)

abbrev spun : Run sync_spin_lock 1 2
spun = play sync_spin_lock 1 2 (in_turns 2)

pub all_finished : (i : ℕ) → i < 2 → swapped.last.pc i ≡ finished
unfolding play swapped ◌+ℤ◌
all_finished zero l = refl
all_finished (suc zero) l = refl
all_finished (suc (suc i)) l = absurd (omega arith)

counter_zero_example : swapped.last.shared.counter ≡ pos 0
counter_zero_example = counter_zero (λ e. cc) swapped.reach all_finished

counter_bounds_example :
    (pos_part spun.last.shared.counter ≤ 2 * 1) × (neg_part spun.last.shared.counter ≤ 2 * 1)
counter_bounds_example = counter_bounds (λ e. cc) (omega arith) spun.reach

mutual_exclusion_example : ◌≡◌ {A = ℕ} 0 0
unfolding play
mutual_exclusion_example = mutual_exclusion refl spun.reach 0 0 refl refl

-- Thread 1 waits for the spin lock that thread 0 holds.
no_deadlock_example : (j : ℕ) × (j < 2) × CanGoOn sync_spin_lock 1 spun.last.shared (spun.last.pc j)
unfolding play
no_deadlock_example = no_deadlock (λ e. cc) spun.reach 1 (omega arith) (λ e. cc)

abbrev turns : ℕ → ℕ → List ℕ
turns zero i = []
turns (suc n) i = i ∷ turns n i

-- Both threads read 0 before either stores 1; then each takes 1 away. The counter ends at -1.
lost_update :
    (play unsynced 1 2 (turns 3 0 ++ turns 4 1 ++ turns 7 0 ++ turns 7 1)).last.shared.counter
    ≡ negsuc 0
unfolding play swapped ◌+ℤ◌
lost_update = refl
