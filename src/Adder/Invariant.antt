-- ===== src/Adder/Invariant.antt =====
-- The invariant of project 2a/lab2_add.c: true at the start, and kept by every step of every thread.
mod Defs
mod Moves
pub use Defs.*
use Moves.{Move-kept, Move-InRange, Move-held, Move-alone, Move-IsFresh, Move-owned, mover}
use mathlib.Core.Logic.{ite}
use some_low_level_tasks.Prelude.{ℕ, ◌<◌, ◌≡◌, ◌≢◌, refl, inl, inr, true, arith, ℕ_discrete}
use some_low_level_tasks.Adder.Tally.{change, tally, tally-const}
use some_low_level_tasks.Adder.Worker.{SyncOption, unsynced, Shared, Pc, Move}
use some_low_level_tasks.Adder.System.{System, init, Step, run, Reach, start, later}

pub init-Inv : (s : SyncOption) (k n : ℕ) → Inv s k n init.shared init.pc
init-Inv s k n = record {
  kept = omega (
    arith,
    tally-const (minuses k) 0 n init.pc (λ i l. refl),
    tally-const (pluses k) 0 n init.pc (λ i l. refl),
  );
  in_range = λ i. tt;
  held = λ l i q. cc;
  alone = λ l i j q r. cc;
  fresh = λ l i. tt;
  owned = λ l q. absurd (not_taken s q);
}
  where
    not_taken : (t : SyncOption) → is_taken t init.shared ≡ true → ⊥
    not_taken t q = ground arith

InRange-change :
    (k : ℕ) (pc : ℕ → Pc) (i : ℕ) (p' : Pc)
    → ((j : ℕ) → InRange k (pc j))
    → InRange k p'
    → (j : ℕ) → InRange k (change pc i p' j)
InRange-change k pc i p' old new j = elim (ℕ_discrete j i) as (λ d. InRange k (ite d p' (pc j))) [
  | yes e ↦ new
  | no d ↦ old j
]

module _ {s : SyncOption} {k n : ℕ} (sync : s ≢ unsynced) where
  Move-Inv :
      {m m' : Shared} {pc : ℕ → Pc} {p' : Pc}
      → Inv s k n m pc
      → (i : ℕ) → i < n
      → Move s k m (pc i) m' p'
      → Inv s k n m' (change pc i p')
  Move-Inv {pc} {p'} inv i lt mv =
      let f = mover sync inv i lt p' in
      record {
        kept = Move-kept sync inv i mv f;
        in_range = InRange-change k pc i p' inv.in_range (Move-InRange sync inv i mv f);
        held = Move-held sync inv i mv refl;
        alone = Move-alone sync inv i mv refl;
        fresh = Move-IsFresh sync inv i mv refl;
        owned = Move-owned sync inv i mv refl lt;
      }

  Step-Inv : {u v : System} → Step s k n u v → Inv s k n u.shared u.pc → Inv s k n v.shared v.pc
  Step-Inv (run i lt mv) inv = Move-Inv inv i lt mv

  pub Reach-Inv : {u : System} → Reach s k n u → Inv s k n u.shared u.pc
  Reach-Inv start = init-Inv s k n
  Reach-Inv (later r st) = Step-Inv st (Reach-Inv r)
