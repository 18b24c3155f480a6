-- ===== src/SortedList/Options.antt =====
-- The settings of project 2b/SortedList.c: `yield_by`, `sync_by`, `initialize_sync` and
-- `limit_iterations`. Each of the first two returns 1 on an error.
use Prim.Native.Nat.{bit_or}
use some_low_level_tasks.Prelude.{
  ℕ, zero, suc, ◌≡◌, refl, Option, none, some, List, [], ◌∷◌, ◌==◌, false, if◌then◌else◌, take,
}
use some_low_level_tasks.SortedList.World.{SyncOption, unsynced, mutex, spinlock, World}
use some_low_level_tasks.SortedList.Operations.{insert_yield, delete_yield, lookup_yield}
use some_low_level_tasks.SortedList.Locks.{IsFree}

-- The flag of a letter.
abbrev pub yield_flag : ℕ → Option ℕ
yield_flag c =
    if c == b'i'
    then some insert_yield
    else if c == b'd'
    then some delete_yield
    else if c == b'l'
    then some lookup_yield
    else none

-- The loop, with `left` rounds before `t < 3` fails: the result and `opt_yield`. Where it ends `t` is 3 at
-- most, so the test `t > 3` behind it fails.
unfoldable pub yield_loop : (left : ℕ) → List ℕ → ℕ → ℕ × ℕ
yield_loop zero yield opt_yield = (0, opt_yield)
yield_loop (suc left) [] opt_yield = (0, opt_yield)
yield_loop (suc left) (c ∷ yield) opt_yield = elim (yield_flag c) [
  | none ↦ (1, opt_yield)
  | some flag ↦ yield_loop left yield (bit_or opt_yield flag)
]

unfoldable pub yield_by : List ℕ → World → ℕ × World
yield_by yield w =
    let (code, flags) = yield_loop 3 yield w.opt_yield in (code, record w { opt_yield = flags })

unfoldable pub sync_by : ℕ → World → ℕ × World
sync_by sync w =
    if sync == b'm'
    then (0, record w { sync_opt = mutex })
    else if sync == b's'
    then (0, record w { sync_opt = spinlock })
    else (1, w)

unfoldable pub initialize_sync : ℕ → World → World
initialize_sync sublists w = record w {
  num_lists = sublists;
  mutexes = λ _. false;
  spinlocks = λ _. 0;
}

unfoldable pub limit_iterations : ℕ → World → World
limit_iterations elements w = record w { num_elements = elements }

yield_loop-take :
    (left : ℕ) (yield : List ℕ) (flags : ℕ)
    → yield_loop left yield flags ≡ yield_loop left (take left yield) flags
unfolding yield_loop
yield_loop-take zero yield flags = refl
yield_loop-take (suc left) [] flags = refl
yield_loop-take (suc left) (c ∷ yield) flags =
    by (yield_flag c) (λ f. yield_loop-take left yield (bit_or flags f))
  where
    by :
        (o : Option ℕ)
        → ((f : ℕ)
            → yield_loop left yield (bit_or flags f)
              ≡ yield_loop left (take left yield) (bit_or flags f))
        → elim o as (λ _. ℕ × ℕ) [
          | none ↦ (1, flags)
          | some f ↦ yield_loop left yield (bit_or flags f)
        ]
          ≡ elim o as (λ _. ℕ × ℕ) [
            | none ↦ (1, flags)
            | some f ↦ yield_loop left (take left yield) (bit_or flags f)
          ]
    by none later = refl
    by (some f) later = later f

-- `yield_by` takes a string of any length for its first three letters: what stands behind them is no
-- error and has no effect.
pub yield_by-take : (yield : List ℕ) (w : World) → yield_by yield w ≡ yield_by (take 3 yield) w
unfolding yield_by
yield_by-take yield w = rw (yield_loop-take 3 yield w.opt_yield) refl

-- Behind `initialize_sync` and a choice of the lock the locks of all sublists are free, whatever the
-- choice was.
pub initialize_sync-IsFree :
    (sublists sync : ℕ) (w : World) (bin : ℕ)
    → IsFree (sync_by sync w).1.sync_opt bin (initialize_sync sublists (sync_by sync w).1)
unfolding initialize_sync
initialize_sync-IsFree sublists sync w bin = by (sync_by sync w).1.sync_opt
  where
    by : (s : SyncOption) → IsFree s bin (initialize_sync sublists (sync_by sync w).1)
    by unsynced = tt
    by mutex = refl
    by spinlock = refl
