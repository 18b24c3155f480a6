-- ===== src/Adder/System.antt =====
-- The threads that `create_threads` of project 2a/lab2_add.c starts, interleaved in any order.
use some_low_level_tasks.Prelude.{ℕ, ◌<◌, false}
use some_low_level_tasks.Prelude.Int.{pos}
use some_low_level_tasks.Adder.Tally.{change}
use some_low_level_tasks.Adder.Worker.{SyncOption, Shared, Pc, starting, Move}

-- An index from `num_threads` on names no thread and never moves.
pub record System : Type 0 where
  pub shared : Shared
  pub pc : ℕ → Pc

-- The global variables as they are initialised, and every thread at its start.
abbrev pub init : System
init = record {
  shared = record { counter = pos 0; mutex = false; spinlock = 0 };
  pc = λ _. starting;
}

pub data Step (s : SyncOption) (num_iterations num_threads : ℕ) (u : System) : System → Type 0 where
  run :
      (i : ℕ) {m : Shared} {p : Pc}
      → i < num_threads
      → Move s num_iterations u.shared (u.pc i) m p
      → Step s num_iterations num_threads u (record { shared = m; pc = change u.pc i p })

pub data Reach (s : SyncOption) (num_iterations num_threads : ℕ) : System → Type 0 where
  start : Reach s num_iterations num_threads init
  later :
      {u v : System}
      → Reach s num_iterations num_threads u
      → Step s num_iterations num_threads u v
      → Reach s num_iterations num_threads v
