-- ===== src/ListBench/State.antt =====
-- The global variables of project 2b/lab2_list.c, and commands on them by one thread, the operations of
-- SortedList.c among them.
use some_low_level_tasks.Prelude.{ℕ, Bool, true, false, ◌++◌, if◌then◌else◌}
use some_low_level_tasks.Prelude.Int.{ℤ}
use some_low_level_tasks.Text.{Bytes, codes, signed}
use some_low_level_tasks.System.{Run, done, exited, crashed, blocked}
use some_low_level_tasks.System as Sys
use some_low_level_tasks.SortedList.Memory.{Ptr}
use some_low_level_tasks.SortedList.World.{World, Outcome, fault}
use some_low_level_tasks.SortedList.World as W
use some_low_level_tasks.ListBench.Options.{Settings}
use some_low_level_tasks.ListBench.Report.{c_string}

-- `settings.lists` has the nodes, the locks and the clock. `list` and `list_elements` are the addresses
-- of the entries of the two arrays, and `timer_message` is what PreciseTimer.c prints where the clock
-- cannot be read.
pub record Bench : Type 0 where
  pub settings : Settings
  pub list : ℕ → Ptr
  pub list_elements : ℕ → Ptr
  pub mut : Bool  -- held or not
  pub threads_finished_inserting : ℤ
  pub threads_finished_deleting : ℤ
  pub list_count : ℕ → ℕ
  pub list_count_total : ℤ
  pub wait_for_time : ℤ
  pub list_deleted : Bool
  pub timer_message : Bytes

abbrev pub Act : Type 0 → Type 0
Act A = Bench → Run (A × Bench)

abbrev pub pure : {A : Type 0} → A → Act A
pure a b = done (a, b)

infixl 5 ◌>>=◌ ◌>>◌
abbrev pub ◌>>=◌ : {A B : Type 0} → Act A → (A → Act B) → Act B
m >>= f = λ b. Sys.and_then (m b) (λ (r : _ × Bench). f r.0 r.1)

abbrev pub ◌>>◌ : {A B : Type 0} → Act A → Act B → Act B
m >> n = m >>= λ _. n

-- A command that changes no variable.
abbrev pub on_run : {A : Type 0} → Run A → Act A
on_run r b = Sys.and_then r (λ a. done (a, b))

abbrev pub set_lists : Bench → World → Bench
set_lists b w = record b { settings = record b.settings { lists = w } }

-- The handler of SIGSEGV.
unfoldable pub sighandler : {A : Type 0} → Settings → Run A
sighandler s = Sys.and_then (c_string s.str_yield) (λ yield.
    Sys.and_then (c_string s.str_sync) (λ sync. exited 2 (
      codes "Segmentation fault caught: --thread="
      ++ signed s.num_threads
      ++ codes " --iter="
      ++ signed s.num_iterations
      ++ codes " --yield="
      ++ yield
      ++ codes " --sync="
      ++ sync
      ++ codes "--lists="
      ++ signed s.num_lists
      ++ codes "\r\n")))

abbrev from_lists : {A : Type 0} → Bench → Outcome A → Run (A × Bench)
from_lists b (W.done a w) = done (a, set_lists b w)
from_lists b fault = sighandler b.settings
from_lists b W.blocked = blocked
from_lists b (W.exited code) = exited code b.timer_message

-- An operation of SortedList.c.
abbrev pub on_lists : {A : Type 0} → W.Act A → Act A
on_lists m b = from_lists b (m b.settings.lists)

-- `pthread_mutex_lock(&mut)` and `pthread_mutex_unlock(&mut)`
abbrev pub lock_mut : Act (Unit {0})
lock_mut b = if b.mut then blocked else done (tt, record b { mut = true })

abbrev pub unlock_mut : Act (Unit {0})
unlock_mut b = done (tt, record b { mut = false })
