-- ===== src/OneList/Threads.antt =====
-- What one thread of project 2a/lab2_list.c does, from `list_operations`.
use some_low_level_tasks.Prelude.{
  ℕ, zero, suc, ◌+◌, ◌*◌, Bool, false, none, some, ◌==◌, ◌&&◌, ◌++◌, if◌then◌else◌,
}
use some_low_level_tasks.Prelude.Int.{pos_part}
use some_low_level_tasks.Text.{Bytes, codes, signed}
use some_low_level_tasks.System.{Run, done, exited, blocked}
use some_low_level_tasks.System as Sys
use some_low_level_tasks.SortedList.Memory.{Ptr, Key, null}
use some_low_level_tasks.SortedList.World.{World, Outcome, fault}
use some_low_level_tasks.SortedList.World as W
use some_low_level_tasks.ListBench.Report.{c_string}
use some_low_level_tasks.ListBench.Threads.{is_minus_one, length_failed}
use some_low_level_tasks.OneList.Operations.{
  sorted_list_insert, sorted_list_delete, sorted_list_lookup, sorted_list_length,
}
use some_low_level_tasks.OneList.Options.{Settings}

-- `settings.lists` has the nodes and the lock. `list` is the address of the header, and `list_elements`
-- those of the entries of the array.
pub record Bench : Type 0 where
  pub settings : Settings
  pub list : Ptr
  pub list_elements : ℕ → Ptr
  pub list_deleted : Bool

abbrev pub Act : Type 0 → Type 0
Act A = Bench → Run (A × Bench)

abbrev pub pure : {A : Type 0} → A → Act A
pure a b = done (a, b)

infixl 5 ◌>>=◌ ◌>>◌
abbrev pub ◌>>=◌ : {A B : Type 0} → Act A → (A → Act B) → Act B
m >>= f = λ b. Sys.and_then (m b) (λ (r : _ × Bench). f r.0 r.1)

abbrev pub ◌>>◌ : {A B : Type 0} → Act A → Act B → Act B
m >> n = m >>= λ _. n

abbrev pub on_run : {A : Type 0} → Run A → Act A
on_run r b = Sys.and_then r (λ a. done (a, b))

abbrev pub set_world : Bench → World → Bench
set_world b w = record b { settings = record b.settings { lists = w } }

-- The handler of SIGSEGV.
unfoldable pub sighandler : {A : Type 0} → Settings → Run A
sighandler s = Sys.and_then (c_string s.str_yield) (λ yield.
    Sys.and_then (c_string s.str_sync) (λ sync. exited 2 (
      codes "Segmentation fault caught: --thread="
      ++ signed s.num_threads
      ++ codes " --iter="
      ++ signed s.num_iterations
      ++ codes " --yield="
      ++ yield
      ++ codes " --sync="
      ++ sync
      ++ codes "\r\n")))

-- The operations of SortedList.c do not exit here.
abbrev from_lists : {A : Type 0} → Bench → Outcome A → Run (A × Bench)
from_lists b (W.done a w) = done (a, set_world b w)
from_lists b fault = sighandler b.settings
from_lists b W.blocked = blocked
from_lists b (W.exited code) = exited code (codes "")

abbrev pub on_list : {A : Type 0} → W.Act A → Act A
on_list m b = from_lists b (m b.settings.lists)

abbrev pub exit_if : Bool → Bytes → Act (Unit {0})
exit_if test message b = if test then exited 2 message else pure tt b

-- The loop that inserts, with `left` rounds from the element `n` on.
unfoldable pub insert_loop : (n left : ℕ) → Act (Unit {0})
insert_loop n zero = pure tt
insert_loop n (suc left) = do
  λ b. on_list (sorted_list_insert b.list (b.list_elements n)) b
  insert_loop (n + 1) left

unfoldable pub check_correct_list_length : (enforce : Bool) → Act (Unit {0})
check_correct_list_length enforce = do
  count ← λ b. on_list (sorted_list_length b.list) b
  exit_if (is_minus_one count && enforce) length_failed

-- `list_elements[n].key`, which `randomize_list_elements` has set; a read through NULL would be a fault.
abbrev pub key_of : ℕ → Act Key
key_of n b = elim (b.settings.lists.heap.key (b.list_elements n)) [
  | none ↦ sighandler b.settings
  | some key ↦ done (key, b)
]

-- The second loop: look up the key of an element, and delete what was found.
unfoldable pub delete_loop : (n left : ℕ) → Act (Unit {0})
delete_loop n zero = pure tt
delete_loop n (suc left) = do
  key ← key_of n
  matching ← λ b. on_list (sorted_list_lookup b.list key) b
  exit_if (matching == null) (codes "No matching element found during list lookup.\r\n")
  code ← on_list (sorted_list_delete matching)
  exit_if (code == 1) (codes "List was corrupted during 'delete' operation.\r\n")
  delete_loop (n + 1) left

unfoldable pub list_operations : (id : ℕ) → Act (Unit {0})
list_operations id b =
    let rounds = pos_part b.settings.num_iterations in
    let start_index = id * rounds in
    (do
      insert_loop start_index rounds
      check_correct_list_length false
      delete_loop start_index rounds)
      b
