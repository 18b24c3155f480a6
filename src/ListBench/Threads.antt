-- ===== src/ListBench/Threads.antt =====
-- What one thread of project 2b/lab2_list.c does, from `list_operations`. The other threads do not move
-- meanwhile: a wait for one of them is `blocked`.
use some_low_level_tasks.Prelude.{
  ℕ, zero, suc, ◌+◌, ◌*◌, Bool, false, none, some, ◌==◌, ◌&&◌, if◌then◌else◌,
}
use some_low_level_tasks.Prelude.Int.{ℤ, pos, negsuc, pos_part, ◌+ℤ◌}
use some_low_level_tasks.Text.{Bytes, codes}
use some_low_level_tasks.System.{done, exited, blocked}
use some_low_level_tasks.SortedList.Memory.{Ptr, Key, null}
use some_low_level_tasks.SortedList.Operations.{
  ListInfo, sorted_list_insert, sorted_list_delete, sorted_list_lookup, sorted_list_length,
}
use some_low_level_tasks.ListBench.Bins.{get_bin}
use some_low_level_tasks.ListBench.State.{
  Act, pure, ◌>>=◌, ◌>>◌, on_run, on_lists, sighandler, lock_mut, unlock_mut,
}

abbrev pub set_up_list_info : Ptr → ℕ → ListInfo
set_up_list_info list_obj bin = record { list_obj = list_obj; timer = pos 0; bin = bin }

-- `list_elements[n].key`, which is about to be read through.
abbrev pub key_of : ℕ → Act Key
key_of n b = elim (b.settings.lists.heap.key (b.list_elements n)) [
  | none ↦ sighandler b.settings
  | some key ↦ on_run (done key) b
]

-- `get_bin(list_elements[n].key)` and `set_up_ListInfo`, for the sublist.
abbrev pub list_of : ℕ → Act ListInfo
list_of n = do
  key ← key_of n
  bin ← λ b. on_run (get_bin b.settings.num_lists key) b
  λ b. pure (set_up_list_info (b.list bin) bin) b

-- `if (test) { fprintf(stderr, message); exit(2); }`
abbrev exit_if : Bool → Bytes → Act (Unit {0})
exit_if test message b = if test then exited 2 message else pure tt b

-- The loop that inserts, with `left` rounds from the element `n` on, and the time waited.
unfoldable pub insert_loop : (n left : ℕ) → ℤ → Act ℤ
insert_loop n zero waited = pure waited
insert_loop n (suc left) waited = do
  s_list ← list_of n
  after ← λ b. on_lists (sorted_list_insert s_list (b.list_elements n)) b
  insert_loop (n + 1) left (waited +ℤ after.timer)

-- One thread more has finished; then wait for the others.
abbrev pub finish_inserting : Act (Unit {0})
finish_inserting = do
  lock_mut
  λ b. pure tt (record b { threads_finished_inserting = b.threads_finished_inserting +ℤ pos 1 })
  unlock_mut

abbrev pub finish_deleting : Act (Unit {0})
finish_deleting = do
  lock_mut
  λ b. pure tt (record b { threads_finished_deleting = b.threads_finished_deleting +ℤ pos 1 })
  unlock_mut

-- `count != num_threads`, which goes on for ever while no other thread moves.
abbrev pub wait_for : ℤ → Act (Unit {0})
wait_for count b = if same count b.settings.num_threads then pure tt b else blocked
  where
    same : ℤ → ℤ → Bool
    same (pos m) (pos n) = m == n
    same (negsuc m) (negsuc n) = m == n
    same (pos m) (negsuc n) = false
    same (negsuc m) (pos n) = false

abbrev pub is_minus_one : ℤ → Bool
is_minus_one (pos n) = false
is_minus_one (negsuc n) = n == 0

abbrev pub length_failed : Bytes
length_failed = codes "List was corrupted during 'length' operation.\r\n"

-- `SortedList_length` of a sublist that nobody has counted, and its test.
abbrev pub count_list : (enforce : Bool) → (bin : ℕ) → ListInfo → Act ListInfo
count_list enforce bin s_list = do
  λ b. pure tt (record b { list_count = λ j. if j == bin then 1 else b.list_count j })
  unlock_mut
  (count, after) ← on_lists (sorted_list_length s_list)
  exit_if (is_minus_one count && enforce) length_failed
  lock_mut
  λ b. pure after (record b { list_count_total = b.list_count_total +ℤ count })

-- The loop, with `left` sublists from `bin` on. The result is what `sList.timer` has at the end; behind
-- no round at all it is not initialised, and `timer` stands for it.
unfoldable pub count_loop : (enforce : Bool) → (bin left : ℕ) → (timer : ℤ) → Act ℤ
count_loop enforce bin zero timer = pure timer
count_loop enforce bin (suc left) timer = do
  s_list ← λ b. pure (set_up_list_info (b.list bin) bin) b
  lock_mut
  after ← λ b. (if b.list_count bin == 0 then count_list enforce bin s_list else pure s_list) b
  unlock_mut
  count_loop enforce (bin + 1) left after.timer

unfoldable pub check_correct_list_length : (enforce : Bool) → (timer : ℤ) → Act ℤ
check_correct_list_length enforce timer b =
    count_loop enforce 0 (pos_part b.settings.num_lists) timer b

-- The second loop: look up the key of an element, and delete what was found.
unfoldable pub delete_loop : (n left : ℕ) → ℤ → Act ℤ
delete_loop n zero waited = pure waited
delete_loop n (suc left) waited = do
  s_list ← list_of n
  key ← key_of n
  (matching, found) ← on_lists (sorted_list_lookup s_list key)
  exit_if (matching == null) (codes "No matching element found during list lookup.\r\n")
  (code, after) ← on_lists (sorted_list_delete (set_up_list_info matching s_list.bin))
  exit_if (code == 1) (codes "List was corrupted during 'delete' operation.\r\n")
  delete_loop (n + 1) left (waited +ℤ found.timer +ℤ after.timer)

-- `timer` is what `wait_timer` has where there is no sublist.
unfoldable pub list_operations : (id : ℕ) → (timer : ℤ) → Act (Unit {0})
list_operations id timer b =
    let rounds = pos_part b.settings.num_iterations in
    let start_index = id * rounds in
    (do
      inserted ← insert_loop start_index rounds (pos 0)
      finish_inserting
      λ b. wait_for b.threads_finished_inserting b
      wait_timer ← check_correct_list_length false timer
      deleted ← delete_loop start_index rounds (inserted +ℤ wait_timer)
      finish_deleting
      λ b. wait_for b.threads_finished_deleting b
      lock_mut
      λ b. pure tt (record b { wait_for_time = b.wait_for_time +ℤ deleted })
      unlock_mut)
      b
