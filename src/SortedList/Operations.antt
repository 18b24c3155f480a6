-- ===== src/SortedList/Operations.antt =====
-- The operations of project 2b/SortedList.c, whole: lock, critical section, release.
use Prim.Native.Nat.{bit_and}
use some_low_level_tasks.Prelude.{ℕ, Option, none, some, ◌==◌, if◌then◌else◌}
use some_low_level_tasks.Prelude.Int.{ℤ, pos}
use some_low_level_tasks.Timer.{PreciseTimer, TimeSpec, start, end}
use some_low_level_tasks.SortedList.Memory.{Ptr, Key}
use some_low_level_tasks.SortedList.Bodies.{
  insert_walk, link, lookup_walk, lookup_result, length_walk, is_corrupted, unlink, clear_links,
}
use some_low_level_tasks.SortedList.World.{
  SyncOption, unsynced, mutex, spinlock, World, Outcome, done, exited, Act, pure, ◌>>=◌, ◌>>◌,
  on_heap, lock_mutex, unlock_mutex, spin, release_spin, sched_yield,
}

-- `struct ListInfo`: a sublist or an element of it, with the number of the sublist.
pub record ListInfo : Type 0 where
  pub list_obj : Ptr
  pub timer : ℤ
  pub bin : ℕ

abbrev pub insert_yield : ℕ
insert_yield = 0x01

abbrev pub delete_yield : ℕ
delete_yield = 0x02

abbrev pub lookup_yield : ℕ
lookup_yield = 0x04

abbrev no_time : TimeSpec
no_time = record { tv_sec = 0; tv_nsec = 0 }

-- The locals of `set_lock` are set before they are read; their first value is arbitrary.
abbrev no_timer : PreciseTimer
no_timer = record { start_time = no_time; end_time = no_time; diff = pos 0 }

abbrev from_clock : World → Option (PreciseTimer × ℕ) → Outcome PreciseTimer
from_clock w none = exited 2
from_clock w (some (timer, n)) = done timer (record w { clock_calls = n })

-- A call of PreciseTimer, which exits with 2 where the clock cannot be read.
abbrev timed :
    ((ℕ → Option TimeSpec) → ℕ → PreciseTimer → Option (PreciseTimer × ℕ))
    → PreciseTimer
    → Act PreciseTimer
timed call timer w = from_clock w (call w.clock w.clock_calls timer)

abbrev pub acquire : SyncOption → ℕ → Act (Unit {0})
acquire unsynced bin = pure tt
acquire mutex bin = lock_mutex bin
acquire spinlock bin = spin bin

abbrev pub lock_time : SyncOption → PreciseTimer → ℤ
lock_time unsynced timer = pos 0
lock_time _ timer = timer.diff

-- The time waited is the result.
unfoldable pub set_lock : ℕ → Act ℤ
set_lock bin w =
    (do
      timer ← timed start no_timer
      acquire w.sync_opt bin
      timer' ← timed end timer
      pure (lock_time w.sync_opt timer'))
      w

abbrev pub release : SyncOption → ℕ → Act (Unit {0})
release unsynced bin = pure tt
release mutex bin = unlock_mutex bin
release spinlock bin = release_spin bin

unfoldable pub release_lock : ℕ → Act (Unit {0})
release_lock bin w = release w.sync_opt bin w

-- `if (opt_yield & flag) sched_yield();`
unfoldable pub yield_if : ℕ → Act (Unit {0})
yield_if flag w = if bit_and w.opt_yield flag == 0 then done tt w else sched_yield w

unfoldable pub sorted_list_insert : ListInfo → Ptr → Act ListInfo
sorted_list_insert info element w =
    (do
      timer ← set_lock info.bin
      (it, limiter) ← on_heap (insert_walk element w.num_elements 0 info.list_obj)
      yield_if insert_yield
      on_heap (link w.num_elements element it limiter)
      release_lock info.bin
      pure (record info { timer = timer }))
      w

-- The result is 1 where the links around the element are corrupted; that path keeps the lock.
unfoldable pub sorted_list_delete : ListInfo → Act (ℕ × ListInfo)
sorted_list_delete info = do
  timer ← set_lock info.bin
  corrupted ← on_heap (is_corrupted info.list_obj)
  if corrupted then pure (1, record info { timer = timer }) else do
    yield_if delete_yield
    on_heap (unlink info.list_obj)
    release_lock info.bin
    on_heap (clear_links info.list_obj)
    pure (0, record info { timer = timer })

unfoldable pub sorted_list_lookup : ListInfo → Key → Act (Ptr × ListInfo)
sorted_list_lookup info key w =
    (do
      timer ← set_lock info.bin
      (it, limiter) ← on_heap (lookup_walk key w.num_elements 0 info.list_obj)
      yield_if lookup_yield
      result ← on_heap (lookup_result w.num_elements it limiter)
      release_lock info.bin
      pure (result, record info { timer = timer }))
      w

unfoldable pub sorted_list_length : ListInfo → Act (ℤ × ListInfo)
sorted_list_length info w =
    (do
      yield_if lookup_yield
      timer ← set_lock info.bin
      count ← on_heap (length_walk w.num_elements 0 info.list_obj)
      release_lock info.bin
      pure (count, record info { timer = timer }))
      w
