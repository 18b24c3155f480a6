-- ===== src/OneList/Operations.antt =====
-- The operations of project 2a/SortedList.c. Their loops and writes are those of 2b, and the lock is that
-- of the only sublist of SortedList.World: there `num_lists` is 1, and the clock is not read.
use some_low_level_tasks.Prelude.{ℕ, if◌then◌else◌}
use some_low_level_tasks.Prelude.Int.{ℤ}
use some_low_level_tasks.SortedList.Memory.{Ptr, Key}
use some_low_level_tasks.SortedList.Bodies.{
  insert_walk, link, lookup_walk, lookup_result, length_walk, is_corrupted, unlink, clear_links,
}
use some_low_level_tasks.SortedList.World.{Act, pure, ◌>>=◌, ◌>>◌, on_heap}
use some_low_level_tasks.SortedList.Operations.{
  acquire, release, yield_if, insert_yield, delete_yield, lookup_yield,
}

abbrev pub lock : Act (Unit {0})
lock w = acquire w.sync_opt 0 w

abbrev pub unlock : Act (Unit {0})
unlock w = release w.sync_opt 0 w

unfoldable pub sorted_list_insert : (list element : Ptr) → Act (Unit {0})
sorted_list_insert list element w =
    (do
      lock
      (it, limiter) ← on_heap (insert_walk element w.num_elements 0 list)
      yield_if insert_yield
      on_heap (link w.num_elements element it limiter)
      unlock)
      w

-- The result is 1 where the links around the element are corrupted; that path keeps the lock.
unfoldable pub sorted_list_delete : (element : Ptr) → Act ℕ
sorted_list_delete element = do
  lock
  corrupted ← on_heap (is_corrupted element)
  if corrupted then pure 1 else do
    yield_if delete_yield
    on_heap (unlink element)
    unlock
    on_heap (clear_links element)
    pure 0

unfoldable pub sorted_list_lookup : (list : Ptr) → Key → Act Ptr
sorted_list_lookup list key w =
    (do
      lock
      (it, limiter) ← on_heap (lookup_walk key w.num_elements 0 list)
      yield_if lookup_yield
      result ← on_heap (lookup_result w.num_elements it limiter)
      unlock
      pure result)
      w

unfoldable pub sorted_list_length : (list : Ptr) → Act ℤ
sorted_list_length list w =
    (do
      yield_if lookup_yield
      lock
      count ← on_heap (length_walk w.num_elements 0 list)
      unlock
      pure count)
      w
