-- ===== src/SortedList/Bodies.antt =====
-- The critical sections of project 2b/SortedList.c: what each operation does to the nodes between
-- `set_lock` and `release_lock`. A loop has `left` rounds before its test `limiter >= num_elements`
-- holds, so it breaks where `left` is zero; the loop's own test is made before, as in the source.
-- `limiter` counts nodes of a list in memory and is a natural number (an `int` in the source).
use some_low_level_tasks.Prelude.{
  ℕ, zero, suc, ◌+◌, Bool, true, false, not, ◌||◌, ◌==◌, leb, if◌then◌else◌,
}
use some_low_level_tasks.Prelude.Int.{ℤ, pos, negsuc}
use some_low_level_tasks.SortedList.Memory.{
  Ptr, null, Key, Cmd, pure, ◌>>=◌, ◌>>◌, get_next, get_prev, get_key, set_next, set_prev, strcmp,
  is_negative, is_zero,
}

-- `it->next != NULL && strcmp(it->next->key, element->key) < 0`
unfoldable pub precedes : Ptr → Ptr → Cmd Bool
precedes element it = do
  n ← get_next it
  if n == null
      then pure false
      else do k ← get_key n; e ← get_key element; pure (is_negative (strcmp k e))

unfoldable pub insert_walk : Ptr → ℕ → ℕ → Ptr → Cmd (Ptr × ℕ)
insert_walk element zero limiter it = do precedes element it; pure (it, limiter)
insert_walk element (suc left) limiter it = do
  more ← precedes element it
  if more
      then (do n ← get_next it; insert_walk element left (limiter + 1) n)
      else pure (it, limiter)

-- `element->next` gets its value: the end of the list, or the node behind `it`.
unfoldable pub link_behind : Ptr → Ptr → Bool → Cmd (Unit {0})
link_behind element it last =
    if last
    then set_next element null
    else do n ← get_next it; set_prev n element; n' ← get_next it; set_next element n'

unfoldable pub link : ℕ → Ptr → Ptr → ℕ → Cmd (Unit {0})
unfolding link_behind
link num_elements element it limiter =
    if leb limiter num_elements
    then (do
      n ← get_next it
      link_behind element it (n == null || limiter == num_elements)
      set_prev element it
      set_next it element)
    else pure tt

-- `it->next != NULL && strcmp(it->next->key, key) != 0`
unfoldable pub differs : Key → Ptr → Cmd Bool
differs key it = do
  n ← get_next it
  if n == null then pure false else do k ← get_key n; pure (not (is_zero (strcmp k key)))

unfoldable pub lookup_walk : Key → ℕ → ℕ → Ptr → Cmd (Ptr × ℕ)
lookup_walk key zero limiter it = do differs key it; pure (it, limiter)
lookup_walk key (suc left) limiter it = do
  more ← differs key it
  if more then (do n ← get_next it; lookup_walk key left (limiter + 1) n) else pure (it, limiter)

-- What follows the loop of `SortedList_lookup`.
unfoldable pub lookup_result : ℕ → Ptr → ℕ → Cmd Ptr
lookup_result num_elements it limiter =
    if leb limiter num_elements
    then (do n ← get_next it; pure (if n == null || limiter == num_elements then null else n))
    else pure null

unfoldable pub length_walk : ℕ → ℕ → Ptr → Cmd ℤ
length_walk zero limiter it = do
  n ← get_next it
  if n == null then pure (pos limiter) else do get_prev n; pure (negsuc 0)
length_walk (suc left) limiter it = do
  n ← get_next it
  if n == null
      then pure (pos limiter)
      else do p ← get_prev n; if p == it then length_walk left (limiter + 1) n else pure (negsuc 0)

-- `el->next != NULL && el->next->prev != el`
unfoldable pub neighbour_differs : Ptr → Cmd Bool
neighbour_differs el = do
  q ← get_next el
  if q == null then pure false else do p ← get_prev q; pure (not (p == el))

-- The three tests of `SortedList_delete`; `true` is its early `return 1`.
unfoldable pub is_corrupted : Ptr → Cmd Bool
unfolding neighbour_differs
is_corrupted el = do
  p ← get_prev el
  if p == null
      then pure true
      else do n ← get_next p; if n == el then neighbour_differs el else pure true

unfoldable pub unlink : Ptr → Cmd (Unit {0})
unlink el = do
  p ← get_prev el
  n ← get_next el
  if n == null then set_next p null else do set_next p n; set_prev n p

unfoldable pub clear_links : Ptr → Cmd (Unit {0})
clear_links el = do set_next el null; set_prev el null
