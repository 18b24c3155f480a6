-- ===== src/ListBench/Main.antt =====
-- `main` of project 2b/lab2_list.c and the functions that it calls around the threads.
use some_low_level_tasks.Prelude.{
  ℕ, zero, suc, ◌+◌, ◌*◌, ◌%◌, Bool, true, false, Option, none, some, List, [], ◌∷◌, ltb, ◌==◌,
  if◌then◌else◌,
}
use some_low_level_tasks.Prelude.Int.{ℤ, pos, pos_part}
use some_low_level_tasks.Text.{Bytes, codes}
use some_low_level_tasks.System.{Errno, Run, done, exited, called, each_thread, Opt, Outputs}
use some_low_level_tasks.System as Sys
use some_low_level_tasks.System.Messages.{create_error, join_error}
use some_low_level_tasks.Timer.{PreciseTimer, TimeSpec}
use some_low_level_tasks.Timer as T
use some_low_level_tasks.SortedList.Memory.{Ptr, Key, Heap, null, update}
use some_low_level_tasks.SortedList.World.{World}
use some_low_level_tasks.SortedList.Options.{initialize_sync}
use some_low_level_tasks.ListBench.Bins.{visible_ascii_chars, visible_ascii_offset}
use some_low_level_tasks.ListBench.Options.{Settings, process_args}
use some_low_level_tasks.ListBench.Report.{append_csv}
use some_low_level_tasks.ListBench.State.{Bench, Act, pure, ◌>>=◌, ◌>>◌, on_run, set_lists}
use some_low_level_tasks.ListBench.Threads.{check_correct_list_length}

-- What the calls of the C library and of pthreads give: the value of `errno` behind one that fails, the
-- addresses of the two arrays, the results of `rand` in turn, and what the threads do together.
-- `dummy` is the pointer of `main` that is not initialised: what the write through it ends in.
pub record Calls : Type 0 where
  pub strerror : Errno → Bytes
  pub timer_message : Bytes
  pub registered : Bool
  pub list : ℕ → Ptr
  pub list_elements : ℕ → Ptr
  pub rand : ℕ → ℕ
  pub created : ℕ → Option Errno
  pub joined : ℕ → Option Errno
  pub run_threads : Act (Unit {0})
  pub dummy : Run (Unit {0})
  pub outputs : Outputs

-- A header without elements.
abbrev empty_header : Ptr → Heap → Heap
empty_header p h = record {
  prev = update h.prev p null;
  next = update h.next p null;
  key = λ a. if a == p then none else h.key a;
}

abbrev pub initialize_headers : (ℕ → Ptr) → (n left : ℕ) → Heap → Heap
initialize_headers list n zero h = h
initialize_headers list n (suc left) h =
    initialize_headers list (n + 1) left (empty_header (list n) h)

-- `calloc` gives zeros.
unfoldable pub initialize_list : Settings → Calls → Bench
initialize_list s calls = record {
  settings = record s {
    lists = record s.lists {
      heap = initialize_headers calls.list 0 (pos_part s.num_lists) s.lists.heap;
    };
  };
  list = calls.list;
  list_elements = calls.list_elements;
  mut = false;
  threads_finished_inserting = pos 0;
  threads_finished_deleting = pos 0;
  list_count = λ _. 0;
  list_count_total = pos 0;
  wait_for_time = pos 0;
  list_deleted = false;
  timer_message = calls.timer_message;
}

abbrev pub key_bits : ℕ
key_bits = 128

-- `left` characters from the results of `rand` from the one numbered `at` on.
unfoldable pub random_key : (rand : ℕ → ℕ) → (at left : ℕ) → Key
random_key rand at zero = []
random_key rand at (suc left) =
    (rand at % visible_ascii_chars + visible_ascii_offset) ∷ random_key rand (at + 1) left

abbrev pub new_element : Ptr → Key → Heap → Heap
new_element p key h = record {
  prev = update h.prev p null;
  next = update h.next p null;
  key = λ a. if a == p then some key else h.key a;
}

unfoldable pub randomize_elements :
    (rand : ℕ → ℕ) → (list_elements : ℕ → Ptr) → (n left : ℕ) → Heap → Heap
randomize_elements rand list_elements n zero h = h
randomize_elements rand list_elements n (suc left) h =
    randomize_elements rand list_elements (n + 1) left
      (new_element (list_elements n) (random_key rand (n * key_bits) key_bits) h)

-- `rand` is what `srand` makes of the time.
unfoldable pub randomize_list_elements : (rand : ℕ → ℕ) → Bench → Bench
randomize_list_elements rand b =
    let w = b.settings.lists in
    set_lists b (record w {
      heap = randomize_elements rand b.list_elements 0 (pos_part b.settings.num_elements) w.heap;
    })

abbrev pub create_threads : (Errno → Bytes) → (ℕ → Option Errno) → ℤ → Run (List ℕ)
create_threads strerror created num_threads =
    each_thread (λ t. called (create_error strerror t) (created t) tt) 0 (pos_part num_threads)

abbrev pub join_threads : (Errno → Bytes) → (ℕ → Option Errno) → ℤ → Run (List ℕ)
join_threads strerror joined num_threads =
    each_thread (λ t. called (join_error strerror t) (joined t) tt) 0 (pos_part num_threads)

-- `memset(list_count, 0, num_lists)` on entries of four bytes that are 0 or 1: `num_lists` is the number
-- of bytes that are set.
unfoldable pub clear_list_count : Bench → Bench
clear_list_count b = record b {
  list_count = λ j. if ltb (4 * j) (pos_part b.settings.num_lists) then 0 else b.list_count j;
}

abbrev pub clear_elements : (ℕ → Ptr) → (n left : ℕ) → Heap → Heap
clear_elements at n zero h = h
clear_elements at n (suc left) h =
    clear_elements at (n + 1) left
      (record h { prev = update h.prev (at n) null; next = update h.next (at n) null })

abbrev clear_headers : (ℕ → Ptr) → (n left : ℕ) → Heap → Heap
clear_headers at n zero h = h
clear_headers at n (suc left) h =
    clear_headers at (n + 1) left (record h { next = update h.next (at n) null })

-- The links that `delete_list` sets; what it frees is not in the model.
unfoldable pub delete_list : Bench → Bench
delete_list b =
    let w = b.settings.lists in
    let cleared = clear_elements b.list_elements 0 (pos_part b.settings.num_elements) w.heap in
    let deleted = record b { list_deleted = true } in
    set_lists deleted
      (record w { heap = clear_headers b.list 0 (pos_part b.settings.num_lists) cleared })

abbrev pub cannot_register : Bytes
cannot_register = codes "Cleanup at exit cannot be registered. Exiting now.\r\n"

-- A call of PreciseTimer.
abbrev timed :
    ((ℕ → Option TimeSpec) → ℕ → PreciseTimer → Option (PreciseTimer × ℕ))
    → PreciseTimer
    → Act PreciseTimer
timed call timer b =
    let w = b.settings.lists in
    elim (call w.clock w.clock_calls timer) [
      | none ↦ exited 2 b.timer_message
      | some (timer', n) ↦ done (timer', set_lists b (record w { clock_calls = n }))
    ]

-- Behind the set-up: the threads between the two readings of the clock.
unfoldable pub measure : Calls → PreciseTimer → Act PreciseTimer
measure calls timer b =
    (do
      started ← timed T.start timer
      on_run (create_threads calls.strerror calls.created b.settings.num_threads)
      calls.run_threads
      on_run (join_threads calls.strerror calls.joined b.settings.num_threads)
      λ b. pure tt (clear_list_count b)
      check_correct_list_length true (pos 0)
      on_run calls.dummy
      timed T.end started)
      b

-- `timer` and `lists` have what the variables hold at the start. The results are the bytes written to
-- the file and to stdout, and the variables at the end.
unfoldable pub main :
    Calls → List Opt → List Bytes → PreciseTimer → World → Run ((Bytes × Bytes) × Bench)
main calls opts words timer lists =
    Sys.and_then (if calls.registered then done tt else exited 2 cannot_register) (λ _.
      Sys.and_then (process_args opts words lists) (λ s.
        let b = randomize_list_elements calls.rand (initialize_list s calls) in
        let ready = set_lists b (initialize_sync (pos_part s.num_lists) b.settings.lists) in
        (do
          ended ← measure calls timer
          λ b. pure tt (delete_list b)
          λ b.
              on_run (append_csv calls.strerror calls.outputs b.settings ended.diff b.wait_for_time)
                b)
          ready))
