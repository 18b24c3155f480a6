-- ===== src/OneList/InTurn.antt =====
-- Threads of project 2a/lab2_list.c that run one after the other, and `main` around them.
use some_low_level_tasks.Prelude.{
  ℕ, ◌+◌, ◌-◌, ◌*◌, ◌<◌, ◌≤◌, ◌≡◌, refl, none, List, [], ◌∷◌, arith, inr, ap, le→leb, sym, ◌∙◌,
}
use some_low_level_tasks.Prelude.Int.{ℤ, pos_part}
use some_low_level_tasks.Text.{Bytes}
use some_low_level_tasks.System.{Errno, Outputs, done}
use some_low_level_tasks.System as Sys
use some_low_level_tasks.System.Messages.{create_error, join_error}
use some_low_level_tasks.System.Laws.{each_thread-all}
use some_low_level_tasks.Timer.{TimeSpec}
use some_low_level_tasks.Adder.Main.{diff_time}
use some_low_level_tasks.SortedList.Memory.{Key}
use some_low_level_tasks.SortedList.World.{SyncOption, mutex, spinlock, unsynced, World}
use some_low_level_tasks.SortedList.Chain.{IsList}
use some_low_level_tasks.OneList.Options.{Settings, compute_test_name, append_csv}
use some_low_level_tasks.OneList.Threads.{
  Bench, Act, pure, ◌>>◌, set_world, check_correct_list_length, list_operations,
}
use some_low_level_tasks.OneList.Main.{Calls, destroy_mutex, delete_list, measure}
use some_low_level_tasks.OneList.Laws.{Ready, Kept, length-Ready}
use some_low_level_tasks.OneList.Emptied.{IsArray, IsArray-same, Kept-Kept, list_operations-empties}

-- The threads with these numbers, each when the one before it has returned.
unfoldable pub in_turn : List ℕ → Act (Unit {0})
in_turn [] = pure tt
in_turn (id ∷ ids) = list_operations id >> in_turn ids

abbrev pub AllBelow : ℕ → List ℕ → Type 0
AllBelow n [] = Unit {0}
AllBelow n (id ∷ ids) = (id < n) × AllBelow n ids

module _ (b : Bench) (key : ℕ → Key) (threads : ℕ) where
  abbrev rounds : ℕ
  rounds = pos_part b.settings.num_iterations

  own_elements : (id i : ℕ) → id < threads → i < id * rounds + rounds → i < threads * rounds
  own_elements id i l h =
      let more = threads - (id + 1) in
      let e : threads ≡ id + 1 + more = omega (arith, l) in rw e (omega (arith, h, split more id))
    where
      split : (d n : ℕ) → (n + 1 + d) * rounds ≡ n * rounds + rounds + d * rounds
      split d n = omega arith

  IsArray-own :
      (id : ℕ) (w : World)
      → id < threads
      → IsArray b key 0 (threads * rounds) w
      → IsArray (set_world b w) key (id * rounds) (id * rounds + rounds) w
  IsArray-own id w l a = record {
    not_null = λ i p q. a.not_null i (omega arith) (own_elements id i l q);
    not_header = λ i p q. a.not_header i (omega arith) (own_elements id i l q);
    different = λ i j p q r. a.different i j (omega arith) q (own_elements id j l r);
    keys = λ i p q. a.keys i (omega arith) (own_elements id i l q);
  }

  in_turn-empties :
      (ids : List ℕ) (w : World)
      → AllBelow threads ids
      → Ready w
      → IsList w.heap b.list []
      → IsArray b key 0 (threads * rounds) w
      → rounds ≤ w.num_elements
      → (w' : World) × (in_turn ids (set_world b w) ≡ done (tt, set_world b w'))
        × IsList w'.heap b.list []
        × Ready w'
        × Kept w w'
  unfolding in_turn
  in_turn-empties [] w l ready is a fits = (
    w,
    refl,
    is,
    ready,
    record { sync_kept = refl; yield_kept = refl; elements_kept = refl; keys_kept = λ a. refl },
  )
  in_turn-empties (id ∷ ids) w l ready is a fits =
      let (w1, ran, is1, ready1, kept1) =
        list_operations-empties (set_world b w) key id ready is (IsArray-own id w l.0 a) fits in
      let (w2, later, is2, ready2, kept2) =
        in_turn-empties ids w1 l.1 ready1 is1 (IsArray-same b key 0 (threads * rounds) w w1 kept1 a)
          (omega (arith, fits, kept1.elements_kept)) in
      (w2, rw ran later, is2, ready2, Kept-Kept w w1 w2 kept1 kept2)

  -- The mutex is destroyed, and the lock behind it returns.
  destroy_mutex-returns :
      (calls : Calls) (w : World)
      → (w.sync_opt ≡ mutex → calls.relocked ≡ done tt)
      → destroy_mutex calls (set_world b w) ≡ done (tt, set_world b w)
  destroy_mutex-returns calls w relocks = by w.sync_opt refl
    where
      by :
          (s : SyncOption)
          → w.sync_opt ≡ s
          → destroy_mutex calls (set_world b w) ≡ done (tt, set_world b w)
      by mutex e = rw (e, relocks e) refl
      by spinlock e = rw e refl
      by unsynced e = rw e refl

  -- append_csv reads nothing of the lists.
  append_csv-lists :
      (strerror : Errno → Bytes) (out : Outputs) (s : Settings) (w : World) (run_time : ℤ)
      → append_csv strerror out (record s { lists = w }) run_time
        ≡ append_csv strerror out s run_time
  unfolding append_csv compute_test_name
  append_csv-lists strerror out s w run_time = refl

  -- Where the calls succeed and the threads run one after the other, in any order and each as often as it
  -- is named, on an empty list whose lock is free, with enough different nodes for all of them, and where,
  -- under a mutex, the lock of the mutex that main has destroyed by then returns: behind its set-up
  -- main takes no exit before append_csv, the list is empty then, and the line gets the
  -- time between the two readings of the clock.
  pub measure-in_turn :
      (calls : Calls) (ids : List ℕ) (started ended : TimeSpec)
      → calls.run_threads b ≡ in_turn ids b
      → calls.start_clock ≡ inr started
      → calls.end_clock ≡ inr ended
      → ((t : ℕ) → calls.created t ≡ none)
      → ((t : ℕ) → calls.joined t ≡ none)
      → (b.settings.lists.sync_opt ≡ mutex → calls.relocked ≡ done tt)
      → AllBelow threads ids
      → Ready b.settings.lists
      → IsList b.settings.lists.heap b.list []
      → IsArray b key 0 (threads * rounds) b.settings.lists
      → rounds ≤ b.settings.lists.num_elements
      → (w : World) × IsList w.heap b.list []
        × Ready w
        × (measure calls b
            ≡ Sys.and_then
                (append_csv calls.strerror calls.outputs b.settings (diff_time started ended))
                (λ lines. done (lines, delete_list (set_world b w))))
  unfolding measure check_correct_list_length delete_list
  measure-in_turn calls ids started ended turn at_start at_end created joined relocks below ready is
        a fits =
      let (w1, ran, is1, ready1, kept1) =
        in_turn-empties ids b.settings.lists below ready is a fits in
      let (w2, counted, same, ready2, kept2) = length-Ready w1 ready1 b.list [] is1 in
      let is2 : IsList w2.heap b.list [] = rw same is1 in
      (
        w2,
        is2,
        ready2,
        rw
            (
              at_start,
              each_thread-all (create_error calls.strerror) calls.created 0
                  (pos_part b.settings.num_threads) (λ i p q. created i),
              turn,
              ran,
              each_thread-all (join_error calls.strerror) calls.joined 0
                  (pos_part b.settings.num_threads) (λ i p q. joined i),
              destroy_mutex-returns calls w1 (λ e. relocks (sym kept1.sync_kept ∙ e)),
              counted,
              at_end,
              le→leb 0 w1.num_elements (omega arith),
            )
            (ap (λ o. Sys.and_then o (λ lines. done (lines, delete_list (set_world b w2))))
              (append_csv-lists calls.strerror calls.outputs b.settings
                (delete_list (set_world b w2)).settings.lists (diff_time started ended))),
      )
