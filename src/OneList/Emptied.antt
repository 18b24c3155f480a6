-- ===== src/OneList/Emptied.antt =====
-- What `list_operations` of project 2a/lab2_list.c leaves, where one thread runs it.
use some_low_level_tasks.Prelude.{
  ℕ, zero, suc, ◌+◌, ◌*◌, ◌<◌, ◌≤◌, ◌≡◌, ◌≢◌, refl, ◌∙◌, true, false, some, [], ◌∷◌, arith, ◌==◌,
  length, le→leb, ne→==, leb,
}
use mathlib.Core.Path.{subst}
use some_low_level_tasks.Prelude.Int.{pos_part}
use some_low_level_tasks.System.{done}
use some_low_level_tasks.SortedList.Memory.{Ptr, null, Key, Heap}
use some_low_level_tasks.SortedList.World.{World}
use some_low_level_tasks.SortedList.Chain.{Elements, has, Chain, IsList, sorted_insert, erase, find}
use some_low_level_tasks.SortedList.Insert.{has-sorted_insert}
use some_low_level_tasks.SortedList.Order.{strcmp_self}
use some_low_level_tasks.OneList.Threads.{
  Bench, set_world, insert_loop, check_correct_list_length, delete_loop, list_operations,
}
use some_low_level_tasks.OneList.Laws.{
  Ready, Kept, insert-Ready, delete-Ready, lookup-Ready, length-Ready,
}
use some_low_level_tasks.OneList.Counts.{
  one, count, count-sorted_insert, length-sorted_insert, length-erase, find-has, count-erase,
  count-none,
}

-- How many of the elements from `n` on have a key that compares equal to `m`.
abbrev pending : (ℕ → Key) → (m : Key) → (n left : ℕ) → ℕ
pending key m n zero = 0
pending key m n (suc left) = one m (key n) + pending key m (n + 1) left

-- The entries of the array from `n` to `last`: different nodes, none of them the header, with their keys.
pub record IsArray (b : Bench) (key : ℕ → Key) (n last : ℕ) (w : World) : Type 0 where
  pub not_null : (i : ℕ) → n ≤ i → i < last → b.list_elements i ≢ null
  pub not_header : (i : ℕ) → n ≤ i → i < last → b.list_elements i ≢ b.list
  pub different : (i j : ℕ) → n ≤ i → i < j → j < last → b.list_elements j ≢ b.list_elements i
  pub keys : (i : ℕ) → n ≤ i → i < last → w.heap.key (b.list_elements i) ≡ some (key i)

pub IsArray-same :
    (b : Bench) (key : ℕ → Key) (n last : ℕ) (w w' : World)
    → Kept w w'
    → IsArray b key n last w
    → IsArray b key n last w'
IsArray-same b key n last w w' kept a = record {
  not_null = a.not_null;
  not_header = a.not_header;
  different = a.different;
  keys = λ i p q. kept.keys_kept (b.list_elements i) ∙ a.keys i p q;
}

IsArray-later :
    (b : Bench) (key : ℕ → Key) (n last : ℕ) (w w' : World)
    → Kept w w'
    → IsArray b key n last w
    → IsArray b key (n + 1) last w'
IsArray-later b key n last w w' kept a = record {
  not_null = λ i p q. a.not_null i (omega (arith, p)) q;
  not_header = λ i p q. a.not_header i (omega (arith, p)) q;
  different = λ i j p q r. a.different i j (omega (arith, p)) q r;
  keys = λ i p q. kept.keys_kept (b.list_elements i) ∙ a.keys i (omega (arith, p)) q;
}

pub Kept-Kept : (u v w : World) → Kept u v → Kept v w → Kept u w
Kept-Kept u v w k l = record {
  sync_kept = l.sync_kept ∙ k.sync_kept;
  yield_kept = l.yield_kept ∙ k.yield_kept;
  elements_kept = l.elements_kept ∙ k.elements_kept;
  keys_kept = λ a. l.keys_kept a ∙ k.keys_kept a;
}

has-not_null : (h : Heap) (p a : Ptr) (xs : Elements) → Chain h p xs → has a xs ≡ true → a ≢ null
has-not_null h p a [] c m = cc
has-not_null h p a ((q, j) ∷ xs) c m = ground (arith, has-not_null h q a xs c.4)

module _ (b : Bench) (key : ℕ → Key) (last : ℕ) where
  insert_loop-count :
      (left n : ℕ) (w : World) (xs : Elements)
      → n + left ≡ last
      → Ready w
      → IsList w.heap b.list xs
      → IsArray b key n last w
      → ((i : ℕ) → n ≤ i → i < last → has (b.list_elements i) xs ≡ false)
      → length xs + left ≤ w.num_elements
      → (w' : World) × (ys : Elements) × (insert_loop n left (set_world b w)
          ≡ done (tt, set_world b w'))
        × IsList w'.heap b.list ys
        × Ready w'
        × Kept w w'
        × ((m : Key) → count m ys ≡ count m xs + pending key m n left)
        × (length ys ≡ length xs + left)
  unfolding insert_loop
  insert_loop-count zero n w xs e ready is a out fits = (
    w,
    xs,
    refl,
    is,
    ready,
    record { sync_kept = refl; yield_kept = refl; elements_kept = refl; keys_kept = λ a. refl },
    λ m. omega arith,
    omega arith,
  )
  insert_loop-count (suc left) n w xs e ready is a out fits =
      let here : n < last = omega (arith, e) in
      let el = b.list_elements n in
      let (w1, inserted, is1, ready1, kept1) =
        insert-Ready w ready b.list xs is (omega (arith, fits)) el (key n)
          (a.not_null n (omega arith) here) (a.not_header n (omega arith) here)
          (out n (omega arith) here) (a.keys n (omega arith) here) in
      let longer = length-sorted_insert el (key n) xs in
      let (w2, ys, ran, is2, ready2, kept2, counts, len) =
        insert_loop-count left (n + 1) w1 (sorted_insert el (key n) xs) (omega (arith, e)) ready1
          is1 (IsArray-later b key n last w w1 kept1 a)
          (λ i p q.
            has-sorted_insert (b.list_elements i) el (key n) xs
            ∙ rw
                (
                  ne→== (b.list_elements i) el (a.different n i (omega arith) (omega (arith, p)) q),
                  out i (omega (arith, p)) q,
                )
                refl)
          (omega (arith, longer, fits, kept1.elements_kept)) in
      (
        w2,
        ys,
        rw inserted ran,
        is2,
        ready2,
        Kept-Kept w w1 w2 kept1 kept2,
        λ m. omega (arith, counts m, count-sorted_insert m el (key n) xs),
        omega (arith, len, longer),
      )

  delete_loop-empties :
      (left n : ℕ) (w : World) (xs : Elements)
      → n + left ≡ last
      → Ready w
      → IsList w.heap b.list xs
      → IsArray b key n last w
      → length xs ≤ w.num_elements
      → ((m : Key) → count m xs ≡ pending key m n left)
      → (w' : World) × (delete_loop n left (set_world b w) ≡ done (tt, set_world b w'))
        × IsList w'.heap b.list []
        × Ready w'
        × Kept w w'
  unfolding delete_loop
  delete_loop-empties zero n w xs e ready is a fits counts = (
    w,
    refl,
    subst (IsList w.heap b.list) (count-none xs counts) is,
    ready,
    record { sync_kept = refl; yield_kept = refl; elements_kept = refl; keys_kept = λ a. refl },
  )
  delete_loop-empties (suc left) n w xs e ready is a fits counts =
      let k = key n in
      let read = a.keys n (omega arith) (omega (arith, e)) in
      let (w1, found, same, ready1, kept1) = lookup-Ready w ready b.list xs is fits k in
      let some_left : 0 < count k xs = ground (arith, counts k, strcmp_self k) in
      let el = find k xs in
      let inside = find-has k xs some_left in
      let is1 : IsList w1.heap b.list xs = rw same is in
      let not_null : (el == null) ≡ false =
        ne→== el null (has-not_null w1.heap b.list el xs is1.chain inside) in
      let (w2, deleted, is2, ready2, kept2) = delete-Ready w1 ready1 b.list xs is1 el inside in
      let kept12 = Kept-Kept w w1 w2 kept1 kept2 in
      let (w3, ran, is3, ready3, kept3) =
        delete_loop-empties left (n + 1) w2 (erase el xs) (omega (arith, e)) ready2 is2
          (IsArray-later b key n last w w2 kept12 a)
          (omega (arith, length-erase el xs, fits, kept12.elements_kept))
          (λ m. omega (arith, count-erase m k b.list xs is.distinct some_left, counts m)) in
      (w3, rw (read, found, not_null, deleted) ran, is3, ready3, Kept-Kept w w2 w3 kept12 kept3)

-- One thread on an empty list whose lock is free, with as many elements as it has rounds, all of them
-- different nodes with keys: list_operations takes none of its exits, deletes as many elements as it
-- inserted, whatever their order and however many keys are equal, and leaves the list empty and
-- its lock free, and the options and all keys as they were.
pub list_operations-empties :
    (b : Bench) (key : ℕ → Key) (id : ℕ)
    → Ready b.settings.lists
    → IsList b.settings.lists.heap b.list []
    → IsArray b key
        (id * pos_part b.settings.num_iterations)
        (id * pos_part b.settings.num_iterations + pos_part b.settings.num_iterations)
        b.settings.lists
    → pos_part b.settings.num_iterations ≤ b.settings.lists.num_elements
    → (w : World) × (list_operations id b ≡ done (tt, set_world b w))
      × IsList w.heap b.list []
      × Ready w
      × Kept b.settings.lists w
unfolding list_operations check_correct_list_length
list_operations-empties b key id ready is a fits =
    let rounds = pos_part b.settings.num_iterations in
    let start = id * rounds in
    let (w1, ys, inserted, is1, ready1, kept1, counts, len) =
      insert_loop-count b key (start + rounds) rounds start b.settings.lists [] refl ready is a
        (λ i p q. refl) (omega (arith, fits)) in
    let (w2, counted, same, ready2, kept2) = length-Ready w1 ready1 b.list ys is1 in
    let enough : leb (length ys) w1.num_elements ≡ true =
      le→leb (length ys) w1.num_elements (omega (arith, len, fits, kept1.elements_kept)) in
    let kept12 = Kept-Kept b.settings.lists w1 w2 kept1 kept2 in
    let is2 : IsList w2.heap b.list ys = rw same is1 in
    let (w3, deleted, is3, ready3, kept3) =
      delete_loop-empties b key (start + rounds) rounds start w2 ys refl ready2 is2
        (IsArray-same b key start (start + rounds) b.settings.lists w2 kept12 a)
        (omega (arith, len, fits, kept12.elements_kept)) (λ m. omega (arith, counts m)) in
    (
      w3,
      rw (inserted, counted, enough) deleted,
      is3,
      ready3,
      Kept-Kept b.settings.lists w2 w3 kept12 kept3,
    )
