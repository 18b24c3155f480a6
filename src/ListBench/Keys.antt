-- ===== src/ListBench/Keys.antt =====
-- The keys that `randomize_list_elements` of project 2b/lab2_list.c gives to the elements.
use native.Mathlib.Nat.{mod-lt}
use some_low_level_tasks.Prelude.{
  ℕ, zero, suc, ◌+◌, ◌*◌, ◌≤◌, ◌<◌, ◌≡◌, ◌≢◌, refl, true, inl, inr, some, [], ◌∷◌, length, arith,
  ◌==◌, Bool-cases, ap, ne→==, ==_iff,
}
use some_low_level_tasks.Prelude.Int.{pos, pos_part}
use some_low_level_tasks.System.{done, first_char}
use some_low_level_tasks.SortedList.Memory.{Ptr, Key, Heap, null}
use some_low_level_tasks.ListBench.Bins.{get_bin, get_bin-div}
use some_low_level_tasks.ListBench.State.{Bench}
use some_low_level_tasks.ListBench.Main.{
  random_key, key_bits, randomize_elements, randomize_list_elements,
}

-- Every character is a visible one of ASCII.
abbrev pub IsVisible : Key → Type 0
IsVisible [] = Unit {0}
IsVisible (c ∷ key) = (32 ≤ c) × (c ≤ 126) × IsVisible key

random_key-IsVisible : (rand : ℕ → ℕ) (at left : ℕ) → IsVisible (random_key rand at left)
unfolding random_key
random_key-IsVisible rand at zero = tt
random_key-IsVisible rand at (suc left) = (
  omega arith,
  omega (arith, mod-lt (rand at) {m = 95} (omega arith)),
  random_key-IsVisible rand (at + 1) left,
)

length-random_key : (rand : ℕ → ℕ) (at left : ℕ) → length (random_key rand at left) ≡ left
unfolding random_key
length-random_key rand at zero = refl
length-random_key rand at (suc left) = ap suc (length-random_key rand (at + 1) left)

first_char-small : (key : Key) → IsVisible key → first_char key < 256
first_char-small [] v = omega arith
first_char-small (c ∷ key) v = omega (arith, v.1)

refl_== : (a : ℕ) → (a == a) ≡ true
refl_== a = ground arith

-- What an element has: links to NULL and its key.
abbrev HasKey : Heap → Ptr → Key → Type 0
HasKey h p key = (h.key p ≡ some key) × (h.next p ≡ null) × (h.prev p ≡ null)

-- Different entries of an array are at different addresses.
abbrev pub AllApart : (ℕ → Ptr) → Type 0
AllApart at = (i j : ℕ) → i ≢ j → at i ≢ at j

module _ (rand : ℕ → ℕ) (list_elements : ℕ → Ptr) (apart : AllApart list_elements) where
  abbrev key_at : ℕ → Key
  key_at n = random_key rand (n * key_bits) key_bits

  -- The loop keeps the elements before `n`.
  randomize_elements-keeps :
      (i n left : ℕ) (h : Heap)
      → i < n
      → HasKey h (list_elements i) (key_at i)
      → HasKey (randomize_elements rand list_elements n left h) (list_elements i) (key_at i)
  unfolding randomize_elements
  randomize_elements-keeps i n zero h l has = has
  randomize_elements-keeps i n (suc left) h l has =
      let other = ne→== (list_elements i) (list_elements n) (apart i n (omega (arith, l))) in
      randomize_elements-keeps i (n + 1) left _ (omega (arith, l))
        (rw other has.0, rw other has.1, rw other has.2)

  pub randomize_elements-HasKey :
      (i n left : ℕ) (h : Heap)
      → n ≤ i
      → i < n + left
      → HasKey (randomize_elements rand list_elements n left h) (list_elements i) (key_at i)
  unfolding randomize_elements
  randomize_elements-HasKey i n zero h low high = absurd (omega (arith, low, high))
  randomize_elements-HasKey i n (suc left) h low high = elim (Bool-cases (n == i)) [
    | inl here ↦
        let same : ◌≡◌ n i = (==_iff n i).0 here in
        randomize_elements-keeps i (n + 1) left _ (omega arith)
          (rw (same, refl_== (list_elements i)) (refl, refl, refl))
    | inr later ↦ randomize_elements-HasKey i (n + 1) left _ (ground arith) (omega (arith, high))
  ]

-- Each of the elements gets a key of 128 visible characters, and `get_bin` puts it into one of the lists.
pub randomize_list_elements-get_bin :
    (rand : ℕ → ℕ) (b : Bench) (num_lists n : ℕ)
    → AllApart b.list_elements
    → b.settings.num_lists ≡ pos num_lists
    → 0 < num_lists
    → n < pos_part b.settings.num_elements
    → (key : Key) × (bin : ℕ) × ((randomize_list_elements rand b).settings.lists.heap.key
          (b.list_elements n)
        ≡ some key)
      × (length key ≡ 128)
      × IsVisible key
      × (get_bin b.settings.num_lists key ≡ done bin)
      × (bin < num_lists)
unfolding randomize_list_elements
randomize_list_elements-get_bin rand b num_lists n apart lists some_list l =
    let key = random_key rand (n * 128) 128 in
    let visible = random_key-IsVisible rand (n * 128) 128 in
    let has =
      randomize_elements-HasKey rand b.list_elements apart n 0 (pos_part b.settings.num_elements)
        b.settings.lists.heap (omega arith) (omega (arith, l)) in
    let (found, below) = get_bin-div num_lists key some_list (first_char-small key visible) in
    (key, _, has.0, length-random_key rand (n * 128) 128, visible, rw lists found, below)
