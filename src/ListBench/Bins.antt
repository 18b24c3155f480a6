-- ===== src/ListBench/Bins.antt =====
-- `get_bin` of project 2b/lab2_list.c: the sublist of a key, from its first character.
use native.Mathlib.Nat.{div-add-mod, mod-lt, div-eq_of_lt-le, div-eq_of_lt}
use some_low_level_tasks.Prelude.{
  ℕ, zero, suc, ◌+◌, ◌-◌, ◌*◌, ◌/◌, ◌%◌, ◌≤◌, ◌<◌, ◌≡◌, refl, inl, inr, arith, Bool, true, false,
  ltb→lt, lt→ltb, Bool-cases, ◌==◌, if◌then◌else◌, ==_iff, dec_lt, ltb, sym, ◌∙◌,
}
use some_low_level_tasks.Prelude.Int.{ℤ, pos, negsuc, ◌-ℤ◌, ltb_ℤ, pos_part}
use some_low_level_tasks.Text.{Bytes, codes}
use some_low_level_tasks.System.{Run, done, exited, crashed, first_char}

abbrev pub visible_ascii_chars : ℕ
visible_ascii_chars = 95

abbrev pub visible_ascii_offset : ℕ
visible_ascii_offset = 32

unfoldable pub bad_key : Bytes
bad_key = codes "Invalid key does not fit into a sub list.\r\n"

abbrev pub bin_size : (num_lists : ℕ) → ℕ
bin_size num_lists =
    let whole = visible_ascii_chars / num_lists in
    if visible_ascii_chars % num_lists == 0 then whole else whole + 1

-- `*key`: a byte as a `char`, which is signed.
abbrev pub signed_char : ℕ → ℤ
signed_char c = if ltb c 128 then pos c else negsuc (255 - c)

-- `*key - VISIBLE_ASCII_CHARS < (bin + 1) * bin_size`
abbrev pub fits_bin : (c size bin : ℕ) → Bool
fits_bin c size bin = ltb_ℤ (signed_char c -ℤ pos visible_ascii_chars) (pos ((bin + 1) * size))

-- The loop, with `left` values of `bin` below `num_lists`.
unfoldable pub bin_loop : (c size left bin : ℕ) → Run ℕ
bin_loop c size zero bin = exited 2 bad_key
bin_loop c size (suc left) bin =
    let later = bin_loop c size left (bin + 1) in if fits_bin c size bin then done bin else later

-- A negative number of lists ends the loop at once.
unfoldable pub get_bin : (num_lists : ℤ) → Bytes → Run ℕ
get_bin (pos zero) key = crashed
get_bin (pos (suc m)) key = bin_loop (first_char key) (bin_size (suc m)) (suc m) 0
get_bin (negsuc m) key = exited 2 bad_key

signed_char-pos : (c : ℕ) → c < 128 → signed_char c ≡ pos c
signed_char-pos c ascii = rw (lt→ltb c 128 ascii) refl

fits_bin-ltb :
    (c size bin : ℕ)
    → c < 128
    → fits_bin c size bin ≡ ltb (c - 95 + 0) ((bin + 1) * size + (95 - c))
unfolding ◌-ℤ◌
fits_bin-ltb c size bin ascii = rw (signed_char-pos c ascii) (ground arith)

fits_bin-lt : (c size bin : ℕ) → c < 128 → fits_bin c size bin ≡ true → c < 95 + (bin + 1) * size
fits_bin-lt c size bin ascii h =
    let less =
      ltb→lt (c - 95 + 0) ((bin + 1) * size + (95 - c)) (sym (fits_bin-ltb c size bin ascii) ∙ h) in
    omega (arith, less)

fits_bin-ge : (c size bin : ℕ) → c < 128 → fits_bin c size bin ≡ false → 95 + (bin + 1) * size ≤ c
fits_bin-ge c size bin ascii h = elim (dec_lt c (95 + (bin + 1) * size)) [
  | yes less ↦ absurd (refute less)
  | no more ↦ omega (arith, more)
]
  where
    refute : c < 95 + (bin + 1) * size → ⊥
    refute less =
        let test = lt→ltb (c - 95 + 0) ((bin + 1) * size + (95 - c)) (omega (arith, less)) in
        cc (test, h, fits_bin-ltb c size bin ascii)

-- A byte that is negative as a `char` fits the first bin.
fits_bin-negative : (c size : ℕ) → 128 ≤ c → fits_bin c size 0 ≡ true
unfolding ◌-ℤ◌
fits_bin-negative c size high =
    let negative : signed_char c ≡ negsuc (255 - c) = ground (arith, high) in
    rw negative (ground arith)

bin_loop-negative : (c size left : ℕ) → 128 ≤ c → bin_loop c size (suc left) 0 ≡ done 0
unfolding bin_loop
bin_loop-negative c size left high = rw (fits_bin-negative c size high) refl

bin_loop_ends :
    (c size left bin : ℕ)
    → c < 128
    → bin * size ≤ c - 95
    → c < 95 + (bin + left) * size
    → 0 < left
    → (b : ℕ) × (bin_loop c size left bin ≡ done b)
      × (b < bin + left)
      × (b * size ≤ c - 95)
      × (c < 95 + (b + 1) * size)
unfolding bin_loop
bin_loop_ends c size zero bin ascii low high more = absurd (omega (arith, more))
bin_loop_ends c size (suc left) bin ascii low high more = elim (Bool-cases (fits_bin c size bin)) [
  | inl fits ↦ (bin, rw fits refl, omega arith, low, fits_bin-lt c size bin ascii fits)
  | inr not_yet ↦
      let above = fits_bin-ge c size bin ascii not_yet in
      let (b, e, less, low', high') =
        bin_loop_ends c size left (bin + 1) ascii (omega (arith, above)) (omega (arith, high))
          (some_left left above high) in
      (b, rw not_yet e, omega (arith, less), low', high')
]
  where
    some_left : (left : ℕ) → 95 + (bin + 1) * size ≤ c → c < 95 + (bin + suc left) * size → 0 < left
    some_left zero above high = absurd (omega (arith, above, high))
    some_left (suc left) above high = omega arith

bin_size-mul : (n : ℕ) → 0 < n → 95 ≤ n * bin_size n
bin_size-mul n p = elim (Bool-cases (95 % n == 0)) [
  | inl exact ↦ rw exact (omega (arith, div-add-mod 95 n, (==_iff (95 % n) 0).0 exact))
  | inr rest ↦ rw rest (omega (arith, div-add-mod 95 n, mod-lt 95 p))
]

bin_size-positive : (n : ℕ) → 0 < n → 0 < bin_size n
bin_size-positive n p = positive n (bin_size n) (bin_size-mul n p)
  where
    positive : (n size : ℕ) → 95 ≤ n * size → 0 < size
    positive n zero h = absurd (omega (arith, h))
    positive n (suc size) h = omega arith

get_bin-ascii :
    (m : ℕ) (key : Bytes)
    → first_char key < 128
    → (get_bin (pos (suc m)) key ≡ done ((first_char key - 95) / bin_size (suc m)))
      × ((first_char key - 95) / bin_size (suc m) < suc m)
unfolding get_bin
get_bin-ascii m key ascii =
    let c = first_char key in
    let total = bin_size-mul (suc m) (omega arith) in
    let (b, e, less, low, high) =
      bin_loop_ends c (bin_size (suc m)) (suc m) 0 ascii (omega arith) (omega (arith, total, ascii))
        (omega arith) in
    let same =
      div-eq_of_lt-le {k = b} (bin_size (suc m)) low
        (omega (arith, high, bin_size-positive (suc m) (omega arith))) in
    (rw same e, rw same (omega (arith, less)))

-- For a positive number of lists and any key, a byte above 127 standing for a negative `char`, `get_bin`
-- returns: 0 for a negative first character, and for the others how often the size of a bin goes
-- into the character less 95. That is a number below the number of lists.
pub get_bin-div :
    (num_lists : ℕ) (key : Bytes)
    → 0 < num_lists
    → first_char key < 256
    → (get_bin (pos num_lists) key
        ≡ done ((pos_part (signed_char (first_char key)) - 95) / bin_size num_lists))
      × ((pos_part (signed_char (first_char key)) - 95) / bin_size num_lists < num_lists)
unfolding get_bin
get_bin-div zero key p byte = absurd (omega (arith, p))
get_bin-div (suc m) key p byte = elim (dec_lt (first_char key) 128) [
  | yes ascii ↦ rw (signed_char-pos (first_char key) ascii) (get_bin-ascii m key ascii)
  | no high ↦
      let none_of : ltb (first_char key) 128 ≡ false = ground (arith, high) in
      let zero_bin : 0 / bin_size (suc m) ≡ 0 = div-eq_of_lt (bin_size-positive (suc m) p) in
      let found = bin_loop-negative (first_char key) (bin_size (suc m)) m (omega (arith, high)) in
      rw (none_of, zero_bin) (found, p)
]

-- With at most three lists `get_bin` puts every visible key into the first one: the others stay empty.
pub get_bin-zero :
    (num_lists : ℕ) (key : Bytes)
    → 0 < num_lists
    → num_lists ≤ 3
    → first_char key < visible_ascii_offset + visible_ascii_chars
    → get_bin (pos num_lists) key ≡ done 0
get_bin-zero num_lists key p few visible =
    let (e, less) = get_bin-div num_lists key p (omega (arith, visible)) in
    rw
      (
        e,
        signed_char-pos (first_char key) (omega (arith, visible)),
        div-eq_of_lt (small num_lists p few (bin_size-mul num_lists p)),
      )
      refl
  where
    small : (n : ℕ) → 0 < n → n ≤ 3 → 95 ≤ n * bin_size n → first_char key - 95 < bin_size n
    small zero p few h = absurd (omega (arith, p))
    small (suc zero) p few h = omega (arith, h, visible)
    small (suc (suc zero)) p few h = omega (arith, h, visible)
    small (suc (suc (suc zero))) p few h = omega (arith, h, visible)
    small (suc (suc (suc (suc n)))) p few h = absurd (omega (arith, few))
