-- ===== src/Ext2/Free/Spec.antt =====
-- What `read_free_list` of project 3a/ImgReader.c finds: the first bits that are 0.
use Prim.Native.Nat.{bit_and}
use some_low_level_tasks.Prelude.{
  ℕ, zero, suc, ◌+◌, ◌*◌, ◌-◌, ◌≤◌, ◌<◌, ◌≡◌, refl, ap, ◌∙◌, ◌==◌, Bool, inl, inr, List, [], ◌∷◌,
  ◌++◌, arith, leb, le→leb, gt→leb, dec_le, if◌then◌else◌, take, length, length-append, length-take,
  Bool-cases, append_nil, append_assoc,
}
use some_low_level_tasks.Ext2.Image.{Disk, block_size, SuperBlock, group, num_groups}
use some_low_level_tasks.Ext2.Free.{
  Scan, go_on, returned, continue, test_count, scan_bits, scan_bytes, scan_groups, per_group, frees,
  bitmap, read_free_list, result,
}

-- The numbers of the bits of a byte that are 0.
unfoldable pub clear_bits : (byte first left k mask : ℕ) → List ℕ
clear_bits byte first zero k mask = []
clear_bits byte first (suc left) k mask =
    (if bit_and byte mask == 0 then (first + k + 1) ∷ [] else [])
    ++ clear_bits byte first left (k + 1) (mask * 2)

-- Those of `left` bytes of a bitmap.
unfoldable pub clear_bytes : Disk → (bitmap first left j : ℕ) → List ℕ
clear_bytes disk bitmap first zero j = []
clear_bytes disk bitmap first (suc left) j =
    clear_bits (disk (bitmap * block_size + j)) (first + j * 8) 8 0 1
    ++ clear_bytes disk bitmap first left (j + 1)

-- A loop that takes the numbers of `found` one by one and returns when it has `frees`.
abbrev reached : ℕ → List ℕ → ℕ → List ℕ → Scan
reached frees free_list free_count found =
    if leb frees (free_count + length found)
    then returned (free_list ++ take (frees - free_count) found) frees
    else go_on (free_list ++ found) (free_count + length found)

add_assoc : (a b c : ℕ) → a + b + c ≡ a + (b + c)
add_assoc a b c = omega arith

pub take-append_left : (n : ℕ) (xs ys : List ℕ) → n ≤ length xs → take n (xs ++ ys) ≡ take n xs
take-append_left zero xs ys h = refl
take-append_left (suc n) [] ys h = absurd (omega arith)
take-append_left (suc n) (x ∷ xs) ys h = ap (λ r. x ∷ r) (take-append_left n xs ys (omega arith))

take-append_right :
    (n m : ℕ) (xs ys : List ℕ) → n ≡ length xs + m → take n (xs ++ ys) ≡ xs ++ take m ys
take-append_right n m [] ys e = ap (λ k. take k ys) (omega arith)
take-append_right zero m (x ∷ xs) ys e = absurd (omega arith)
take-append_right (suc n) m (x ∷ xs) ys e =
    ap (λ r. x ∷ r) (take-append_right n m xs ys (omega arith))

take_all : (n : ℕ) (xs : List ℕ) → length xs ≤ n → take n xs ≡ xs
take_all zero [] h = refl
take_all zero (x ∷ xs) h = absurd (omega arith)
take_all (suc n) [] h = refl
take_all (suc n) (x ∷ xs) h = ap (λ r. x ∷ r) (take_all n xs (omega arith))

reached-append :
    (frees : ℕ) (l : List ℕ) (c : ℕ) (xs ys : List ℕ)
    → ¬ (frees ≤ c + length xs)
    → reached frees (l ++ xs) (c + length xs) ys ≡ reached frees l c (xs ++ ys)
reached-append frees l c xs ys room = elim (dec_le frees (c + length xs + length ys)) [
  | yes full ↦ rw (
    le→leb frees (c + length xs + length ys) full,
    le→leb frees (c + length (xs ++ ys)) (omega (arith, length-append xs ys)),
    take-append_right (frees - c) (frees - (c + length xs)) xs ys (omega arith),
    append_assoc l xs (take (frees - (c + length xs)) ys),
  )
  | no more ↦ rw (
    gt→leb frees (c + length xs + length ys) more,
    gt→leb frees (c + length (xs ++ ys)) (omega (arith, length-append xs ys)),
    append_assoc l xs ys,
    length-append xs ys,
    add_assoc c (length xs) (length ys),
  )
]

continue-reached :
    (frees : ℕ) (l : List ℕ) (c : ℕ) (xs ys : List ℕ) (f : List ℕ → ℕ → Scan)
    → c < frees
    → ((l' : List ℕ) (c' : ℕ) → c' < frees → f l' c' ≡ reached frees l' c' ys)
    → continue (reached frees l c xs) f ≡ reached frees l c (xs ++ ys)
continue-reached frees l c xs ys f h rest = elim (dec_le frees (c + length xs)) [
  | yes full ↦ rw (
    le→leb frees (c + length xs) full,
    le→leb frees (c + length (xs ++ ys)) (omega (arith, length-append xs ys)),
    take-append_left (frees - c) xs ys (omega arith),
  )
  | no room ↦
      rw (gt→leb frees (c + length xs) room)
        (rest (l ++ xs) (c + length xs) (omega arith) ∙ reached-append frees l c xs ys room)
]

zero_add : (c : ℕ) → 0 + c ≡ c
zero_add c = omega arith

sub_zero : (c : ℕ) → c - 0 ≡ c
sub_zero c = omega arith

add_zero : (c : ℕ) → c + 0 ≡ c
add_zero c = omega arith

reached_none : (frees : ℕ) (l : List ℕ) (c : ℕ) → c < frees → go_on l c ≡ reached frees l c []
reached_none frees l c h = rw (gt→leb frees (c + 0) (omega arith), append_nil l, add_zero c)

test_none :
    (frees : ℕ) (l : List ℕ) (c : ℕ) → c < frees → test_count frees l c ≡ reached frees l c []
test_none frees l c h = rw (gt→leb frees c (omega arith)) (reached_none frees l c h)

test_one :
    (frees : ℕ) (l : List ℕ) (c x : ℕ)
    → c < frees
    → test_count frees (l ++ x ∷ []) (c + 1) ≡ reached frees l c (x ∷ [])
test_one frees l c x h = elim (dec_le frees (c + 1)) [
  | yes last ↦
      let same : c + 1 ≡ frees = omega arith in
      rw (le→leb frees (c + 1) last, take_all (frees - c) (x ∷ []) (omega arith), same)
  | no more ↦ rw (gt→leb frees (c + 1) more)
]

scan_bits-reached :
    (byte frees first left k mask : ℕ) (l : List ℕ) (c : ℕ)
    → c < frees
    → scan_bits byte frees first left k mask l c
      ≡ reached frees l c (clear_bits byte first left k mask)
unfolding scan_bits clear_bits
scan_bits-reached byte frees first zero k mask l c h = reached_none frees l c h
scan_bits-reached byte frees first (suc left) k mask l c h =
    elim (Bool-cases (bit_and byte mask == 0)) [
      | inl clear ↦
          rw (clear, test_one frees l c (first + k + 1) h)
            (continue-reached frees l c ((first + k + 1) ∷ [])
              (clear_bits byte first left (k + 1) (mask * 2))
              (scan_bits byte frees first left (k + 1) (mask * 2)) h
              (λ l' c' h'. scan_bits-reached byte frees first left (k + 1) (mask * 2) l' c' h'))
      | inr used ↦
          rw (used, test_none frees l c h)
            (continue-reached frees l c [] (clear_bits byte first left (k + 1) (mask * 2))
              (scan_bits byte frees first left (k + 1) (mask * 2)) h
              (λ l' c' h'. scan_bits-reached byte frees first left (k + 1) (mask * 2) l' c' h'))
    ]

scan_bytes-reached :
    (disk : Disk) (bitmap frees first left j : ℕ) (l : List ℕ) (c : ℕ)
    → c < frees
    → scan_bytes disk bitmap frees first left j l c
      ≡ reached frees l c (clear_bytes disk bitmap first left j)
unfolding scan_bytes clear_bytes
scan_bytes-reached disk bitmap frees first zero j l c h = reached_none frees l c h
scan_bytes-reached disk bitmap frees first (suc left) j l c h =
    rw (scan_bits-reached (disk (bitmap * block_size + j)) frees (first + j * 8) 8 0 1 l c h) (
      continue-reached frees l c (clear_bits (disk (bitmap * block_size + j)) (first + j * 8) 8 0 1)
        (clear_bytes disk bitmap first left (j + 1))
        (scan_bytes disk bitmap frees first left (j + 1)) h
        (λ l' c' h'. scan_bytes-reached disk bitmap frees first left (j + 1) l' c' h'))

-- The numbers of the bits of the bitmap of the first group that are 0.
abbrev pub first_group : Disk → SuperBlock → Bool → List ℕ
first_group disk s is_bfree =
    clear_bytes disk (bitmap (group disk 0) is_bfree) 0 (per_group s is_bfree) 0

pub scan_groups_first :
    (disk : Disk) (s : SuperBlock) (is_bfree : Bool) (left : ℕ)
    → 1 ≤ frees (group disk 0) is_bfree
    → scan_groups disk s is_bfree (suc left) 0 [] 0
      ≡ continue
          (reached (frees (group disk 0) is_bfree) [] 0 (first_group disk s is_bfree))
          (scan_groups disk s is_bfree left 1)
unfolding scan_groups
scan_groups_first disk s is_bfree left h =
    let at_start : 0 * per_group s is_bfree ≡ 0 = omega arith in
    rw (
      at_start,
      scan_bytes-reached disk (bitmap (group disk 0) is_bfree) (frees (group disk 0) is_bfree) 0
          (per_group s is_bfree) 0 [] 0 h,
    )

-- Where the bits of the first group are enough, whatever follows.
pub first_enough :
    (frees : ℕ) (xs : List ℕ) (f : List ℕ → ℕ → Scan)
    → frees ≤ length xs
    → result (continue (reached frees [] 0 xs) f) ≡ (take frees xs, frees)
first_enough frees xs f h = rw (zero_add (length xs), le→leb frees (length xs) h, sub_zero frees)

first_all :
    (frees : ℕ) (xs : List ℕ)
    → ¬ (frees ≤ length xs)
    → result (continue (reached frees [] 0 xs) go_on) ≡ (xs, length xs)
first_all frees xs h = rw (zero_add (length xs), gt→leb frees (length xs) h)

one_group :
    (frees : ℕ) (xs : List ℕ)
    → result (continue (reached frees [] 0 xs) go_on) ≡ (take frees xs, length (take frees xs))
one_group frees xs = elim (dec_le frees (length xs)) [
  | yes h ↦
      let size : length (take frees xs) ≡ frees = omega (arith, length-take frees xs) in
      first_enough frees xs go_on h ∙ rw size
  | no h ↦ first_all frees xs h ∙ rw (take_all frees xs (omega arith))
]

-- On an image with one group whose descriptor counts at least one free block (or inode), `read_free_list`
-- gives as many numbers as are counted: those of the first bits of the bitmap that are 0, in order and
-- from 1. Where there are fewer it gives all.
pub read_free_list-take :
    (disk : Disk) (s : SuperBlock) (is_bfree : Bool)
    → num_groups s ≡ 1
    → 1 ≤ frees (group disk 0) is_bfree
    → read_free_list disk s is_bfree ≡ (
      take (frees (group disk 0) is_bfree) (first_group disk s is_bfree),
      length (take (frees (group disk 0) is_bfree) (first_group disk s is_bfree)),
    )
unfolding read_free_list scan_groups
read_free_list-take disk s is_bfree one some_free =
    rw (one, scan_groups_first disk s is_bfree 0 some_free)
      (one_group (frees (group disk 0) is_bfree) (first_group disk s is_bfree))
