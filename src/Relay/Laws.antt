-- ===== src/Relay/Laws.antt =====
-- The sizes of project 1b, and what the client sends.
use native.Mathlib.Nat.{mod-lt, div-add-mod', pow-suc}
use mathlib.Core.Path.{subst}
use some_low_level_tasks.Prelude.{
  ℕ, zero, suc, ◌+◌, ◌*◌, ◌^◌, ◌/◌, ◌%◌, ◌≤◌, ◌<◌, ◌≡◌, refl, ◌==◌, Bool, true, false, List, [],
  ◌∷◌, ◌++◌, arith, ltb, inl, inr, ◌⊎◌, ==_iff, Bool-cases, if◌then◌else◌,
}
use some_low_level_tasks.Relay.{
  calculate_block, count_digits, num_digits, Effect, send_out2, effects, triggered, relay_client,
}

succ_mul : (a b : ℕ) → (a + 1) * b ≡ a * b + b
succ_mul a b = omega arith

-- `calculate_block` gives the least multiple of the block size that is not below the size.
pub calculate_block_least :
    (blocksize size : ℕ)
    → 0 < blocksize
    → (k : ℕ) × (calculate_block blocksize size ≡ k * blocksize)
      × (size ≤ k * blocksize)
      × (k * blocksize < size + blocksize)
unfolding calculate_block
calculate_block_least blocksize size pos = elim (Bool-cases (size % blocksize == 0)) [
  | inl full ↦ (
    size / blocksize,
    rw full,
    omega (arith, div-add-mod' size blocksize, (==_iff (size % blocksize) 0).0 full),
    omega (arith, div-add-mod' size blocksize, pos),
  )
  | inr part ↦ (
    size / blocksize + 1,
    rw part,
    omega (
      arith,
      div-add-mod' size blocksize,
      mod-lt size pos,
      succ_mul (size / blocksize) blocksize,
    ),
    omega (
      arith,
      div-add-mod' size blocksize,
      succ_mul (size / blocksize) blocksize,
      rest_positive part,
    ),
  )
]
  where
    rest_positive : (size % blocksize == 0) ≡ false → 0 < size % blocksize
    rest_positive e = ground arith

-- The characters that end the session: CTRL+C and CTRL+D, sent to the server.
abbrev pub is_exit : Effect → ℕ
is_exit (send_out2 (input ∷ [])) = if input == 3 then 1 else if input == 4 then 1 else 0
is_exit _ = 0

abbrev pub exits : List Effect → ℕ
exits [] = 0
exits (e ∷ es) = is_exit e + exits es

abbrev pub flag : Bool → ℕ
flag true = 1
flag false = 0

exits-append : (xs ys : List Effect) → exits (xs ++ ys) ≡ exits xs + exits ys
exits-append [] ys = omega arith
exits-append (x ∷ xs) ys = omega (arith, exits-append xs ys)

effects-exits :
    (initial t : Bool) (input : ℕ)
    → exits (effects false initial t input) + flag t ≡ flag (triggered initial t input)
unfolding effects triggered
effects-exits true true input = ground arith
effects-exits true false input = ground arith
effects-exits false t input = ground arith

-- Whatever is read, the client sends the server as many CTRL+C and CTRL+D as `exit_triggered` counts:
-- one where it gets set, and none where it was set before.
pub relay_client-exits :
    (initial t after_cr : Bool) (chars : List ℕ)
    → exits (relay_client initial t after_cr chars).0 + flag t
      ≡ flag (relay_client initial t after_cr chars).1
unfolding relay_client
relay_client-exits initial t after_cr [] = omega arith
relay_client-exits initial t false (input ∷ chars) = omega (
  arith,
  exits-append (effects false initial t input)
      (relay_client initial (triggered initial t input) (input == 13) chars).0,
  effects-exits initial t input,
  relay_client-exits initial (triggered initial t input) (input == 13) chars,
)
relay_client-exits initial t true (input ∷ chars) = elim (Bool-cases (input == 10)) [
  | inl skipped ↦ rw skipped (relay_client-exits initial t false chars)
  | inr kept ↦ rw kept (
      omega (
        arith,
        exits-append (effects false initial t input)
            (relay_client initial (triggered initial t input) (input == 13) chars).0,
        effects-exits initial t input,
        relay_client-exits initial (triggered initial t input) (input == 13) chars,
      ))
]

-- `d` digits are enough for `num`, and fewer are not.
abbrev pub HasDigits : ℕ → ℕ → Type 0
HasDigits num d = (num < 10 ^ d) × ((10 ^ d ≤ 10 * num) ⊎ (d ≡ 0))

HasDigits-suc : (num d : ℕ) → 0 < num → HasDigits (num / 10) d → HasDigits num (suc d)
HasDigits-suc num d n (below, inl some_left) =
    (omega (arith, pow-suc 10 d, below), inl (omega (arith, pow-suc 10 d, some_left)))
HasDigits-suc num d n (below, inr last) =
    let one : 10 ^ d ≡ 1 = rw last refl in
    (omega (arith, pow-suc 10 d, below), inl (omega (arith, pow-suc 10 d, one)))

count_digits-HasDigits :
    (fuel num digits : ℕ)
    → num ≤ fuel
    → (d : ℕ) × (count_digits fuel num digits ≡ digits + d) × HasDigits num d
unfolding count_digits
count_digits-HasDigits zero num digits h = (0, omega arith, (omega arith, inr refl))
count_digits-HasDigits (suc fuel) num digits h = elim (Bool-cases (ltb 0 num)) [
  | inl positive ↦
      let n : 0 < num = ground arith in
      let (d, e, has_digits) = count_digits-HasDigits fuel (num / 10) (digits + 1) (omega arith) in
      (suc d, rw positive (omega (arith, e)), HasDigits-suc num d n has_digits)
  | inr none_left ↦
      let z : num ≡ 0 = ground arith in
      (0, rw none_left (omega arith), (omega (arith, z), inr refl))
]

-- `num_digits` gives the number of digits of a positive number in base ten, and 0 for 0: so many are
-- enough, and fewer are not. Its loop ends within as many rounds as the number says.
pub num_digits-HasDigits : (num : ℕ) → HasDigits num (num_digits num)
num_digits-HasDigits num =
    let (d, e, has_digits) = count_digits-HasDigits num num 0 (omega arith) in
    let same : d ≡ num_digits num = omega (arith, e) in subst (HasDigits num) same has_digits
