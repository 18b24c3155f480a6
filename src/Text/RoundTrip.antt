-- ===== src/Text/RoundTrip.antt =====
-- What `%d` prints is what `atoi` reads.
use some_low_level_tasks.Prelude.{
  ℕ, zero, suc, ◌+◌, ◌/◌, ◌%◌, ◌≤◌, ◌≡◌, ◌≢◌, refl, false, inl, inr, [], ◌∷◌, arith, ◌==◌,
  Bool-cases, ◌∙◌, ap,
}
use some_low_level_tasks.Prelude.Int.{ℤ, pos, negsuc, sub_ℕ}
use some_low_level_tasks.Text.{Bytes, print_digits, decimal, signed, read_digits, atoi}

-- Every byte is a digit.
abbrev pub IsNumber : Bytes → Type 0
IsNumber [] = Unit {0}
IsNumber (c ∷ text) = (b'0' ≤ c) × (c ≤ b'9') × IsNumber text

print_digits-IsNumber :
    (fuel n : ℕ) (out : Bytes) → IsNumber out → IsNumber (print_digits fuel n out)
unfolding print_digits
print_digits-IsNumber zero n out h = h
print_digits-IsNumber (suc fuel) n out h = elim (Bool-cases (n == 0)) [
  | inl end ↦ rw end h
  | inr more ↦
      rw more
        (print_digits-IsNumber fuel (n / 10) ((b'0' + n % 10) ∷ out) (omega arith, omega arith, h))
]

pub decimal-IsNumber : (n : ℕ) → IsNumber (decimal n)
unfolding decimal
decimal-IsNumber n = elim (Bool-cases (n == 0)) [
  | inl z ↦ rw z (omega arith, omega arith, tt)
  | inr p ↦ rw p (print_digits-IsNumber n n [] tt)
]

read_digits_last :
    (n : ℕ) (out : Bytes) → read_digits (n / 10) ((b'0' + n % 10) ∷ out) ≡ read_digits n out
unfolding read_digits
read_digits_last n out = ground arith

print_digits-ne-nil : (fuel n : ℕ) (out : Bytes) → out ≢ [] → print_digits fuel n out ≢ []
unfolding print_digits
print_digits-ne-nil zero n out h = h
print_digits-ne-nil (suc fuel) n out h = elim (Bool-cases (n == 0)) [
  | inl end ↦ rw end h
  | inr more ↦ rw more (print_digits-ne-nil fuel (n / 10) ((b'0' + n % 10) ∷ out) (λ e. cc))
]

pub decimal-ne-nil : (n : ℕ) → decimal n ≢ []
unfolding decimal print_digits
decimal-ne-nil zero = λ e. cc
decimal-ne-nil (suc n) =
    let positive : (suc n == 0) ≡ false = ground arith in
    λ e. print_digits-ne-nil n (suc n / 10) ((b'0' + suc n % 10) ∷ []) (λ q. cc) (rw positive at e)

read_digits-print_digits :
    (fuel n : ℕ) (out : Bytes)
    → n ≤ fuel
    → read_digits 0 (print_digits fuel n out) ≡ read_digits n out
unfolding print_digits
read_digits-print_digits zero n out h = let z : n ≡ 0 = omega arith in rw z refl
read_digits-print_digits (suc fuel) n out h = elim (Bool-cases (n == 0)) [
  | inl end ↦ let z : n ≡ 0 = ground arith in rw (end, z) refl
  | inr more ↦ rw more (
      read_digits-print_digits fuel (n / 10) ((b'0' + n % 10) ∷ out) (omega arith)
      ∙ read_digits_last n out)
]

read_digits-decimal : (n : ℕ) → read_digits 0 (decimal n) ≡ n
unfolding decimal read_digits
read_digits-decimal n = elim (Bool-cases (n == 0)) [
  | inl z ↦ let zero_n : n ≡ 0 = ground arith in rw zero_n refl
  | inr p ↦ rw p (read_digits-print_digits n n [] (omega arith))
]

-- A number that starts with a digit is read as its digits.
atoi-IsNumber : (text : Bytes) → IsNumber text → text ≢ [] → atoi text ≡ pos (read_digits 0 text)
unfolding atoi
atoi-IsNumber [] t n = absurd (n refl)
atoi-IsNumber (c ∷ text) t n = ground arith

minus_number : (text : Bytes) → atoi (b'-' ∷ text) ≡ sub_ℕ 0 (read_digits 0 text)
unfolding atoi
minus_number text = refl

-- `atoi` reads back what `%d` prints, for every integer.
pub atoi-signed : (z : ℤ) → atoi (signed z) ≡ z
atoi-signed (pos n) =
    atoi-IsNumber (decimal n) (decimal-IsNumber n) (decimal-ne-nil n)
    ∙ ap pos (read_digits-decimal n)
atoi-signed (negsuc n) =
    minus_number (decimal (suc n)) ∙ rw (read_digits-decimal (suc n)) (ground arith)
