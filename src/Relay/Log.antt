-- ===== src/Relay/Log.antt =====
-- The lines that `write_log` of project 1b (lab1b-server.c) writes.
use some_low_level_tasks.Prelude.{
  ℕ, zero, suc, ◌+◌, ◌^◌, ◌/◌, ◌%◌, ◌≤◌, ◌<◌, ◌≡◌, ◌≢◌, refl, ap, ◌==◌, Bool, true, false, [], ◌∷◌,
  ◌++◌, arith, ltb, leb, inl, inr, Bool-cases, length, take, if◌then◌else◌, ne→==, append_assoc,
  length-append,
}
use native.Mathlib.Nat.{pow-suc}
use some_low_level_tasks.Text.{Bytes, codes, decimal, print_digits}
use some_low_level_tasks.System.{done, overflow, into, first_char}
use some_low_level_tasks.Relay.{count_digits, num_digits}
use some_low_level_tasks.Relay.Laws.{HasDigits, num_digits-HasDigits}
use some_low_level_tasks.Relay.Check.{lt_0}
use some_low_level_tasks.Relay.Options.{before_nul}
use some_low_level_tasks.Relay.Socket.{Relay, Calls, direction, logged_copy, write_log}

-- No byte is a NUL.
abbrev pub IsText : Bytes → Type 0
IsText [] = Unit {0}
IsText (c ∷ text) = (c ≢ 0) × IsText text

pub before_nul_whole : (text : Bytes) → IsText text → before_nul text ≡ text
unfolding before_nul
before_nul_whole [] t = refl
before_nul_whole (c ∷ text) t = rw (ne→== c 0 t.0, before_nul_whole text t.1) refl

pub take-whole : (n : ℕ) (text : Bytes) → length text ≤ n → take n text ≡ text
take-whole zero [] l = refl
take-whole zero (c ∷ text) l = absurd (omega (arith, l))
take-whole (suc n) [] l = refl
take-whole (suc n) (c ∷ text) l = rw (take-whole n text (omega (arith, l))) refl

pub take-append : (xs ys : Bytes) → take (length xs) (xs ++ ys) ≡ xs
take-append [] ys = refl
take-append (x ∷ xs) ys = rw (take-append xs ys) refl

print_digits-count_digits :
    (fuel n digits : ℕ) (out : Bytes)
    → length (print_digits fuel n out) + digits ≡ count_digits fuel n digits + length out
unfolding print_digits count_digits
print_digits-count_digits zero n digits out = omega arith
print_digits-count_digits (suc fuel) n digits out = elim (Bool-cases (n == 0)) [
  | inl z ↦ let none_left : ltb 0 n ≡ false = ground arith in rw (z, none_left) (omega arith)
  | inr p ↦
      let some_left : ltb 0 n ≡ true = ground arith in
      rw (p, some_left)
        (omega
          (arith, print_digits-count_digits fuel (n / 10) (digits + 1) ((b'0' + n % 10) ∷ out)))
]

-- A positive number is printed with as many digits as `num_digits` says.
pub length-decimal : (n : ℕ) → 0 < n → length (decimal n) ≡ num_digits n
unfolding decimal
length-decimal n p =
    let z : (n == 0) ≡ false = ground arith in
    rw z (omega (arith, print_digits-count_digits n n 0 []))

three_digits : (n d : ℕ) → HasDigits n d → 100 ≤ n → 3 ≤ d
three_digits n zero h l = absurd (omega (arith, h.0, l))
three_digits n (suc zero) h l = absurd (omega (arith, h.0, l))
three_digits n (suc (suc zero)) h l = absurd (omega (arith, h.0, l))
three_digits n (suc (suc (suc d))) h l = omega arith

pow_positive : (d : ℕ) → 0 < 10 ^ d
pow_positive zero = omega arith
pow_positive (suc d) = omega (arith, pow-suc 10 d, pow_positive d)

two_digits : (n d : ℕ) → HasDigits n d → n < 100 → d ≤ 2
two_digits n zero h l = omega arith
two_digits n (suc zero) h l = omega arith
two_digits n (suc (suc zero)) h l = omega arith
two_digits n (suc (suc (suc d))) (below, inl h) l = absurd (
    omega (arith, l, h, pow-suc 10 (suc (suc d)), pow-suc 10 (suc d), pow-suc 10 d, pow_positive d))
two_digits n (suc (suc (suc d))) (below, inr h) l = absurd (omega (arith, h))

into_fails : (size : ℕ) (text : Bytes) → size ≤ length text → into size text ≡ overflow
into_fails size text l = let e : leb size (length text) ≡ true = ground arith in rw e refl

into_fits : (size : ℕ) (text : Bytes) → length text < size → into size text ≡ done text
into_fits size text l = let e : leb size (length text) ≡ false = ground arith in rw e refl

-- A message of a hundred bytes or more makes `write_log` write past `str_bytes`, whatever its bytes are.
pub write_log_over :
    (calls : Calls) (buf : Bytes) (bytes : ℕ) (is_sent : Bool) (r : Relay)
    → 100 ≤ bytes
    → (write_log calls buf bytes is_sent r).0 ≡ overflow
unfolding write_log
write_log_over calls buf bytes is_sent r l =
    let digits = length-decimal bytes (omega (arith, l)) in
    let three = three_digits bytes (num_digits bytes) (num_digits-HasDigits bytes) l in
    rw (into_fails 3 (decimal bytes) (omega (arith, digits, three))) refl

-- The line for a message.
abbrev pub log_line : (is_sent : Bool) → Bytes → Bytes
log_line is_sent buf =
    (if is_sent then codes "SENT " else codes "RECEIVED ")
    ++ (decimal (length buf) ++ (codes " bytes: " ++ (buf ++ 10 ∷ [])))

log_parts :
    (log : Bytes) (is_sent : Bool) (buf : Bytes)
    → (((log ++ direction is_sent) ++ decimal (length buf)) ++ codes " bytes: " ++ buf) ++ 10 ∷ []
      ≡ log ++ log_line is_sent buf
log_parts log is_sent buf = simp append_assoc

logged_copy-IsText :
    (buf : Bytes)
    → IsText buf
    → first_char buf ≢ 3
    → first_char buf ≢ 4
    → logged_copy buf (length buf) ≡ buf ++ 0 ∷ []
unfolding logged_copy
logged_copy-IsText buf t three four =
    rw
      (
        take-whole (length buf) buf (omega arith),
        before_nul_whole buf t,
        ne→== (first_char buf) 3 three,
        ne→== (first_char buf) 4 four,
      )
      refl

-- A message of 1 to 99 bytes, none of them NUL, that does not begin with CTRL+C or CTRL+D gets one line,
-- with its direction, its length and its bytes, behind what the log had, where the write to the log
-- does not fail.
pub write_log-log_line :
    (calls : Calls) (buf : Bytes) (is_sent : Bool) (r : Relay)
    → 0 < length buf
    → length buf < 100
    → IsText buf
    → first_char buf ≢ 3
    → first_char buf ≢ 4
    → ((q : Relay) → lt_0 (calls.log_result q).code ≡ false)
    → write_log calls buf (length buf) is_sent r
      ≡ (done tt, record r { log = r.log ++ log_line is_sent buf })
unfolding write_log
write_log-log_line calls buf is_sent r p l t three four ok =
    let n = length buf in
    let digits = length-decimal n p in
    let two = two_digits n (num_digits n) (num_digits-HasDigits n) l in
    let inside : ltb (length (buf ++ 0 ∷ [])) n ≡ false =
      ground (arith, length-append buf (0 ∷ [])) in
    rw
      (
        into_fits 3 (decimal n) (omega (arith, digits, two)),
        logged_copy-IsText buf t three four,
        inside,
        ok _,
        take-append buf (0 ∷ []),
        take-whole (num_digits n) (decimal n) (omega (arith, digits)),
      )
      (ap (λ text. (done tt, record r { log = text })) (log_parts r.log is_sent buf))
