-- ===== src/Text/Lines.antt =====
-- Several lines of fields, and their fields again.
use some_low_level_tasks.Prelude.{
  ℕ, zero, suc, ◌+◌, ◌/◌, ◌%◌, ◌^◌, ◌≤◌, ◌<◌, ◌≡◌, refl, inl, inr, List, [], ◌∷◌, ◌++◌, arith, ◌==◌,
  if◌then◌else◌, Bool-cases, ◌∙◌, append_snoc, append_nil, append_assoc, ne→==, length,
}
use some_low_level_tasks.Text.{Bytes, decimal, print_digits}
use some_low_level_tasks.Text.Csv.{csv_line, IsField, AllFields}

-- The fields of each line, behind `fields` and the bytes `field` of the first one. Bytes behind the last
-- newline are no line.
unfoldable pub read_lines : List Bytes → Bytes → Bytes → List (List Bytes)
read_lines fields field [] = []
read_lines fields field (c ∷ text) =
    let line = read_lines [] [] text in
    let next = read_lines (fields ++ field ∷ []) [] text in
    let more = read_lines fields (field ++ c ∷ []) text in
    if c == 10 then (fields ++ field ∷ []) ∷ line else if c == b',' then next else more

read_lines-IsField :
    (fields : List Bytes) (seen field rest : Bytes)
    → IsField field
    → read_lines fields seen (field ++ rest) ≡ read_lines fields (seen ++ field) rest
unfolding read_lines
read_lines-IsField fields seen [] rest t = rw (append_nil seen) refl
read_lines-IsField fields seen (c ∷ field) rest t =
    rw (ne→== c 10 t.1, ne→== c b',' t.0)
      (read_lines-IsField fields (seen ++ c ∷ []) field rest t.2
        ∙ rw (append_snoc seen field c) refl)

-- A printed line gives its fields, and the lines behind it are read from the start.
pub read_lines-csv_line :
    (before : List Bytes) (field : Bytes) (fields : List Bytes) (rest : Bytes)
    → AllFields (field ∷ fields)
    → read_lines before [] (csv_line (field ∷ fields) ++ rest)
      ≡ (before ++ field ∷ fields) ∷ read_lines [] [] rest
unfolding read_lines
read_lines-csv_line before field [] rest t =
    rw (append_snoc field rest 10) (read_lines-IsField before [] field (10 ∷ rest) t.0)
read_lines-csv_line before field (next ∷ fields) rest t =
    rw (append_assoc field (b',' ∷ csv_line (next ∷ fields)) rest) (
      read_lines-IsField before [] field (b',' ∷ csv_line (next ∷ fields) ++ rest) t.0
      ∙ (read_lines-csv_line (before ++ field ∷ []) next fields rest t.1
          ∙ rw (append_snoc before (next ∷ fields) field) refl))

print_digits-short :
    (k fuel n : ℕ) (out : Bytes) → n < 10 ^ k → length (print_digits fuel n out) ≤ length out + k
unfolding print_digits
print_digits-short k zero n out l = omega arith
print_digits-short zero (suc fuel) n out l = elim (Bool-cases (n == 0)) [
  | inl z ↦ rw z (omega arith)
  | inr p ↦ absurd (ground (arith, p, l))
]
print_digits-short (suc k) (suc fuel) n out l = elim (Bool-cases (n == 0)) [
  | inl z ↦ rw z (omega arith)
  | inr p ↦
      rw p (
        omega
          (arith, print_digits-short k fuel (n / 10) ((b'0' + n % 10) ∷ out) (omega (arith, l))))
]

-- A number below 10^k has at most k digits.
pub length-decimal : (k n : ℕ) → n < 10 ^ suc k → length (decimal n) ≤ suc k
unfolding decimal
length-decimal k n l = elim (Bool-cases (n == 0)) [
  | inl z ↦ rw z (omega arith)
  | inr p ↦ rw p (omega (arith, print_digits-short (suc k) n n [] l))
]
