-- ===== src/Text.antt =====
-- The text functions of the C library that the programs use, on bytes: `%d` of printf, `atoi`, and
-- lines of fields with commas between them.
pub mod RoundTrip
pub mod Csv
pub mod Lines
pub mod Within
use Prim.Native.String
use Prim.Native.String.{String}
use Prim.Native.Char.{code}
use some_low_level_tasks.Prelude.{
  ℕ, zero, suc, ◌+◌, ◌-◌, ◌*◌, ◌/◌, ◌%◌, Bool, ◌&&◌, ◌||◌, List, [], ◌∷◌, ◌++◌, leb, ◌==◌,
  if◌then◌else◌,
}
use some_low_level_tasks.Prelude.Int.{ℤ, pos, negsuc, sub_ℕ}

abbrev pub Bytes : Type 0
Bytes = List ℕ

-- The bytes of a literal of ASCII characters.
abbrev pub codes : String → Bytes
codes String.[] = []
codes (String.◌∷◌ c s) = code c ∷ codes s

-- The digits of `n` in front of `out`, with `fuel` rounds; `n` is enough, as each divides by ten.
unfoldable pub print_digits : (fuel n : ℕ) → Bytes → Bytes
print_digits zero n out = out
print_digits (suc fuel) n out =
    let more = print_digits fuel (n / 10) ((b'0' + n % 10) ∷ out) in if n == 0 then out else more

-- `%d` of a number that is not negative.
unfoldable pub decimal : ℕ → Bytes
decimal n = if n == 0 then b'0' ∷ [] else print_digits n n []

-- `%d`, `%ld` and `%lld`
abbrev pub signed : ℤ → Bytes
signed (pos n) = decimal n
signed (negsuc n) = b'-' ∷ decimal (suc n)

abbrev pub is_digit : ℕ → Bool
is_digit c = leb b'0' c && leb c b'9'

abbrev is_space : ℕ → Bool
is_space c = (c == b' ') || (leb 9 c && leb c 13)

-- The value of the digits in front, behind those that gave `n`.
unfoldable pub read_digits : ℕ → Bytes → ℕ
read_digits n [] = n
read_digits n (c ∷ text) =
    let more = read_digits (n * 10 + (c - b'0')) text in if is_digit c then more else n

abbrev read_signed : Bytes → ℤ
read_signed [] = pos 0
read_signed (c ∷ text) =
    if c == b'-'
    then sub_ℕ 0 (read_digits 0 text)
    else if c == b'+'
    then pos (read_digits 0 text)
    else pos (read_digits 0 (c ∷ text))

-- `atoi` and `atol` of a text whose value is in range.
unfoldable pub atoi : Bytes → ℤ
atoi [] = pos 0
atoi (c ∷ text) = let skipped = atoi text in if is_space c then skipped else read_signed (c ∷ text)
