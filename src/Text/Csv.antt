-- ===== src/Text/Csv.antt =====
-- A line of fields with commas between them, as the programs print it, and its fields again.
use some_low_level_tasks.Prelude.{
  ℕ, suc, ◌≡◌, ◌≢◌, refl, List, [], ◌∷◌, ◌++◌, arith, ◌==◌, if◌then◌else◌, ◌∙◌, append_snoc,
  append_nil, ne→==, ap,
}
use some_low_level_tasks.Prelude.Int.{ℤ, pos, negsuc}
use some_low_level_tasks.Text.{Bytes, decimal, signed}
use some_low_level_tasks.Text.RoundTrip.{IsNumber, decimal-IsNumber}

-- `"%s,%s,…\n"`
abbrev pub csv_line : List Bytes → Bytes
csv_line [] = 10 ∷ []
csv_line (field ∷ []) = field ++ 10 ∷ []
csv_line (field ∷ next ∷ fields) = field ++ b',' ∷ csv_line (next ∷ fields)

-- The fields of the first line of a text, behind the bytes `field` of the first one.
unfoldable pub read_fields : Bytes → Bytes → List Bytes
read_fields field [] = field ∷ []
read_fields field (c ∷ text) =
    let more = read_fields (field ++ c ∷ []) text in
    let next = read_fields [] text in
    if c == 10 then field ∷ [] else if c == b',' then field ∷ next else more

-- No comma and no newline.
abbrev pub IsField : Bytes → Type 0
IsField [] = Unit {0}
IsField (c ∷ field) = (c ≢ b',') × (c ≢ 10) × IsField field

abbrev pub AllFields : List Bytes → Type 0
AllFields [] = Unit {0}
AllFields (field ∷ fields) = IsField field × AllFields fields

pub IsNumber-IsField : (text : Bytes) → IsNumber text → IsField text
IsNumber-IsField [] t = tt
IsNumber-IsField (c ∷ text) t = (omega (arith, t.0), omega (arith, t.0), IsNumber-IsField text t.2)

pub decimal-IsField : (n : ℕ) → IsField (decimal n)
decimal-IsField n = IsNumber-IsField (decimal n) (decimal-IsNumber n)

read_fields-IsField :
    (seen field rest : Bytes)
    → IsField field
    → read_fields seen (field ++ rest) ≡ read_fields (seen ++ field) rest
unfolding read_fields
read_fields-IsField seen [] rest t = rw (append_nil seen) refl
read_fields-IsField seen (c ∷ field) rest t =
    rw (ne→== c 10 t.1, ne→== c b',' t.0)
      (read_fields-IsField (seen ++ c ∷ []) field rest t.2 ∙ rw (append_snoc seen field c) refl)

-- The fields of a line that was printed are those that were given, where none has a comma or a newline.
pub read_fields-csv_line :
    (field : Bytes) (fields : List Bytes)
    → AllFields (field ∷ fields)
    → read_fields [] (csv_line (field ∷ fields)) ≡ field ∷ fields
unfolding read_fields
read_fields-csv_line field [] t = read_fields-IsField [] field (10 ∷ []) t.0
read_fields-csv_line field (next ∷ fields) t =
    read_fields-IsField [] field (b',' ∷ csv_line (next ∷ fields)) t.0
    ∙ ap (λ r. field ∷ r) (read_fields-csv_line next fields t.1)

pub signed-IsField : (z : ℤ) → IsField (signed z)
signed-IsField (pos n) = decimal-IsField n
signed-IsField (negsuc n) = (omega arith, omega arith, decimal-IsField (suc n))
