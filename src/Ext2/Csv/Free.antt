-- ===== src/Ext2/Csv/Free.antt =====
-- The lines of the free blocks and inodes that project 3a/CsvWriter.c prints, read back.
use some_low_level_tasks.Prelude.{
  ℕ, ◌^◌, ◌≤◌, ◌<◌, ◌≡◌, refl, List, [], ◌∷◌, ◌++◌, map, length, length-append, arith, ◌∙◌, ap,
  lt→ltb, gt→leb,
}
use some_low_level_tasks.Text.{Bytes, decimal}
use some_low_level_tasks.Text.Csv.{csv_line, IsField, decimal-IsField}
use some_low_level_tasks.Text.Lines.{read_lines, read_lines-csv_line, length-decimal}
use some_low_level_tasks.System.{done, into}
use some_low_level_tasks.Ext2.Csv.{free_lines, int_field}

-- The numbers have at most eight digits.
abbrev pub AllShort : List ℕ → Type 0
AllShort [] = Unit {0}
AllShort (n ∷ numbers) = (n < 10 ^ 8) × AllShort numbers

number_line :
    (name : Bytes) (n : ℕ)
    → length name ≤ 5
    → n < 10 ^ 8
    → into 16 (csv_line (name ∷ int_field n ∷ [])) ≡ done (csv_line (name ∷ decimal n ∷ []))
number_line name n short l =
    rw
      (
        lt→ltb n (2 ^ 31) (omega (arith, l)),
        gt→leb 16 (length (name ++ b',' ∷ (decimal n ++ 10 ∷ []))) (omega (arith, fits)),
      )
      refl
  where
    fits : length (name ++ b',' ∷ (decimal n ++ 10 ∷ [])) ≤ 15
    fits =
        rw (length-append name (b',' ∷ (decimal n ++ 10 ∷ [])), length-append (decimal n) (10 ∷ []))
          (omega (arith, short, length-decimal 7 n l))

-- A list of numbers below 10^8 is printed in full, without an overflow of `buf`, and the lines give the
-- name and the numbers back, in their order.
pub read_lines-free_lines :
    (name : Bytes) (numbers : List ℕ)
    → IsField name
    → length name ≤ 5
    → AllShort numbers
    → (out : Bytes) × (free_lines name (length numbers) numbers ≡ done out)
      × (read_lines [] [] out ≡ map (λ n. name ∷ decimal n ∷ []) numbers)
unfolding free_lines read_lines
read_lines-free_lines name [] field short all = ([], refl, refl)
read_lines-free_lines name (n ∷ numbers) field short all =
    let (more, printed, back) = read_lines-free_lines name numbers field short all.1 in
    (
      csv_line (name ∷ decimal n ∷ []) ++ more,
      rw (number_line name n short all.0, printed) refl,
      read_lines-csv_line [] name (decimal n ∷ []) more (field, (decimal-IsField n, tt))
          ∙ ap (λ lines. (name ∷ decimal n ∷ []) ∷ lines) back,
    )
