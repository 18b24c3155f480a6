-- ===== src/Console/Padded.antt =====
-- The C arrays of project 4b/lab4b.c while they hold a line: the line, and NULs behind it.
use mathlib.Core.Path.{subst}
use some_low_level_tasks.Prelude.{
  ℕ, zero, suc, ◌+◌, ◌-◌, ◌≤◌, ◌<◌, ◌≡◌, refl, none, some, List, [], ◌∷◌, ◌++◌, arith, length,
  get_or, take, drop, ap, dec_lt, append_snoc, append_nil, sym, ◌∙◌,
}
use some_low_level_tasks.Console.Line.{
  store, clear, strncpy, starts_with, copy_period, c_string, first_bytes,
}

-- An array of `n` bytes that holds `line`.
unfoldable pub padded : ℕ → List ℕ → List ℕ
padded zero line = []
padded (suc n) [] = 0 ∷ padded n []
padded (suc n) (c ∷ line) = c ∷ padded n line

-- Every byte is visible.
abbrev pub IsText : List ℕ → Type 0
IsText [] = Unit {0}
IsText (c ∷ line) = (32 ≤ c) × (c ≤ 126) × IsText line

pub store_append :
    (n : ℕ) (line : List ℕ) (b : ℕ)
    → length line < n
    → store (padded n line) (length line) b ≡ some (padded n (line ++ b ∷ []))
unfolding store padded
store_append zero line b h = absurd (omega arith)
store_append (suc n) [] b h = refl
store_append (suc n) (c ∷ line) b h = rw (store_append n line b (omega arith))

pub store_over :
    (n : ℕ) (line : List ℕ) (b : ℕ) → length line ≤ n → store (padded n line) n b ≡ none
unfolding store padded
store_over zero line b h = refl
store_over (suc n) [] b h = rw (store_over n [] b (omega arith))
store_over (suc n) (c ∷ line) b h = rw (store_over n line b (omega arith))

pub store_last :
    (n : ℕ) (c : ℕ) (line : List ℕ)
    → length line < n
    → store (padded n (c ∷ line)) (length line) 0 ≡ some (padded n (take (length line) (c ∷ line)))
unfolding store padded
store_last zero c line h = absurd (omega arith)
store_last (suc n) c [] h = refl
store_last (suc n) c (d ∷ line) h = rw (store_last n d line (omega arith))

pub clear-padded :
    (n : ℕ) (line : List ℕ)
    → length line ≤ n
    → clear (length line) (padded n line) ≡ some (padded n [])
unfolding clear padded
clear-padded n [] h = refl
clear-padded zero (c ∷ line) h = absurd (omega arith)
clear-padded (suc n) (c ∷ line) h = rw (clear-padded n line (omega arith))

pub strncpy-padded :
    (n : ℕ) (line : List ℕ)
    → length line ≤ n
    → IsText line
    → strncpy (length line) (padded n line) (padded n []) ≡ some (padded n line)
unfolding strncpy padded
strncpy-padded n [] h t = refl
strncpy-padded zero (c ∷ line) h t = absurd (omega arith)
strncpy-padded (suc n) (c ∷ line) h t = ground (arith, strncpy-padded n line (omega arith) t.2)

pub starts_with-padded :
    (n : ℕ) (word line : List ℕ)
    → length line ≤ n
    → IsText word
    → starts_with word (padded n line) ≡ starts_with word line
unfolding starts_with padded
starts_with-padded n [] line h t = refl
starts_with-padded zero (c ∷ word) [] h t = refl
starts_with-padded zero (c ∷ word) (d ∷ line) h t = absurd (omega arith)
starts_with-padded (suc n) (c ∷ word) [] h t = ground arith
starts_with-padded (suc n) (c ∷ word) (d ∷ line) h t =
    ground (arith, starts_with-padded n word line (omega arith) t.2)

pub get_or-padded :
    (n : ℕ) (line : List ℕ) (i : ℕ) → length line ≤ n → get_or (padded n line) i 0 ≡ get_or line i 0
unfolding padded
get_or-padded zero [] i h = refl
get_or-padded zero (c ∷ line) i h = absurd (omega arith)
get_or-padded (suc n) [] zero h = refl
get_or-padded (suc n) [] (suc i) h = get_or-padded n [] i (omega arith)
get_or-padded (suc n) (c ∷ line) zero h = refl
get_or-padded (suc n) (c ∷ line) (suc i) h = get_or-padded n line i (omega arith)

pub first_bytes-padded :
    (n : ℕ) (line : List ℕ) → length line ≤ n → first_bytes (length line) (padded n line) ≡ line
unfolding padded
first_bytes-padded n [] h = refl
first_bytes-padded zero (c ∷ line) h = absurd (omega arith)
first_bytes-padded (suc n) (c ∷ line) h = ap (λ r. c ∷ r) (first_bytes-padded n line (omega arith))

pub drop-padded :
    (n : ℕ) (line : List ℕ) (i : ℕ) → drop i (padded n line) ≡ padded (n - i) (drop i line)
unfolding padded
drop-padded n line zero = ap (λ k. padded k line) (omega arith)
drop-padded zero [] (suc i) = ap (λ k. padded k []) {x = 0} {y = 0 - suc i} (omega arith)
drop-padded zero (c ∷ line) (suc i) =
    ap (λ k. padded k (drop i line)) {x = 0} {y = 0 - suc i} (omega arith)
drop-padded (suc n) [] (suc i) = drop-padded n [] i ∙ ends i
  where
    ends : (j : ℕ) → padded (n - j) (drop j []) ≡ padded (suc n - suc j) []
    ends zero = ap (λ k. padded k []) (omega arith)
    ends (suc j) = ap (λ k. padded k []) (omega arith)
drop-padded (suc n) (c ∷ line) (suc i) =
    drop-padded n line i ∙ ap (λ k. padded k (drop i line)) (omega arith)

pub length_snoc : (xs : List ℕ) (c : ℕ) → length (xs ++ c ∷ []) ≡ length xs + 1
length_snoc [] c = refl
length_snoc (x ∷ xs) c = omega (arith, length_snoc xs c)

copy_period_next :
    (left : ℕ) (c : ℕ) (bytes : List ℕ) (j : ℕ) (period p : List ℕ)
    → store period j c ≡ some p
    → copy_period (suc left) (c ∷ bytes) j period ≡ copy_period left bytes (j + 1) p
unfolding copy_period
copy_period_next left c bytes j period p e = rw (e, copy_period)

copy_period_snoc :
    (m n : ℕ) (ds xs : List ℕ) (c : ℕ)
    → length xs < n
    → copy_period (suc (length ds)) (c ∷ padded m ds) (length xs) (padded n xs)
      ≡ copy_period (length ds) (padded m ds) (length (xs ++ c ∷ [])) (padded n (xs ++ c ∷ []))
copy_period_snoc m n ds xs c room =
    copy_period_next (length ds) c (padded m ds) (length xs) (padded n xs) (padded n (xs ++ c ∷ []))
      (store_append n xs c room)
    ∙ ap (λ j. copy_period (length ds) (padded m ds) j (padded n (xs ++ c ∷ [])))
        (sym (length_snoc xs c))

copy_period_stop :
    (left : ℕ) (c : ℕ) (bytes : List ℕ) (j : ℕ) (period : List ℕ)
    → store period j c ≡ none
    → copy_period (suc left) (c ∷ bytes) j period ≡ none
unfolding copy_period
copy_period_stop left c bytes j period e = rw (e, copy_period)

-- The copy of the bytes `ds` behind `xs` where the array has room for them.
pub copy_period_fits :
    (m n : ℕ) (ds xs : List ℕ)
    → length ds ≤ m
    → length xs + length ds ≤ n
    → copy_period (length ds) (padded m ds) (length xs) (padded n xs) ≡ some (padded n (xs ++ ds))
unfolding copy_period padded
copy_period_fits m n [] xs h r = rw (append_nil xs)
copy_period_fits zero n (c ∷ ds) xs h r = absurd (omega arith)
copy_period_fits (suc m) n (c ∷ ds) xs h r =
    copy_period_snoc m n ds xs c (omega arith)
    ∙ copy_period_fits m n ds (xs ++ c ∷ []) (omega arith) (omega (arith, length_snoc xs c))
    ∙ rw (append_snoc xs ds c)

-- And where it has not.
pub copy_period_over :
    (m n : ℕ) (ds xs : List ℕ)
    → length ds ≤ m
    → length xs ≤ n
    → n < length xs + length ds
    → copy_period (length ds) (padded m ds) (length xs) (padded n xs) ≡ none
unfolding copy_period padded
copy_period_over m n [] xs h l r = absurd (omega arith)
copy_period_over zero n (c ∷ ds) xs h l r = absurd (omega arith)
copy_period_over (suc m) n (c ∷ ds) xs h l r = elim (dec_lt (length xs) n) [
  | yes room ↦
      copy_period_snoc m n ds xs c room
      ∙ copy_period_over m n ds (xs ++ c ∷ []) (omega arith) (omega (arith, length_snoc xs c))
          (omega (arith, length_snoc xs c))
  | no full ↦
      let at_end : n ≡ length xs = omega arith in
      copy_period_stop (length ds) c (padded m ds) (length xs) (padded n xs)
        (subst (λ j. store (padded n xs) j c ≡ none) at_end (store_over n xs c l))
]

pub c_string-padded :
    (n : ℕ) (ds : List ℕ) → length ds < n → IsText ds → c_string (padded n ds) ≡ some ds
unfolding c_string padded
c_string-padded zero ds h t = absurd (omega arith)
c_string-padded (suc n) [] h t = refl
c_string-padded (suc n) (c ∷ ds) h t = ground (arith, c_string-padded n ds (omega arith) t.2)

pub c_string_full : (ds : List ℕ) → IsText ds → c_string (padded (length ds) ds) ≡ none
unfolding c_string padded
c_string_full [] t = refl
c_string_full (c ∷ ds) t = ground (arith, c_string_full ds t.2)
