-- ===== src/Console/Shown.antt =====
-- How the console of project 4b/lab4b.c shows a text, and what is kept of the text by each key.
use some_low_level_tasks.Prelude.{
  ℕ, zero, suc, ◌-◌, ◌≤◌, ◌≡◌, refl, List, [], ◌∷◌, ◌++◌, arith, length, take, drop, ap,
}
use some_low_level_tasks.Console.Device.{Device, Outcome, done, exited, overflow, and_then}
use some_low_level_tasks.Console.Line.{Console, bufsize}
use some_low_level_tasks.Console.Padded.{padded, IsText}

-- The console that holds `line`.
abbrev pub console : {F : Type 0} → List ℕ × Device F → Console F
console (line, d) = record {
  device = d;
  line_buf = padded bufsize line;
  proc_buf = padded bufsize [];
  line_marker = length line;
}

-- An outcome of the editor, as one of the console.
abbrev pub shown : {F : Type 0} → Outcome F (List ℕ × Device F) → Outcome F (Console F)
shown (done s) = done (console s)
shown (exited n d) = exited n d
shown overflow = overflow

pub drop-IsText : (n : ℕ) (line : List ℕ) → IsText line → IsText (drop n line)
drop-IsText zero line t = t
drop-IsText (suc n) [] t = tt
drop-IsText (suc n) (c ∷ line) t = drop-IsText n line t.2

-- An outcome whose line is a text of at most `n` characters.
abbrev pub Typed : {F : Type 0} → ℕ → Outcome F (List ℕ × Device F) → Type 0
Typed n (done (line, d)) = IsText line × (length line ≤ n)
Typed n (exited k d) = Unit {0}
Typed n overflow = Unit {0}

pub pred_suc : (n : ℕ) → suc n - 1 ≡ n
pred_suc n = omega arith

pub length-take_last :
    (c : ℕ) (line : List ℕ) → length (take (length line) (c ∷ line)) ≡ length line
length-take_last c [] = refl
length-take_last c (d ∷ line) = ap suc (length-take_last d line)

pub take-IsText : (n : ℕ) (line : List ℕ) → IsText line → IsText (take n line)
take-IsText zero line t = tt
take-IsText (suc n) [] t = tt
take-IsText (suc n) (c ∷ line) t = (t.0, t.1, take-IsText n line t.2)

pub snoc-IsText : (line : List ℕ) (b : ℕ) → IsText line → 32 ≤ b → b ≤ 126 → IsText (line ++ b ∷ [])
snoc-IsText [] b t l u = (l, u, tt)
snoc-IsText (c ∷ line) b t l u = (t.0, t.1, snoc-IsText line b t.2 l u)

pub and_then_assoc :
    {F A B C : Type 0} (o : Outcome F A) (f : A → Outcome F B) (g : B → Outcome F C)
    → and_then (and_then o f) g ≡ and_then o (λ a. and_then (f a) g)
and_then_assoc (done a) f g = refl
and_then_assoc (exited n d) f g = refl
and_then_assoc overflow f g = refl
