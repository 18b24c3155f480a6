-- ===== src/Shell/Typed.antt =====
-- What is typed at the terminal of project 1a/lab1a.c, and what the shell gets of it.
use some_low_level_tasks.Prelude.{
  ℕ, ◌≡◌, ◌≢◌, refl, true, ◌||◌, inl, inr, [], ◌∷◌, ◌++◌, map, ◌==◌, if◌then◌else◌, Bool-cases,
  append_nil, append_assoc, ne→==, ◌∙◌,
}
use some_low_level_tasks.Text.{Bytes}
use some_low_level_tasks.Shell.{Calls, Terminal, going, from_keyboard, relay_char, relay_chars}

-- No CTRL+C, CTRL+D or DEL.
abbrev pub IsPlain : Bytes → Type 0
IsPlain [] = Unit {0}
IsPlain (c ∷ chars) = (c ≢ 3) × (c ≢ 4) × (c ≢ 127) × IsPlain chars

-- The byte that the shell gets for a character, and the bytes that the terminal shows.
abbrev pub sent : ℕ → ℕ
sent c = if (c == 13) || (c == 10) then 10 else c

abbrev pub echo : Bytes → Bytes
echo [] = []
echo (c ∷ chars) = (if (c == 13) || (c == 10) then 13 ∷ 10 ∷ [] else c ∷ []) ++ echo chars

relay_char-typed :
    (calls : Calls) (c : ℕ) (t : Terminal)
    → c ≢ 3
    → c ≢ 4
    → c ≢ 127
    → relay_char calls true from_keyboard c t
      ≡ going (record t {
        stdout = t.stdout ++ (if (c == 13) || (c == 10) then 13 ∷ 10 ∷ [] else c ∷ []);
        to_shell = t.to_shell ++ sent c ∷ [];
      })
unfolding relay_char
relay_char-typed calls c t three four del = elim (Bool-cases ((c == 13) || (c == 10))) [
  | inl line ↦ rw line refl
  | inr other ↦ rw (other, ne→== c 3 three, ne→== c 4 four, ne→== c 127 del) refl
]

-- Characters that are typed with --shell, and that are not CTRL+C, CTRL+D or DEL, all go on to the shell,
-- a CR as a newline, and are all shown, a CR or a newline as both; the program goes on.
pub relay_chars-typed :
    (calls : Calls) (chars : Bytes) (t : Terminal)
    → IsPlain chars
    → relay_chars calls true from_keyboard chars t
      ≡ going
          (record t { stdout = t.stdout ++ echo chars; to_shell = t.to_shell ++ map sent chars })
unfolding relay_chars
relay_chars-typed calls [] t p = rw (append_nil t.stdout, append_nil t.to_shell) refl
relay_chars-typed calls (c ∷ chars) t p = rw (relay_char-typed calls c t p.0 p.1 p.2) (
    relay_chars-typed calls chars _ p.3
    ∙ rw
        (
          append_assoc t.stdout (if (c == 13) || (c == 10) then 13 ∷ 10 ∷ [] else c ∷ [])
              (echo chars),
          append_assoc t.to_shell (sent c ∷ []) (map sent chars),
        )
        refl)
