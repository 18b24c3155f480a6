-- ===== src/Console/Refines.antt =====
-- The arrays of project 4b/lab4b.c carry out what the editor of Console/Editor means, as long as the
-- line fits.
use mathlib.Core.Path.{subst}
use some_low_level_tasks.Prelude.{
  ℕ, ◌+◌, ◌-◌, ◌≤◌, ◌<◌, ◌≡◌, refl, ◌&&◌, none, List, [], ◌∷◌, ◌++◌, arith, ◌==◌, ltb, leb,
  if◌then◌else◌, length, take, drop, Bool-cases, dec_lt, length-drop, length-take, lt→ltb, ge→ltb,
  inl, inr,
}
use some_low_level_tasks.Console.Device.{
  Board, Device, Outcome, done, exited, overflow, ◌>>=◌, and_then, write_format,
}
use some_low_level_tasks.Console.Line.{
  Console, bufsize, scale_word, period_word, stop_word, start_word, off_word, append_char,
  delete_last, enter, dispatch, read_period, process_command, store_char, store_chars, checked,
  copy_period, c_string, store,
}
use some_low_level_tasks.Console.Padded.{
  padded, length_snoc, IsText, store_append, store_last, store_over, clear-padded, strncpy-padded,
  starts_with-padded, get_or-padded, first_bytes-padded, drop-padded, copy_period_fits,
  copy_period_over, c_string-padded, c_string_full,
}
use some_low_level_tasks.Console.Editor.{
  command_of, execute, run_line, enter_line, type_char, type_chars,
}
use some_low_level_tasks.Console.Shown.{
  console, shown, drop-IsText, Typed, pred_suc, length-take_last, take-IsText, snoc-IsText,
  and_then_assoc,
}

module _ {F : Type 0} (board : Board F) where
  -- What `read_period` does with the bytes behind `PERIOD=`.
  copied :
      (text : List ℕ)
      → length text ≤ 121
      → IsText text
      → and_then
          (checked {F = F} (copy_period (length text) (padded 121 text) 0 (padded 10 [])))
          (λ p. and_then (checked (c_string p)) (λ s. done (board.atof s)))
        ≡ (if ltb (length text) 10 then done (board.atof text) else overflow)
  copied text h t = elim (dec_lt (length text) 10) [
    | yes short ↦ rw (
      copy_period_fits 121 10 text [] h (omega arith),
      c_string-padded 10 text short t,
      lt→ltb (length text) 10 short,
    )
    | no long ↦ elim (dec_lt 10 (length text)) [
      | yes longer ↦ rw (
        copy_period_over 121 10 text [] h (omega arith) (omega arith),
        ge→ltb (length text) 10 long,
      )
      | no ten ↦
          let exact : length text ≡ 10 = omega arith in
          rw (
            copy_period_fits 121 10 text [] h (omega arith),
            subst (λ n. c_string (padded n text) ≡ none) exact (c_string_full text t),
            ge→ltb (length text) 10 long,
          )
    ]
  ]

  read_period-text :
      (line : List ℕ)
      → length line ≤ bufsize
      → IsText line
      → read_period board (length line) (padded bufsize line)
        ≡ (if ltb (length (drop 7 line)) 10 then done (board.atof (drop 7 line)) else overflow)
  unfolding padded
  read_period-text line h t =
      rw (drop-padded bufsize line 7, ← length-drop 7 line)
        (copied (drop 7 line) (omega (arith, length-drop 7 line)) (drop-IsText 7 line t))

  dispatch-execute :
      (line : List ℕ) (d : Device F)
      → length line ≤ bufsize
      → IsText line
      → dispatch board (length line) (padded bufsize line) d ≡ execute board (command_of line) d
  unfolding dispatch
  dispatch-execute line d h t =
      rw
        (
          starts_with-padded bufsize scale_word line h (ground arith),
          starts_with-padded bufsize period_word line h (ground arith),
          starts_with-padded bufsize stop_word line h (ground arith),
          starts_with-padded bufsize start_word line h (ground arith),
          starts_with-padded bufsize off_word line h (ground arith),
          get_or-padded bufsize line 6 h,
          read_period-text line h t,
        )
        (ground arith)

  process_command-run_line :
      (line : List ℕ) (d : Device F)
      → length line ≤ bufsize
      → IsText line
      → process_command board (console (line, d))
        ≡ (run_line board line d >>= λ r. done (console (line, r)))
  unfolding process_command
  process_command-run_line line d h t =
      rw (strncpy-padded bufsize line h t, dispatch-execute line d h t)
        (simp (first_bytes-padded bufsize line h, clear-padded bufsize line h, and_then_assoc))

  shown_empty :
      (o : Outcome F (Device F))
      → shown (and_then o (λ r. done ([], r))) ≡ and_then o (λ r. done (console ([], r)))
  shown_empty (done r) = refl
  shown_empty (exited n d) = refl
  shown_empty overflow = refl

  enter-enter_line :
      (c : ℕ) (line : List ℕ) (d : Device F)
      → length (c ∷ line) ≤ bufsize
      → IsText (c ∷ line)
      → enter board (console (c ∷ line, d)) ≡ shown (enter_line board (c ∷ line) d)
  enter-enter_line c line d h t =
      rw
        (
          process_command-run_line (c ∷ line) (write_format (13 ∷ []) d) h t,
          shown_empty (run_line board (c ∷ line) (write_format (13 ∷ []) d)),
        )
        (simp (and_then_assoc, clear-padded bufsize (c ∷ line) h))

  append-shown :
      (b : ℕ) (line : List ℕ) (d : Device F)
      → length line < bufsize
      → append_char board b (console (line, d)) ≡ done (console (line ++ b ∷ [], d))
  append-shown b line d h = rw (store_append bufsize line b h, length_snoc line b)

  delete-shown :
      (c : ℕ) (line : List ℕ) (d : Device F)
      → length line < bufsize
      → delete_last board (console (c ∷ line, d))
        ≡ done (console (take (length (c ∷ line) - 1) (c ∷ line), d))
  delete-shown c line d h =
      rw (pred_suc (length line), store_last bufsize c line h, length-take_last c line)

  -- One key.
  store_char-type_char :
      (b : ℕ) (line : List ℕ) (d : Device F)
      → length line < bufsize
      → IsText line
      → store_char board b (console (line, d)) ≡ shown (type_char board b (line, d))
  unfolding store_char
  store_char-type_char b [] d h t = ground (arith, append-shown b [] d h)
  store_char-type_char b (c ∷ line) d h t = ground (
    arith,
    append-shown b (c ∷ line) d h,
    delete-shown c line d (omega arith),
    enter-enter_line c line d (omega arith) t,
  )

  enter_line-Typed : (n : ℕ) (line : List ℕ) (d : Device F) → Typed n (enter_line board line d)
  enter_line-Typed n [] d = (tt, omega arith)
  enter_line-Typed n (c ∷ line) d = by (run_line board (c ∷ line) (write_format (13 ∷ []) d))
    where
      by : (o : Outcome F (Device F)) → Typed n (and_then o (λ r. done ([], r)))
      by (done r) = (tt, omega arith)
      by (exited k r) = tt
      by overflow = tt

  -- What is typed stays a text, and a key adds at most one character.
  type_char-Typed :
      (b : ℕ) (line : List ℕ) (d : Device F)
      → IsText line
      → Typed (length line + 1) (type_char board b (line, d))
  type_char-Typed b line d t = elim (Bool-cases (b == 127)) [
    | inl del ↦
        rw del
          (take-IsText (length line - 1) line t, omega (arith, length-take (length line - 1) line))
    | inr k1 ↦ rw k1 (elim (Bool-cases (b == 10)) [
      | inl newline ↦ rw newline (enter_line-Typed (length line + 1) line d)
      | inr k2 ↦ rw k2 (elim (Bool-cases (b == 3)) [
        | inl cancel ↦ rw cancel tt
        | inr k3 ↦ rw k3 (elim (Bool-cases (leb 32 b && leb b 126)) [
          | inl visible ↦ rw visible (
            snoc-IsText line b t (ground arith) (ground arith),
            omega (arith, length_snoc line b),
          )
          | inr other ↦ rw other (t, omega arith)
        ])
      ])
    ])
  ]

  pub store_chars-type_chars :
      (bytes line : List ℕ) (d : Device F)
      → length line + length bytes ≤ bufsize
      → IsText line
      → store_chars board bytes (console (line, d)) ≡ shown (type_chars board bytes (line, d))
  unfolding store_chars type_chars
  store_chars-type_chars [] line d fits t = refl
  store_chars-type_chars (b ∷ bytes) line d fits t =
      rw (store_char-type_char b line d (omega arith) t) (
        by (λ l e f u. store_chars-type_chars bytes l e f u) (type_char board b (line, d))
          (type_char-Typed b line d t))
    where
      by :
          ((l : List ℕ) (e : Device F)
            → length l + length bytes ≤ bufsize
            → IsText l
            → store_chars board bytes (console (l, e)) ≡ shown (type_chars board bytes (l, e)))
          → (o : Outcome F (List ℕ × Device F)) → Typed (length line + 1) o
          → and_then (shown o) (store_chars board bytes)
            ≡ shown (and_then o (type_chars board bytes))
      by later (done (l, e)) (text, few) = later l e (omega arith) text
      by later (exited k e) u = refl
      by later overflow u = refl

  store_char-visible :
      (b : ℕ) (c : Console F) → 32 ≤ b → b ≤ 126 → store_char board b c ≡ append_char board b c
  unfolding store_char
  store_char-visible b c l u = ground arith

  -- Visible characters that do not fit are stored all the same.
  pub store_chars_over :
      (bytes line : List ℕ) (d : Device F)
      → bufsize < length line + length bytes
      → length line ≤ bufsize
      → IsText bytes
      → store_chars board bytes (console (line, d)) ≡ overflow
  unfolding store_chars
  store_chars_over [] line d over fits t = absurd (omega arith)
  store_chars_over (b ∷ bytes) line d over fits t = elim (dec_lt (length line) bufsize) [
    | yes room ↦
        rw (store_char-visible b (console (line, d)) t.0 t.1, append-shown b line d room)
          (store_chars_over bytes (line ++ b ∷ []) d (omega (arith, length_snoc line b))
            (omega (arith, length_snoc line b)) t.2)
    | no full ↦
        let at_end : bufsize ≡ length line = omega arith in
        rw (
          store_char-visible b (console (line, d)) t.0 t.1,
          subst (λ j. store (padded bufsize line) j b ≡ none) at_end
              (store_over bufsize line b fits),
        )
  ]
