-- ===== src/Console/Line.antt =====
-- The line that is typed at project 4b/lab4b.c: `store_buffer`, `process_command` and `write_input`,
-- with the C arrays they use. A `char` is its byte here, so the bytes from 128 on, which are negative
-- in the source, are not visible either.
use some_low_level_tasks.Prelude.{
  ℕ, zero, suc, ◌+◌, ◌-◌, Bool, true, false, ◌&&◌, Option, none, some, List, [], ◌∷◌, ◌==◌, ltb,
  leb, if◌then◌else◌, replicate, get_or, drop,
}
use some_low_level_tasks.Console.Device.{
  Board, Device, Outcome, done, exited, overflow, ◌>>=◌, write_log, write_format, report, set_scale,
  set_period,
}

abbrev pub bufsize : ℕ
bufsize = 128

-- A store at an index of an array; `none` is out of bounds.
unfoldable pub store : List ℕ → ℕ → ℕ → Option (List ℕ)
store [] i c = none
store (b ∷ bytes) zero c = some (c ∷ bytes)
store (b ∷ bytes) (suc i) c = elim (store bytes i c) [ none ↦ none | some r ↦ some (b ∷ r) ]

-- `memset(array, 0, n)`
unfoldable pub clear : ℕ → List ℕ → Option (List ℕ)
clear zero bytes = some bytes
clear (suc n) [] = none
clear (suc n) (b ∷ bytes) = elim (clear n bytes) [ none ↦ none | some r ↦ some (0 ∷ r) ]

-- `strncpy(to, from, n)`: the bytes up to a NUL, and NULs for the rest of the `n`.
unfoldable pub strncpy : ℕ → List ℕ → List ℕ → Option (List ℕ)
strncpy zero from to = some to
strncpy (suc n) from [] = none
strncpy (suc n) [] (b ∷ to) = none
strncpy (suc n) (c ∷ from) (b ∷ to) =
    if c == 0
    then clear (suc n) (b ∷ to)
    else elim (strncpy n from to) [ none ↦ none | some r ↦ some (c ∷ r) ]

-- `strncmp(bytes, word, n) == 0`, where `word` has `n` bytes and no NUL.
unfoldable pub starts_with : List ℕ → List ℕ → Bool
starts_with [] bytes = true
starts_with (c ∷ word) [] = false
starts_with (c ∷ word) (b ∷ bytes) = if b == c then starts_with word bytes else false

-- The loop that copies `left` bytes of `proc_buf`, from the seventh on, to `period` from `j` on.
unfoldable pub copy_period : ℕ → List ℕ → ℕ → List ℕ → Option (List ℕ)
copy_period zero bytes j period = some period
copy_period (suc left) [] j period = none
copy_period (suc left) (c ∷ bytes) j period = elim (store period j c) [
  | none ↦ none
  | some p ↦ copy_period left bytes (j + 1) p
]

-- The bytes of a string, up to its terminator; `none` where the array has none.
unfoldable pub c_string : List ℕ → Option (List ℕ)
c_string [] = none
c_string (c ∷ bytes) =
    if c == 0 then some [] else elim (c_string bytes) [ none ↦ none | some s ↦ some (c ∷ s) ]

abbrev pub scale_word : List ℕ
scale_word = b'S' ∷ b'C' ∷ b'A' ∷ b'L' ∷ b'E' ∷ b'=' ∷ []

abbrev pub period_word : List ℕ
period_word = b'P' ∷ b'E' ∷ b'R' ∷ b'I' ∷ b'O' ∷ b'D' ∷ b'=' ∷ []

abbrev pub stop_word : List ℕ
stop_word = b'S' ∷ b'T' ∷ b'O' ∷ b'P' ∷ []

abbrev pub start_word : List ℕ
start_word = b'S' ∷ b'T' ∷ b'A' ∷ b'R' ∷ b'T' ∷ []

abbrev pub off_word : List ℕ
off_word = b'O' ∷ b'F' ∷ b'F' ∷ []

pub record Console (F : Type 0) : Type 0 where
  pub device : Device F
  pub line_buf : List ℕ
  pub proc_buf : List ℕ
  pub line_marker : ℕ

-- An array access that may be out of bounds.
abbrev pub checked : {F A : Type 0} → Option A → Outcome F A
checked none = overflow
checked (some a) = done a

abbrev pub first_bytes : ℕ → List ℕ → List ℕ
first_bytes zero bytes = []
first_bytes (suc n) [] = []
first_bytes (suc n) (b ∷ bytes) = b ∷ first_bytes n bytes

abbrev pub clear_screen_line : List ℕ
clear_screen_line = 27 ∷ 91 ∷ 50 ∷ 75 ∷ 13 ∷ []

unfoldable pub write_input : {F : Type 0} → Console F → Console F
write_input c = record c {
  device =
      write_format (first_bytes c.line_marker c.line_buf) (write_format clear_screen_line c.device);
}

abbrev pub log_command : {F : Type 0} → Bool → List ℕ → Device F → Device F
log_command valid text d = if valid then write_log (10 ∷ []) (write_log text d) else d

module _ {F : Type 0} (board : Board F) where
  abbrev pub read_period : ℕ → List ℕ → Outcome F F
  read_period line_marker proc_buf = do
    period ← checked (copy_period (line_marker - 7) (drop 7 proc_buf) 0 (replicate 10 0))
    text ← checked (c_string period)
    done (board.atof text)

  -- The command in `proc_buf`, and whether it is valid.
  unfoldable pub dispatch : ℕ → List ℕ → Device F → Outcome F (Bool × Device F)
  dispatch line_marker proc_buf d =
      if starts_with scale_word proc_buf
      then (do set ← set_scale (get_or proc_buf 6 0) d; done (true, set))
      else if starts_with period_word proc_buf
      then (do p ← read_period line_marker proc_buf; done (true, set_period p d))
      else if starts_with stop_word proc_buf
      then done (true, record d { generate_reports = false })
      else if starts_with start_word proc_buf
      then done (true, record d { generate_reports = true })
      else if starts_with off_word proc_buf
      then done (true, record d { interrupt = true })
      else done (false, d)

  abbrev pub report_if : Bool → Device F → Outcome F (Device F)
  report_if interrupt d = if interrupt then report board d else done d

  unfoldable pub process_command : Console F → Outcome F (Console F)
  process_command c = do
    copied ← checked (strncpy c.line_marker c.line_buf c.proc_buf)
    (valid, after) ← dispatch c.line_marker copied c.device
    let logged = log_command valid (first_bytes c.line_marker copied) after
    reported ← report_if logged.interrupt logged
    cleared ← checked (clear c.line_marker copied)
    done (record c { device = reported; proc_buf = cleared })

  -- NL with a line typed: the command is run, and the line is emptied.
  abbrev pub enter : Console F → Outcome F (Console F)
  enter c = do
    ran ← process_command (record c { device = write_format (13 ∷ []) c.device })
    emptied ← checked (clear ran.line_marker ran.line_buf)
    done (record ran { line_buf = emptied; line_marker = 0 })

  abbrev pub delete_last : Console F → Outcome F (Console F)
  delete_last c = do
    emptied ← checked (store c.line_buf (c.line_marker - 1) 0)
    done (record c { line_buf = emptied; line_marker = c.line_marker - 1 })

  abbrev pub append_char : ℕ → Console F → Outcome F (Console F)
  append_char b c = do
    longer ← checked (store c.line_buf c.line_marker b)
    done (record c { line_buf = longer; line_marker = c.line_marker + 1 })

  -- One round of the loop of `store_buffer`.
  unfoldable pub store_char : ℕ → Console F → Outcome F (Console F)
  store_char b c =
      if b == 127
      then (if ltb 0 c.line_marker then delete_last c else done c)
      else if b == 10
      then (if ltb 0 c.line_marker then enter c else done c)
      else if b == 3
      then exited 2 (write_format (13 ∷ []) c.device)
      else if leb 32 b && leb b 126
      then append_char b c
      else done c

  unfoldable pub store_chars : List ℕ → Console F → Outcome F (Console F)
  store_chars [] c = done c
  store_chars (b ∷ bytes) c = store_char b c >>= store_chars bytes

  -- The bytes are the first `num_chars` of `new_buf`.
  unfoldable pub store_buffer : List ℕ → Console F → Outcome F (Console F)
  store_buffer bytes c =
      if ltb (bufsize - 1) c.line_marker
      then store_chars bytes (record c { line_buf = replicate bufsize 0; line_marker = 0 })
      else store_chars bytes c
