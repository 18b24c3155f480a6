-- ===== src/Console/Editor.antt =====
-- What the console of project 4b/lab4b.c means, without its arrays: a line of text that grows and
-- shrinks as keys are typed, and a command once it is entered.
use some_low_level_tasks.Prelude.{
  ℕ, ◌-◌, Bool, true, false, ◌&&◌, List, [], ◌∷◌, ◌++◌, ◌==◌, ltb, leb, if◌then◌else◌, length,
  get_or, take, drop,
}
use some_low_level_tasks.Console.Device.{
  Board, Device, Outcome, done, exited, overflow, ◌>>=◌, write_format, set_scale, set_period,
}
use some_low_level_tasks.Console.Line.{
  starts_with, scale_word, period_word, stop_word, start_word, off_word, log_command, report_if,
}

pub data Command : Type 0 where
  scale : ℕ → Command
  period : List ℕ → Command
  stop start off unknown : Command

-- The command that a line gives. The letter after `SCALE=` is a NUL where there is none.
abbrev pub command_of : List ℕ → Command
command_of line =
    if starts_with scale_word line
    then scale (get_or line 6 0)
    else if starts_with period_word line
    then period (drop 7 line)
    else if starts_with stop_word line
    then stop
    else if starts_with start_word line
    then start
    else if starts_with off_word line
    then off
    else unknown

module _ {F : Type 0} (board : Board F) where
  -- There is room for a number of nine characters.
  abbrev pub execute : Command → Device F → Outcome F (Bool × Device F)
  execute (scale c) d = do set ← set_scale c d; done (true, set)
  execute (period text) d =
      if ltb (length text) 10 then done (true, set_period (board.atof text) d) else overflow
  execute stop d = done (true, record d { generate_reports = false })
  execute start d = done (true, record d { generate_reports = true })
  execute off d = done (true, record d { interrupt = true })
  execute unknown d = done (false, d)

  abbrev pub run_line : List ℕ → Device F → Outcome F (Device F)
  run_line line d = do
    (valid, after) ← execute (command_of line) d
    let logged = log_command valid line after
    report_if board logged.interrupt logged

  abbrev pub enter_line : List ℕ → Device F → Outcome F (List ℕ × Device F)
  enter_line [] d = done ([], d)
  enter_line (c ∷ line) d = do ran ← run_line (c ∷ line) (write_format (13 ∷ []) d); done ([], ran)

  abbrev pub type_char : ℕ → List ℕ × Device F → Outcome F (List ℕ × Device F)
  type_char b (line, d) =
      if b == 127
      then done (take (length line - 1) line, d)
      else if b == 10
      then enter_line line d
      else if b == 3
      then exited 2 (write_format (13 ∷ []) d)
      else if leb 32 b && leb b 126
      then done (line ++ b ∷ [], d)
      else done (line, d)

  unfoldable pub type_chars : List ℕ → List ℕ × Device F → Outcome F (List ℕ × Device F)
  type_chars [] s = done s
  type_chars (b ∷ bytes) s = type_char b s >>= type_chars bytes
