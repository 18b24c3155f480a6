-- ===== src/Console/Laws.antt =====
-- What the console of project 4b/lab4b.c does with the bytes it reads.
use some_low_level_tasks.Prelude.{
  ℕ, ◌+◌, ◌≤◌, ◌<◌, ◌≡◌, refl, List, [], ◌∷◌, ◌++◌, arith, ltb, length, true, false, ge→ltb,
}
use some_low_level_tasks.Prelude.Int.{pos}
use some_low_level_tasks.Console.Device.{
  Board, Device, exited, overflow, report, read_temp_sensor, time_text, shutdown_text, write_format,
  written, to_celsius, to_fahrenheit,
}
use some_low_level_tasks.Console.Line.{
  bufsize, store_buffer, log_command, period_word, off_word, starts_with,
}
use some_low_level_tasks.Console.Padded.{IsText}
use some_low_level_tasks.Console.Editor.{type_chars}
use some_low_level_tasks.Console.Shown.{console, shown}
use some_low_level_tasks.Console.Refines.{store_chars-type_chars, store_chars_over}

-- A test of the length that is false.
starts_here :
    {F : Type 0} (board : Board F) (line bytes : List ℕ) (d : Device F)
    → length line < bufsize
    → ltb 127 (length line) ≡ false
starts_here board line bytes d room = ge→ltb 127 (length line) (omega arith)

-- As long as the line and the bytes that are read fit in the 128 bytes of `line_buf`, `store_buffer` does
-- with its arrays what the editor does with a text: the same line, the same commands, the same
-- output, the same exits, and an access out of bounds exactly where the editor has no room for a
-- period.
pub store_buffer-type_chars :
    {F : Type 0} (board : Board F) (bytes line : List ℕ) (d : Device F)
    → length line < bufsize
    → length line + length bytes ≤ bufsize
    → IsText line
    → store_buffer board bytes (console (line, d)) ≡ shown (type_chars board bytes (line, d))
unfolding store_buffer
store_buffer-type_chars board bytes line d room fits t =
    rw (starts_here board line bytes d room) (store_chars-type_chars board bytes line d fits t)

-- Where visible characters are read that do not fit behind a line of less than 128, `store_buffer` writes
-- past the end of `line_buf`: it looks at the length of the line only before its loop.
pub store_buffer_over :
    {F : Type 0} (board : Board F) (bytes line : List ℕ) (d : Device F)
    → length line < bufsize
    → bufsize < length line + length bytes
    → IsText bytes
    → store_buffer board bytes (console (line, d)) ≡ overflow
unfolding store_buffer
store_buffer_over board bytes line d room over t =
    rw (starts_here board line bytes d room)
      (store_chars_over board bytes line d over (omega arith) t)

-- A line `PERIOD=` with ten characters or more behind it makes `process_command` leave its array
-- `period`, whatever is read after the newline.
pub period_over :
    {F : Type 0} (board : Board F) (text rest : List ℕ) (d : Device F)
    → 10 ≤ length text
    → IsText text
    → length (period_word ++ text) + length rest < bufsize
    → store_buffer board (10 ∷ rest) (console (period_word ++ text, d)) ≡ overflow
unfolding type_chars starts_with
period_over board text rest d long t fits = rw (
  store_buffer-type_chars board (10 ∷ rest) (period_word ++ text) d (omega arith) (omega arith)
      (ground arith),
  ge→ltb (length text) 10 (omega arith),
)

-- The device after the report that ends the program, `line` being what was entered.
abbrev shut_down : {F : Type 0} → Board F → List ℕ → Device F → ℕ → Device F
shut_down board line d r =
    let off = log_command true line (record (write_format (13 ∷ []) d) { interrupt = true }) in
    written board
      (record off {
        time_calls = d.time_calls + 1;
        analog_reads = d.analog_reads + 1;
        celsius = to_celsius board (pos r);
        fahrenheit = to_fahrenheit board (to_celsius board (pos r));
      })
      (time_text (board.local_time d.time_calls))

-- A line that begins with `OFF`, entered while the sensor can be read, ends the program with 0; the last
-- that is written to the standard output is a line with the time and `SHUTDOWN`.
pub off_shuts_down :
    {F : Type 0} (board : Board F) (more rest : List ℕ) (d : Device F) (r : ℕ)
    → IsText more
    → length (off_word ++ more) + length rest < bufsize
    → board.analog d.analog_reads ≡ pos r
    → (d' : Device F) × (store_buffer board (10 ∷ rest) (console (off_word ++ more, d))
        ≡ exited 0 d')
      × (d'.stdout
          ≡ d.stdout ++ (time_text (board.local_time d.time_calls) ++ shutdown_text) ++ 10 ∷ [])
unfolding type_chars starts_with report read_temp_sensor
off_shuts_down board more rest d r t fits read = (
  shut_down board (off_word ++ more) d r,
  rw (
    store_buffer-type_chars board (10 ∷ rest) (off_word ++ more) d (omega arith) (omega arith)
        (ground arith),
    read,
  ),
  refl,
)
