-- ===== src/NetConsole/Logged.antt =====
-- What project 4c/lab4c.c sends to the host is also in its log.
pub mod Commands
pub mod Rounds
use some_low_level_tasks.Prelude.{
  ℕ, zero, suc, ◌+◌, ◌-◌, ◌≡◌, refl, sym, Bool, true, false, ◌&&◌, ◌||◌, inl, inr, Option, none,
  some, List, [], ◌∷◌, ◌++◌, arith, ◌==◌, ltb, leb, if◌then◌else◌, Bool-cases, append_nil, length,
  drop, replicate, get_or, ◌∙◌,
}
use some_low_level_tasks.Prelude.Int.{ℤ, pos, negsuc}
use some_low_level_tasks.Text.{Bytes}
use some_low_level_tasks.Text.Within.{Within, Within-more}
use some_low_level_tasks.Console.Device.{
  Board, Device, write_stdout, write_log, write_format, read_temp_sensor, read_button, set_scale,
  set_period, get_temperature, time_text,
}
use some_low_level_tasks.Console.Device as D
use some_low_level_tasks.Console.Line.{
  Console, bufsize, clear, strncpy, clear_screen_line, checked, dispatch, delete_last, append_char,
  write_input, read_period, copy_period, c_string, starts_with, scale_word, period_word, stop_word,
  start_word, off_word,
}
use some_low_level_tasks.NetConsole.Host.{
  Net, Outcome, done, exited, overflow, and_then, set_device, on_console, report, write_to_host,
  write_lines, write_str, report_line, exit_if_interrupted,
}
use some_low_level_tasks.NetConsole.Loop.{
  enter, on_line, store_accepted, show_received, accepted, receive, press, report_due,
  write_input_net, Round, round, rounds, store_char, store_chars, store_buffer, process_command,
}

-- The log is open, and has what was sent.
abbrev pub IsLogged : {F : Type 0} → Net F → Type 0
IsLogged net = (net.console.device.log_open ≡ true) × Within net.host net.console.device.log

-- The state behind a call, whether it returns or exits.
abbrev pub EndsLogged : {F : Type 0} → Outcome F (Net F) → Type 0
EndsLogged (done net) = IsLogged net
EndsLogged (exited code net) = IsLogged net
EndsLogged overflow = Unit {0}

pub EndsLogged-bind :
    {F : Type 0} (o : Outcome F (Net F)) (f : Net F → Outcome F (Net F))
    → EndsLogged o
    → ((net : Net F) → IsLogged net → EndsLogged (f net))
    → EndsLogged (and_then o f)
EndsLogged-bind (done net) f h k = k net h
EndsLogged-bind (exited code net) f h k = h
EndsLogged-bind overflow f h k = tt

-- A call of the console that leaves the log alone.
abbrev pub SameLog : {F : Type 0} → Device F → Device F → Type 0
SameLog d d' = (d'.log_open ≡ d.log_open) × (d'.log ≡ d.log)

abbrev pub KeepsLog : {F A : Type 0} → (A → Device F) → Device F → D.Outcome F A → Type 0
KeepsLog at d (D.done a) = SameLog d (at a)
KeepsLog at d (D.exited code d') = SameLog d d'
KeepsLog at d D.overflow = Unit {0}

module _ {F : Type 0} (board : Board F) where
  pub dispatch-KeepsLog :
      (marker : ℕ) (buf : Bytes) (d : Device F)
      → KeepsLog (λ (r : Bool × Device F). r.1) d (dispatch board marker buf d)
  unfolding dispatch set_scale
  dispatch-KeepsLog marker buf d = ground arith

  pub read_temp_sensor-KeepsLog :
      (d : Device F) → KeepsLog (λ (d' : Device F). d') d (read_temp_sensor board d)
  unfolding read_temp_sensor
  read_temp_sensor-KeepsLog d = ground arith

  pub read_button-KeepsLog :
      (d : Device F) → KeepsLog (λ (r : Bool × Device F). r.1) d (read_button board d)
  unfolding read_button
  read_button-KeepsLog d = ground arith

  pub delete_last-KeepsLog :
      (c : Console F) → KeepsLog (λ (c' : Console F). c'.device) c.device (delete_last board c)
  delete_last-KeepsLog c = ground arith

  pub append_char-KeepsLog :
      (b : ℕ) (c : Console F)
      → KeepsLog (λ (c' : Console F). c'.device) c.device (append_char board b c)
  append_char-KeepsLog b c = ground arith

-- The host is the one of `net`, and the log that of a device which left it alone.
pub IsLogged-same :
    {F : Type 0} (net net' : Net F)
    → net'.host ≡ net.host
    → SameLog net.console.device net'.console.device
    → IsLogged net
    → IsLogged net'
IsLogged-same net net' hosts same logged = (same.0 ∙ logged.0, rw (hosts, same.1) logged.1)

-- A call of the console, and what is done with its result.
pub EndsLogged-on_console :
    {F A : Type 0} (net : Net F) (at : A → Device F) (o : D.Outcome F A) (f : A → Outcome F (Net F))
    → IsLogged net
    → KeepsLog at net.console.device o
    → ((a : A) → SameLog net.console.device (at a) → EndsLogged (f a))
    → EndsLogged (and_then (on_console net o) f)
EndsLogged-on_console net at (D.done a) f logged kept next = next a kept
EndsLogged-on_console net at (D.exited code d) f logged kept next =
    IsLogged-same net (set_device d net) refl kept logged
EndsLogged-on_console net at D.overflow f logged kept next = tt

pub EndsLogged-if :
    {F : Type 0} (test : Bool) (a b : Outcome F (Net F))
    → EndsLogged a
    → EndsLogged b
    → EndsLogged (if test then a else b)
EndsLogged-if true a b h k = h
EndsLogged-if false a b h k = k

-- What is received is logged too.
pub IsLogged-write_log :
    {F : Type 0} (text : Bytes) (net : Net F)
    → IsLogged net
    → IsLogged (set_device (write_log text net.console.device) net)
IsLogged-write_log text net logged = (logged.0, rw (logged.0) (Within-more text logged.1))

-- A check of an array.
pub EndsLogged-checked :
    {F A : Type 0} (net : Net F) (o : Option A) (f : A → Outcome F (Net F))
    → ((a : A) → EndsLogged (f a))
    → EndsLogged (and_then (on_console net (checked o)) f)
EndsLogged-checked net none f next = tt
EndsLogged-checked net (some a) f next = next a
