-- ===== src/NetConsole/Loop.antt =====
-- `store_buffer`, `process_command` and the loop of `main` of project 4c/lab4c.c. The arrays and the
-- commands are those of Console.Line.
use some_low_level_tasks.Prelude.{
  ℕ, ◌-◌, Bool, true, ◌&&◌, Option, none, some, List, [], ◌∷◌, ◌==◌, ltb, leb, replicate,
  if◌then◌else◌,
}
use some_low_level_tasks.Text.{Bytes}
use some_low_level_tasks.Console.Device.{
  Board, Device, write_stdout, write_log, write_format, read_button,
}
use some_low_level_tasks.Console.Line.{
  Console, bufsize, strncpy, clear, checked, dispatch, delete_last, append_char, clear_screen_line,
  write_input,
}
use some_low_level_tasks.NetConsole.Host.{
  Net, Outcome, done, exited, ◌>>=◌, set_device, on_console, report,
}

-- What one round of the loop meets: what `poll` and the read find, where `none` is a read that fails, and
-- whether the two timers have run out.
pub record Round : Type 0 where
  pub readable : Bool
  pub received : Option Bytes
  pub input_due : Bool
  pub period_due : Bool

abbrev pub write_input_net : {F : Type 0} → Net F → Net F
write_input_net net = record net { console = write_input net.console }

module _ {F : Type 0} (board : Board F) (succeeds : ℕ → Bool) where
  abbrev pub report_if : Bool → Net F → Outcome F (Net F)
  report_if interrupt net = if interrupt then report board succeeds net else done net

  -- `dispatch` also says whether the command is valid, which is not logged here.
  unfoldable pub process_command : Net F → Outcome F (Net F)
  process_command net = do
    let c = net.console
    copied ← on_console net (checked (strncpy c.line_marker c.line_buf c.proc_buf))
    (valid, after) ← on_console net (dispatch board c.line_marker copied c.device)
    reported ← report_if after.interrupt (set_device after net)
    cleared ← on_console reported (checked (clear c.line_marker copied))
    done (record reported { console = record reported.console { proc_buf = cleared } })

  abbrev pub enter : Net F → Outcome F (Net F)
  enter net = do
    ran ← process_command (set_device (write_format (13 ∷ []) net.console.device) net)
    emptied ← on_console ran (checked (clear ran.console.line_marker ran.console.line_buf))
    done (record ran { console = record ran.console { line_buf = emptied; line_marker = 0 } })

  abbrev pub on_line :
      Net F
      → (Console F → some_low_level_tasks.Console.Device.Outcome F (Console F))
      → Outcome F (Net F)
  on_line net f = on_console net (f net.console) >>= λ c. done (record net { console = c })

  -- One round of the loop of `store_buffer`.
  unfoldable pub store_char : ℕ → Net F → Outcome F (Net F)
  store_char b net =
      if b == 127
      then (if ltb 0 net.console.line_marker then on_line net (delete_last board) else done net)
      else if b == 10
      then (if ltb 0 net.console.line_marker then enter net else done net)
      else if b == 3
      then exited 2 (set_device (write_format (13 ∷ []) net.console.device) net)
      else if leb 32 b && leb b 126
      then on_line net (append_char board b)
      else done net

  unfoldable pub store_chars : Bytes → Net F → Outcome F (Net F)
  store_chars [] net = done net
  store_chars (b ∷ bytes) net = store_char b net >>= store_chars bytes

  -- The bytes are the first `num_chars` of `new_buf`.
  unfoldable pub store_buffer : Bytes → Net F → Outcome F (Net F)
  store_buffer bytes net =
      if ltb (bufsize - 1) net.console.line_marker
      then store_chars bytes (record net {
        console = record net.console { line_buf = replicate bufsize 0; line_marker = 0 };
      })
      else store_chars bytes net

  -- The bytes that are stored: none where `new_buf[0]` is 0, as it is unless a byte was read into it,
  -- since `store_buffer` clears what it has read.
  abbrev pub accepted : Option Bytes → Bytes
  accepted none = []
  accepted (some []) = []
  accepted (some (c ∷ bytes)) = if c == 0 then [] else c ∷ bytes

  -- To the log in `read_from_host`, and to stdout; a failed read writes to neither.
  abbrev pub show_received : Option Bytes → Net F → Net F
  show_received none net = net
  show_received (some bytes) net =
      set_device (write_stdout bytes (write_log bytes net.console.device)) net

  abbrev pub store_accepted : Bytes → Net F → Outcome F (Net F)
  store_accepted [] net = done net
  store_accepted bytes net = store_buffer bytes net >>= λ stored. done (write_input_net stored)

  abbrev pub receive : Round → Net F → Outcome F (Net F)
  receive r net =
      if r.readable
      then store_accepted (accepted r.received) (show_received r.received net)
      else done net

  abbrev pub press : Net F → Outcome F (Net F)
  press net = do
    (pressed, d) ← on_console net (read_button board net.console.device)
    done (set_device (if pressed then record d { interrupt = true } else d) net)

  -- `write_report`
  abbrev pub write_report : Net F → Outcome F (Net F)
  write_report net =
      report board succeeds (set_device (write_format clear_screen_line net.console.device) net)

  abbrev pub report_due : Round → Net F → Outcome F (Net F)
  report_due r net =
      if r.period_due
      then (write_report net >>= λ reported. done (write_input_net reported))
      else done net

  -- One round of the loop of `main`.
  unfoldable pub round : Round → Net F → Outcome F (Net F)
  round r net = do
    stored ← receive r net
    pressed ← press stored
    report_due r (if r.input_due then write_input_net pressed else pressed)

  unfoldable pub rounds : List Round → Net F → Outcome F (Net F)
  rounds [] net = done net
  rounds (r ∷ later) net = round r net >>= rounds later
