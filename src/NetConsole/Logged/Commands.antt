-- ===== src/NetConsole/Logged/Commands.antt =====
-- The reports and the commands of project 4c/lab4c.c keep the log complete.
use some_low_level_tasks.Prelude.{
  ℕ, ◌+◌, ◌-◌, refl, Bool, ◌&&◌, ◌||◌, inl, inr, [], ◌∷◌, ◌==◌, ltb, leb, if◌then◌else◌, Bool-cases,
  length,
}
use some_low_level_tasks.Text.{Bytes}
use some_low_level_tasks.Text.Within.{Within-both, Within-more}
use some_low_level_tasks.Console.Device.{
  Board, Device, write_stdout, write_log, write_format, read_temp_sensor, read_button, set_scale,
  set_period, get_temperature, time_text,
}
use some_low_level_tasks.Console.Device as D
use some_low_level_tasks.Console.Line.{
  Console, bufsize, clear, strncpy, dispatch, delete_last, append_char,
}
use some_low_level_tasks.NetConsole.Host.{
  Net, done, set_device, report, write_to_host, write_lines, write_str, report_line,
  exit_if_interrupted,
}
use some_low_level_tasks.NetConsole.Loop.{
  enter, on_line, store_char, store_chars, store_buffer, process_command,
}
use some_low_level_tasks.NetConsole.Logged.{
  EndsLogged, EndsLogged-bind, EndsLogged-checked, EndsLogged-if, EndsLogged-on_console, IsLogged,
  IsLogged-same, KeepsLog, append_char-KeepsLog, delete_last-KeepsLog, dispatch-KeepsLog,
  read_temp_sensor-KeepsLog,
}

module _ {F : Type 0} (board : Board F) (succeeds : ℕ → Bool) where
  pub write_to_host-EndsLogged :
      (text : Bytes) (net : Net F)
      → IsLogged net
      → EndsLogged (write_to_host board succeeds text net)
  unfolding write_to_host
  write_to_host-EndsLogged text net logged = elim (Bool-cases (succeeds net.sends)) [
    | inl sent ↦ rw (sent, logged.0) (refl, Within-both text logged.1)
    | inr failed ↦ rw (failed, logged.0) (refl, Within-more text logged.1)
  ]

  pub write_lines-EndsLogged :
      (text : Bytes) (net : Net F) → IsLogged net → EndsLogged (write_lines board succeeds text net)
  unfolding write_lines
  write_lines-EndsLogged text net logged = write_to_host-EndsLogged _ _ (logged.0, logged.1)

  pub report_line-EndsLogged :
      (time_str : Bytes) (d : Device F) (net : Net F)
      → IsLogged (set_device d net)
      → EndsLogged (report_line board succeeds time_str d net)
  report_line-EndsLogged time_str d net logged =
      EndsLogged-if (leb 8 (length (board.print_2_1f (get_temperature board d)))) _ _ tt (
        EndsLogged-if (d.interrupt || d.generate_reports) _ _
          (EndsLogged-if
            (leb
              (length
                  (write_str board succeeds d time_str (board.print_2_1f (get_temperature board d)))
                + 2)
              20)
            _ _
            (write_lines-EndsLogged
              (write_str board succeeds d time_str (board.print_2_1f (get_temperature board d)))
              (set_device d net) logged)
            tt)
          logged)

  pub exit-EndsLogged :
      (net : Net F) → IsLogged net → EndsLogged (exit_if_interrupted board succeeds net)
  exit-EndsLogged net logged = elim (Bool-cases net.console.device.interrupt) [
    | inl stop ↦ rw stop logged
    | inr go_on ↦ rw go_on logged
  ]

  pub report-EndsLogged : (net : Net F) → IsLogged net → EndsLogged (report board succeeds net)
  unfolding report
  report-EndsLogged net logged =
      EndsLogged-on_console net (λ d. d) (read_temp_sensor board _) _ logged
        (read_temp_sensor-KeepsLog board _)
        (λ d same.
          EndsLogged-bind
            (report_line board succeeds (time_text (board.local_time net.console.device.time_calls))
              d net)
            _
            (report_line-EndsLogged (time_text (board.local_time net.console.device.time_calls)) d
              net (IsLogged-same net (set_device d net) refl same logged))
            exit-EndsLogged)

  pub process_command-EndsLogged :
      (net : Net F) → IsLogged net → EndsLogged (process_command board succeeds net)
  unfolding process_command
  process_command-EndsLogged net logged =
      EndsLogged-checked net
        (strncpy net.console.line_marker net.console.line_buf net.console.proc_buf) _
        (λ copied.
          EndsLogged-on_console net (λ (r : Bool × Device F). r.1)
            (dispatch board net.console.line_marker copied net.console.device) _ logged
            (dispatch-KeepsLog board net.console.line_marker copied net.console.device)
            (λ r same.
              let after = IsLogged-same net (set_device r.1 net) refl same logged in
              EndsLogged-bind
                (if r.1.interrupt
                  then report board succeeds (set_device r.1 net)
                  else done (set_device r.1 net))
                _
                (EndsLogged-if r.1.interrupt _ _ (report-EndsLogged (set_device r.1 net) after)
                  after)
                (λ reported kept.
                  EndsLogged-checked reported (clear net.console.line_marker copied) _
                    (λ cleared. kept))))

  pub enter-EndsLogged : (net : Net F) → IsLogged net → EndsLogged (enter board succeeds net)
  enter-EndsLogged net logged =
      EndsLogged-bind
        (process_command board succeeds
          (set_device (write_format (13 ∷ []) net.console.device) net))
        _
        (process_command-EndsLogged (set_device (write_format (13 ∷ []) net.console.device) net)
          logged)
        (λ ran kept.
          EndsLogged-checked ran (clear ran.console.line_marker ran.console.line_buf) _
            (λ emptied. kept))

  pub on_line-EndsLogged :
      (net : Net F) (f : Console F → D.Outcome F (Console F))
      → IsLogged net
      → KeepsLog (λ (c : Console F). c.device) net.console.device (f net.console)
      → EndsLogged (on_line board succeeds net f)
  on_line-EndsLogged net f logged kept =
      EndsLogged-on_console net (λ (c : Console F). c.device) (f net.console) _ logged kept
        (λ c same. IsLogged-same net (record net { console = c }) refl same logged)

  pub store_char-EndsLogged :
      (b : ℕ) (net : Net F) → IsLogged net → EndsLogged (store_char board succeeds b net)
  unfolding store_char
  store_char-EndsLogged b net logged =
      EndsLogged-if (b == 127) _ _
        (EndsLogged-if (ltb 0 net.console.line_marker) _ _
          (on_line-EndsLogged net (delete_last board) logged
            (delete_last-KeepsLog board net.console))
          logged)
        (EndsLogged-if (b == 10) _ _
          (EndsLogged-if (ltb 0 net.console.line_marker) _ _ (enter-EndsLogged net logged) logged)
          (EndsLogged-if (b == 3) _ _ logged (
            EndsLogged-if (leb 32 b && leb b 126) _ _
              (on_line-EndsLogged net (append_char board b) logged
                (append_char-KeepsLog board b net.console))
              logged)))

  pub store_chars-EndsLogged :
      (bytes : Bytes) (net : Net F)
      → IsLogged net
      → EndsLogged (store_chars board succeeds bytes net)
  unfolding store_chars
  store_chars-EndsLogged [] net logged = logged
  store_chars-EndsLogged (b ∷ bytes) net logged =
      EndsLogged-bind (store_char board succeeds b net) _ (store_char-EndsLogged b net logged)
        (store_chars-EndsLogged bytes)

  pub store_buffer-EndsLogged :
      (bytes : Bytes) (net : Net F)
      → IsLogged net
      → EndsLogged (store_buffer board succeeds bytes net)
  unfolding store_buffer
  store_buffer-EndsLogged bytes net logged =
      EndsLogged-if (ltb (bufsize - 1) net.console.line_marker) _ _
        (store_chars-EndsLogged bytes _ logged) (store_chars-EndsLogged bytes net logged)
