-- ===== src/Console/Logged/Rounds.antt =====
-- The commands, the rounds and the start of project 4b/lab4b.c keep the log complete.
use some_low_level_tasks.Prelude.{
  ℕ, ◌-◌, Bool, true, false, ◌&&◌, List, [], ◌∷◌, ◌==◌, ltb, leb, if◌then◌else◌,
}
use some_low_level_tasks.Text.{Bytes}
use some_low_level_tasks.Console.Device.{
  Board, Device, done, write_log, write_format, read_button, report,
}
use some_low_level_tasks.Console.Line.{
  Console, bufsize, clear, strncpy, dispatch, log_command, first_bytes, report_if, process_command,
  enter, store_char, store_chars, store_buffer, store, clear_screen_line, write_input,
}
use some_low_level_tasks.Console.Loop.{
  Round, accepted, store_accepted, receive, press, write_report, report_due, round, rounds,
}
use some_low_level_tasks.Console.Logged.{
  LogsAll, Ends, same_device, device_of, Ends-bind, Ends-checked, Ends-if, LogsAll-write_log,
  report-Ends, read_button-Ends, dispatch-Ends,
}

module _ {F : Type 0} (board : Board F) where
  log_command-LogsAll :
      (valid : Bool) (text : Bytes) (d : Device F) → LogsAll d → LogsAll (log_command valid text d)
  log_command-LogsAll true text d h =
      LogsAll-write_log (10 ∷ []) (write_log text d) (LogsAll-write_log text d h)
  log_command-LogsAll false text d h = h

  process_command-Ends :
      (c : Console F) → LogsAll c.device → Ends device_of (process_command board c)
  unfolding process_command
  process_command-Ends c h =
      Ends-checked device_of (strncpy c.line_marker c.line_buf c.proc_buf) _ (λ copied.
        Ends-bind (λ (r : Bool × Device F). r.1) device_of
          (dispatch board c.line_marker copied c.device) _
          (dispatch-Ends board c.line_marker copied c.device h)
          (λ (valid, after) k.
            let logged = log_command valid (first_bytes c.line_marker copied) after in
            let kept = log_command-LogsAll valid (first_bytes c.line_marker copied) after k in
            Ends-bind same_device device_of (report_if board logged.interrupt logged) _
              (Ends-if same_device logged.interrupt (report board logged) (done logged)
                (report-Ends board logged kept) kept)
              (λ reported l. Ends-checked device_of (clear c.line_marker copied) _ (λ cleared. l))))

  enter-Ends : (c : Console F) → LogsAll c.device → Ends device_of (enter board c)
  enter-Ends c h =
      Ends-bind device_of device_of
        (process_command board (record c { device = write_format (13 ∷ []) c.device })) _
        (process_command-Ends (record c { device = write_format (13 ∷ []) c.device }) h)
        (λ ran k. Ends-checked device_of (clear ran.line_marker ran.line_buf) _ (λ emptied. k))

  store_char-Ends :
      (b : ℕ) (c : Console F) → LogsAll c.device → Ends device_of (store_char board b c)
  unfolding store_char
  store_char-Ends b c h =
      Ends-if device_of (b == 127) _ _
        (Ends-if device_of (ltb 0 c.line_marker) _ _
          (Ends-checked device_of (store c.line_buf (c.line_marker - 1) 0) _ (λ emptied. h)) h)
        (Ends-if device_of (b == 10) _ _
          (Ends-if device_of (ltb 0 c.line_marker) _ _ (enter-Ends c h) h)
          (Ends-if device_of (b == 3) _ _ h (
            Ends-if device_of (leb 32 b && leb b 126) _ _
              (Ends-checked device_of (store c.line_buf c.line_marker b) _ (λ longer. h)) h)))

  store_chars-Ends :
      (bytes : Bytes) (c : Console F)
      → LogsAll c.device
      → Ends device_of (store_chars board bytes c)
  unfolding store_chars
  store_chars-Ends [] c h = h
  store_chars-Ends (b ∷ bytes) c h =
      Ends-bind device_of device_of (store_char board b c) _ (store_char-Ends b c h)
        (store_chars-Ends bytes)

  store_buffer-Ends :
      (bytes : Bytes) (c : Console F)
      → LogsAll c.device
      → Ends device_of (store_buffer board bytes c)
  unfolding store_buffer
  store_buffer-Ends bytes c h =
      Ends-if device_of (ltb (bufsize - 1) c.line_marker) _ _ (store_chars-Ends bytes _ h)
        (store_chars-Ends bytes c h)

  store_accepted-Ends :
      (bytes : Bytes) (c : Console F)
      → LogsAll c.device
      → Ends device_of (store_accepted board bytes c)
  unfolding write_input
  store_accepted-Ends [] c h = h
  store_accepted-Ends (b ∷ bytes) c h =
      Ends-bind device_of device_of (store_buffer board (b ∷ bytes) c) _
        (store_buffer-Ends (b ∷ bytes) c h) (λ stored k. k)

  press-Ends : (c : Console F) → LogsAll c.device → Ends device_of (press board c)
  press-Ends c h =
      Ends-bind (λ (r : Bool × Device F). r.1) device_of (read_button board c.device) _
        (read_button-Ends board c.device h) (λ r k. interrupted r.0 r.1 k)
    where
      interrupted :
          (b : Bool) (d : Device F)
          → LogsAll d
          → LogsAll (if b then record d { interrupt = true } else d)
      interrupted true d k = k
      interrupted false d k = k

  pub write_report-Ends : (c : Console F) → LogsAll c.device → Ends device_of (write_report board c)
  unfolding write_report
  write_report-Ends c h =
      Ends-bind same_device device_of (report board (write_format clear_screen_line c.device)) _
        (report-Ends board (write_format clear_screen_line c.device) h) (λ reported k. k)

  report_due-Ends :
      (r : Round) (c : Console F) → LogsAll c.device → Ends device_of (report_due board r c)
  unfolding write_input
  report_due-Ends r c h =
      Ends-if device_of r.period_due _ _
        (Ends-bind device_of device_of (write_report board c) _ (write_report-Ends c h)
          (λ reported k. k))
        h

  round-Ends : (r : Round) (c : Console F) → LogsAll c.device → Ends device_of (round board r c)
  unfolding round write_input
  round-Ends r c h =
      Ends-bind device_of device_of (receive board r c) _
        (Ends-if device_of r.readable _ _ (store_accepted-Ends (accepted r.received) c h) h)
        (λ stored k.
          Ends-bind device_of device_of (press board stored) _ (press-Ends stored k)
            (λ pressed l. report_due-Ends r _ (due r.input_due pressed l)))
    where
      due :
          (b : Bool) (c : Console F)
          → LogsAll c.device
          → LogsAll (if b then write_input c else c).device
      due true c h = h
      due false c h = h

  pub rounds-Ends :
      (events : List Round) (c : Console F)
      → LogsAll c.device
      → Ends device_of (rounds board events c)
  unfolding rounds
  rounds-Ends [] c h = h
  rounds-Ends (r ∷ events) c h =
      Ends-bind device_of device_of (round board r c) _ (round-Ends r c h) (rounds-Ends events)
