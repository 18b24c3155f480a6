-- ===== src/Console/Pressed.antt =====
-- What the button of project 4b/lab4b.c does at the next report.
use some_low_level_tasks.Prelude.{
  ℕ, ◌+◌, ◌≡◌, refl, true, false, ◌++◌, append_assoc, Bool-cases, inl, inr,
}
use some_low_level_tasks.Prelude.Int.{pos}
use some_low_level_tasks.Text.{codes}
use some_low_level_tasks.Console.Device.{
  Board, Device, exited, read_temp_sensor, read_button, report, written, to_celsius, to_fahrenheit,
  time_text, write_format,
}
use some_low_level_tasks.Console.Line.{Console, clear_screen_line, write_input}
use some_low_level_tasks.Console.Loop.{Round, round, write_report}

module _ {F : Type 0} (board : Board F) where
  report-shutdown :
      (d : Device F) (reading : ℕ)
      → d.interrupt ≡ true
      → board.analog d.analog_reads ≡ pos reading
      → (d' : Device F) × (report board d ≡ exited 0 d')
        × (d'.stdout
            ≡ d.stdout ++ (time_text (board.local_time d.time_calls) ++ codes " SHUTDOWN\n"))
  unfolding report read_temp_sensor
  report-shutdown d reading stop answers =
      let time = time_text (board.local_time d.time_calls) in
      let c = to_celsius board (pos reading) in
      let sensed : Device F = record d {
        time_calls = d.time_calls + 1;
        analog_reads = d.analog_reads + 1;
        celsius = c;
        fahrenheit = to_fahrenheit board c;
      } in
      (written board sensed time, rw (answers, stop) refl, rw stop (simp append_assoc))

  write_report-shutdown :
      (c : Console F) (reading : ℕ)
      → c.device.interrupt ≡ true
      → board.analog c.device.analog_reads ≡ pos reading
      → (d : Device F) × (write_report board c ≡ exited 0 d)
        × (d.stdout
            ≡ c.device.stdout
              ++ (time_text (board.local_time c.device.time_calls) ++ codes " SHUTDOWN\n"))
  unfolding write_report
  write_report-shutdown c reading stop answers =
      let (d, e, shown) =
        report-shutdown (write_format clear_screen_line c.device) reading stop answers in
      (d, rw e refl, shown)

  -- In a round with nothing to read in which the button is down, a report is due and the sensor answers, the
  -- program exits with 0, and the last line on stdout is the time and SHUTDOWN.
  pub round-shutdown :
      (r : Round) (c : Console F) (reading : ℕ)
      → r.readable ≡ false
      → r.period_due ≡ true
      → board.digital c.device.digital_reads ≡ pos 1
      → board.analog c.device.analog_reads ≡ pos reading
      → (d : Device F) × (round board r c ≡ exited 0 d)
        × (d.stdout
            ≡ c.device.stdout
              ++ (time_text (board.local_time c.device.time_calls) ++ codes " SHUTDOWN\n"))
  unfolding round read_button write_input
  round-shutdown r c reading quiet due down answers =
      let pressed : Console F = record c {
        device = record c.device {
          digital_reads = c.device.digital_reads + 1;
          pressed = true;
          interrupt = true;
        };
      } in
      elim (Bool-cases r.input_due) [
        | inl input ↦
            let (d, e, shown) = write_report-shutdown (write_input pressed) reading refl answers in
            (d, rw (quiet, down, input, due) (rw e refl), shown)
        | inr other ↦
            let (d, e, shown) = write_report-shutdown pressed reading refl answers in
            (d, rw (quiet, down, other, due) (rw e refl), shown)
      ]
