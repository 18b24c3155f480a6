-- ===== src/NetConsole/Logged/Rounds.antt =====
-- The rounds of the loop of project 4c/lab4c.c keep the log complete.
use some_low_level_tasks.Prelude.{
  ℕ, refl, Bool, true, false, Option, none, some, List, [], ◌∷◌, if◌then◌else◌,
}
use some_low_level_tasks.Text.{Bytes}
use some_low_level_tasks.Console.Device.{Board, Device, write_format, read_button}
use some_low_level_tasks.Console.Line.{clear_screen_line, write_input}
use some_low_level_tasks.NetConsole.Host.{Net, set_device, report}
use some_low_level_tasks.NetConsole.Loop.{
  store_accepted, show_received, accepted, receive, press, report_due, write_input_net, Round,
  round, rounds, store_buffer,
}
use some_low_level_tasks.NetConsole.Logged.{
  EndsLogged, EndsLogged-bind, EndsLogged-if, EndsLogged-on_console, IsLogged, IsLogged-same,
  IsLogged-write_log, SameLog, read_button-KeepsLog,
}
use some_low_level_tasks.NetConsole.Logged.Commands.{report-EndsLogged, store_buffer-EndsLogged}

module _ {F : Type 0} (board : Board F) (succeeds : ℕ → Bool) where
  store_accepted-EndsLogged :
      (bytes : Bytes) (net : Net F)
      → IsLogged net
      → EndsLogged (store_accepted board succeeds bytes net)
  unfolding write_input
  store_accepted-EndsLogged [] net logged = logged
  store_accepted-EndsLogged (b ∷ bytes) net logged =
      EndsLogged-bind (store_buffer board succeeds (b ∷ bytes) net) _
        (store_buffer-EndsLogged board succeeds (b ∷ bytes) net logged) (λ stored kept. kept)

  shown-IsLogged :
      (received : Option Bytes) (net : Net F)
      → IsLogged net
      → IsLogged (show_received board succeeds received net)
  shown-IsLogged none net logged = logged
  shown-IsLogged (some bytes) net logged = IsLogged-write_log bytes net logged

  press-EndsLogged : (net : Net F) → IsLogged net → EndsLogged (press board succeeds net)
  press-EndsLogged net logged =
      EndsLogged-on_console net (λ (r : Bool × Device F). r.1)
        (read_button board net.console.device) _ logged
        (read_button-KeepsLog board net.console.device) (λ r same. pressed_IsLogged r.0 r.1 same)
    where
      pressed_IsLogged :
          (b : Bool) (d : Device F)
          → SameLog net.console.device d
          → IsLogged (set_device (if b then record d { interrupt = true } else d) net)
      pressed_IsLogged true d same = IsLogged-same net (set_device d net) refl same logged
      pressed_IsLogged false d same = IsLogged-same net (set_device d net) refl same logged

  report_due-EndsLogged :
      (r : Round) (net : Net F) → IsLogged net → EndsLogged (report_due board succeeds r net)
  unfolding write_input
  report_due-EndsLogged r net logged =
      EndsLogged-if r.period_due _ _
        (EndsLogged-bind
          (report board succeeds
            (set_device (write_format clear_screen_line net.console.device) net))
          _
          (report-EndsLogged board succeeds
            (set_device (write_format clear_screen_line net.console.device) net) logged)
          (λ reported kept. kept))
        logged

  round-EndsLogged :
      (r : Round) (net : Net F) → IsLogged net → EndsLogged (round board succeeds r net)
  unfolding round write_input
  round-EndsLogged r net logged =
      EndsLogged-bind (receive board succeeds r net) _
        (EndsLogged-if r.readable _ _
          (store_accepted-EndsLogged (accepted board succeeds r.received)
            (show_received board succeeds r.received net) (shown-IsLogged r.received net logged))
          logged)
        (λ stored kept.
          EndsLogged-bind (press board succeeds stored) _ (press-EndsLogged stored kept)
            (λ pressed kept. report_due-EndsLogged r _ (input_IsLogged r.input_due pressed kept)))
    where
      input_IsLogged :
          (b : Bool) (net : Net F)
          → IsLogged net
          → IsLogged (if b then write_input_net net else net)
      input_IsLogged true net logged = logged
      input_IsLogged false net logged = logged

  -- Rounds of the loop keep a log that is open complete: whether they go on or exit, what was sent to the
  -- host is in the log, in its order, with what was received between.
  pub rounds-EndsLogged :
      (events : List Round) (net : Net F)
      → IsLogged net
      → EndsLogged (rounds board succeeds events net)
  unfolding rounds
  rounds-EndsLogged [] net logged = logged
  rounds-EndsLogged (r ∷ events) net logged =
      EndsLogged-bind (round board succeeds r net) _ (round-EndsLogged r net logged)
        (rounds-EndsLogged events)
