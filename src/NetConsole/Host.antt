-- ===== src/NetConsole/Host.antt =====
-- `report`, `read_from_host` and `write_to_host` of project 4c/lab4c.c, on the board and the streams of
-- Console.Device. Whether the n-th write to the host succeeds is a parameter.
use some_low_level_tasks.Prelude.{ℕ, ◌+◌, Bool, ◌||◌, [], ◌∷◌, ◌++◌, leb, length, if◌then◌else◌}
use some_low_level_tasks.Text.{Bytes}
use some_low_level_tasks.Console.Device.{
  Board, Device, write_stdout, write_log, write_format, time_text, shutdown_text, get_temperature,
  read_temp_sensor,
}
use some_low_level_tasks.Console.Device as D
use some_low_level_tasks.Console.Line.{Console}

-- The console, and what was sent to the host in how many writes.
pub record Net (F : Type 0) : Type 0 where
  pub console : Console F
  pub host : Bytes
  pub sends : ℕ

pub data Outcome (F A : Type 0) : Type 0 where
  done : A → Outcome F A
  exited : ℕ → Net F → Outcome F A
  overflow : Outcome F A  -- an access outside of an array

abbrev pub and_then : {F A B : Type 0} → Outcome F A → (A → Outcome F B) → Outcome F B
and_then (done a) f = f a
and_then (exited n net) f = exited n net
and_then overflow f = overflow

infixl 5 ◌>>=◌
abbrev pub ◌>>=◌ : {F A B : Type 0} → Outcome F A → (A → Outcome F B) → Outcome F B
m >>= f = and_then m f

abbrev pub set_device : {F : Type 0} → Device F → Net F → Net F
set_device d net = record net { console = record net.console { device = d } }

-- A function of the console in place of one of the program.
abbrev pub on_console : {F A : Type 0} → Net F → D.Outcome F A → Outcome F A
on_console net (D.done a) = done a
on_console net (D.exited n d) = exited n (set_device d net)
on_console net D.overflow = overflow

module _ {F : Type 0} (board : Board F) (succeeds : ℕ → Bool) where
  -- To the log first, and then to the host.
  unfoldable pub write_to_host : Bytes → Net F → Outcome F (Net F)
  write_to_host text net =
      let logged = set_device (write_log text net.console.device) net in
      if succeeds net.sends
      then done (record logged { host = net.host ++ text; sends = net.sends + 1 })
      else exited 2 (record logged { sends = net.sends + 1 })

  -- `temp_str` has 8 bytes and `write_str` 20.
  abbrev pub write_str : Device F → (time_str temp_str : Bytes) → Bytes
  write_str d time_str temp_str =
      time_str ++ (if d.interrupt then shutdown_text else b' ' ∷ temp_str)

  -- The writes of one report.
  unfoldable pub write_lines : Bytes → Net F → Outcome F (Net F)
  write_lines text net =
      let d = net.console.device in
      let shown = write_stdout (10 ∷ []) (write_format (13 ∷ []) (write_stdout text d)) in
      write_to_host (text ++ 10 ∷ []) (set_device shown net)

  -- `temp_str` has 8 bytes and `write_str` 20.
  abbrev pub report_line : Bytes → Device F → Net F → Outcome F (Net F)
  report_line time_str d net =
      let temp_str = board.print_2_1f (get_temperature board d) in
      let text = write_str d time_str temp_str in
      let reported = write_lines text (set_device d net) in
      if leb 8 (length temp_str)
      then overflow
      else if d.interrupt || d.generate_reports
      then (if leb (length text + 2) 20 then reported else overflow)
      else done (set_device d net)

  abbrev pub exit_if_interrupted : Net F → Outcome F (Net F)
  exit_if_interrupted net = if net.console.device.interrupt then exited 0 net else done net

  unfoldable pub report : Net F → Outcome F (Net F)
  report net = do
    let d = net.console.device
    let time_str = time_text (board.local_time d.time_calls)
    sampled ← on_console net (read_temp_sensor board (record d { time_calls = d.time_calls + 1 }))
    shown ← report_line time_str sampled net
    exit_if_interrupted shown
