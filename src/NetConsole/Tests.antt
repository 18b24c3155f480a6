-- ===== src/NetConsole/Tests.antt =====
-- Runs of the program of project 4c/lab4c.c.
use some_low_level_tasks.Prelude.{ℕ, ◌≡◌, refl, true, false, none, some, List, [], ◌∷◌, replicate}
use some_low_level_tasks.Prelude.Int.{ℤ, pos}
use some_low_level_tasks.Text.{codes, atoi, read_digits}
use some_low_level_tasks.System.{Opt, done}
use some_low_level_tasks.Console.Device.{
  Board, fahrenheit_scale, read_temp_sensor, read_button, set_scale,
}
use some_low_level_tasks.Console.Line.{store, clear, strncpy, starts_with, dispatch, write_input}
use some_low_level_tasks.NetConsole.Connect.{
  Calls, Settings, is_secure, read_port, connect_host, process_args,
}
use some_low_level_tasks.NetConsole.Connect.Laws.{IsUsable, process_args-IsUsable}
use some_low_level_tasks.NetConsole.Host.{Net, exited, report, write_lines, write_to_host}
use some_low_level_tasks.Text.Within.{none_left}
use some_low_level_tasks.NetConsole.Logged.{EndsLogged}
use some_low_level_tasks.NetConsole.Logged.Rounds.{rounds-EndsLogged}
use some_low_level_tasks.NetConsole.Loop.{
  Round, round, rounds, store_buffer, store_chars, store_char, process_command,
}

abbrev calls : Calls
calls = record {
  strerror = λ e. [];
  log_opens = λ name. true;
  socket = none;
  gethostbyname = λ name. none;
  connect = λ host port. none;
  ssl_connect = none;
  sends = λ text. true;
}

abbrev good_options : List Opt
good_options =
    record { code = b'i'; optarg = codes "123456789" }
    ∷ record { code = b'h'; optarg = codes "localhost" }
    ∷ []

abbrev connected : Settings
connected = record {
  log_open = false;
  student_id = some (codes "123456789");
  host_name = some (codes "localhost");
  overrun = 1;
}

-- A correct command line writes one byte behind `write_id`.
write_id_run :
    process_args calls (codes "lab4c_tcp") good_options (codes "18000" ∷ []) ≡ done connected
unfolding process_args is_secure connect_host atoi read_digits
write_id_run = refl

process_args-IsUsable_example :
    (port : ℤ) × (read_port (codes "18000" ∷ []) ≡ done port) × IsUsable calls port connected
process_args-IsUsable_example =
    process_args-IsUsable calls (codes "lab4c_tcp") good_options (codes "18000" ∷ []) connected
      write_id_run

-- Numbers stand for floating point.
abbrev board : Board ℕ
board = record {
  analog = λ _. pos 500;
  digital = λ _. pos 0;
  local_time = λ _. record { tm_hour = 9; tm_min = 5; tm_sec = 30 };
  of_int = λ _. 0;
  decimal = λ digits _. digits;
  plus = λ a b. a;
  minus = λ a b. a;
  times = λ a b. a;
  over = λ a b. a;
  logf = λ a. a;
  to_float = λ a. a;
  atof = λ bytes. 0;
  print_2_1f = λ a. codes "70.1";
}

abbrev net : Net ℕ
net = record {
  console = record {
    device = record {
      period = 1;
      scale = fahrenheit_scale;
      fahrenheit = 0;
      celsius = 0;
      pressed = false;
      interrupt = false;
      generate_reports = true;
      log_open = true;
      analog_reads = 0;
      digital_reads = 0;
      time_calls = 0;
      stdout = [];
      log = [];
      format = [];
    };
    line_buf = replicate 128 0;
    proc_buf = replicate 128 0;
    line_marker = 0;
  };
  host = [];
  sends = 0;
}

abbrev off : Round
off = record {
  readable = true;
  received = some (codes "OFF\n");
  input_due = false;
  period_due = false;
}

-- The command to end is received, logged and obeyed, and the host gets the last report.
off_run :
    (after : Net ℕ) × (round board
        (λ n. true)
        (record {
          readable = true;
          received = some (codes "OFF\n");
          input_due = false;
          period_due = false;
        })
        net
      ≡ exited 0 after)
    × (after.host ≡ codes "09:05:30 SHUTDOWN\n")
    × (after.console.device.log ≡ codes "OFF\n09:05:30 SHUTDOWN\n")
unfolding round store_buffer store_chars store_char process_command report write_lines write_to_host
    read_temp_sensor read_button set_scale store clear strncpy starts_with dispatch write_input
off_run = (_, refl, refl, refl)

rounds-EndsLogged_example : EndsLogged (rounds board (λ n. true) (off ∷ []) net)
rounds-EndsLogged_example = rounds-EndsLogged board (λ n. true) (off ∷ []) net (refl, none_left)
