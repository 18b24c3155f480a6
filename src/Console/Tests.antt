-- ===== src/Console/Tests.antt =====
-- Runs of the console of project 4b at a board whose sensor and clock are fixed, and the theorems at it.
use some_low_level_tasks.Prelude.{
  ℕ, ◌≡◌, refl, false, true, none, some, ◌++◌, List, [], ◌∷◌, arith, replicate,
}
use some_low_level_tasks.Prelude.Int.{pos}
use some_low_level_tasks.Console.Device.{
  Board, Device, Outcome, report, read_temp_sensor, exited, fahrenheit_scale, celsius_scale, done,
  overflow, set_scale, time_text,
}
use some_low_level_tasks.Console.Line.{
  Console, store_buffer, store_chars, store_char, process_command, dispatch, starts_with, strncpy,
  clear, store,
}
use some_low_level_tasks.Text.{Bytes, codes}
use some_low_level_tasks.System.{Opt}
use some_low_level_tasks.Console.Loop.{
  Round, round, rounds, write_report, set_option, set_options, process_args, main,
}
use some_low_level_tasks.Console.Pressed.{round-shutdown}
use some_low_level_tasks.Console.Logged.{Ends, device_of}
use some_low_level_tasks.Console.Logged.Started.{main-Ends}
use some_low_level_tasks.Console.Padded.{padded}
use some_low_level_tasks.Console.Editor.{type_chars}
use some_low_level_tasks.Console.Shown.{console, shown}
use some_low_level_tasks.Console.Laws.{store_buffer-type_chars, store_buffer_over}

-- Numbers stand for floating point; a period is read as its first byte.
abbrev board : Board ℕ
board = record {
  analog = λ _. pos 500;
  digital = λ _. pos 0;
  local_time = λ _. record { tm_hour = 9; tm_min = 5; tm_sec = 30 };
  of_int = λ _. 0;
  decimal = λ digits _. digits;
  plus = λ a b. a;
  minus = λ a b. a;
  times = λ a b. a;
  over = λ a b. a;
  logf = λ a. a;
  to_float = λ a. a;
  atof = first;
  print_2_1f = λ a. a ∷ [];
}
  where
    first : List ℕ → ℕ
    first [] = 0
    first (c ∷ bytes) = c

abbrev device : Device ℕ
device = record {
  period = 1;
  scale = fahrenheit_scale;
  fahrenheit = 0;
  celsius = 0;
  pressed = false;
  interrupt = false;
  generate_reports = true;
  log_open = true;
  analog_reads = 0;
  digital_reads = 0;
  time_calls = 0;
  stdout = [];
  log = [];
  format = [];
}

time_run :
    time_text (record { tm_hour = 9; tm_min = 5; tm_sec = 30 })
    ≡ b'0' ∷ b'9' ∷ b':' ∷ b'0' ∷ b'5' ∷ b':' ∷ b'3' ∷ b'0' ∷ []
time_run = refl

-- `SCALE=X`, DEL, `c`, and a newline.
abbrev keys : List ℕ
keys = b'S' ∷ b'C' ∷ b'A' ∷ b'L' ∷ b'E' ∷ b'=' ∷ b'X' ∷ 127 ∷ b'c' ∷ 10 ∷ []

scale_run :
    (d : Device ℕ) × (store_buffer board keys (console ([], device)) ≡ done (console ([], d)))
    × (d.scale ≡ celsius_scale)
    × (d.log ≡ b'S' ∷ b'C' ∷ b'A' ∷ b'L' ∷ b'E' ∷ b'=' ∷ b'c' ∷ 10 ∷ [])
unfolding store_buffer store_chars store_char process_command dispatch starts_with strncpy clear
    store padded set_scale
scale_run = (_, refl, refl, refl)

store_buffer-type_chars_example :
    store_buffer board keys (console (b'A' ∷ [], device))
    ≡ shown (type_chars board keys (b'A' ∷ [], device))
store_buffer-type_chars_example =
    store_buffer-type_chars board keys (b'A' ∷ []) device (omega arith) (omega arith) (ground arith)

store_buffer_over_example :
    store_buffer board (replicate 5 65) (console (replicate 124 65, device)) ≡ overflow
store_buffer_over_example =
    store_buffer_over board (replicate 5 65) (replicate 124 65) device (omega arith) (omega arith)
      (ground arith)

-- A board whose button is down.
abbrev pressed_board : Board ℕ
pressed_board = record board { digital = λ _. pos 1 }

abbrev report_round : Round
report_round = record { readable = false; received = none; input_due = true; period_due = true }

round-shutdown_example :
    (d : Device ℕ) × (round pressed_board report_round (console ([], device)) ≡ exited 0 d)
    × (d.stdout ≡ [] ++ (time_text (board.local_time 0) ++ codes " SHUTDOWN\n"))
round-shutdown_example =
    round-shutdown pressed_board report_round (console ([], device)) 500 refl refl refl refl

-- `--log=l`, `OFF` typed and entered.
abbrev off_round : Round
off_round = record {
  readable = true;
  received = some (codes "OFF\n");
  input_due = false;
  period_due = true;
}

abbrev log_option : List Opt
log_option = record { code = b'l'; optarg = codes "l" } ∷ []

-- The log at an end by `exit`.
abbrev log_of : Outcome ℕ (Console ℕ) → Bytes
log_of (exited code d) = d.log
log_of _ = []

off_run :
    log_of (main board (λ name. true) log_option [] true true (off_round ∷ []) device)
    ≡ codes "09:05:30 \n\nOFF\n09:05:30 SHUTDOWN\n"
unfolding main process_args set_options set_option set_scale write_report report read_temp_sensor
    rounds round store_buffer store_chars store_char process_command dispatch starts_with strncpy
    clear store
off_run = refl

main-Ends_example :
    Ends device_of (main board (λ name. true) log_option [] true true (off_round ∷ []) device)
main-Ends_example =
    main-Ends board (λ name. true) log_option [] true true (off_round ∷ []) device refl
