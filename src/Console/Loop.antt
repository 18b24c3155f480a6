-- ===== src/Console/Loop.antt =====
-- The start and the loop of project 4b/lab4b.c. What `getopt_long` and `open` give, what `poll` and the read
-- find and when the timers have run out are parameters. Messages on stderr are left out.
use some_low_level_tasks.Prelude.{
  Bool, true, false, Option, none, some, List, [], ◌∷◌, ◌==◌, replicate, if◌then◌else◌,
}
use some_low_level_tasks.Text.{Bytes}
use some_low_level_tasks.System.{Opt, first_char}
use some_low_level_tasks.Console.Device.{
  Board, Device, Outcome, done, exited, ◌>>=◌, write_format, read_button, report, set_scale,
  set_period,
}
use some_low_level_tasks.Console.Line.{
  Console, bufsize, clear_screen_line, write_input, store_buffer,
}

-- What one round of the loop meets: what `poll` and the read find, where `none` is a read that fails, and
-- whether the two timers have run out.
pub record Round : Type 0 where
  pub readable : Bool
  pub received : Option Bytes
  pub input_due : Bool
  pub period_due : Bool

-- The bytes that are stored: none where `new_buf[0]` is 0, as it is unless a byte was read into it,
-- since `store_buffer` clears what it has read.
abbrev pub accepted : Option Bytes → Bytes
accepted none = []
accepted (some []) = []
accepted (some (c ∷ bytes)) = if c == 0 then [] else c ∷ bytes

module _ {F : Type 0} (board : Board F) where
  abbrev pub set_device : Device F → Console F → Console F
  set_device d c = record c { device = d }

  abbrev pub store_accepted : Bytes → Console F → Outcome F (Console F)
  store_accepted [] c = done c
  store_accepted bytes c = store_buffer board bytes c >>= λ stored. done (write_input stored)

  abbrev pub receive : Round → Console F → Outcome F (Console F)
  receive r c = if r.readable then store_accepted (accepted r.received) c else done c

  abbrev pub press : Console F → Outcome F (Console F)
  press c = do
    (pressed, d) ← read_button board c.device
    done (set_device (if pressed then record d { interrupt = true } else d) c)

  unfoldable pub write_report : Console F → Outcome F (Console F)
  write_report c = do
    reported ← report board (write_format clear_screen_line c.device)
    done (set_device reported c)

  abbrev pub report_due : Round → Console F → Outcome F (Console F)
  report_due r c =
      if r.period_due then (write_report c >>= λ reported. done (write_input reported)) else done c

  -- One round of the loop of `main`.
  unfoldable pub round : Round → Console F → Outcome F (Console F)
  round r c = do
    stored ← receive r c
    pressed ← press stored
    report_due r (if r.input_due then write_input pressed else pressed)

  unfoldable pub rounds : List Round → Console F → Outcome F (Console F)
  rounds [] c = done c
  rounds (r ∷ later) c = round r c >>= rounds later

  -- One option; `opens` says which log can be opened.
  unfoldable pub set_option : (opens : Bytes → Bool) → Opt → Device F → Outcome F (Device F)
  set_option opens o d =
      if o.code == b'p'
      then done (set_period (board.atof o.optarg) d)
      else if o.code == b's'
      then set_scale (first_char o.optarg) d
      else if o.code == b'l'
      then done (record d { log_open = opens o.optarg })
      else exited 1 d

  unfoldable pub set_options : (opens : Bytes → Bool) → List Opt → Device F → Outcome F (Device F)
  set_options opens [] d = done d
  set_options opens (o ∷ opts) d = set_option opens o d >>= set_options opens opts

  abbrev pub no_words : List Bytes → Device F → Outcome F (Device F)
  no_words [] d = done d
  no_words (word ∷ words) d = exited 1 d

  abbrev pub default_settings : Device F → Outcome F (Device F)
  default_settings d =
      set_scale b'F' (set_period (board.to_float (board.decimal 1000 3)) d) >>= λ scaled.
      done (record scaled { log_open = false })

  unfoldable pub process_args :
      (opens : Bytes → Bool) → List Opt → (words : List Bytes) → Device F → Outcome F (Device F)
  process_args opens opts words d = do
    defaults ← default_settings d
    settings ← set_options opens opts defaults
    no_words words settings

  -- `init_temp_sensor` and `init_button`, where `found` says that the library finds the pin.
  abbrev pub init_pin : (found : Bool) → Device F → Outcome F (Device F)
  init_pin found d = if found then done d else exited 1 d

  -- The arrays; `line_marker` is 0 from the start.
  abbrev pub init_vars : Device F → Console F
  init_vars d = record {
    device = d;
    line_buf = replicate bufsize 0;
    proc_buf = replicate bufsize 0;
    line_marker = 0;
  }

  unfoldable pub main :
      (opens : Bytes → Bool)
      → List Opt
      → (words : List Bytes) → (sensor_found button_found : Bool) → List Round
      → Device F
      → Outcome F (Console F)
  main opens opts words sensor_found button_found events d = do
    settings ← process_args opens opts words d
    sensing ← init_pin sensor_found settings
    ready ← init_pin button_found sensing
    reported ← write_report (init_vars ready)
    rounds events reported
