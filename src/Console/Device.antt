-- ===== src/Console/Device.antt =====
-- The board and the streams of project 4b: EdisonSensors.c, and `report` of lab4b.c.
-- The MRAA library, the clock, floating point and its printing are parameters, gathered in `Board`.
use some_low_level_tasks.Prelude.{
  ℕ, zero, suc, ◌+◌, ◌/◌, ◌%◌, Bool, true, ◌||◌, List, [], ◌∷◌, ◌++◌, ◌==◌, if◌then◌else◌,
}
use some_low_level_tasks.Prelude.Int.{ℤ, pos, negsuc}

-- `enum Scale`
pub data Scale : Type 0 where
  fahrenheit_scale celsius_scale : Scale

-- The fields of `struct tm` that are printed.
pub record LocalTime : Type 0 where
  pub tm_hour : ℕ
  pub tm_min : ℕ
  pub tm_sec : ℕ

-- What the program calls: its n-th call of `mraa_aio_read`, `mraa_gpio_read` and `localtime_r`, and the
-- operations on floating point numbers.
pub record Board (F : Type 0) : Type 0 where
  pub analog : ℕ → ℤ
  pub digital : ℕ → ℤ
  pub local_time : ℕ → LocalTime
  pub of_int : ℤ → F
  pub decimal : ℕ → ℕ → F  -- the digits, and how many of them follow the point
  pub plus : F → F → F
  pub minus : F → F → F
  pub times : F → F → F
  pub over : F → F → F
  pub logf : F → F
  pub to_float : F → F  -- a `double` stored in a `float`
  pub atof : List ℕ → F  -- of the bytes before the terminator, stored in a `float`
  pub print_2_1f : F → List ℕ  -- `%2.1f`

-- The variables of EdisonSensors.c, the flags of lab4b.c, and what was written so far.
pub record Device (F : Type 0) : Type 0 where
  pub period : F
  pub scale : Scale
  pub fahrenheit : F
  pub celsius : F
  pub pressed : Bool
  pub interrupt : Bool
  pub generate_reports : Bool
  pub log_open : Bool  -- `log_fd != -1`
  pub analog_reads : ℕ
  pub digital_reads : ℕ
  pub time_calls : ℕ
  pub stdout : List ℕ
  pub log : List ℕ
  pub format : List ℕ  -- through `format_fd`

pub data Outcome (F A : Type 0) : Type 0 where
  done : A → Outcome F A
  exited : ℕ → Device F → Outcome F A
  overflow : Outcome F A  -- an access outside of an array

abbrev pub and_then : {F A B : Type 0} → Outcome F A → (A → Outcome F B) → Outcome F B
and_then (done a) f = f a
and_then (exited n d) f = exited n d
and_then overflow f = overflow

infixl 5 ◌>>=◌
abbrev pub ◌>>=◌ : {F A B : Type 0} → Outcome F A → (A → Outcome F B) → Outcome F B
m >>= f = and_then m f

abbrev pub write_stdout : {F : Type 0} → List ℕ → Device F → Device F
write_stdout bytes d = record d { stdout = d.stdout ++ bytes }

-- `if (log_fd != -1) write(log_fd, ...)`
abbrev pub write_log : {F : Type 0} → List ℕ → Device F → Device F
write_log bytes d = record d { log = if d.log_open then d.log ++ bytes else d.log }

abbrev pub write_format : {F : Type 0} → List ℕ → Device F → Device F
write_format bytes d = record d { format = d.format ++ bytes }

abbrev two_digits : ℕ → List ℕ
two_digits n = (48 + n / 10) ∷ (48 + n % 10) ∷ []

-- `%02d:%02d:%02d` of fields below 100
abbrev pub time_text : LocalTime → List ℕ
time_text t = two_digits t.tm_hour ++ 58 ∷ two_digits t.tm_min ++ 58 ∷ two_digits t.tm_sec

abbrev pub shutdown_text : List ℕ
shutdown_text = b' ' ∷ b'S' ∷ b'H' ∷ b'U' ∷ b'T' ∷ b'D' ∷ b'O' ∷ b'W' ∷ b'N' ∷ []

module _ {F : Type 0} (board : Board F) where
  abbrev kelvin_inverse : ℤ → F
  kelvin_inverse read =
      let r = board.to_float (
        board.minus (board.over (board.decimal 10230 1) (board.of_int read))
          (board.decimal 10 1)) in
      board.plus (board.over (board.logf r) (board.of_int (pos 4275)))
        (board.over (board.of_int (pos 1)) (board.decimal 29815 2))

  abbrev pub to_celsius : ℤ → F
  to_celsius read =
      board.to_float (
        board.minus (board.over (board.decimal 10 1) (kelvin_inverse read)) (board.decimal 27315 2))

  abbrev pub to_fahrenheit : F → F
  to_fahrenheit c =
      board.to_float (board.plus (board.times c (board.decimal 18 1)) (board.of_int (pos 32)))

  abbrev sampled : ℤ → Device F → Outcome F (Device F)
  sampled (negsuc zero) d = exited 1 d
  sampled read d =
      let c = to_celsius read in done (record d { celsius = c; fahrenheit = to_fahrenheit c })

  unfoldable pub read_temp_sensor : Device F → Outcome F (Device F)
  read_temp_sensor d =
      sampled (board.analog d.analog_reads) (record d { analog_reads = d.analog_reads + 1 })

  abbrev pushed : ℤ → Device F → Outcome F (Bool × Device F)
  pushed (pos n) d =
      if n == 1 then done (true, record d { pressed = true }) else done (d.pressed, d)
  pushed (negsuc zero) d = exited 1 d
  pushed (negsuc (suc n)) d = done (d.pressed, d)

  unfoldable pub read_button : Device F → Outcome F (Bool × Device F)
  read_button d =
      pushed (board.digital d.digital_reads) (record d { digital_reads = d.digital_reads + 1 })

  abbrev pub get_temperature : Device F → F
  get_temperature d = elim d.scale [ fahrenheit_scale ↦ d.fahrenheit | celsius_scale ↦ d.celsius ]

  -- The line that `report` writes, to the standard output and to the log.
  abbrev pub report_text : Device F → List ℕ → List ℕ
  report_text d time =
      time ++ (if d.interrupt then shutdown_text else 32 ∷ board.print_2_1f (get_temperature d))

  -- The arrays `time_str` and `temp_str` hold the text that is written from them.
  abbrev pub written : Device F → List ℕ → Device F
  written d time =
      if d.interrupt || d.generate_reports
      then write_log (10 ∷ []) (
          write_stdout (10 ∷ []) (
            write_format (13 ∷ [])
              (write_log (report_text d time) (write_stdout (report_text d time) d))))
      else d

  unfoldable pub report : Device F → Outcome F (Device F)
  report d = do
    let time = time_text (board.local_time d.time_calls)
    sampled_device ← read_temp_sensor (record d { time_calls = d.time_calls + 1 })
    let shown = written sampled_device time
    if shown.interrupt then exited 0 shown else done shown

-- `set_scale` exits with 1 on another letter.
unfoldable pub set_scale : {F : Type 0} → ℕ → Device F → Outcome F (Device F)
set_scale c d =
    if (c == b'F') || (c == b'f')
    then done (record d { scale = fahrenheit_scale })
    else if (c == b'C') || (c == b'c')
    then done (record d { scale = celsius_scale })
    else exited 1 d

abbrev pub set_period : {F : Type 0} → F → Device F → Device F
set_period p d = record d { period = p }
