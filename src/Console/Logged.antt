-- ===== src/Console/Logged.antt =====
-- What project 4b/lab4b.c writes to its standard output is also in its log.
pub mod Rounds
pub mod Started
use some_low_level_tasks.Prelude.{
  ℕ, ◌+◌, ◌-◌, ◌≡◌, refl, Bool, true, false, ◌&&◌, ◌||◌, ◌⊎◌, inl, inr, Option, none, some, List,
  [], ◌∷◌, ◌++◌, arith, ◌==◌, ltb, leb, if◌then◌else◌, Bool-cases, replicate, ◌∙◌,
}
use some_low_level_tasks.Prelude.Int.{ℤ, pos, negsuc}
use some_low_level_tasks.Text.{Bytes}
use some_low_level_tasks.Text.Within.{Within, Within-nil, Within-more, Within-both}
use some_low_level_tasks.System.{Opt, first_char}
use some_low_level_tasks.Console.Device.{
  Board, Device, Outcome, done, exited, overflow, and_then, write_stdout, write_log, write_format,
  read_temp_sensor, read_button, report, report_text, written, set_scale, set_period, time_text,
}
use some_low_level_tasks.Console.Line.{
  Console, bufsize, clear, strncpy, checked, dispatch, log_command, first_bytes, report_if,
  process_command, enter, delete_last, append_char, store_char, store_chars, store_buffer,
  clear_screen_line, write_input,
}

-- The log is closed, or has what is on stdout in its order.
abbrev pub LogsAll : {F : Type 0} → Device F → Type 0
LogsAll d = (d.log_open ≡ false) ⊎ Within d.stdout d.log

-- However a call ends, but for an access outside of an array.
abbrev pub Ends : {F A : Type 0} → (A → Device F) → Outcome F A → Type 0
Ends at (done a) = LogsAll (at a)
Ends at (exited code d) = LogsAll d
Ends at overflow = Unit {0}

abbrev pub same_device : {F : Type 0} → Device F → Device F
same_device d = d

abbrev pub device_of : {F : Type 0} → Console F → Device F
device_of c = c.device

pub Ends-bind :
    {F A B : Type 0} (at : A → Device F) (at' : B → Device F) (o : Outcome F A)
    (f : A → Outcome F B)
    → Ends at o
    → ((a : A) → LogsAll (at a) → Ends at' (f a))
    → Ends at' (and_then o f)
Ends-bind at at' (done a) f h k = k a h
Ends-bind at at' (exited code d) f h k = h
Ends-bind at at' overflow f h k = tt

pub Ends-checked :
    {F A B : Type 0} (at : B → Device F) (o : Option A) (f : A → Outcome F B)
    → ((a : A) → Ends at (f a))
    → Ends at (and_then (checked o) f)
Ends-checked at none f k = tt
Ends-checked at (some a) f k = k a

pub Ends-if :
    {F A : Type 0} (at : A → Device F) (b : Bool) (x y : Outcome F A)
    → Ends at x
    → Ends at y
    → Ends at (if b then x else y)
Ends-if at true x y h k = h
Ends-if at false x y h k = k

pub LogsAll-write_log :
    {F : Type 0} (text : Bytes) (d : Device F) → LogsAll d → LogsAll (write_log text d)
LogsAll-write_log text d (inl closed) = inl closed
LogsAll-write_log text d (inr within) = elim (Bool-cases d.log_open) [
  | inl opened ↦ rw opened (inr (Within-more text within))
  | inr closed ↦ inl closed
]

-- A text that goes to both.
LogsAll-both :
    {F : Type 0} (text : Bytes) (d : Device F)
    → LogsAll d
    → LogsAll (write_log text (write_stdout text d))
LogsAll-both text d (inl closed) = inl closed
LogsAll-both text d (inr within) = elim (Bool-cases d.log_open) [
  | inl opened ↦ rw opened (inr (Within-both text within))
  | inr closed ↦ inl closed
]

module _ {F : Type 0} (board : Board F) where
  written-LogsAll : (d : Device F) (time : Bytes) → LogsAll d → LogsAll (written board d time)
  written-LogsAll d time h = elim (Bool-cases (d.interrupt || d.generate_reports)) [
    | inl shown ↦ rw shown (
        LogsAll-both (10 ∷ [])
          (write_format (13 ∷ [])
            (write_log (report_text board d time) (write_stdout (report_text board d time) d)))
          (LogsAll-both (report_text board d time) d h))
    | inr hidden ↦ rw hidden h
  ]

  read_temp_sensor-Ends : (d : Device F) → LogsAll d → Ends same_device (read_temp_sensor board d)
  unfolding read_temp_sensor
  read_temp_sensor-Ends d h = ground (arith, h)

  pub read_button-Ends :
      (d : Device F) → LogsAll d → Ends (λ (r : Bool × Device F). r.1) (read_button board d)
  unfolding read_button
  read_button-Ends d h = ground (arith, h)

  pub report-Ends : (d : Device F) → LogsAll d → Ends same_device (report board d)
  unfolding report
  report-Ends d h =
      let time = time_text (board.local_time d.time_calls) in
      Ends-bind same_device same_device
        (read_temp_sensor board (record d { time_calls = d.time_calls + 1 })) _
        (read_temp_sensor-Ends (record d { time_calls = d.time_calls + 1 }) h)
        (λ sampled k.
          let shown = written board sampled time in
          Ends-if same_device shown.interrupt (exited 0 shown) (done shown)
            (written-LogsAll sampled time k) (written-LogsAll sampled time k))

  pub set_scale-Ends : (c : ℕ) (d : Device F) → LogsAll d → Ends same_device (set_scale c d)
  unfolding set_scale
  set_scale-Ends c d h = ground (arith, h)

  pub dispatch-Ends :
      (marker : ℕ) (buf : Bytes) (d : Device F)
      → LogsAll d
      → Ends (λ (r : Bool × Device F). r.1) (dispatch board marker buf d)
  unfolding dispatch set_scale
  dispatch-Ends marker buf d h = ground (arith, h)
