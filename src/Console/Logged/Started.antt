-- ===== src/Console/Logged/Started.antt =====
-- The start of project 4b/lab4b.c keeps the log complete.
use some_low_level_tasks.Prelude.{◌≡◌, Bool, true, false, inr, List, [], ◌∷◌, arith}
use some_low_level_tasks.Text.{Bytes}
use some_low_level_tasks.Text.Within.{Within-nil}
use some_low_level_tasks.System.{Opt}
use some_low_level_tasks.Console.Device.{
  Board, Device, Outcome, done, exited, overflow, and_then, set_scale,
}
use some_low_level_tasks.Console.Line.{Console}
use some_low_level_tasks.Console.Loop.{
  Round, write_report, set_option, set_options, no_words, process_args, init_pin, init_vars, main,
}
use some_low_level_tasks.Console.Logged.{Ends, device_of, Ends-bind}
use some_low_level_tasks.Console.Logged.Rounds.{write_report-Ends, rounds-Ends}

module _ {F : Type 0} (board : Board F) where
  -- Before the first report nothing is on stdout.
  abbrev Silent : Outcome F (Device F) → Type 0
  Silent (done d) = d.stdout ≡ []
  Silent (exited code d) = d.stdout ≡ []
  Silent overflow = Unit {0}

  Silent-bind :
      (o : Outcome F (Device F)) (f : Device F → Outcome F (Device F))
      → Silent o
      → ((d : Device F) → d.stdout ≡ [] → Silent (f d))
      → Silent (and_then o f)
  Silent-bind (done d) f h k = k d h
  Silent-bind (exited code d) f h k = h
  Silent-bind overflow f h k = tt

  set_option-Silent :
      (opens : Bytes → Bool) (o : Opt) (d : Device F)
      → d.stdout ≡ []
      → Silent (set_option board opens o d)
  unfolding set_option set_scale
  set_option-Silent opens o d h = ground (arith, h)

  set_options-Silent :
      (opens : Bytes → Bool) (opts : List Opt) (d : Device F)
      → d.stdout ≡ []
      → Silent (set_options board opens opts d)
  unfolding set_options
  set_options-Silent opens [] d h = h
  set_options-Silent opens (o ∷ opts) d h =
      Silent-bind (set_option board opens o d) _ (set_option-Silent opens o d h)
        (set_options-Silent opens opts)

  no_words-Silent :
      (words : List Bytes) (d : Device F) → d.stdout ≡ [] → Silent (no_words board words d)
  no_words-Silent [] d h = h
  no_words-Silent (word ∷ words) d h = h

  process_args-Silent :
      (opens : Bytes → Bool) (opts : List Opt) (words : List Bytes) (d : Device F)
      → d.stdout ≡ []
      → Silent (process_args board opens opts words d)
  unfolding process_args set_scale
  process_args-Silent opens opts words d h =
      Silent-bind (set_options board opens opts _) _ (set_options-Silent opens opts _ h)
        (no_words-Silent words)

  Silent-main :
      (o : Outcome F (Device F)) (f : Device F → Outcome F (Console F))
      → Silent o
      → ((d : Device F) → d.stdout ≡ [] → Ends device_of (f d))
      → Ends device_of (and_then o f)
  Silent-main (done d) f h k = k d h
  Silent-main (exited code d) f h k = inr (rw h (Within-nil d.log))
  Silent-main overflow f h k = tt

  init_pin-Silent : (found : Bool) (d : Device F) → d.stdout ≡ [] → Silent (init_pin board found d)
  init_pin-Silent true d h = h
  init_pin-Silent false d h = h

  -- From a start with nothing on stdout, main keeps a log that can be opened complete: whichever way it
  -- has ended so far, or goes on, all that is on stdout is in the log, in its order, unless the log is
  -- closed or the program left an array.
  pub main-Ends :
      (opens : Bytes → Bool) (opts : List Opt) (words : List Bytes)
      (sensor_found button_found : Bool) (events : List Round) (d : Device F)
      → d.stdout ≡ []
      → Ends device_of (main board opens opts words sensor_found button_found events d)
  unfolding main
  main-Ends opens opts words sensor_found button_found events d h =
      Silent-main (process_args board opens opts words d) _
        (process_args-Silent opens opts words d h)
        λ settings h1.
          Silent-main (init_pin board sensor_found settings) _
            (init_pin-Silent sensor_found settings h1)
            λ sensing h2.
              Silent-main (init_pin board button_found sensing) _
                (init_pin-Silent button_found sensing h2)
                λ ready h3.
                  Ends-bind device_of device_of (write_report board (init_vars board ready)) _
                    (write_report-Ends board (init_vars board ready)
                      (inr (rw h3 (Within-nil ready.log))))
                    (rounds-Ends board events)
