-- ===== src/Shell/Tests.antt =====
-- Runs of the program of project 1a/lab1a.c.
use some_low_level_tasks.Prelude.{arith, ◌≡◌, refl, true, none, some, [], ◌∷◌}
use some_low_level_tasks.Text.{codes, decimal, print_digits}
use some_low_level_tasks.System.{done, eagain}
use some_low_level_tasks.System as Sys
use some_low_level_tasks.Relay.Pipes.{
  read_end, write_end, rw_pipe, wr_pipe, shell_side, terminal_side, close_fd, dup2, port_of,
}
use some_low_level_tasks.Shell.Start.{Starts, begin, start_shell, noncanonical_settings, main}
use some_low_level_tasks.Shell.Typed.{relay_chars-typed}
use some_low_level_tasks.Shell.{
  from_keyboard, going, Calls, Terminal, exited, input, nothing, process_option, relay_rounds,
  relay_round, relay_chars, relay_char, shell_status, check_message,
}

shell_option : process_option (record { code = b's'; optarg = [] } ∷ []) [] ≡ done true
unfolding process_option
shell_option = refl

abbrev calls : Calls
calls = record { strerror = λ e. []; kill_error = λ n. none; wait_error = none; status = 512 }

abbrev blank : Terminal
blank = record { stdout = []; to_shell = []; interrupts = 0 }

-- A line is typed, the shell answers, CTRL+C and CTRL+D follow, and the shell ends with status 2.
session :
    relay_rounds calls true
      ((input (codes "ls\r"), nothing)
        ∷ (nothing, input (codes "a\n"))
        ∷ (input (3 ∷ 4 ∷ []), nothing)
        ∷ [])
      blank
    ≡ exited 0
        (codes "SHELL EXIT SIGNAL=0 STATUS=2\n")
        (record { stdout = codes "ls\r\na\r\n^C^D"; to_shell = codes "ls\n"; interrupts = 1 })
unfolding relay_rounds relay_round relay_chars relay_char shell_status decimal print_digits
session = refl

relay_chars-typed_example :
    relay_chars calls true from_keyboard (codes "ls\r") blank
    ≡ going (record { stdout = codes "ls\r\n"; to_shell = codes "ls\n"; interrupts = 0 })
relay_chars-typed_example = relay_chars-typed calls (codes "ls\r") blank (omega arith)

abbrev starts : Starts
starts = record {
  strerror = λ e. codes "no";
  atexit_error = none;
  rw_error = none;
  wr_error = none;
  fork_error = none;
  setattr_error = none;
  pipe_fds = record { rw_read = 3; rw_write = 4; wr_read = 5; wr_write = 6 };
  table = [];
}

-- The terminal reads what the shell prints at 3 and writes to it at 6.
shell_begun :
    begin starts (record { code = b's'; optarg = [] } ∷ []) []
    ≡ done (
      true,
      some (
        ((2, write_end rw_pipe) ∷ (1, write_end rw_pipe) ∷ (0, read_end wr_pipe) ∷ []),
        ((3, read_end rw_pipe) ∷ (6, write_end wr_pipe) ∷ []),
      ),
    )
unfolding begin start_shell noncanonical_settings process_option shell_side terminal_side close_fd
    dup2 port_of
shell_begun = refl

-- Without --shell no fork is made, and CTRL+D ends the program with 0.
no_shell :
    main starts calls [] [] ((input (4 ∷ []), nothing) ∷ [])
    ≡ done (exited 0 [] (record { stdout = codes "^D"; to_shell = []; interrupts = 0 }))
unfolding main begin noncanonical_settings process_option relay_rounds relay_round relay_chars
    relay_char
no_shell = refl

not_forked :
    main
      (record starts { fork_error = some eagain })
      calls
      (record { code = b's'; optarg = [] } ∷ [])
      []
      []
    ≡ Sys.exited 1 (codes "An error occurred while forking the terminal process. no\n")
unfolding main begin start_shell noncanonical_settings process_option check_message
not_forked = refl
