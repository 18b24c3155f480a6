-- ===== src/Shell/Start.antt =====
-- The start of project 1a/lab1a.c: `main` up to its loop, with the pipes and the fork. The descriptors are
-- those of Relay.Pipes, and the calls of the system are parameters; the message of a `signal` that
-- fails, behind which the program goes on, the `execvp` of the shell's process and what `restore_orig_settings`
-- does at the exit are left out.
use some_low_level_tasks.Prelude.{Bool, true, false, Option, none, some, List, []}
use some_low_level_tasks.Text.{Bytes}
use some_low_level_tasks.System.{Errno, Opt, ◌>>=◌, ◌>>◌}
use some_low_level_tasks.System as Sys
use some_low_level_tasks.Relay.Pipes.{PipeFds, Table, with_pipes, shell_side, terminal_side}
use some_low_level_tasks.Shell.{
  FuncName, atexit_name, pipe_name, fork_name, setattr_name, check_message, process_option, Calls,
  Event, Outcome, relay_rounds,
}

-- How the calls of the start end, what `pipe` fills its arrays with, and the descriptors before it.
pub record Starts : Type 0 where
  pub strerror : Errno → Bytes
  pub atexit_error : Option Errno
  pub rw_error : Option Errno
  pub wr_error : Option Errno
  pub fork_error : Option Errno
  pub setattr_error : Option Errno
  pub pipe_fds : PipeFds
  pub table : Table

-- `check` with the error of a call that gives less than 0.
abbrev pub check : (Errno → Bytes) → FuncName → Option Errno → Sys.Run (Unit {0})
check strerror name none = Sys.done tt
check strerror name (some e) = Sys.exited 1 (check_message strerror name e)

module _ (m : Starts) where
  -- The descriptors of the shell and of the terminal behind the fork.
  unfoldable pub start_shell : Sys.Run (Table × Table)
  start_shell = do
    check m.strerror pipe_name m.rw_error
    check m.strerror pipe_name m.wr_error
    check m.strerror fork_name m.fork_error
    let opened = with_pipes m.pipe_fds m.table
    Sys.done (shell_side m.pipe_fds opened, terminal_side m.pipe_fds opened)

  abbrev pub shell_if : (pass_shell : Bool) → Sys.Run (Option (Table × Table))
  shell_if true = start_shell >>= λ tables. Sys.done (some tables)
  shell_if false = Sys.done none

  unfoldable pub noncanonical_settings : Sys.Run (Unit {0})
  noncanonical_settings = check m.strerror setattr_name m.setattr_error

  -- `--shell`, and the descriptors where it is given.
  unfoldable pub begin : List Opt → (words : List Bytes) → Sys.Run (Bool × Option (Table × Table))
  begin opts words = do
    pass_shell ← process_option opts words
    check m.strerror atexit_name m.atexit_error
    tables ← shell_if pass_shell
    noncanonical_settings
    Sys.done (pass_shell, tables)

  -- The loop starts with nothing written.
  unfoldable pub main :
      Calls → List Opt → (words : List Bytes) → List (Event × Event) → Sys.Run Outcome
  main calls opts words events = do
    begun ← begin opts words
    Sys.done
        (relay_rounds calls begun.0 events (record { stdout = []; to_shell = []; interrupts = 0 }))
