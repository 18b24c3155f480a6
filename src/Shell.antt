-- ===== src/Shell.antt =====
-- Project 1a/lab1a.c: a terminal that echoes its keyboard, and with --shell hands what is typed to a shell
-- and shows what the shell prints. What `getopt_long`, `kill` and `waitpid` give and what `poll` and the
-- reads find are parameters.
pub mod Typed
pub mod Start
mod Tests
use some_low_level_tasks.Prelude.{
  ℕ, ◌+◌, ◌/◌, ◌%◌, ◌==◌, Bool, true, false, ◌&&◌, ◌||◌, Option, none, some, List, [], ◌∷◌, ◌++◌,
  if◌then◌else◌,
}
use some_low_level_tasks.Text.{Bytes, codes, decimal}
use some_low_level_tasks.System.{Errno, Opt, invalid_arguments}
use some_low_level_tasks.System as Sys

unfoldable pub usage : Bytes
usage = codes "The correct usage is:\n/lab1a --shell"

abbrev pub set_option : Opt → (pass_shell : Bool) → Sys.Run Bool
set_option o pass_shell =
    if o.code == 0
    then Sys.done pass_shell
    else if o.code == b's'
    then Sys.done true
    else Sys.exited 1 (codes "Unrecognized option. " ++ usage)

abbrev pub set_options : List Opt → (pass_shell : Bool) → Sys.Run Bool
set_options [] pass_shell = Sys.done pass_shell
set_options (o ∷ opts) pass_shell = Sys.and_then (set_option o pass_shell) (set_options opts)

abbrev pub no_words : List Bytes → Bool → Sys.Run Bool
no_words [] pass_shell = Sys.done pass_shell
no_words words pass_shell = Sys.exited 1 (invalid_arguments words usage)

unfoldable pub process_option : List Opt → List Bytes → Sys.Run Bool
process_option opts words = Sys.and_then (set_options opts false) (no_words words)

-- `enum FuncName`
pub data FuncName : Type 0 where
  atexit_name pipe_name fork_name exec_name kill_name wait_name setattr_name : FuncName

abbrev pub error_in : FuncName → Bytes
error_in atexit_name = codes "registering functions to be called at process termination"
error_in pipe_name = codes "creating pipes for interprocess communication"
error_in fork_name = codes "forking the terminal process"
error_in exec_name = codes "creating the shell process"
error_in kill_name = codes "sending SIGINT to the shell"
error_in wait_name = codes "waiting for the termination status of the shell process"
error_in setattr_name = codes "setting the terminal attribute"

unfoldable pub check_message : (Errno → Bytes) → FuncName → Errno → Bytes
check_message strerror name e =
    codes "An error occurred while " ++ error_in name ++ codes ". " ++ strerror e ++ codes "\n"

-- What was written to stdout and to the shell, and how often SIGINT was sent.
pub record Terminal : Type 0 where
  pub stdout : Bytes
  pub to_shell : Bytes
  pub interrupts : ℕ

-- The terminal goes on, or the program exits with a code and what it wrote to stderr.
pub data Outcome : Type 0 where
  going : Terminal → Outcome
  exited : (code : ℕ) → (stderr : Bytes) → Terminal → Outcome

abbrev pub and_then : Outcome → (Terminal → Outcome) → Outcome
and_then (going t) f = f t
and_then (exited code stderr t) f = exited code stderr t

-- `waited` is the status of the shell, or the error of `waitpid`; `kill_error` is that of the n-th `kill`.
pub record Calls : Type 0 where
  pub strerror : Errno → Bytes
  pub kill_error : ℕ → Option Errno
  pub wait_error : Option Errno
  pub status : ℕ

pub data Source : Type 0 where
  from_keyboard from_shell : Source

abbrev pub is_keyboard : Source → Bool
is_keyboard from_keyboard = true
is_keyboard from_shell = false

-- What `poll` finds for one of the two: bytes to read, an end, or nothing.
pub data Event : Type 0 where
  input : Bytes → Event
  hung_up nothing : Event

abbrev pub show : Bytes → Terminal → Terminal
show bytes t = record t { stdout = t.stdout ++ bytes }

abbrev pub type_to : Bool → Bytes → Terminal → Terminal
type_to to_it bytes t = record t { to_shell = if to_it then t.to_shell ++ bytes else t.to_shell }

module _ (calls : Calls) (pass_shell : Bool) where
  abbrev exit_signal : ℕ
  exit_signal = calls.status % 128

  abbrev exit_status : ℕ
  exit_status = calls.status / 256 % 256

  abbrev status_line : Bytes
  status_line =
      codes "SHELL EXIT SIGNAL="
      ++ decimal exit_signal
      ++ codes " STATUS="
      ++ decimal exit_status
      ++ codes "\n"

  -- Behind `waitpid`; WIFEXITED says that no signal ended the shell.
  abbrev report_status : Option Errno → Terminal → Outcome
  report_status (some e) t = exited 1 (check_message calls.strerror wait_name e) t
  report_status none t = exited (if exit_signal == 0 then 0 else 1) status_line t

  unfoldable pub shell_status : Terminal → Outcome
  shell_status t = report_status calls.wait_error t

  abbrev killed : Option Errno → Terminal → Outcome
  killed none t = going t
  killed (some e) t = exited 1 (check_message calls.strerror kill_name e) t

  abbrev interrupt : Terminal → Outcome
  interrupt t =
      if pass_shell
      then killed (calls.kill_error t.interrupts) (record t { interrupts = t.interrupts + 1 })
      else going t

  -- One character of `buf`.
  unfoldable pub relay_char : Source → ℕ → Terminal → Outcome
  relay_char source c t =
      let to_it = is_keyboard source && pass_shell in
      if (c == 13) || (c == 10)
      then going (type_to to_it (10 ∷ []) (show (13 ∷ 10 ∷ []) t))
      else if c == 3
      then interrupt (show (codes "^C") t)
      else if c == 4
      then (if pass_shell
          then shell_status (show (codes "^D") t)
          else exited 0 [] (show (codes "^D") t))
      else if c == 127
      then going (show (c ∷ []) t)
      else going (type_to to_it (c ∷ []) (show (c ∷ []) t))

  unfoldable pub relay_chars : Source → Bytes → Terminal → Outcome
  relay_chars source [] t = going t
  relay_chars source (c ∷ chars) t = and_then (relay_char source c t) (relay_chars source chars)

  abbrev pub relay_event : Source → Event → Terminal → Outcome
  relay_event source (input chars) t = relay_chars source chars t
  relay_event source hung_up t = shell_status t
  relay_event source nothing t = going t

  -- One `poll`: the keyboard, and the shell where there is one.
  unfoldable pub relay_round : (keyboard shell : Event) → Terminal → Outcome
  relay_round keyboard shell t =
      and_then (relay_event from_keyboard keyboard t)
        (λ t'. if pass_shell then relay_event from_shell shell t' else going t')

  unfoldable pub relay_rounds : List (Event × Event) → Terminal → Outcome
  relay_rounds [] t = going t
  relay_rounds ((keyboard, shell) ∷ later) t =
      and_then (relay_round keyboard shell t) (relay_rounds later)
