-- ===== src/Relay/Start.antt =====
-- The start of project 1b: `main` (lab1b-server.c), with `connect_host` of the client (lab1b-client.c, the same
-- text). What the calls of the system give is a parameter.
use some_low_level_tasks.Prelude.{
  ℕ, ◌-◌, ◌%◌, ◌^◌, Bool, List, [], ◌∷◌, ◌==◌, ltb, if◌then◌else◌, get_or, length,
}
use some_low_level_tasks.Prelude.Int.{ℤ, pos, negsuc}
use some_low_level_tasks.Text.{Bytes}
use some_low_level_tasks.System.{Errno, Run, done, overflow, blocked, Opt, ◌>>=◌, ◌>>◌}
use some_low_level_tasks.Relay.Check.{
  Result, atexit_name, setattr_name, sock_name, bind_name, connect_name, gethost_name, signal_name,
  keysize_name, lt_0, is_null, is_sig_err, gt_key_size, check,
}
use some_low_level_tasks.Relay.Options.{ParamArgs, Files, process_option}
use some_low_level_tasks.Relay.Pipes.{PipeFds, Table, establish_shell}
use some_low_level_tasks.Relay.Socket.{Calls, Outcome, fresh}
use some_low_level_tasks.Relay.Loop.{Event, poll_inputs}

-- `argv[0][proc_length - 6] == 's'`
unfoldable pub is_server_name : Bytes → Run Bool
is_server_name name =
    if ltb (length name) 6 then overflow else done (get_or name (length name - 6) 0 == b's')

-- `struct sockaddr_in`, with the port in the order of the host.
pub record Address : Type 0 where
  pub s_addr : ℕ
  pub sin_port : ℕ

-- The fields of `struct termios` that are set.
pub record Termios : Type 0 where
  pub c_iflag : ℕ
  pub c_oflag : ℕ
  pub c_lflag : ℕ
  pub vmin : ℕ
  pub vtime : ℕ

-- What the calls give; `accepted` is what `accept` gives in turn, and `errno` is its value where no call
-- failed; `host` is what `gethostbyname` gives, with the address that it finds. `signal_fails` says which numbers `signal` refuses.
pub record Machine : Type 0 where
  pub strerror : Errno → Bytes
  pub errno : Errno
  pub key_size : ℕ
  pub atexit_result : Result
  pub setattr_result : Result
  pub sock_result : Result
  pub bind_result : Address → Result
  pub accepted : List ℤ
  pub host : Bytes → Result × ℕ
  pub connect_result : Address → Result
  pub signal_fails : ℕ → Bool
  pub pipe_results : Result × Result
  pub fork_result : Result
  pub pipe_fds : PipeFds
  pub table : Table

-- The conversion to 16 bits.
abbrev pub to_uint16 : ℤ → ℕ
to_uint16 (pos n) = n % 2 ^ 16
to_uint16 (negsuc n) = 2 ^ 16 - 1 - n % 2 ^ 16

abbrev pub inaddr_any : ℕ
inaddr_any = 0

abbrev istrip : ℕ
istrip = 32

abbrev pub raw_settings : Termios → Termios
raw_settings attr = record attr { c_iflag = istrip; c_oflag = 0; c_lflag = 0; vmin = 1; vtime = 0 }

-- The first descriptor that `accept` gives; where there is none, the program waits.
unfoldable pub accept_loop : List ℤ → Run ℕ
accept_loop [] = blocked
accept_loop (pos fd ∷ later) = done fd
accept_loop (negsuc fd ∷ later) = accept_loop later

module _ (m : Machine) where
  unfoldable pub init_encryption : ParamArgs → Run (Unit {0})
  init_encryption args =
      check m.strerror (record { code = pos (length args.key); errno = m.errno }) keysize_name
        (gt_key_size m.key_size)

  unfoldable pub noncanonical_settings : Termios → Run Termios
  noncanonical_settings orig_attr = do
    check m.strerror m.atexit_result atexit_name lt_0
    check m.strerror m.setattr_result setattr_name lt_0
    done (raw_settings orig_attr)

  -- `check((signal(signum, sighandler) == SIG_ERR), SIGNAL, is_SIG_ERR)`
  unfoldable pub handle_signal : ℕ → Run (Unit {0})
  handle_signal signum =
      let failed = if m.signal_fails signum then 1 else 0 in
      check m.strerror (record { code = pos failed; errno = m.errno }) signal_name is_sig_err

  -- EPIPE, ECONNRESET, ETIMEDOUT and SIGPIPE.
  unfoldable pub handle_signals : Run (Unit {0})
  handle_signals = do handle_signal 32; handle_signal 104; handle_signal 110; handle_signal 13

  unfoldable pub accept_client : ParamArgs → Run ℕ
  accept_client args = do
    check m.strerror m.sock_result sock_name lt_0
    check m.strerror
        (m.bind_result (record { s_addr = inaddr_any; sin_port = to_uint16 args.port_number }))
        bind_name lt_0
    accept_loop m.accepted

  unfoldable pub connect_host : ParamArgs → Run (Unit {0})
  connect_host args = do
    check m.strerror m.sock_result sock_name lt_0
    check m.strerror (m.host args.host_name).0 gethost_name is_null
    check m.strerror
        (m.connect_result (record { s_addr = inaddr_any; sin_port = to_uint16 args.port_number }))
        connect_name lt_0

  abbrev accept_and_start : ParamArgs → Run (Unit {0})
  accept_and_start args = do
    accept_client args
    establish_shell m.strerror m.pipe_results.0 m.pipe_results.1 m.fork_result m.pipe_fds m.table
    done tt

  -- The start, and then the loop on what `poll` finds.
  unfoldable pub main :
      Calls
      → (name : Bytes) → Files
      → List Opt
      → (words : List Bytes) → Termios
      → Result
      → List (Event × Event)
      → Run Outcome
  main calls name files opts words attr log_opened events = do
    is_server ← is_server_name name
    args ← process_option is_server files opts words
    init_encryption args
    noncanonical_settings attr
    if is_server then accept_and_start args else connect_host args
    handle_signals
    done (poll_inputs calls is_server args log_opened events fresh)
