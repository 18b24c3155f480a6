-- ===== src/Relay/Runs.antt =====
-- Project 1b at concrete inputs: its start, its loop, its log and its pipes.
use some_low_level_tasks.Prelude.{
  ℕ, zero, suc, ◌+◌, ◌-◌, ◌%◌, ◌≡◌, refl, ap, ◌==◌, true, false, some, List, [], ◌∷◌, ◌++◌, arith,
  if◌then◌else◌, map, length, take, length-map, replicate,
}
use some_low_level_tasks.Prelude.Int.{pos, negsuc}
use some_low_level_tasks.Text.{Bytes, codes, decimal, print_digits, atoi, read_digits}
use some_low_level_tasks.System.{Errno, enoent, einval, done, exited, overflow, Opt}
use some_low_level_tasks.Relay.{calculate_block, count_digits, effects, triggered}
use some_low_level_tasks.Relay.Check.{Result}
use some_low_level_tasks.Relay.Options.{
  ParamArgs, Files, before_nul, set_option, set_options, no_words, end_options, process_option,
  default_host,
}
use some_low_level_tasks.Relay.Socket.{
  Calls, padded, logged_copy, write_log, write_to_socket, initiate_shutdown, to_out2, status_line,
  decrypted, fresh, cipher_block, Relay,
}
use some_low_level_tasks.Relay.Loop.{
  input, nothing, perform, perform_all, relay_char, relay_chars, relay_input, relay_event,
  relay_round, relay_rounds, poll_inputs,
}
use some_low_level_tasks.Relay.Pipes.{
  rw_pipe, wr_pipe, read_end, write_end, other_port, Table, port_of, holds, PipeFds,
  establish_shell, close_ends,
}
use some_low_level_tasks.Relay.Start.{Machine, Termios, is_server_name, main}
use some_low_level_tasks.Relay.Start as Start
use some_low_level_tasks.Relay.Log.{log_line, write_log-log_line, write_log_over}
use some_low_level_tasks.Relay.Cipher.{IsCfb, relay_input-sent}
use some_low_level_tasks.Relay.Ends.{IsFresh, establish_shell-ends}
use some_low_level_tasks.Relay.Exit.{Succeeds, relay_rounds-exits}
use some_low_level_tasks.Relay.Interrupt.{relay_chars-interrupt}
use some_low_level_tasks.Relay.Valid.{IsUsable, process_option-IsUsable}

abbrev fine : Result
fine = record { code = pos 0; errno = einval }

abbrev failed : Result
failed = record { code = negsuc 0; errno = enoent }

abbrev no_text : Errno → Bytes
no_text e = []

-- A cipher that changes the last bit of each byte.
abbrev flip : ℕ → ℕ
flip c = if c % 2 == 0 then c + 1 else c - 1

abbrev flipped : Bytes → Bytes
flipped = map flip

abbrev calls : Calls
calls = record {
  strerror = no_text;
  blocksize = 8;
  encrypt = λ key block. flipped block;
  encrypt_result = λ key block. fine;
  decrypt = λ key block. flipped block;
  decrypt_result = λ key block. fine;
  log_result = λ r. fine;
  socket_result = λ r. fine;
  kill_result = λ n. fine;
  wait_result = fine;
  status = 2;
}

abbrev logging : ParamArgs
logging = record { port_number = pos 5000; key = []; log_file = codes "log"; host_name = codes "h" }

-- `a` and CTRL+C at the keyboard of a client that logs: CTRL+C is logged as one byte, `^`.
client_run :
    relay_rounds calls false logging
      ((input (97 ∷ 3 ∷ []), nothing) ∷ (nothing, nothing) ∷ [])
      fresh
    ≡ (
      exited 0 [],
      record {
        out1 = codes "a^C";
        out2 = 97 ∷ 3 ∷ [];
        log = codes "SENT 1 bytes: a\nSENT 1 bytes: ^\n";
        interrupts = 0;
        pipes_open = true;
        exit_triggered = true;
      },
    )
unfolding relay_rounds relay_round relay_event relay_input relay_chars relay_char effects triggered
    perform_all perform write_to_socket write_log padded logged_copy before_nul calculate_block
    count_digits decimal print_digits initiate_shutdown
client_run = refl

abbrev files : Files
files = record {
  strerror = no_text;
  open_file = λ name. fine;
  contents = λ name. some (codes "key");
}

-- `--port=-1 --encrypt=k`
abbrev options : List Opt
options =
    record { code = b'p'; optarg = codes "-1" } ∷ record { code = b'e'; optarg = codes "k" } ∷ []

abbrev taken : ParamArgs
taken = record {
  port_number = negsuc 0;
  key = codes "key";
  log_file = [];
  host_name = default_host;
}

-- A port that is negative is taken.
options_run : process_option true files options [] ≡ done taken
unfolding process_option set_options set_option no_words end_options before_nul atoi read_digits
options_run = refl

process_option-IsUsable_example : IsUsable true taken
process_option-IsUsable_example = process_option-IsUsable true files options [] taken options_run

write_log-log_line_example :
    write_log calls (codes "ls") 2 true fresh
    ≡ (done tt, record fresh { log = log_line true (codes "ls") })
write_log-log_line_example =
    write_log-log_line calls (codes "ls") true fresh (omega arith) (omega arith)
      (omega arith, (omega arith, tt)) (omega arith) (omega arith) (λ r. refl)

write_log_over_example : (write_log calls (replicate 100 b'x') 100 false fresh).0 ≡ overflow
write_log_over_example = write_log_over calls (replicate 100 b'x') 100 false fresh (omega arith)

flip_twice : (c : ℕ) → flip (flip c) ≡ c
flip_twice c = ground arith

flipped-IsCfb : IsCfb flipped flipped
flipped-IsCfb = record {
  keeps_length = λ plain. length-map plain flip;
  inverse = twice;
  by_byte = same;
}
  where
    twice : (plain : Bytes) → flipped (flipped plain) ≡ plain
    twice [] = refl
    twice (c ∷ plain) = rw (flip_twice c, twice plain) refl

    take-flipped : (n : ℕ) (b : Bytes) → take n (flipped b) ≡ flipped (take n b)
    take-flipped zero b = refl
    take-flipped (suc n) [] = refl
    take-flipped (suc n) (c ∷ b) = ap (λ r. flip c ∷ r) (take-flipped n b)

    same : (n : ℕ) (b c : Bytes) → take n b ≡ take n c → take n (flipped b) ≡ take n (flipped c)
    same n b c e = rw (take-flipped n b, take-flipped n c, e) refl

abbrev keyed : ParamArgs
keyed = record { port_number = pos 5000; key = codes "key"; log_file = []; host_name = codes "h" }

relay_input-sent_example :
    (write_to_socket calls to_out2 (codes "ls") (codes "key") 2 false fresh
      ≡ (done tt, record fresh { out2 = codes "mr" }))
    × (relay_input calls true keyed true (codes "mr") fresh
        ≡ relay_chars calls true keyed true false (codes "ls") fresh)
unfolding padded before_nul calculate_block
relay_input-sent_example =
    relay_input-sent calls calls (codes "key") flipped-IsCfb keyed refl refl (omega arith)
      (omega arith) (λ block. refl) (λ r. refl) (λ block. refl) refl true (codes "ls") fresh fresh
      (omega arith) (omega arith, (omega arith, tt)) (omega arith, (omega arith, tt))

abbrev fds : PipeFds
fds = record { rw_read = 5; rw_write = 6; wr_read = 7; wr_write = 8 }

-- The standard streams and two sockets.
abbrev streams : Table
streams =
    (0, other_port 0)
    ∷ (1, other_port 1)
    ∷ (2, other_port 2)
    ∷ (3, other_port 3)
    ∷ (4, other_port 4)
    ∷ []

fds-IsFresh : IsFresh fds
fds-IsFresh = record {
  rw_read_high = omega arith;
  rw_write_high = omega arith;
  wr_read_high = omega arith;
  wr_write_high = omega arith;
  rw_ends = omega arith;
  wr_ends = omega arith;
  read_ends = omega arith;
  write_ends = omega arith;
  rw_read_wr_write = omega arith;
  rw_write_wr_read = omega arith;
}

no_ends : holds (write_end wr_pipe) streams ≡ false
unfolding holds
no_ends = refl

establish_shell-ends_example :
    (shell terminal : Table) × (establish_shell no_text fine fine fine fds streams
      ≡ done (shell, terminal))
    × (port_of 0 shell ≡ some (read_end wr_pipe))
    × (port_of 1 shell ≡ some (write_end rw_pipe))
    × (port_of 2 shell ≡ some (write_end rw_pipe))
    × (holds (write_end wr_pipe) shell ≡ false)
    × (holds (write_end wr_pipe) (close_ends fds terminal) ≡ false)
establish_shell-ends_example =
    establish_shell-ends fds fds-IsFresh streams no_ends no_text fine fine fine refl refl refl

keyed-Succeeds : Succeeds calls keyed
keyed-Succeeds = record {
  socket = λ r. refl;
  encrypts = λ key plain. refl;
  decrypts = λ key block. refl;
  no_log = refl;
}

relay_rounds-exits_example :
    (q : Relay) × (relay_round calls false keyed (input (97 ∷ 3 ∷ [])) nothing fresh ≡ (done tt, q))
    × (relay_rounds calls false keyed
          ((input (97 ∷ 3 ∷ []), nothing) ∷ (input (98 ∷ []), nothing) ∷ [])
          fresh
        ≡ (exited 0 [], q))
relay_rounds-exits_example =
    relay_rounds-exits calls keyed keyed-Succeeds (97 ∷ 3 ∷ []) nothing (input (98 ∷ []), nothing)
      [] fresh refl refl tt

relay_chars-interrupt_example :
    relay_chars calls true keyed true false (codes "ls" ++ 3 ∷ codes "rm") fresh ≡ (
      exited 1 (status_line calls),
      record fresh { out2 = codes "ls"; interrupts = 1; exit_triggered = true },
    )
relay_chars-interrupt_example =
    relay_chars-interrupt calls keyed (codes "ls") (codes "rm") fresh
      (omega arith, (omega arith, tt)) refl refl refl

abbrev machine : Machine
machine = record {
  strerror = no_text;
  errno = einval;
  key_size = 56;
  atexit_result = fine;
  setattr_result = fine;
  sock_result = fine;
  bind_result = λ address. fine;
  accepted = negsuc 0 ∷ pos 4 ∷ [];
  host = λ name. (record { code = pos (length name); errno = einval }, 127);
  connect_result = λ address. fine;
  signal_fails = λ signum. signum == 104;
  pipe_results = (fine, fine);
  fork_result = fine;
  pipe_fds = fds;
  table = streams;
}

-- The server from its start: CTRL+C from its client.
server_run :
    main machine calls
      (codes "./lab1b-server")
      files
      options
      []
      (record { c_iflag = 0; c_oflag = 1; c_lflag = 2; vmin = 3; vtime = 4 })
      fine
      ((input (flipped (3 ∷ [])), nothing) ∷ [])
    ≡ done (
      exited 1 (codes "\r\nSHELL EXIT SIGNAL=2 STATUS=0\r\n"),
      record fresh { interrupts = 1; exit_triggered = true },
    )
unfolding main is_server_name Start.init_encryption Start.noncanonical_settings Start.accept_client
    Start.accept_loop establish_shell Start.handle_signals Start.handle_signal process_option
    set_options set_option no_words end_options before_nul atoi read_digits poll_inputs relay_rounds
    relay_round relay_event relay_input relay_chars relay_char effects triggered perform_all perform
    padded calculate_block decrypted cipher_block decimal print_digits initiate_shutdown
server_run = refl
