-- ===== src/Relay/Loop.antt =====
-- The loop of project 1b (lab1b-server.c): `poll_inputs`.
use some_low_level_tasks.Prelude.{
  ℕ, ◌+◌, ◌==◌, Bool, true, false, ◌&&◌, ◌||◌, not, List, [], ◌∷◌, if◌then◌else◌, length, ltb,
}
use some_low_level_tasks.Text.{Bytes}
use some_low_level_tasks.System.{done}
use some_low_level_tasks.Relay.{
  Effect, write_out1, write_out2, send_out1, send_out2, interrupt_shell, close_pipes, shut_down,
  effects, triggered,
}
use some_low_level_tasks.Relay.Check.{
  Result, kill_name, read_name, encrypt_name, open_name, lt_0, not_0,
}
use some_low_level_tasks.Relay.Options.{ParamArgs}
use some_low_level_tasks.Relay.Socket.{
  Calls, Action, ◌>>◌, skip, to_out1, to_out2, is_positive, checked, write_log, write_to_socket,
  cipher_block, decrypted, initiate_shutdown,
}

-- What `poll` finds at one of the two inputs: the bytes that `read` gives (at most 511), a `read` that
-- fails, POLLHUP or POLLERR, or nothing.
pub data Event : Type 0 where
  input : Bytes → Event
  read_failed : Result → Event
  hung_up nothing : Event

module _ (calls : Calls) (is_server : Bool) (args : ParamArgs) where
  abbrev pub has_log : Bool
  has_log = is_positive args.log_file

  abbrev pub has_key : Bool
  has_key = is_positive args.key

  -- The calls that an effect stands for.
  unfoldable pub perform : Effect → Action
  perform (write_out1 bytes) = to_out1 bytes
  perform (write_out2 bytes) = to_out2 bytes
  perform (send_out1 bytes) = write_to_socket calls to_out1 bytes args.key (length bytes) false
  perform (send_out2 bytes) = write_to_socket calls to_out2 bytes args.key (length bytes) has_log
  perform interrupt_shell = do
    (λ r. checked calls (calls.kill_result r.interrupts) kill_name lt_0 r)
    λ r. (done tt, record r { interrupts = r.interrupts + 1 })
  perform close_pipes = λ r. (done tt, record r { pipes_open = false })
  perform shut_down = initiate_shutdown calls is_server

  unfoldable pub perform_all : List Effect → Action
  perform_all [] = skip
  perform_all (e ∷ es) = perform e >> perform_all es

  -- One character: `exit_triggered` is set, and then the calls are made.
  unfoldable pub relay_char : (initial : Bool) → ℕ → Action
  relay_char initial c r =
      perform_all (effects is_server initial r.exit_triggered c)
        (record r { exit_triggered = triggered initial r.exit_triggered c })

  -- The characters that were read; a NL right behind a CR is skipped.
  unfoldable pub relay_chars : (initial after_cr : Bool) → Bytes → Action
  relay_chars initial after_cr [] = skip
  relay_chars initial after_cr (c ∷ chars) =
      let skipped = relay_chars initial false chars in
      let next = relay_chars initial (c == 13) chars in
      if after_cr && (c == 10) then skipped else relay_char initial c >> next

  -- `buf` behind the decryption, which is for what comes from the other side.
  abbrev pub is_encrypted : (initial : Bool) → Bytes → Bool
  is_encrypted initial buf =
      (has_key && ltb 0 (length buf)) && ((is_server && initial) || (not is_server && not initial))

  unfoldable pub relay_input : (initial : Bool) → Bytes → Action
  relay_input initial buf = do
    (if has_log && not initial then write_log calls buf (length buf) false else skip)
    (if is_encrypted initial buf
        then checked calls (calls.decrypt_result args.key (cipher_block calls buf)) encrypt_name
            not_0
        else skip)
    relay_chars initial false
        (if is_encrypted initial buf then decrypted calls args.key buf else buf)

  unfoldable pub relay_event : (initial : Bool) → Event → Action
  relay_event initial (input buf) = relay_input initial buf
  relay_event initial (read_failed result) = checked calls result read_name lt_0
  relay_event initial hung_up = if is_server then initiate_shutdown calls is_server else skip
  relay_event initial nothing = skip

  -- The handler of SIGPIPE.
  unfoldable pub sighandler : Action
  sighandler =
      (if is_server then perform close_pipes else skip) >> initiate_shutdown calls is_server

  -- One round of the loop.
  unfoldable pub relay_round : (initial redirect : Event) → Action
  relay_round initial redirect = do
    (λ r. if not is_server && r.exit_triggered then initiate_shutdown calls is_server r else skip r)
    relay_event true initial
    relay_event false redirect

  unfoldable pub relay_rounds : List (Event × Event) → Action
  relay_rounds [] = skip
  relay_rounds ((initial, redirect) ∷ later) = relay_round initial redirect >> relay_rounds later

  -- `log_opened` is what `open` gives for the log.
  unfoldable pub poll_inputs : (log_opened : Result) → List (Event × Event) → Action
  poll_inputs log_opened events = do
    (if has_log then checked calls log_opened open_name lt_0 else skip)
    relay_rounds events
