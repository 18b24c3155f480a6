-- ===== src/Relay/Exit.antt =====
-- The exit of the client of project 1b (lab1b-client.c) behind CTRL+C and CTRL+D where its calls succeed.
use mathlib.Core.Path.{subst}
use some_low_level_tasks.Prelude.{
  ℕ, ◌≡◌, refl, ◌==◌, Bool, true, false, ◌&&◌, List, [], ◌∷◌, arith, inl, inr, Bool-cases,
  if◌then◌else◌, length,
}
use some_low_level_tasks.Text.{Bytes}
use some_low_level_tasks.System.{done, exited, first_char}
use some_low_level_tasks.Relay.{
  Effect, write_out1, write_out2, send_out1, send_out2, interrupt_shell, close_pipes, shut_down,
  effects, calculate_block,
}
use some_low_level_tasks.Relay.Check.{lt_0, not_0}
use some_low_level_tasks.Relay.Options.{ParamArgs}
use some_low_level_tasks.Relay.Socket.{
  Relay, Calls, Outcome, Action, and_then, padded, write_to_socket, is_positive, cipher_block,
  initiate_shutdown,
}
use some_low_level_tasks.Relay.Loop.{
  Event, input, read_failed, hung_up, nothing, perform, perform_all, relay_char, relay_chars,
  relay_input, is_encrypted, relay_event, relay_round, relay_rounds,
}
use some_low_level_tasks.Relay.Kept.{Ends}
use some_low_level_tasks.Relay.Shutdown.{has_exit, relay_round-has_exit, relay_round-exits}

abbrev IsDone : Outcome → Type 0
IsDone o = (r : Relay) × (o ≡ (done tt, r))

IsDone-bind :
    (o : Outcome) (f : Action) → IsDone o → ((r : Relay) → IsDone (f r)) → IsDone (and_then o f)
IsDone-bind o f (r, e) k = rw e (k r)

-- What the client does with a character: it writes to its terminal and to the socket.
abbrev IsSending : Effect → Type 0
IsSending (write_out1 bytes) = Unit {0}
IsSending (send_out2 bytes) = Unit {0}
IsSending _ = ⊥

abbrev AllSending : List Effect → Type 0
AllSending [] = Unit {0}
AllSending (e ∷ es) = IsSending e × AllSending es

effects-AllSending : (initial t : Bool) (c : ℕ) → AllSending (effects false initial t c)
unfolding effects
effects-AllSending true true c = ground arith
effects-AllSending true false c = ground arith
effects-AllSending false true c = ground arith
effects-AllSending false false c = ground arith

-- The calls that the client makes do not fail, and it keeps no log.
pub record Succeeds (calls : Calls) (args : ParamArgs) : Type 0 where
  pub socket : (r : Relay) → lt_0 (calls.socket_result r).code ≡ false
  pub encrypts : (key plain : Bytes) → not_0 (calls.encrypt_result key plain).code ≡ false
  pub decrypts : (key block : Bytes) → not_0 (calls.decrypt_result key block).code ≡ false
  pub no_log : is_positive args.log_file ≡ false

-- `read` does not fail.
abbrev pub IsRead : Event → Type 0
IsRead (read_failed result) = ⊥
IsRead _ = Unit {0}

module _ (calls : Calls) (args : ParamArgs) (ok : Succeeds calls args) where
  perform-IsDone : (e : Effect) (r : Relay) → IsSending e → IsDone (perform calls false args e r)
  unfolding perform write_to_socket
  perform-IsDone (write_out1 bytes) r h = (_, refl)
  perform-IsDone (send_out2 bytes) r h = elim (Bool-cases (first_char args.key == 0)) [
    | inl no_key ↦ rw (no_key, ok.no_log, ok.socket r) (_, refl)
    | inr key ↦
        let plain = padded (calculate_block calls.blocksize (length bytes)) (length bytes) bytes in
        rw (key, ok.no_log, ok.encrypts args.key plain, ok.socket r) (_, refl)
  ]
  perform-IsDone (write_out2 bytes) r h = absurd h
  perform-IsDone (send_out1 bytes) r h = absurd h
  perform-IsDone interrupt_shell r h = absurd h
  perform-IsDone close_pipes r h = absurd h
  perform-IsDone shut_down r h = absurd h

  perform_all-IsDone :
      (es : List Effect) (r : Relay) → AllSending es → IsDone (perform_all calls false args es r)
  unfolding perform_all
  perform_all-IsDone [] r h = (r, refl)
  perform_all-IsDone (e ∷ es) r h =
      IsDone-bind (perform calls false args e r) (perform_all calls false args es)
        (perform-IsDone e r h.0) (λ q. perform_all-IsDone es q h.1)

  relay_chars-IsDone :
      (initial after_cr : Bool) (chars : Bytes) (r : Relay)
      → IsDone (relay_chars calls false args initial after_cr chars r)
  unfolding relay_chars relay_char
  relay_chars-IsDone initial after_cr [] r = (r, refl)
  relay_chars-IsDone initial after_cr (c ∷ chars) r = elim (Bool-cases (after_cr && (c == 10))) [
    | inl skipped ↦ rw skipped (relay_chars-IsDone initial false chars r)
    | inr kept ↦ rw kept (
        IsDone-bind (relay_char calls false args initial c r)
          (relay_chars calls false args initial (c == 13) chars)
          (perform_all-IsDone _ _ (effects-AllSending initial r.exit_triggered c))
          (relay_chars-IsDone initial (c == 13) chars))
  ]

  relay_input-IsDone :
      (initial : Bool) (buf : Bytes) (r : Relay)
      → IsDone (relay_input calls false args initial buf r)
  unfolding relay_input
  relay_input-IsDone true buf r = elim (Bool-cases (is_encrypted calls false args true buf)) [
    | inl coded ↦ absurd (ground (arith, coded))
    | inr plain ↦ rw (ok.no_log, plain) (relay_chars-IsDone true false buf r)
  ]
  relay_input-IsDone false buf r = elim (Bool-cases (is_encrypted calls false args false buf)) [
    | inl coded ↦
        rw (ok.no_log, coded, ok.decrypts args.key (cipher_block calls buf))
          (relay_chars-IsDone false false _ r)
    | inr plain ↦ rw (ok.no_log, plain) (relay_chars-IsDone false false buf r)
  ]

  relay_event-IsDone :
      (initial : Bool) (event : Event) (r : Relay)
      → IsRead event
      → IsDone (relay_event calls false args initial event r)
  unfolding relay_event
  relay_event-IsDone initial (input buf) r h = relay_input-IsDone initial buf r
  relay_event-IsDone initial (read_failed result) r h = absurd h
  relay_event-IsDone initial hung_up r h = (r, refl)
  relay_event-IsDone initial nothing r h = (r, refl)

  relay_round-IsDone :
      (buf : Bytes) (redirect : Event) (r : Relay)
      → r.exit_triggered ≡ false
      → IsRead redirect
      → IsDone (relay_round calls false args (input buf) redirect r)
  unfolding relay_round relay_event
  relay_round-IsDone buf redirect r going h' =
      let start = if r.exit_triggered then initiate_shutdown calls false r else (done tt, r) in
      let redirected = relay_event calls false args false redirect in
      IsDone-bind start (λ q. and_then (relay_input calls false args true buf q) redirected)
        (rw going (_, refl))
        (λ q.
          IsDone-bind (relay_input calls false args true buf q) redirected
            (relay_input-IsDone true buf q) (λ z. relay_event-IsDone false redirect z h'))

  -- A client that keeps no log and whose calls succeed, and that reads a CTRL+C or a CTRL+D from its keyboard,
  -- finishes that round, with whatever the server sends in it, and exits with 0 at the start of the
  -- next one: nothing that comes later is read.
  pub relay_rounds-exits :
      (buf : Bytes) (redirect : Event) (next : Event × Event) (later : List (Event × Event))
      (r : Relay)
      → has_exit buf ≡ true
      → r.exit_triggered ≡ false
      → IsRead redirect
      → (q : Relay) × (relay_round calls false args (input buf) redirect r ≡ (done tt, q))
        × (relay_rounds calls false args ((input buf, redirect) ∷ next ∷ later) r
            ≡ (exited 0 [], q))
  unfolding relay_rounds
  relay_rounds-exits buf redirect (initial, redirect') later r h going h' =
      let (q, e) = relay_round-IsDone buf redirect r going h' in
      let set : q.exit_triggered ≡ true =
        subst (Ends true) e (relay_round-has_exit calls args buf redirect r h) in
      (q, e, rw (e, relay_round-exits calls args initial redirect' q set) refl)
