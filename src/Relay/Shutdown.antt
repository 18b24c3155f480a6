-- ===== src/Relay/Shutdown.antt =====
-- How the relay of project 1b (lab1b-server.c) ends behind CTRL+C and CTRL+D.
use some_low_level_tasks.Prelude.{
  ℕ, ◌≡◌, ◌≢◌, refl, ap, ◌==◌, Bool, true, false, ◌&&◌, ◌||◌, not, List, [], ◌∷◌, arith, inl, inr,
  Bool-cases, if◌then◌else◌, length,
}
use mathlib.Core.Path.{subst}
use some_low_level_tasks.Text.{Bytes}
use some_low_level_tasks.System.{done, exited}
use some_low_level_tasks.Relay.{effects, triggered}
use some_low_level_tasks.Relay.Check.{encrypt_name, read_name, lt_0, not_0}
use some_low_level_tasks.Relay.Options.{ParamArgs}
use some_low_level_tasks.Relay.Socket.{
  Relay, Calls, Action, ◌>>◌, skip, checked, write_log, decrypted, cipher_block, initiate_shutdown,
}
use some_low_level_tasks.Relay.Loop.{
  Event, input, read_failed, hung_up, nothing, relay_char, relay_chars, relay_input, relay_event,
  relay_round, relay_rounds, is_encrypted, has_log,
}
use some_low_level_tasks.Relay.Kept.{
  Ends, Ends-bind, Ends-if, and_then_stops, Ends-done, Keeps, Keeps-if, Keeps-checked,
  Keeps-write_log, Keeps-initiate_shutdown, Keeps-perform_all,
}

-- Whether a CTRL+C or a CTRL+D is among the characters.
abbrev pub has_exit : Bytes → Bool
has_exit [] = false
has_exit (c ∷ chars) = ((c == 3) || (c == 4)) || has_exit chars

module _ (calls : Calls) (is_server : Bool) (args : ParamArgs) where
  relay_char-Ends :
      (t initial : Bool) (c : ℕ) (r : Relay)
      → r.exit_triggered ≡ t
      → Ends (triggered initial t c) (relay_char calls is_server args initial c r)
  unfolding relay_char
  relay_char-Ends t initial c r e =
      Keeps-perform_all (triggered initial t c) calls is_server args
        (effects is_server initial r.exit_triggered c)
        (record r { exit_triggered = triggered initial r.exit_triggered c }) (rw e refl)

  triggered_stays : (initial : Bool) (c : ℕ) → triggered initial true c ≡ true
  unfolding triggered
  triggered_stays true c = refl
  triggered_stays false c = refl

  -- Once set, `exit_triggered` stays.
  relay_chars-Keeps :
      (initial after_cr : Bool) (chars : Bytes)
      → Keeps true (relay_chars calls is_server args initial after_cr chars)
  unfolding relay_chars
  relay_chars-Keeps initial after_cr [] r e = e
  relay_chars-Keeps initial after_cr (c ∷ chars) r e = elim (Bool-cases (after_cr && (c == 10))) [
    | inl skipped ↦ rw skipped (relay_chars-Keeps initial false chars r e)
    | inr kept ↦ rw kept (
        Ends-bind true true (relay_char calls is_server args initial c r)
          (relay_chars calls is_server args initial (c == 13) chars)
          (subst (λ b. Ends b (relay_char calls is_server args initial c r))
            (triggered_stays initial c) (relay_char-Ends true initial c r e))
          (relay_chars-Keeps initial (c == 13) chars))
  ]

  triggered_by : (t : Bool) (c : ℕ) → ((c == 3) || (c == 4)) ≡ true → triggered true t c ≡ true
  unfolding triggered
  triggered_by true c e = refl
  triggered_by false c e = e

  exit_not_newline :
      (after_cr : Bool) (c : ℕ) → ((c == 3) || (c == 4)) ≡ true → (after_cr && (c == 10)) ≡ false
  exit_not_newline after_cr c e = ground arith

  relay_chars-has_exit :
      (t after_cr : Bool) (chars : Bytes) (r : Relay)
      → r.exit_triggered ≡ t
      → has_exit chars ≡ true
      → Ends true (relay_chars calls is_server args true after_cr chars r)
  unfolding relay_chars
  relay_chars-has_exit t after_cr [] r e h = cc
  relay_chars-has_exit t after_cr (c ∷ chars) r e h = elim (Bool-cases ((c == 3) || (c == 4))) [
    | inl ends ↦ rw (exit_not_newline after_cr c ends) (
        Ends-bind true true (relay_char calls is_server args true c r)
          (relay_chars calls is_server args true (c == 13) chars)
          (subst (λ b. Ends b (relay_char calls is_server args true c r)) (triggered_by t c ends)
            (relay_char-Ends t true c r e))
          (relay_chars-Keeps true (c == 13) chars))
    | inr other ↦
        let more : has_exit chars ≡ true = rw⁻¹ (ap (λ b. b || has_exit chars) other) h in
        elim (Bool-cases (after_cr && (c == 10))) [
          | inl skipped ↦ rw skipped (relay_chars-has_exit t false chars r e more)
          | inr kept ↦ rw kept (
              Ends-bind (triggered true t c) true (relay_char calls is_server args true c r)
                (relay_chars calls is_server args true (c == 13) chars)
                (relay_char-Ends t true c r e)
                (λ q e'. relay_chars-has_exit (triggered true t c) (c == 13) chars q e' more))
        ]
  ]

  relay_input-then :
      (t u initial : Bool) (buf : Bytes)
      → ((r : Relay)
          → r.exit_triggered ≡ t
          → Ends u (
              relay_chars calls is_server args initial false
                (if is_encrypted calls is_server args initial buf
                  then decrypted calls args.key buf
                  else buf)
                r))
      → (r : Relay) → r.exit_triggered ≡ t
      → Ends u (relay_input calls is_server args initial buf r)
  unfolding relay_input
  relay_input-then t u initial buf k r e =
      let logs = has_log calls is_server args && not initial in
      let codes = is_encrypted calls is_server args initial buf in
      let noted : Action = if logs then write_log calls buf (length buf) false else skip in
      let block = cipher_block calls buf in
      let coded : Action =
        if codes
        then checked calls (calls.decrypt_result args.key block) encrypt_name not_0
        else skip in
      let last =
        relay_chars calls is_server args initial false
          (if codes then decrypted calls args.key buf else buf) in
      Ends-bind t u (noted r) (coded >> last)
        (Keeps-if t logs (write_log calls buf (length buf) false) skip
          (Keeps-write_log t calls buf (length buf) false) (λ q e'. e') r e)
        (λ q e'.
          Ends-bind t u (coded q) last
            (Keeps-if t codes
              (checked calls (calls.decrypt_result args.key block) encrypt_name not_0) skip
              (Keeps-checked t calls (λ z. calls.decrypt_result args.key block) encrypt_name not_0)
              (λ z d. d) q e')
            k)

  relay_event-Keeps :
      (initial : Bool) (event : Event) → Keeps true (relay_event calls is_server args initial event)
  unfolding relay_event
  relay_event-Keeps initial (input buf) r e =
      relay_input-then true true initial buf (relay_chars-Keeps initial false _) r e
  relay_event-Keeps initial (read_failed result) r e =
      Keeps-checked true calls (λ q. result) read_name lt_0 r e
  relay_event-Keeps initial hung_up r e =
      Keeps-if true is_server (initiate_shutdown calls is_server) skip
        (Keeps-initiate_shutdown true calls is_server) (λ q d. d) r e
  relay_event-Keeps initial nothing r e = e

module _ (calls : Calls) (args : ParamArgs) where
  typed_plain : (buf : Bytes) → is_encrypted calls false args true buf ≡ false
  typed_plain buf = ground arith

  -- The keyboard of the client.
  relay_input-has_exit :
      (buf : Bytes) (r : Relay)
      → has_exit buf ≡ true
      → Ends true (relay_input calls false args true buf r)
  relay_input-has_exit buf r h =
      relay_input-then calls false args r.exit_triggered true true buf
        (λ q e.
          rw (typed_plain buf)
            (relay_chars-has_exit calls false args r.exit_triggered false buf q e h))
        r refl

  pub relay_round-has_exit :
      (buf : Bytes) (redirect : Event) (r : Relay)
      → has_exit buf ≡ true
      → Ends true (relay_round calls false args (input buf) redirect r)
  unfolding relay_round relay_event
  relay_round-has_exit buf redirect r h =
      let t = r.exit_triggered in
      let start = if not false && t then initiate_shutdown calls false r else skip r in
      let redirected = relay_event calls false args false redirect in
      Ends-bind t true start (relay_input calls false args true buf >> redirected)
        (Ends-if t t (initiate_shutdown calls false r) (skip r)
          (Keeps-initiate_shutdown t calls false r refl) refl)
        (λ q e.
          Ends-bind true true (relay_input calls false args true buf q) redirected
            (relay_input-has_exit buf q h) (relay_event-Keeps calls false args false redirect))

  pub relay_round-exits :
      (initial redirect : Event) (r : Relay)
      → r.exit_triggered ≡ true
      → relay_round calls false args initial redirect r ≡ (exited 0 [], r)
  unfolding relay_round initiate_shutdown
  relay_round-exits initial redirect r e = rw e refl

  -- A client that reads a CTRL+C or a CTRL+D from its keyboard does not go on for longer than to the start
  -- of its next round: it ends there or before, whatever else it meets and whichever calls fail.
  pub relay_rounds-has_exit :
      (buf : Bytes) (redirect : Event) (next : Event × Event) (later : List (Event × Event))
      (r : Relay)
      → has_exit buf ≡ true
      → (relay_rounds calls false args ((input buf, redirect) ∷ next ∷ later) r).0 ≢ done tt
  unfolding relay_rounds
  relay_rounds-has_exit buf redirect (initial, redirect') later r h =
      elim (Ends-done true (relay_round calls false args (input buf) redirect r)
        (relay_round-has_exit buf redirect r h)) [
          | inl ended ↦ and_then_stops (relay_round calls false args (input buf) redirect r) _ ended
          | inr (q, e, set) ↦ rw (e, relay_round-exits initial redirect' q set) (λ d. cc)
        ]
