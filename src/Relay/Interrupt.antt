-- ===== src/Relay/Interrupt.antt =====
-- What the server of project 1b (lab1b-server.c) does with the characters of its client up to a CTRL+C.
use some_low_level_tasks.Prelude.{
  ℕ, ◌+◌, ◌≡◌, ◌≢◌, refl, ◌==◌, true, false, [], ◌∷◌, ◌++◌, if◌then◌else◌, ne→==, append_nil,
  append_snoc, ◌∙◌,
}
use some_low_level_tasks.Text.{Bytes}
use some_low_level_tasks.System.{done, exited}
use some_low_level_tasks.Relay.{effects, triggered}
use some_low_level_tasks.Relay.Check.{lt_0}
use some_low_level_tasks.Relay.Options.{ParamArgs}
use some_low_level_tasks.Relay.Socket.{Relay, Calls, initiate_shutdown, exit_signal, status_line}
use some_low_level_tasks.Relay.Loop.{perform, perform_all, relay_char, relay_chars}

-- No CTRL+C, CTRL+D, newline, CR or DEL.
abbrev pub IsPlain : Bytes → Type 0
IsPlain [] = Unit {0}
IsPlain (c ∷ chars) = ((c ≢ 3) × (c ≢ 4) × (c ≢ 10) × (c ≢ 13) × (c ≢ 127)) × IsPlain chars

module _ (calls : Calls) (args : ParamArgs) where
  relay_char-plain :
      (c : ℕ) (r : Relay)
      → IsPlain (c ∷ [])
      → r.exit_triggered ≡ false
      → relay_char calls true args true c r
        ≡ (done tt, record r { out2 = r.out2 ++ c ∷ []; exit_triggered = false })
  unfolding relay_char effects perform_all perform triggered
  relay_char-plain c r ((three, four, line, cr, del), _) e =
      rw (ne→== c 13 cr, ne→== c 10 line, ne→== c 3 three, ne→== c 4 four, ne→== c 127 del, e) refl

  -- Where the server's session goes on, plain characters in front of a CTRL+C all go to the shell; then the
  -- shell gets one SIGINT, and the server waits for it and exits with its status line, 0 where no
  -- signal ended the shell and 1 where one did. The characters behind the CTRL+C are dropped.
  pub relay_chars-interrupt :
      (before after : Bytes) (r : Relay)
      → IsPlain before
      → r.exit_triggered ≡ false
      → lt_0 (calls.kill_result r.interrupts).code ≡ false
      → lt_0 calls.wait_result.code ≡ false
      → relay_chars calls true args true false (before ++ 3 ∷ after) r ≡ (
        exited (if exit_signal calls == 0 then 0 else 1) (status_line calls),
        record r { out2 = r.out2 ++ before; interrupts = r.interrupts + 1; exit_triggered = true },
      )
  unfolding relay_chars relay_char effects perform_all perform triggered initiate_shutdown
  relay_chars-interrupt [] after r p e k w = rw (e, k, w, append_nil r.out2) refl
  relay_chars-interrupt (c ∷ before) after r (plain, p) e k w =
      rw (relay_char-plain c r (plain, tt) e, ne→== c 13 plain.3)
        (relay_chars-interrupt before after
            (record r { out2 = r.out2 ++ c ∷ []; exit_triggered = false }) p refl k w
          ∙ rw (append_snoc r.out2 before c) refl)
