-- ===== src/Relay/Kept.antt =====
-- What the calls of project 1b (lab1b-server.c) do with `exit_triggered`.
use some_low_level_tasks.Prelude.{
  ℕ, ◌≡◌, ◌≢◌, ◌⊎◌, refl, ◌==◌, Bool, true, false, not, List, [], ◌∷◌, arith, inl, inr, Bool-cases,
  if◌then◌else◌, length, take,
}
use some_low_level_tasks.Prelude.Int.{ℤ}
use some_low_level_tasks.Text.{Bytes}
use some_low_level_tasks.System.{first_char, Run, done, exited, crashed, overflow, blocked}
use some_low_level_tasks.Relay.{
  Effect, write_out1, write_out2, send_out1, send_out2, interrupt_shell, close_pipes, shut_down,
  calculate_block,
}
use some_low_level_tasks.Relay.Check.{FuncName, Result, write_name, decrypt_name, lt_0, not_0}
use some_low_level_tasks.Relay.Options.{ParamArgs}
use some_low_level_tasks.Relay.Socket.{
  Relay, Calls, Outcome, Action, and_then, ◌>>◌, skip, padded, with_array, checked, write_log,
  write_to_socket, initiate_shutdown, to_out1, to_out2, is_positive,
}
use some_low_level_tasks.Relay.Loop.{perform, perform_all}

-- The state behind an action that returns has a value of `exit_triggered`.
abbrev pub Ends : Bool → Outcome → Type 0
Ends t (done _, r) = r.exit_triggered ≡ t
Ends t (exited code stderr, r) = Unit {0}
Ends t (crashed, r) = Unit {0}
Ends t (overflow, r) = Unit {0}
Ends t (blocked, r) = Unit {0}

pub Ends-bind :
    (t u : Bool) (o : Outcome) (f : Action)
    → Ends t o
    → ((r : Relay) → r.exit_triggered ≡ t → Ends u (f r))
    → Ends u (and_then o f)
Ends-bind t u (done _, r) f h k = k r h
Ends-bind t u (exited code stderr, r) f h k = tt
Ends-bind t u (crashed, r) f h k = tt
Ends-bind t u (overflow, r) f h k = tt
Ends-bind t u (blocked, r) f h k = tt

pub Ends-done :
    (t : Bool) (o : Outcome)
    → Ends t o
    → (o.0 ≢ done tt) ⊎ ((r : Relay) × (o ≡ (done tt, r)) × (r.exit_triggered ≡ t))
Ends-done t (done _, r) h = inr (r, refl, h)
Ends-done t (exited code stderr, r) h = inl (λ e. cc)
Ends-done t (crashed, r) h = inl (λ e. cc)
Ends-done t (overflow, r) h = inl (λ e. cc)
Ends-done t (blocked, r) h = inl (λ e. cc)

pub and_then_stops : (o : Outcome) (f : Action) → o.0 ≢ done tt → (and_then o f).0 ≢ done tt
and_then_stops (done _, r) f h = absurd (h refl)
and_then_stops (exited code stderr, r) f h = h
and_then_stops (crashed, r) f h = h
and_then_stops (overflow, r) f h = h
and_then_stops (blocked, r) f h = h

pub Ends-if : (t b : Bool) (x y : Outcome) → Ends t x → Ends t y → Ends t (if b then x else y)
Ends-if t true x y h k = h
Ends-if t false x y h k = k

module _ (t : Bool) where
  -- An action that leaves `exit_triggered` as it was.
  abbrev pub Keeps : Action → Type 0
  Keeps m = (r : Relay) → r.exit_triggered ≡ t → Ends t (m r)

  pub Keeps-then : (m n : Action) → Keeps m → Keeps n → Keeps (m >> n)
  Keeps-then m n h k r e = Ends-bind t t (m r) n (h r e) k

  Keeps-with_array :
      (array : Run Bytes) (f : Bytes → Action)
      → ((bytes : Bytes) → Keeps (f bytes))
      → Keeps (with_array array f)
  Keeps-with_array (done bytes) f k r e = k bytes r e
  Keeps-with_array (exited code stderr) f k r e = tt
  Keeps-with_array crashed f k r e = tt
  Keeps-with_array overflow f k r e = tt
  Keeps-with_array blocked f k r e = tt

  pub Keeps-if : (b : Bool) (m n : Action) → Keeps m → Keeps n → Keeps (if b then m else n)
  Keeps-if true m n h k = h
  Keeps-if false m n h k = k

  module _ (calls : Calls) where
    pub Keeps-checked :
        (result : Relay → Result) (name : FuncName) (comp : ℤ → Bool)
        → Keeps (λ r. checked calls (result r) name comp r)
    Keeps-checked result name comp r e = elim (Bool-cases (comp (result r).code)) [
      | inl failed ↦ rw failed tt
      | inr fine ↦ rw fine e
    ]

    pub Keeps-write_log :
        (buf : Bytes) (bytes : ℕ) (is_sent : Bool) → Keeps (write_log calls buf bytes is_sent)
    unfolding write_log
    Keeps-write_log buf bytes is_sent r e = ground arith

    Keeps-write_to_socket :
        (emit : Bytes → Action) (buf key : Bytes) (count : ℕ) (has_log : Bool)
        → ((bytes : Bytes) → Keeps (emit bytes))
        → Keeps (write_to_socket calls emit buf key count has_log)
    unfolding write_to_socket
    Keeps-write_to_socket emit buf key count has_log k =
        let plain = padded (calculate_block calls.blocksize count) count buf in
        let has_key = not (first_char key == 0) in
        let block = if has_key then calls.encrypt key plain else plain in
        let coded : Action =
          if has_key
          then checked calls (calls.encrypt_result key plain) decrypt_name not_0
          else skip in
        let noted : Action = if has_log then write_log calls block count true else skip in
        let tried : Action = λ r. checked calls (calls.socket_result r) write_name lt_0 r in
        let last = emit (take count block) in
        Keeps-then coded (noted >> (tried >> last))
          (Keeps-if has_key (checked calls (calls.encrypt_result key plain) decrypt_name not_0) skip
            (Keeps-checked (λ r. calls.encrypt_result key plain) decrypt_name not_0) (λ r e. e))
          (Keeps-then noted (tried >> last)
            (Keeps-if has_log (write_log calls block count true) skip
              (Keeps-write_log block count true) (λ r e. e))
            (Keeps-then tried last (Keeps-checked calls.socket_result write_name lt_0)
              (k (take count block))))

    pub Keeps-initiate_shutdown : (is_server : Bool) → Keeps (initiate_shutdown calls is_server)
    unfolding initiate_shutdown
    Keeps-initiate_shutdown true r e = ground arith
    Keeps-initiate_shutdown false r e = tt

    module _ (is_server : Bool) (args : ParamArgs) where
      Keeps-perform : (e : Effect) → Keeps (perform calls is_server args e)
      unfolding perform
      Keeps-perform (write_out1 bytes) r e = e
      Keeps-perform (write_out2 bytes) r e = e
      Keeps-perform (send_out1 bytes) r e =
          Keeps-write_to_socket to_out1 bytes args.key (length bytes) false (λ b q e. e) r e
      Keeps-perform (send_out2 bytes) r e =
          Keeps-write_to_socket to_out2 bytes args.key (length bytes) (is_positive args.log_file)
            (λ b q e. e) r e
      Keeps-perform interrupt_shell r e = ground arith
      Keeps-perform close_pipes r e = e
      Keeps-perform shut_down r e = Keeps-initiate_shutdown is_server r e

      pub Keeps-perform_all : (es : List Effect) → Keeps (perform_all calls is_server args es)
      unfolding perform_all
      Keeps-perform_all [] r e = e
      Keeps-perform_all (x ∷ es) r e =
          Keeps-then (perform calls is_server args x) (perform_all calls is_server args es)
            (Keeps-perform x) (Keeps-perform_all es) r e
