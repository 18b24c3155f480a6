-- ===== src/NetConsole/Connect/Laws.antt =====
-- What the start of project 4c/lab4c.c has made sure of when it returns.
use some_low_level_tasks.Prelude.{
  ℕ, suc, ◌≡◌, ◌≢◌, refl, true, false, inl, inr, none, some, Option, List, [], ◌∷◌, ◌++◌, length,
  length-append, ◌==◌, Bool, Bool-cases, ==_iff, arith, take, ap, sym, ◌∙◌,
}
use some_low_level_tasks.Prelude.Int.{ℤ, pos, negsuc}
use some_low_level_tasks.Text.{Bytes, codes}
use some_low_level_tasks.System.{Run, done, exited, crashed, overflow, blocked, ◌>>=◌, Opt}
use some_low_level_tasks.NetConsole.Connect.{
  Calls, Settings, is_secure, set_options, default_settings, read_port, check_id, check_host,
  connect_host, init_context, write_id, sent_id, process_args,
}

-- A run gives no value but with this property.
unfoldable pub Gives : {A : Type 0} → (A → Type 0) → Run A → Type 0
Gives {A} P r = (a : A) → r ≡ done a → P a

Gives-bind :
    {A B : Type 0} (P : B → Type 0) (r : Run A) (f : A → Run B)
    → ((a : A) → r ≡ done a → Gives P (f a))
    → Gives P (r >>= f)
unfolding Gives
Gives-bind P (done a) f h b e = h a refl b e
Gives-bind P (exited n message) f h b e = absurd (cc e)
Gives-bind P crashed f h b e = absurd (cc e)
Gives-bind P overflow f h b e = absurd (cc e)
Gives-bind P blocked f h b e = absurd (cc e)

check_id-length :
    (student_id : Option Bytes) (id : Bytes)
    → check_id student_id ≡ done id
    → (student_id ≡ some id) × (length id ≡ 9)
check_id-length none id e = absurd (cc)
check_id-length (some text) id e = elim (Bool-cases (length text == 9)) [
  | inl nine ↦ same text id ((==_iff (length text) 9).0 nine) (rw nine at e)
  | inr other ↦ absurd (no_exit (rw other at e))
]
  where
    same :
        (text id : Bytes)
        → length text ≡ 9
        → ◌≡◌ {A = Run Bytes} (done text) (done id)
        → (◌≡◌ {A = Option Bytes} (some text) (some id)) × (length id ≡ 9)
    same text id nine e = (cc, cc)

    no_exit : {n : ℕ} {message : Bytes} → ◌≡◌ {A = Run Bytes} (exited n message) (done id) → ⊥
    no_exit e = cc

check_host-given :
    (port : ℤ) (host_name : Option Bytes) (host : Bytes)
    → check_host port host_name ≡ done host
    → (host_name ≡ some host) × (port ≢ pos 0)
check_host-given port none host e = absurd (cc)
check_host-given (negsuc n) (some name) host e = (cc, λ z. cc)
check_host-given (pos n) (some name) host e = ground (arith, e)

write_id-length : (id : Bytes) → length id ≡ 9 → length (write_id id) ≡ 14
write_id-length id nine = omega (arith, length-append id (10 ∷ 0 ∷ []), nine)

take-sent : (id : Bytes) → length id ≡ 9 → take 13 (write_id id) ≡ codes "ID=" ++ id ++ 10 ∷ []
take-sent id nine =
    ap (λ xs. codes "ID=" ++ xs)
      (ap (λ n. take (suc n) (id ++ 10 ∷ 0 ∷ [])) (sym nine) ∙ before_end id)
  where
    before_end : (xs : Bytes) → take (suc (length xs)) (xs ++ 10 ∷ 0 ∷ []) ≡ xs ++ 10 ∷ []
    before_end [] = refl
    before_end (x ∷ xs) = ap (λ r. x ∷ r) (before_end xs)

-- What holds of the settings that are returned, with the port that was read.
abbrev pub IsUsable : Calls → ℤ → Settings → Type 0
IsUsable calls port s =
    (port ≢ pos 0)
    × (id : Bytes) × (host : Bytes) × (s.student_id ≡ some id)
    × (s.host_name ≡ some host)
    × (length id ≡ 9)
    × (calls.sends (codes "ID=" ++ id ++ 10 ∷ []) ≡ true)
    × (s.overrun ≡ 1)

sent_id-sends :
    (sends : Bool) (s s' : Settings) → sent_id sends s ≡ done s' → (sends ≡ true) × (s' ≡ s)
sent_id-sends true s s' e = (refl, cc)
sent_id-sends false s s' e = absurd (cc)

-- Where the start returns, whatever the command line, the host and the libraries do, the port is not 0, an
-- id of nine characters and a host were given, and the line with the id has been sent. And
-- `sprintf` has written one byte behind the array `write_id`: there is no start without that.
pub process_args-IsUsable :
    (calls : Calls) (name : Bytes) (opts : List Opt) (words : List Bytes) (s : Settings)
    → process_args calls name opts words ≡ done s
    → (port : ℤ) × (read_port words ≡ done port) × IsUsable calls port s
unfolding process_args Gives
process_args-IsUsable calls name opts words s e = start s e
  where
    start :
        Gives
          (λ s. (port : ℤ) × (read_port words ≡ done port) × IsUsable calls port s)
          (process_args calls name opts words)
    start = Gives-bind _ (is_secure name) _ (λ secure e.
        Gives-bind _ (set_options calls opts default_settings) _ (λ s e.
          Gives-bind _ (read_port words) _ (λ port at_port.
            Gives-bind _ (check_id s.student_id) _ (λ id at_id.
              Gives-bind _ (check_host port s.host_name) _ (λ host at_host.
                Gives-bind _ (connect_host calls host port) _ (λ u e.
                  Gives-bind _ (init_context secure calls.ssl_connect) _ (λ u e s' sent.
                    let (given, nine) = check_id-length s.student_id id at_id in
                    let (named, not_zero) = check_host-given port s.host_name host at_host in
                    let (sends, same) = sent_id-sends _ _ s' sent in
                    rw same (
                      port,
                      at_port,
                      (
                        not_zero,
                        id,
                        host,
                        given,
                        named,
                        nine,
                        rw⁻¹ (take-sent id nine) sends,
                        rw (write_id-length id nine) refl,
                      ),
                    ))))))))
