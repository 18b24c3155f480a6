-- ===== src/Relay/Valid.antt =====
-- What `process_option` of project 1b (lab1b-server.c) makes of its options.
use mathlib.Core.Path.{subst}
use some_low_level_tasks.Prelude.{
  ◌≤◌, ◌≡◌, ◌≢◌, refl, ◌==◌, Bool, true, false, Option, none, some, List, [], ◌∷◌, arith, inl, inr,
  Bool-cases, if◌then◌else◌, length, take, length-take,
}
use some_low_level_tasks.Text.{Bytes}
use some_low_level_tasks.System.{
  Run, done, exited, crashed, overflow, blocked, and_then, Opt, first_char,
}
use some_low_level_tasks.Relay.Check.{open_name, lt_0, check}
use some_low_level_tasks.Relay.Options.{
  ParamArgs, Files, bufsize, before_nul, default_args, read_key, encrypt_option, set_option,
  set_options, no_words, is_zero, default_host, end_options, process_option,
}
use some_low_level_tasks.Relay.Log.{IsText}

-- What holds of the result of a run that returns.
abbrev AllOf : {A : Type 0} → (A → Type 0) → Run A → Type 0
AllOf P (done a) = P a
AllOf P (exited code stderr) = Unit {0}
AllOf P crashed = Unit {0}
AllOf P overflow = Unit {0}
AllOf P blocked = Unit {0}

AllOf-and_then :
    {A B : Type 0} (P : A → Type 0) (Q : B → Type 0) (m : Run A) (f : A → Run B)
    → AllOf P m
    → ((a : A) → P a → AllOf Q (f a))
    → AllOf Q (and_then m f)
AllOf-and_then P Q (done a) f h k = k a h
AllOf-and_then P Q (exited code stderr) f h k = tt
AllOf-and_then P Q crashed f h k = tt
AllOf-and_then P Q overflow f h k = tt
AllOf-and_then P Q blocked f h k = tt

AllOf-any : {A : Type 0} (m : Run A) → AllOf (λ (a : A). Unit {0}) m
AllOf-any (done a) = tt
AllOf-any (exited code stderr) = tt
AllOf-any crashed = tt
AllOf-any overflow = tt
AllOf-any blocked = tt

before_nul-IsText : (text : Bytes) → IsText (before_nul text)
unfolding before_nul
before_nul-IsText [] = tt
before_nul-IsText (c ∷ text) = elim (Bool-cases (c == 0)) [
  | inl z ↦ rw z tt
  | inr p ↦ rw p (ground arith, before_nul-IsText text)
]

length-before_nul : (text : Bytes) → length (before_nul text) ≤ length text
unfolding before_nul
length-before_nul [] = omega arith
length-before_nul (c ∷ text) = ground (arith, length-before_nul text)

-- What the options leave: a key that is a string of at most 512 bytes, and in the server no host and no
-- log.
abbrev NoClient : (is_server : Bool) → ParamArgs → Type 0
NoClient true a = (a.host_name ≡ []) × (a.log_file ≡ [])
NoClient false a = Unit {0}

abbrev IsGiven : (is_server : Bool) → ParamArgs → Type 0
IsGiven is_server a = IsText a.key × (length a.key ≤ 512) × NoClient is_server a

AllOf-if :
    {A : Type 0} (P : A → Type 0) (b : Bool) (x y : Run A)
    → AllOf P x
    → AllOf P y
    → AllOf P (if b then x else y)
AllOf-if P true x y h k = h
AllOf-if P false x y h k = k

module _ (files : Files) where
  encrypt_option-IsGiven :
      (is_server : Bool) (name : Bytes) (a : ParamArgs)
      → IsGiven is_server a
      → AllOf (IsGiven is_server) (encrypt_option files name a)
  encrypt_option-IsGiven is_server name a s =
      let opened = check files.strerror (files.open_file name) open_name lt_0 in
      let keep = λ (key : Bytes). done (record a { key = key }) in
      AllOf-and_then (λ (u : Unit {0}). Unit {0}) (IsGiven is_server) opened
        (λ _. and_then (read_key (files.contents name)) keep) (ground arith)
        (λ _ _.
          AllOf-and_then (λ key. IsText key × (length key ≤ 512)) (IsGiven is_server)
            (read_key (files.contents name)) keep (key_read (files.contents name))
            (λ key h. (h.0, h.1, same is_server key s.2)))
    where
      key_read :
          (contents : Option Bytes)
          → AllOf (λ key. IsText key × (length key ≤ 512)) (read_key contents)
      key_read none = tt
      key_read (some bytes) = (
        before_nul-IsText (take bufsize bytes),
        omega (arith, length-before_nul (take bufsize bytes), length-take 512 bytes),
      )

      same :
          (is_server : Bool) (key : Bytes)
          → NoClient is_server a
          → NoClient is_server (record a { key = key })
      same true key h = h
      same false key h = tt

  set_option-IsGiven :
      (is_server : Bool) (o : Opt) (a : ParamArgs)
      → IsGiven is_server a
      → AllOf (IsGiven is_server) (set_option is_server files o a)
  unfolding set_option
  set_option-IsGiven true o a s = AllOf-if (IsGiven true) (o.code == 0) _ _ s (
      AllOf-if (IsGiven true) (o.code == b'p') _ _ s (
        AllOf-if (IsGiven true) (o.code == b'e') _ _ (encrypt_option-IsGiven true o.optarg a s)
          (ground arith)))
  set_option-IsGiven false o a s = AllOf-if (IsGiven false) (o.code == 0) _ _ s (
      AllOf-if (IsGiven false) (o.code == b'p') _ _ s (
        AllOf-if (IsGiven false) (o.code == b'e') _ _ (encrypt_option-IsGiven false o.optarg a s) (
          AllOf-if (IsGiven false) (o.code == b'l') _ _ s
            (AllOf-if (IsGiven false) (o.code == b'h') _ _ s tt))))

  set_options-IsGiven :
      (is_server : Bool) (opts : List Opt) (a : ParamArgs)
      → IsGiven is_server a
      → AllOf (IsGiven is_server) (set_options is_server files opts a)
  unfolding set_options
  set_options-IsGiven is_server [] a s = s
  set_options-IsGiven is_server (o ∷ opts) a s =
      AllOf-and_then (IsGiven is_server) (IsGiven is_server) (set_option is_server files o a)
        (set_options is_server files opts) (set_option-IsGiven is_server o a s)
        (set_options-IsGiven is_server opts)

-- In the server, the default host and no log.
abbrev pub Fixed : (is_server : Bool) → ParamArgs → Type 0
Fixed true a = (a.host_name ≡ default_host) × (a.log_file ≡ [])
Fixed false a = Unit {0}

-- A port that is not 0, a host's name, and a key that is a string of at most 512 bytes.
abbrev pub IsUsable : (is_server : Bool) → ParamArgs → Type 0
IsUsable is_server a =
    (is_zero a.port_number ≡ false)
    × (first_char a.host_name ≢ 0)
    × IsText a.key
    × (length a.key ≤ 512)
    × Fixed is_server a

host_chosen : (host : Bytes) → first_char (if first_char host == 0 then default_host else host) ≢ 0
host_chosen host = elim (Bool-cases (first_char host == 0)) [
  | inl z ↦ rw z (omega arith)
  | inr p ↦ rw p (ground arith)
]

end_options-IsUsable :
    (is_server : Bool) (a : ParamArgs)
    → IsGiven is_server a
    → AllOf (IsUsable is_server) (end_options a)
unfolding end_options
end_options-IsUsable is_server a (t, l, n) = elim (Bool-cases (is_zero a.port_number)) [
  | inl z ↦ rw z tt
  | inr p ↦ rw p (p, host_chosen a.host_name, t, l, fixed is_server n)
]
  where
    fixed :
        (is_server : Bool)
        → NoClient is_server a
        → Fixed is_server (record a {
          host_name = if first_char a.host_name == 0 then default_host else a.host_name;
        })
    fixed true (h, g) = (rw h refl, g)
    fixed false h = tt

process_option-AllOf :
    (is_server : Bool) (files : Files) (opts : List Opt) (words : List Bytes)
    → AllOf (IsUsable is_server) (process_option is_server files opts words)
unfolding process_option no_words
process_option-AllOf true files opts [] =
    AllOf-and_then (IsGiven true) (IsUsable true) (set_options true files opts default_args)
      (λ a. end_options a)
      (set_options-IsGiven files true opts default_args (tt, omega arith, (refl, refl)))
      (end_options-IsUsable true)
process_option-AllOf false files opts [] =
    AllOf-and_then (IsGiven false) (IsUsable false) (set_options false files opts default_args)
      (λ a. end_options a) (set_options-IsGiven files false opts default_args (tt, omega arith, tt))
      (end_options-IsUsable false)
process_option-AllOf is_server files opts (word ∷ words) =
    AllOf-and_then (λ (a : ParamArgs). Unit {0}) (IsUsable is_server)
      (set_options is_server files opts default_args) (no_words is_server (word ∷ words))
      (AllOf-any (set_options is_server files opts default_args)) (λ a u. tt)

-- Where process_option returns, the port is not 0, the host has a name and the key is a string of at most
-- 512 bytes; in the server the host is the default one and there is no log.
pub process_option-IsUsable :
    (is_server : Bool) (files : Files) (opts : List Opt) (words : List Bytes) (a : ParamArgs)
    → process_option is_server files opts words ≡ done a
    → IsUsable is_server a
process_option-IsUsable is_server files opts words a e =
    subst (AllOf (IsUsable is_server)) e (process_option-AllOf is_server files opts words)
