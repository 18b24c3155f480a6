-- ===== src/Relay/Socket.antt =====
-- What project 1b (lab1b-server.c) writes and reads while it relays: its log, the blocks that it encrypts
-- and decrypts, and how it ends. The mcrypt library and the calls of the system are parameters.
use some_low_level_tasks.Prelude.{
  ℕ, ◌-◌, ◌/◌, ◌%◌, ◌==◌, Bool, true, false, ◌&&◌, not, [], ◌∷◌, ◌++◌, ltb, if◌then◌else◌, length,
  take, replicate,
}
use some_low_level_tasks.Prelude.Int.{ℤ}
use some_low_level_tasks.Text.{Bytes, codes, decimal}
use some_low_level_tasks.System.{
  Errno, Run, done, exited, crashed, overflow, blocked, into, first_char,
}
use some_low_level_tasks.Relay.{calculate_block, num_digits}
use some_low_level_tasks.Relay.Check.{
  FuncName, Result, wait_name, write_name, decrypt_name, lt_0, not_0, check,
}
use some_low_level_tasks.Relay.Options.{before_nul}

-- What was written so far to the two outputs and to the log, how often the shell got SIGINT, whether its
-- pipes are open, and `exit_triggered`.
pub record Relay : Type 0 where
  pub out1 : Bytes
  pub out2 : Bytes
  pub log : Bytes
  pub interrupts : ℕ
  pub pipes_open : Bool
  pub exit_triggered : Bool

-- At the start.
abbrev pub fresh : Relay
fresh = record {
  out1 = [];
  out2 = [];
  log = [];
  interrupts = 0;
  pipes_open = true;
  exit_triggered = false;
}

-- The calls of libraries. `encrypt` and `decrypt` are `mcrypt_generic_init` with the key and the constant
-- IV, and `mcrypt_generic` or `mdecrypt_generic` on a block. A write that does not fail writes all its
-- bytes; how it ends is a function of what was written before.
pub record Calls : Type 0 where
  pub strerror : Errno → Bytes
  pub blocksize : ℕ
  pub encrypt : (key block : Bytes) → Bytes
  pub encrypt_result : (key block : Bytes) → Result
  pub decrypt : (key block : Bytes) → Bytes
  pub decrypt_result : (key block : Bytes) → Result
  pub log_result : Relay → Result
  pub socket_result : Relay → Result
  pub kill_result : ℕ → Result
  pub wait_result : Result
  pub status : ℕ

-- How a piece of the program ends, and the state behind it.
abbrev pub Outcome : Type 0
Outcome = Run (Unit {0}) × Relay

abbrev pub Action : Type 0
Action = Relay → Outcome

abbrev pub and_then : Outcome → Action → Outcome
and_then (done _, r) f = f r
and_then (exited code stderr, r) f = (exited code stderr, r)
and_then (crashed, r) f = (crashed, r)
and_then (overflow, r) f = (overflow, r)
and_then (blocked, r) f = (blocked, r)

infixl 5 ◌>>◌
abbrev pub ◌>>◌ : Action → Action → Action
(m >> n) r = and_then (m r) n

abbrev pub skip : Action
skip r = (done tt, r)

abbrev pub to_out1 : Bytes → Action
to_out1 bytes r = (done tt, record r { out1 = r.out1 ++ bytes })

abbrev pub to_out2 : Bytes → Action
to_out2 bytes r = (done tt, record r { out2 = r.out2 ++ bytes })

abbrev pub to_log : Bytes → Action
to_log bytes r = (done tt, record r { log = r.log ++ bytes })

-- The bytes that `memset` and `strncpy` leave in an array of `block` bytes.
unfoldable pub padded : (block count : ℕ) → Bytes → Bytes
padded block count buf =
    let text = before_nul (take count buf) in text ++ replicate (block - length text) 0

-- The allocation of `buf_copy` in `write_log`: a string with its terminator.
unfoldable pub logged_copy : Bytes → ℕ → Bytes
logged_copy buf bytes =
    let text = before_nul (take bytes buf) in
    if first_char text == 3
    then codes "^C" ++ 0 ∷ []
    else if first_char text == 4
    then codes "^D" ++ 0 ∷ []
    else text ++ 0 ∷ []

abbrev pub direction : (is_sent : Bool) → Bytes
direction is_sent = if is_sent then codes "SENT " else codes "RECEIVED "

-- A write of the first `count` bytes of an array.
abbrev pub read_array : (count : ℕ) → Bytes → Run Bytes
read_array count array = if ltb (length array) count then overflow else done (take count array)

abbrev pub with_array : Run Bytes → (Bytes → Action) → Action
with_array (done bytes) f r = f bytes r
with_array (exited code stderr) f r = (exited code stderr, r)
with_array crashed f r = (crashed, r)
with_array overflow f r = (overflow, r)
with_array blocked f r = (blocked, r)

-- `*text > '\0'`, where a `char` is signed.
abbrev pub is_positive : Bytes → Bool
is_positive text = ltb 0 (first_char text) && ltb (first_char text) 128

module _ (calls : Calls) where
  abbrev pub checked : Result → FuncName → (ℤ → Bool) → Action
  checked result name comp r = (check calls.strerror result name comp, r)

  -- `str_bytes` has three bytes.
  unfoldable pub write_log : (buf : Bytes) → (bytes : ℕ) → (is_sent : Bool) → Action
  write_log buf bytes is_sent = do
    to_log (direction is_sent)
    with_array (into 3 (decimal bytes)) (λ text. to_log (take (num_digits bytes) text))
    to_log (codes " bytes: ")
    with_array (read_array bytes (logged_copy buf bytes))
        (λ text. (λ r. checked (calls.log_result r) write_name lt_0 r) >> to_log text)
    to_log (10 ∷ [])

  -- `write_to_socket`, where `emit` is the write to `fd`.
  unfoldable pub write_to_socket :
      (emit : Bytes → Action) (buf key : Bytes) → (count : ℕ) → (has_log : Bool) → Action
  write_to_socket emit buf key count has_log =
      let plain = padded (calculate_block calls.blocksize count) count buf in
      let has_key = not (first_char key == 0) in
      let block = if has_key then calls.encrypt key plain else plain in
      do
        (if has_key then checked (calls.encrypt_result key plain) decrypt_name not_0 else skip)
        (if has_log then write_log block count true else skip)
        (λ r. checked (calls.socket_result r) write_name lt_0 r)
        emit (take count block)

  -- `buf_copy`, which is decrypted.
  unfoldable pub cipher_block : (buf : Bytes) → Bytes
  cipher_block buf = padded (calculate_block calls.blocksize (length buf)) (length buf) buf

  -- `buf` behind `strncpy(buf, buf_copy, num_chars)`.
  unfoldable pub decrypted : (key buf : Bytes) → Bytes
  decrypted key buf = padded (length buf) (length buf) (calls.decrypt key (cipher_block buf))

  abbrev pub exit_signal : ℕ
  exit_signal = calls.status % 128

  abbrev pub exit_status : ℕ
  exit_status = calls.status / 256 % 256

  abbrev pub status_line : Bytes
  status_line =
      codes "\r\nSHELL EXIT SIGNAL="
      ++ decimal exit_signal
      ++ codes " STATUS="
      ++ decimal exit_status
      ++ codes "\r\n"

  -- It exits; WIFEXITED says that no signal ended the shell.
  unfoldable pub initiate_shutdown : (is_server : Bool) → Action
  initiate_shutdown true = do
    checked calls.wait_result wait_name lt_0
    λ r. (exited (if exit_signal == 0 then 0 else 1) status_line, r)
  initiate_shutdown false = λ r. (exited 0 [], r)
