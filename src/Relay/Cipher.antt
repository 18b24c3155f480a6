-- ===== src/Relay/Cipher.antt =====
-- What `write_to_socket` of one side of project 1b sends, and `poll_inputs` of the other side
-- decrypts (lab1b-server.c, lab1b-client.c). The cipher is a parameter.
use some_low_level_tasks.Prelude.{
  ℕ, zero, suc, ◌-◌, ◌≤◌, ◌<◌, ◌≡◌, ◌≢◌, refl, sym, ap, ◌∙◌, ◌==◌, Bool, true, false, [], ◌∷◌, ◌++◌,
  arith, inl, inr, Bool-cases, length, take, replicate, append_nil, length-append, length-replicate,
  length-take, lt→ltb,
}
use some_low_level_tasks.Text.{Bytes}
use some_low_level_tasks.System.{done, first_char}
use some_low_level_tasks.Relay.{calculate_block}
use some_low_level_tasks.Relay.Laws.{calculate_block_least}
use some_low_level_tasks.Relay.Check.{lt_0, not_0}
use some_low_level_tasks.Relay.Options.{ParamArgs, before_nul}
use some_low_level_tasks.Relay.Socket.{
  Relay, Calls, padded, to_out2, write_to_socket, cipher_block, decrypted, is_positive,
}
use some_low_level_tasks.Relay.Loop.{relay_input, relay_chars}
use some_low_level_tasks.Relay.Log.{IsText, before_nul_whole, take-whole, take-append}

-- What mcrypt documents of CFB with the two ends at one key: blocks keep their length, the one end undoes
-- the other, and the bytes in front of a ciphertext say what the bytes in front of its plain text are.
pub record IsCfb (encrypt decrypt : Bytes → Bytes) : Type 0 where
  pub keeps_length : (plain : Bytes) → length (encrypt plain) ≡ length plain
  pub inverse : (plain : Bytes) → decrypt (encrypt plain) ≡ plain
  pub by_byte :
      (n : ℕ) (b c : Bytes) → take n b ≡ take n c → take n (decrypt b) ≡ take n (decrypt c)

pub block_enough : (blocksize size : ℕ) → 0 < blocksize → size ≤ calculate_block blocksize size
block_enough blocksize size pos =
    let (k, e, above, below) = calculate_block_least blocksize size pos in omega (arith, e, above)

pub padded-IsText :
    (block : ℕ) (text : Bytes)
    → IsText text
    → padded block (length text) text ≡ text ++ replicate (block - length text) 0
unfolding padded
padded-IsText block text t =
    rw (take-whole (length text) text (omega arith), before_nul_whole text t) refl

-- Bytes with no NUL before another byte.
abbrev pub IsPadded : Bytes → Type 0
IsPadded bytes =
    (block : ℕ)
    → length bytes ≤ block
    → take (length bytes) (padded block (length bytes) bytes) ≡ bytes

pub IsText-IsPadded : (bytes : Bytes) → IsText bytes → IsPadded bytes
IsText-IsPadded bytes t block l =
    rw (padded-IsText block bytes t) (take-append bytes (replicate (block - length bytes) 0))

-- One byte is, whatever it is.
pub IsPadded-one : (c : ℕ) → IsPadded (c ∷ [])
unfolding padded before_nul
IsPadded-one c zero l = absurd (omega (arith, l))
IsPadded-one c (suc block) l = elim (Bool-cases (c == 0)) [
  | inl z ↦
      let e : c ≡ 0 = ground arith in
      let one : suc block - 0 ≡ suc block = omega arith in rw (z, e, one) refl
  | inr p ↦ rw p refl
]

padded_prefix :
    (m : ℕ) (bytes text : Bytes)
    → take m bytes ≡ text
    → IsText text
    → length text ≡ m
    → padded m m bytes ≡ text
unfolding padded
padded_prefix m bytes text e t l =
    let full : m - length text ≡ 0 = omega (arith, l) in
    rw (e, before_nul_whole text t, full) (append_nil text)

one_byte : (bytes : Bytes) → length bytes ≡ 1 → (b : ℕ) × (bytes ≡ b ∷ [])
one_byte [] e = absurd (omega (arith, e))
one_byte (b ∷ []) e = (b, refl)
one_byte (b ∷ c ∷ bytes) e = absurd (omega (arith, e))

module _ (sender receiver : Calls) (key : Bytes)
    (cfb : IsCfb (sender.encrypt key) (receiver.decrypt key)) where
  -- The bytes that go out for a text.
  abbrev pub sent : Bytes → Bytes
  sent buf =
      take (length buf) (
        sender.encrypt key
          (padded (calculate_block sender.blocksize (length buf)) (length buf) buf))

  length-plain :
      (buf : Bytes)
      → 0 < sender.blocksize
      → IsText buf
      → length (padded (calculate_block sender.blocksize (length buf)) (length buf) buf)
        ≡ calculate_block sender.blocksize (length buf)
  length-plain buf pos t =
      let n = length buf in
      let block = calculate_block sender.blocksize n in
      rw (padded-IsText block buf t) (
        omega (
          arith,
          length-append buf (replicate (block - n) 0),
          length-replicate {A = ℕ} (block - n) 0,
          block_enough sender.blocksize n pos,
        ))

  take_plain :
      (buf : Bytes)
      → 0 < sender.blocksize
      → IsText buf
      → take (length buf) (padded (calculate_block sender.blocksize (length buf)) (length buf) buf)
        ≡ buf
  take_plain buf pos t =
      rw (padded-IsText (calculate_block sender.blocksize (length buf)) buf t) (take-append buf _)

  length-sent : (buf : Bytes) → 0 < sender.blocksize → IsText buf → length (sent buf) ≡ length buf
  length-sent buf pos t =
      let n = length buf in
      let plain = padded (calculate_block sender.blocksize n) n buf in
      omega (
        arith,
        length-take n (sender.encrypt key plain),
        cfb.keeps_length plain,
        length-plain buf pos t,
        block_enough sender.blocksize n pos,
      )

  pub decrypted-sent :
      (buf : Bytes)
      → 0 < sender.blocksize
      → 0 < receiver.blocksize
      → IsText buf
      → IsPadded (sent buf)
      → decrypted receiver key (sent buf) ≡ buf
  unfolding decrypted cipher_block
  decrypted-sent buf pos pos' t p =
      let n = length buf in
      let plain = padded (calculate_block sender.blocksize n) n buf in
      let cipher = sender.encrypt key plain in
      let m = length (sent buf) in
      let ls : m ≡ n = length-sent buf pos t in
      let front : take m cipher ≡ sent buf = ap (λ k. take k cipher) ls in
      let same : take m (cipher_block receiver (sent buf)) ≡ take m cipher =
        p (calculate_block receiver.blocksize m) (block_enough receiver.blocksize m pos')
        ∙ sym front in
      let clear : take m plain ≡ buf = ap (λ k. take k plain) ls ∙ take_plain buf pos t in
      padded_prefix m (receiver.decrypt key (cipher_block receiver (sent buf))) buf
        (cfb.by_byte m (cipher_block receiver (sent buf)) cipher same
          ∙ (ap (take m) (cfb.inverse plain) ∙ clear))
        t (sym ls)

  module _ (args : ParamArgs) (same_key : args.key ≡ key) (usable : is_positive key ≡ true)
      (pos : 0 < sender.blocksize) (pos' : 0 < receiver.blocksize)
      (encrypts : (block : Bytes) → not_0 (sender.encrypt_result key block).code ≡ false)
      (sends : (r : Relay) → lt_0 (sender.socket_result r).code ≡ false)
      (decrypts : (block : Bytes) → not_0 (receiver.decrypt_result key block).code ≡ false)
      (no_log : is_positive args.log_file ≡ false) where
    has_key : (first_char key == 0) ≡ false
    has_key = ground arith

    write_to_socket-sent :
        (buf : Bytes) (r : Relay)
        → write_to_socket sender to_out2 buf key (length buf) false r
          ≡ (done tt, record r { out2 = r.out2 ++ sent buf })
    unfolding write_to_socket
    write_to_socket-sent buf r = rw (has_key, encrypts _, sends _) refl

    relay_input-IsPadded :
        (side : Bool) (buf : Bytes) (r : Relay)
        → 0 < length buf
        → IsText buf
        → IsPadded (sent buf)
        → relay_input receiver side args side (sent buf) r
          ≡ relay_chars receiver side args side false buf r
    unfolding relay_input
    relay_input-IsPadded true buf r l t p =
        rw
          (
            no_log,
            same_key,
            usable,
            lt→ltb 0 (length (sent buf)) (omega (arith, length-sent buf pos t, l)),
            decrypts (cipher_block receiver (sent buf)),
            decrypted-sent buf pos pos' t p,
          )
          refl
    relay_input-IsPadded false buf r l t p =
        rw
          (
            no_log,
            same_key,
            usable,
            lt→ltb 0 (length (sent buf)) (omega (arith, length-sent buf pos t, l)),
            decrypts (cipher_block receiver (sent buf)),
            decrypted-sent buf pos pos' t p,
          )
          refl

    -- A text whose ciphertext has no NUL goes out as that ciphertext, and the other side, where it reads
    -- all of it at once, relays the characters of the text: where no call fails, the key's first
    -- byte is positive and the reading side has no log.
    pub relay_input-sent :
        (side : Bool) (buf : Bytes) (r r' : Relay)
        → 0 < length buf
        → IsText buf
        → IsText (sent buf)
        → (write_to_socket sender to_out2 buf key (length buf) false r
            ≡ (done tt, record r { out2 = r.out2 ++ sent buf }))
          × (relay_input receiver side args side (sent buf) r'
              ≡ relay_chars receiver side args side false buf r')
    relay_input-sent side buf r r' l t c = (
      write_to_socket-sent buf r,
      relay_input-IsPadded side buf r' l t (IsText-IsPadded (sent buf) c),
    )

    -- One character that is not NUL goes out as one byte, whatever it is, and the other side, where it reads
    -- that byte alone, relays the character: where no call fails, the key's first byte is positive
    -- and the reading side has no log.
    pub relay_input-sent_char :
        (side : Bool) (c : ℕ) (r r' : Relay)
        → c ≢ 0
        → (b : ℕ) × (write_to_socket sender to_out2 (c ∷ []) key 1 false r
            ≡ (done tt, record r { out2 = r.out2 ++ b ∷ [] }))
          × (relay_input receiver side args side (b ∷ []) r'
              ≡ relay_chars receiver side args side false (c ∷ []) r')
    relay_input-sent_char side c r r' n =
        let (b, e) = one_byte (sent (c ∷ [])) (length-sent (c ∷ []) pos (n, tt)) in
        (
          b,
          rw⁻¹ e (write_to_socket-sent (c ∷ []) r),
          rw⁻¹ e
              (relay_input-IsPadded side (c ∷ []) r' (omega arith) (n, tt) (rw e (IsPadded-one b))),
        )
