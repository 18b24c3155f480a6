-- ===== src/Relay.antt =====
-- The relay between a terminal and a shell of project 1b (lab1b-server.c; lab1b-client.c has the same
-- text): the sizes it computes, and what it does with each character that it reads.
use some_low_level_tasks.Prelude.{
  ℕ, zero, suc, ◌+◌, ◌*◌, ◌/◌, ◌%◌, ◌==◌, Bool, true, false, ◌||◌, not, List, [], ◌∷◌, ◌++◌, ltb,
  if◌then◌else◌,
}
pub mod Laws
pub mod Check
pub mod Options
pub mod Socket
pub mod Loop
pub mod Pipes
pub mod Start
pub mod Log
pub mod Cipher
pub mod Descriptors
pub mod Ends
pub mod Kept
pub mod Shutdown
pub mod Exit
pub mod Interrupt
pub mod Valid
pub mod Begun
mod Tests
mod Runs

-- `blocksize` is what the cipher says, and not 0.
unfoldable pub calculate_block : (blocksize size : ℕ) → ℕ
calculate_block blocksize size =
    (if size % blocksize == 0 then size / blocksize else size / blocksize + 1) * blocksize

-- The loop of `num_digits`; `fuel` bounds its rounds.
unfoldable pub count_digits : (fuel num digits : ℕ) → ℕ
count_digits zero num digits = digits
count_digits (suc fuel) num digits =
    let rest = count_digits fuel (num / 10) (digits + 1) in if ltb 0 num then rest else digits

-- A number has no more digits than its value.
abbrev pub num_digits : ℕ → ℕ
num_digits num = count_digits num num 0

-- What a character leads to: bytes written to `out1` or `out2`, bytes given to `write_to_socket` for one
-- of them, and in the server the calls that end the shell; `initiate_shutdown` exits.
pub data Effect : Type 0 where
  write_out1 write_out2 send_out1 send_out2 : List ℕ → Effect
  interrupt_shell close_pipes shut_down : Effect

-- The bytes for a new line; the server sends the terminator of its string as well.
abbrev new_line : (is_server initial : Bool) → List Effect
new_line true true = write_out2 (10 ∷ []) ∷ []
new_line true false = send_out1 (10 ∷ 0 ∷ []) ∷ []
new_line false true = send_out2 (10 ∷ []) ∷ write_out1 (13 ∷ 10 ∷ []) ∷ []
new_line false false = write_out1 (13 ∷ 10 ∷ []) ∷ []

-- CTRL+C and CTRL+D, with their letter and what the server does to its shell.
abbrev exit_char :
    (is_server initial exit_triggered : Bool) → (input letter : ℕ) → Effect → List Effect
exit_char true true exit_triggered input letter stop =
    if exit_triggered then [] else stop ∷ shut_down ∷ []
exit_char true false exit_triggered input letter stop = send_out1 (input ∷ []) ∷ []
exit_char false true exit_triggered input letter stop =
    (if exit_triggered then [] else send_out2 (input ∷ []) ∷ [])
    ++ write_out1 (94 ∷ letter ∷ []) ∷ []
exit_char false false exit_triggered input letter stop = write_out1 (94 ∷ letter ∷ []) ∷ []

abbrev other_char : (is_server initial : Bool) → ℕ → List Effect
other_char true true input = write_out2 (input ∷ []) ∷ []
other_char true false input = send_out1 (input ∷ []) ∷ []
other_char false true input = write_out1 (input ∷ []) ∷ send_out2 (input ∷ []) ∷ []
other_char false false input = write_out1 (input ∷ []) ∷ []

-- What one character leads to.
unfoldable pub effects : (is_server initial exit_triggered : Bool) → ℕ → List Effect
effects is_server initial exit_triggered input =
    if (input == 13) || (input == 10)
    then new_line is_server initial
    else if input == 3
    then exit_char is_server initial exit_triggered input 67 interrupt_shell
    else if input == 4
    then exit_char is_server initial exit_triggered input 68 close_pipes
    else if input == 127
    then write_out1 (input ∷ []) ∷ []
    else other_char is_server initial input

-- `exit_triggered` behind it.
unfoldable pub triggered : (initial exit_triggered : Bool) → ℕ → Bool
triggered true exit_triggered input = exit_triggered || ((input == 3) || (input == 4))
triggered false exit_triggered input = exit_triggered

-- The client on the characters of a buffer; a NL right behind a CR is skipped.
unfoldable pub relay_client : (initial exit_triggered after_cr : Bool) → List ℕ → List Effect × Bool
relay_client initial exit_triggered after_cr [] = ([], exit_triggered)
relay_client initial exit_triggered false (input ∷ chars) =
    let (later, t) =
      relay_client initial (triggered initial exit_triggered input) (input == 13) chars in
    (effects false initial exit_triggered input ++ later, t)
relay_client initial exit_triggered true (input ∷ chars) =
    let skipped = relay_client initial exit_triggered false chars in
    let rest = relay_client initial (triggered initial exit_triggered input) (input == 13) chars in
    if input == 10 then skipped else (effects false initial exit_triggered input ++ rest.0, rest.1)
