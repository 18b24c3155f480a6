-- ===== src/Relay/Begun.antt =====
-- What the start of project 1b (lab1b-server.c, lab1b-client.c) makes of its calls.
use some_low_level_tasks.Prelude.{
  ℕ, ◌-◌, ◌≡◌, refl, ◌==◌, true, false, [], ◌∷◌, ◌++◌, arith, ltb, if◌then◌else◌, length, get_or,
  length-append,
}
use some_low_level_tasks.Text.{Bytes, codes}
use some_low_level_tasks.System.{done, overflow}
use some_low_level_tasks.Relay.Start.{Machine, is_server_name, handle_signal, handle_signals}

-- Whatever `signal` refuses, `handle_signals` goes on.
pub handle_signals_never : (m : Machine) → handle_signals m ≡ done tt
unfolding handle_signals handle_signal
handle_signals_never m = ground arith

drop_six :
    (path six : Bytes) (d : ℕ)
    → length six ≡ 6
    → get_or (path ++ six) (length (path ++ six) - 6) d ≡ get_or six 0 d
drop_six path six d l =
    let e : length (path ++ six) - 6 ≡ length path = omega (arith, length-append path six, l) in
    rw e (at_length path)
  where
    at_length : (path : Bytes) → get_or (path ++ six) (length path) d ≡ get_or six 0 d
    at_length [] = refl
    at_length (c ∷ path) = at_length path

-- A program whose path ends in `server` is the server, and one whose path ends in `client` is not.
pub is_server_name-path :
    (path : Bytes)
    → (is_server_name (path ++ codes "server") ≡ done true)
      × (is_server_name (path ++ codes "client") ≡ done false)
unfolding is_server_name
is_server_name-path path = (named (codes "server") refl, named (codes "client") refl)
  where
    named :
        (six : Bytes)
        → length six ≡ 6
        → (if ltb (length (path ++ six)) 6
            then overflow
            else done (get_or (path ++ six) (length (path ++ six) - 6) 0 == b's'))
          ≡ done (get_or six 0 0 == b's')
    named six l =
        let long : ltb (length (path ++ six)) 6 ≡ false =
          ground (arith, length-append path six, l) in
        rw (long, drop_six path six 0 l) refl
