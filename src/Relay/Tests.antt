-- ===== src/Relay/Tests.antt =====
-- The relay of project 1b at concrete inputs.
use some_low_level_tasks.Prelude.{◌≡◌, refl, true, false, [], ◌∷◌}
use some_low_level_tasks.Relay.{
  count_digits, num_digits, write_out1, send_out2, effects, triggered, relay_client,
}

digits_run : num_digits 255 ≡ 3
unfolding count_digits
digits_run = refl

-- `a`, CR, NL, and CTRL+C twice.
relay_run : relay_client true false false (97 ∷ 13 ∷ 10 ∷ 3 ∷ 3 ∷ []) ≡ (
  write_out1 (97 ∷ [])
      ∷ send_out2 (97 ∷ [])
      ∷ send_out2 (10 ∷ [])
      ∷ write_out1 (13 ∷ 10 ∷ [])
      ∷ send_out2 (3 ∷ [])
      ∷ write_out1 (94 ∷ 67 ∷ [])
      ∷ write_out1 (94 ∷ 67 ∷ [])
      ∷ [],
  true,
)
unfolding relay_client effects triggered
relay_run = refl
