-- ===== src/Adder/Tally.antt =====
-- One value for each thread: a change at one thread, and sums over the first `n` threads.
use mathlib.Core.Logic.{ite}
use some_low_level_tasks.Prelude.{
  ℕ, zero, suc, ◌+◌, ◌*◌, ◌≤◌, ◌<◌, ◌≡◌, refl, arith, dec_lt, ℕ_discrete,
}

abbrev pub change {ℓ} : {A : Type ℓ} → (ℕ → A) → ℕ → A → ℕ → A
change f i a j = ite (ℕ_discrete j i) a (f j)

module _ {ℓ} {A : Type ℓ} (w : A → ℕ) where
  pub tally : ℕ → (ℕ → A) → ℕ
  tally zero f = 0
  tally (suc n) f = tally n f + w (f n)

  -- A change at a thread that is not summed.
  tally-change_above :
      (n : ℕ) (f : ℕ → A) (i : ℕ) (a : A) → n ≤ i → tally n (change f i a) ≡ tally n f
  unfolding tally
  tally-change_above zero f i a above = refl
  tally-change_above (suc n) f i a above = ground (arith, tally-change_above n f i a)

  pub tally-change :
      (n : ℕ) (f : ℕ → A) (i : ℕ) (a : A)
      → i < n
      → tally n (change f i a) + w (f i) ≡ tally n f + w a
  unfolding tally
  tally-change zero f i a below = absurd (omega arith)
  tally-change (suc n) f i a below = elim (dec_lt i n) [
    | yes inside ↦ ground (arith, tally-change n f i a inside)
    | no last ↦ ground (arith, tally-change_above n f i a)
  ]

  -- A bound for each thread bounds the sum.
  pub tally-le : (k n : ℕ) (f : ℕ → A) → ((i : ℕ) → w (f i) ≤ k) → tally n f ≤ n * k
  unfolding tally
  tally-le k zero f small = omega arith
  tally-le k (suc n) f small = grind (arith, tally-le k n f small, small n)

  -- The same value at each thread that is summed.
  pub tally-const : (k n : ℕ) (f : ℕ → A) → ((i : ℕ) → i < n → w (f i) ≡ k) → tally n f ≡ n * k
  unfolding tally
  tally-const k zero f same = omega arith
  tally-const k (suc n) f same =
      omega (arith, tally-const k n f (λ i l. same i (omega arith)), same n (omega arith))
