-- ===== src/System/Laws.antt =====
-- How a call for each thread ends.
use some_low_level_tasks.Prelude.{
  ℕ, zero, suc, ◌+◌, ◌≤◌, ◌<◌, ◌≡◌, refl, List, [], ◌∷◌, Option, none, some, arith, inl, inr, ltb,
  Bool-cases, ltb→lt, tests,
}
use some_low_level_tasks.Prelude.Int.{ℤ, pos, negsuc}
use some_low_level_tasks.Text.{Bytes}
use some_low_level_tasks.System.{Errno, done, exited, crashed, called, each_thread, quot}

-- The numbers from `t` on.
unfoldable pub count_from : (t n : ℕ) → List ℕ
count_from t zero = []
count_from t (suc n) = t ∷ count_from (t + 1) n

module _ (message : ℕ → Errno → Bytes) (failed : ℕ → Option Errno) where
  pub each_thread-all :
      (t n : ℕ)
      → ((i : ℕ) → t ≤ i → i < t + n → failed i ≡ none)
      → each_thread (λ i. called (message i) (failed i) tt) t n ≡ done (count_from t n)
  unfolding each_thread count_from
  each_thread-all t zero h = refl
  each_thread-all t (suc n) h =
      rw
        (
          h t (omega arith) (omega arith),
          each_thread-all (t + 1) n (λ i p q. h i (omega (arith, p)) (omega (arith, q))),
        )
        refl

  pub each_thread-first :
      (t n k : ℕ) (e : Errno)
      → t ≤ k
      → k < t + n
      → ((i : ℕ) → t ≤ i → i < k → failed i ≡ none)
      → failed k ≡ some e
      → each_thread (λ i. called (message i) (failed i) tt) t n ≡ exited 2 (message k e)
  unfolding each_thread
  each_thread-first t zero k e p q ok bad = absurd (omega (arith, p, q))
  each_thread-first t (suc n) k e p q ok bad = elim (Bool-cases (ltb t k)) [
    | inl less ↦
        rw
          (
            ok t (omega arith) (ltb→lt t k less),
            each_thread-first (t + 1) n k e (omega tests) (omega (arith, q))
                (λ i u v. ok i (omega (arith, u)) v) bad,
          )
          refl
    | inr same ↦ let here : t ≡ k = ground arith in rw (here, bad) refl
  ]

pub quot_zero : (a : ℤ) → quot a (pos 0) ≡ crashed
quot_zero (pos n) = refl
quot_zero (negsuc n) = refl
