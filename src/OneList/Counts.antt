-- ===== src/OneList/Counts.antt =====
-- How many elements of a list have a key that compares equal to a given one.
use some_low_level_tasks.Prelude.{
  ℕ, ◌+◌, ◌<◌, ◌≤◌, ◌≡◌, refl, true, false, [], ◌∷◌, arith, ◌==◌, if◌then◌else◌, length, inl, inr,
  Bool-cases,
}
use some_low_level_tasks.SortedList.Memory.{Ptr, Key, strcmp, is_zero, is_negative}
use some_low_level_tasks.SortedList.Chain.{
  Elements, has, Distinct, sorted_insert, erase, find, Distinct-fresh,
}
use some_low_level_tasks.SortedList.Order.{strcmp_self}

-- 1 where the keys compare equal.
abbrev pub one : (m k : Key) → ℕ
one m k = if is_zero (strcmp k m) then 1 else 0

abbrev pub count : Key → Elements → ℕ
count m [] = 0
count m ((q, j) ∷ xs) = one m j + count m xs

-- Keys that compare equal compare with every other key alike.
pub strcmp_congr :
    (j k m : Key) → is_zero (strcmp j k) ≡ true → is_zero (strcmp j m) ≡ is_zero (strcmp k m)
unfolding strcmp
strcmp_congr [] [] m e = refl
strcmp_congr [] (y ∷ ys) [] e = ground arith
strcmp_congr [] (y ∷ ys) (z ∷ zs) e = ground arith
strcmp_congr (x ∷ xs) [] [] e = ground arith
strcmp_congr (x ∷ xs) [] (z ∷ zs) e = ground arith
strcmp_congr (x ∷ xs) (y ∷ ys) [] e = ground arith
strcmp_congr (x ∷ xs) (y ∷ ys) (z ∷ zs) e = ground (arith, strcmp_congr xs ys zs)

pub count-sorted_insert :
    (m : Key) (e : Ptr) (k : Key) (xs : Elements)
    → count m (sorted_insert e k xs) ≡ one m k + count m xs
unfolding sorted_insert
count-sorted_insert m e k [] = refl
count-sorted_insert m e k ((q, j) ∷ xs) = elim (Bool-cases (is_negative (strcmp j k))) [
  | inl more ↦ rw more (omega (arith, count-sorted_insert m e k xs))
  | inr less ↦ rw less refl
]

pub length-sorted_insert :
    (e : Ptr) (k : Key) (xs : Elements) → length (sorted_insert e k xs) ≡ length xs + 1
unfolding sorted_insert
length-sorted_insert e k [] = refl
length-sorted_insert e k ((q, j) ∷ xs) = ground (arith, length-sorted_insert e k xs)

pub length-erase : (e : Ptr) (xs : Elements) → length (erase e xs) ≤ length xs
unfolding erase
length-erase e [] = omega arith
length-erase e ((q, j) ∷ xs) = ground (arith, length-erase e xs)

pub find-has : (k : Key) (xs : Elements) → 0 < count k xs → has (find k xs) xs ≡ true
unfolding find
find-has k [] c = absurd (omega (arith, c))
find-has k ((q, j) ∷ xs) c = ground (arith, find-has k xs)

erase_first : (q : Ptr) (j : Key) (xs : Elements) → erase q ((q, j) ∷ xs) ≡ xs
unfolding erase
erase_first q j xs = let self : (q == q) ≡ true = ground arith in rw self refl

erase_later :
    (e q : Ptr) (j : Key) (xs : Elements)
    → (q == e) ≡ false
    → erase e ((q, j) ∷ xs) ≡ (q, j) ∷ erase e xs
unfolding erase
erase_later e q j xs h = rw h refl

find_first :
    (k : Key) (q : Ptr) (j : Key) (xs : Elements)
    → is_zero (strcmp j k) ≡ true
    → find k ((q, j) ∷ xs) ≡ q
unfolding find
find_first k q j xs h = rw h refl

find_later :
    (k : Key) (q : Ptr) (j : Key) (xs : Elements)
    → is_zero (strcmp j k) ≡ false
    → find k ((q, j) ∷ xs) ≡ find k xs
unfolding find
find_later k q j xs h = rw h refl

-- The element that is found goes, and no other: its key compares equal to the one looked up.
pub count-erase :
    (m k : Key) (p : Ptr) (xs : Elements)
    → Distinct p xs
    → 0 < count k xs
    → one m k + count m (erase (find k xs) xs) ≡ count m xs
count-erase m k p [] d c = absurd (omega (arith, c))
count-erase m k p ((q, j) ∷ xs) d c = elim (Bool-cases (is_zero (strcmp j k))) [
  | inl here ↦ rw (find_first k q j xs here, erase_first q j xs) (rw (strcmp_congr j k m here) refl)
  | inr later ↦
      let more : 0 < count k xs = ground arith in
      let other : (q == find k xs) ≡ false =
        ground (arith, find-has k xs more, Distinct-fresh q xs d.1) in
      rw (find_later k q j xs later, erase_later (find k xs) q j xs other)
        (omega (arith, count-erase m k q xs d.1 more))
]

pub count-none : (xs : Elements) → ((m : Key) → count m xs ≡ 0) → xs ≡ []
count-none [] h = refl
count-none ((q, j) ∷ xs) h = absurd (ground (arith, h j, strcmp_self j))
