-- ===== src/SortedList/Order.antt =====
-- The order of the keys: `strcmp` of project 2b/SortedList.c as a comparison, and sorted lists.
use mathlib.Core.Path.{subst}
use some_low_level_tasks.Prelude.{
  suc, ◌≡◌, refl, ◌⊎◌, sym, true, false, inl, inr, [], ◌∷◌, arith, ◌==◌, length, Bool-cases,
}
use some_low_level_tasks.SortedList.Memory.{Ptr, Key, strcmp, is_negative, is_zero}
use some_low_level_tasks.SortedList.Chain.{Elements, sorted_insert, erase, find}

-- No key is smaller than the one before it.
abbrev pub IsSorted : Elements → Type 0
IsSorted [] = Unit {0}
IsSorted ((p, j) ∷ []) = Unit {0}
IsSorted ((p, j) ∷ (q, k) ∷ xs) = (is_negative (strcmp k j) ≡ false) × IsSorted ((q, k) ∷ xs)

pub strcmp_asym : (j k : Key) → is_negative (strcmp j k) ≡ true → is_negative (strcmp k j) ≡ false
unfolding strcmp
strcmp_asym [] [] h = refl
strcmp_asym [] (y ∷ ys) h = ground arith
strcmp_asym (x ∷ xs) [] h = ground arith
strcmp_asym (x ∷ xs) (y ∷ ys) h = ground (arith, strcmp_asym xs ys)

pub strcmp_self : (k : Key) → is_zero (strcmp k k) ≡ true
unfolding strcmp
strcmp_self [] = refl
strcmp_self (x ∷ xs) = ground (arith, strcmp_self xs)

-- An element in front of a sorted rest that no new smaller element enters.
IsSorted-insert_front :
    (p e : Ptr) (j k : Key) (xs : Elements)
    → is_negative (strcmp k j) ≡ false
    → IsSorted ((p, j) ∷ xs)
    → IsSorted (sorted_insert e k xs)
    → IsSorted ((p, j) ∷ sorted_insert e k xs)
unfolding sorted_insert
IsSorted-insert_front p e j k [] lt s t = (lt, tt)
IsSorted-insert_front p e j k ((q, i) ∷ xs) lt s t = elim (Bool-cases (is_negative (strcmp i k))) [
  | inl more ↦ rw more (s.0, rw more at t)
  | inr less ↦ rw less (lt, rw less at t)
]

-- `sorted_insert` keeps a sorted list sorted.
pub sorted_insert-IsSorted :
    (e : Ptr) (k : Key) (xs : Elements) → IsSorted xs → IsSorted (sorted_insert e k xs)
unfolding sorted_insert
sorted_insert-IsSorted e k [] s = tt
sorted_insert-IsSorted e k ((q, j) ∷ xs) s = elim (Bool-cases (is_negative (strcmp j k))) [
  | inl more ↦ rw more (
      IsSorted-insert_front q e j k xs (strcmp_asym j k more) s
        (sorted_insert-IsSorted e k xs (IsSorted-tail q j xs s)))
  | inr less ↦ rw less (less, s)
]
  where
    IsSorted-tail : (p : Ptr) (i : Key) (ys : Elements) → IsSorted ((p, i) ∷ ys) → IsSorted ys
    IsSorted-tail p i [] t = tt
    IsSorted-tail p i ((r, l) ∷ ys) t = t.1

-- `j ≤ k` and `k ≤ l` give `j ≤ l`.
strcmp_trans :
    (j k l : Key)
    → is_negative (strcmp k j) ≡ false
    → is_negative (strcmp l k) ≡ false
    → is_negative (strcmp l j) ≡ false
unfolding strcmp
strcmp_trans [] [] l h i = i
strcmp_trans [] (y ∷ ys) [] h i = refl
strcmp_trans [] (y ∷ ys) (z ∷ zs) h i = ground arith
strcmp_trans (x ∷ xs) [] [] h i = h
strcmp_trans (x ∷ xs) [] (z ∷ zs) h i = ground arith
strcmp_trans (x ∷ xs) (y ∷ ys) [] h i = ground arith
strcmp_trans (x ∷ xs) (y ∷ ys) (z ∷ zs) h i = ground (arith, strcmp_trans xs ys zs)

IsSorted-skip :
    (p q : Ptr) (j k : Key) (xs : Elements)
    → IsSorted ((p, j) ∷ (q, k) ∷ xs)
    → IsSorted ((p, j) ∷ xs)
IsSorted-skip p q j k [] s = tt
IsSorted-skip p q j k ((r, l) ∷ xs) s = (strcmp_trans j k l s.0 s.1.0, s.1.1)

-- Taking an element out keeps a sorted list sorted.
pub erase-IsSorted : (e : Ptr) (xs : Elements) → IsSorted xs → IsSorted (erase e xs)
unfolding erase
erase-IsSorted e [] s = tt
erase-IsSorted e ((p, j) ∷ []) s = elim (Bool-cases (p == e)) [
  | inl here ↦ rw here tt
  | inr later ↦ rw later tt
]
erase-IsSorted e ((p, j) ∷ (q, k) ∷ xs) s = elim (Bool-cases (p == e)) [
  | inl here ↦ rw here s.1
  | inr later ↦ rw later (elim (Bool-cases (q == e)) [
    | inl next ↦ rw next (IsSorted-skip p q j k xs s)
    | inr far ↦ rw far (s.0, rw far at (erase-IsSorted e ((q, k) ∷ xs) s.1))
  ])
]

-- The key of an element that stands in the list.
abbrev pub HasKey : Ptr → Key → Elements → Type 0
HasKey e k [] = ⊥
HasKey e k ((q, j) ∷ xs) = ((e ≡ q) × (k ≡ j)) ⊎ HasKey e k xs

-- What `find` gives: an element of the list with a key that compares equal.
abbrev pub Found : Key → Ptr → Elements → Type 0
Found k e xs = (j : Key) × HasKey e j xs × (is_zero (strcmp j k) ≡ true)

Found-later :
    (k : Key) (e q : Ptr) (i : Key) (xs : Elements) → Found k e xs → Found k e ((q, i) ∷ xs)
Found-later k e q i xs (j, has_j, same) = (j, inr has_j, same)

-- If any element has the key, `find` gives one that has an equal one.
pub find-HasKey : (e : Ptr) (k : Key) (xs : Elements) → HasKey e k xs → Found k (find k xs) xs
unfolding find
find-HasKey e k [] m = absurd m
find-HasKey e k ((q, j) ∷ xs) (inl (a, b)) =
    rw (← b, strcmp_self k) (k, inl (refl, refl), strcmp_self k)
find-HasKey e k ((q, j) ∷ xs) (inr n) = elim (Bool-cases (is_zero (strcmp j k))) [
  | inl same ↦ rw same (j, inl (refl, refl), same)
  | inr other ↦
      let passes : find k ((q, j) ∷ xs) ≡ find k xs = rw other in
      subst (λ f. Found k f ((q, j) ∷ xs)) (sym passes)
        (Found-later k (find k xs) q j xs (find-HasKey e k xs n))
]

length-sorted_insert :
    (e : Ptr) (k : Key) (xs : Elements) → length (sorted_insert e k xs) ≡ suc (length xs)
unfolding sorted_insert
length-sorted_insert e k [] = refl
length-sorted_insert e k ((q, j) ∷ xs) = ground (arith, length-sorted_insert e k xs)
