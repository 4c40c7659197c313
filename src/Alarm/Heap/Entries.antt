-- ===== src/Alarm/Heap/Entries.antt =====
-- The entries of the vector after a write, an append and a pop_back, and its keys.
use packages_modules_stats_d.Common.{
  ℕ, zero, suc, ◌-◌, ◌≤◌, ◌≡◌, refl, Option, none, some, List, [], ◌∷◌, ◌++◌, ltb, ◌==◌,
  if◌then◌else◌, length, length-set, arith,
}
use packages_modules_stats_d.Alarm.Heap.{entry, set_entry, pop_back, higher}

module _ {A : Type 0} where
  pub entry-set_entry :
      (l : List A) (i j : ℕ) (a : A)
      → 1 ≤ i
      → i ≤ length l
      → entry (set_entry l i a) j ≡ (if i == j then some a else entry l j)
  entry-set_entry l zero j a p q = absurd (omega arith)
  entry-set_entry [] (suc i) j a p q = absurd (omega arith)
  entry-set_entry (x ∷ l) (suc i) zero a p q = ground arith
  entry-set_entry (x ∷ l) (suc zero) (suc zero) a p q = refl
  entry-set_entry (x ∷ l) (suc zero) (suc (suc j)) a p q = ground arith
  entry-set_entry (x ∷ l) (suc (suc i)) (suc zero) a p q = ground arith
  entry-set_entry (x ∷ l) (suc (suc i)) (suc (suc j)) a p q =
      ground (arith, entry-set_entry l (suc i) (suc j) a (omega arith) (omega arith))

  pub length-set_entry : (l : List A) (i : ℕ) (a : A) → length (set_entry l i a) ≡ length l
  length-set_entry l zero a = refl
  length-set_entry l (suc i) a = length-set l i a

  pub entry-append :
      (l : List A) (a : A) (j : ℕ)
      → entry (l ++ (a ∷ [])) j ≡ (if suc (length l) == j then some a else entry l j)
  entry-append l a zero = ground arith
  entry-append [] a (suc zero) = refl
  entry-append [] a (suc (suc j)) = ground arith
  entry-append (x ∷ l) a (suc zero) = ground arith
  entry-append (x ∷ l) a (suc (suc j)) = ground (arith, entry-append l a (suc j))

  pub entry-pop_back :
      (l : List A) (j : ℕ) → entry (pop_back l) j ≡ (if length l == j then none else entry l j)
  entry-pop_back l zero = ground arith
  entry-pop_back [] (suc j) = ground arith
  entry-pop_back (x ∷ []) (suc zero) = refl
  entry-pop_back (x ∷ []) (suc (suc j)) = ground arith
  entry-pop_back (x ∷ y ∷ l) (suc zero) = ground arith
  entry-pop_back (x ∷ y ∷ l) (suc (suc j)) = ground (arith, entry-pop_back (y ∷ l) (suc j))

  pub length-pop_back : (l : List A) → length (pop_back l) ≡ length l - 1
  length-pop_back [] = refl
  length-pop_back (x ∷ []) = refl
  length-pop_back (x ∷ y ∷ l) = omega (arith, length-pop_back (y ∷ l))

  -- There is an entry exactly at 1 to the length.
  pub entry_inside : (l : List A) (i : ℕ) → 1 ≤ i → i ≤ length l → (a : A) × (entry l i ≡ some a)
  entry_inside l zero p q = absurd (omega arith)
  entry_inside [] (suc i) p q = absurd (omega arith)
  entry_inside (x ∷ l) (suc zero) p q = (x, refl)
  entry_inside (x ∷ l) (suc (suc i)) p q = entry_inside l (suc i) (omega arith) (omega arith)

  pub inside_of_entry : (l : List A) (i : ℕ) (a : A) → entry l i ≡ some a → (1 ≤ i) × (i ≤ length l)
  inside_of_entry l zero a e = ground arith
  inside_of_entry [] (suc i) a e = ground arith
  inside_of_entry (x ∷ l) (suc zero) a e = ground arith
  inside_of_entry (x ∷ l) (suc (suc i)) a e = ground (arith, inside_of_entry l (suc i) a e)

module _ {A : Type 0} (timestamp_sec : A → ℕ) where
  unfoldable pub key_of : Option A → ℕ
  key_of none = 0
  key_of (some a) = timestamp_sec a

  -- The timestamp at an index, 0 out of range.
  abbrev pub key : List A → ℕ → ℕ
  key l i = key_of (entry l i)

  -- In range, `higher` compares the keys.
  pub higher_lem :
      (l : List A) (i j : ℕ)
      → 1 ≤ i
      → i ≤ length l
      → 1 ≤ j
      → j ≤ length l
      → higher timestamp_sec l i j ≡ ltb (key l i) (key l j)
  unfolding higher key_of
  higher_lem l i j p q r s =
      let (a, e) = entry_inside l i p q in let (b, f) = entry_inside l j r s in rw (higher, e, f)
