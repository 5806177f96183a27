-- ===== src/Sorting.antt =====
-- ORDER BY of the SQL statements and `sorted`: insertion sort, which is stable as they are here
-- (each statement orders by a key that ends in an identifier).
pub mod Keyset
pub mod Slices
use backend_exercise.Prelude.{
  ◌+◌, ◌≡◌, refl, sym, ◌∙◌, ap, Bool, true, false, inl, inr, Bool-cases, List, [], ◌∷◌, arith, All,
  keep, length, if◌then◌else◌,
}

unfoldable pub insert_by {ℓ} : {A : Type ℓ} → (A → A → Bool) → A → List A → List A
insert_by le a [] = a ∷ []
insert_by le a (b ∷ l) = let rest = insert_by le a l in if le a b then a ∷ b ∷ l else b ∷ rest

unfoldable pub order_by {ℓ} : {A : Type ℓ} → (A → A → Bool) → List A → List A
unfolding insert_by
order_by le [] = []
order_by le (a ∷ l) = insert_by le a (order_by le l)

abbrev pub Sorted {ℓ} : {A : Type ℓ} → (A → A → Bool) → List A → Type ℓ
Sorted le [] = Unit
Sorted le (a ∷ l) = All (λ b. le a b ≡ true) l × Sorted le l

-- What an order must satisfy for its lists to be sorted.
pub record IsOrder {ℓ} {A : Type ℓ} (le : A → A → Bool) : Type ℓ where
  pub total : (a b : A) → le a b ≡ false → le b a ≡ true
  pub trans : (a b c : A) → le a b ≡ true → le b c ≡ true → le a c ≡ true

module _ {ℓ κ} {A : Type ℓ} (P : A → Type κ) where
  pub All-insert_by :
      (le : A → A → Bool) (a : A) (l : List A) → P a → All P l → All P (insert_by le a l)
  unfolding insert_by
  All-insert_by le a [] p h = (p, tt)
  All-insert_by le a (b ∷ l) p h = ground (arith, All-insert_by le a l p h.1)

  pub All-order_by : (le : A → A → Bool) (l : List A) → All P l → All P (order_by le l)
  unfolding order_by
  All-order_by le [] h = tt
  All-order_by le (a ∷ l) h = All-insert_by le a (order_by le l) h.0 (All-order_by le l h.1)

  pub All-keep : (p : A → Bool) (l : List A) → All P l → All P (keep p l)
  All-keep p [] h = tt
  All-keep p (a ∷ l) h = ground (arith, All-keep p l h.1)

module _ {ℓ} {A : Type ℓ} (le : A → A → Bool) where
  insert_least : (a : A) (l : List A) → All (λ b. le a b ≡ true) l → insert_by le a l ≡ a ∷ l
  unfolding insert_by
  insert_least a [] h = refl
  insert_least a (b ∷ l) h = rw h.0 refl

  pub order_by-same : (l : List A) → Sorted le l → order_by le l ≡ l
  unfolding order_by
  order_by-same [] s = refl
  order_by-same (a ∷ l) s = ap (insert_by le a) (order_by-same l s.1) ∙ insert_least a l s.0

module _ {ℓ} {A : Type ℓ} (le : A → A → Bool) (o : IsOrder le) where
  All-trans :
      (a b : A) (l : List A)
      → le a b ≡ true
      → All (λ c. le b c ≡ true) l
      → All (λ c. le a c ≡ true) l
  All-trans a b [] h r = tt
  All-trans a b (c ∷ l) h r = (o.trans a b c h r.0, All-trans a b l h r.1)

  insert_by-Sorted : (a : A) (l : List A) → Sorted le l → Sorted le (insert_by le a l)
  unfolding insert_by
  insert_by-Sorted a [] s = (tt, tt)
  insert_by-Sorted a (b ∷ l) s = elim (Bool-cases (le a b)) [
    | inl h ↦ rw h ((h, All-trans a b l h s.0), s)
    | inr h ↦
        rw h
          (All-insert_by (λ c. le b c ≡ true) le a l (o.total a b h) s.0, insert_by-Sorted a l s.1)
  ]

  pub order_by-Sorted : (l : List A) → Sorted le (order_by le l)
  unfolding order_by
  order_by-Sorted [] = tt
  order_by-Sorted (a ∷ l) = insert_by-Sorted a (order_by le l) (order_by-Sorted l)

  keep-insert_kept :
      (p : A → Bool) (a : A) (l : List A)
      → p a ≡ true
      → Sorted le l
      → keep p (insert_by le a l) ≡ insert_by le a (keep p l)
  unfolding insert_by
  keep-insert_kept p a [] h s = rw h refl
  keep-insert_kept p a (b ∷ l) h s = elim (Bool-cases (le a b)) [
    | inl q ↦
        let least =
          insert_least le a (keep p (b ∷ l))
            (All-keep (λ c. le a c ≡ true) p (b ∷ l) (q, All-trans a b l q s.0)) in
        rw q (rw h (sym least))
    | inr q ↦ ground (arith, keep-insert_kept p a l h s.1)
  ]

  keep-insert_left :
      (p : A → Bool) (a : A) (l : List A) → p a ≡ false → keep p (insert_by le a l) ≡ keep p l
  unfolding insert_by
  keep-insert_left p a [] h = rw h refl
  keep-insert_left p a (b ∷ l) h = ground (arith, keep-insert_left p a l h)

  -- Selecting rows before or after they are ordered is the same.
  pub keep-order_by : (p : A → Bool) (l : List A) → keep p (order_by le l) ≡ order_by le (keep p l)
  unfolding order_by
  keep-order_by p [] = refl
  keep-order_by p (a ∷ l) = elim (Bool-cases (p a)) [
    | inl h ↦ rw h (
        keep-insert_kept p a (order_by le l) h (order_by-Sorted l)
        ∙ ap (insert_by le a) (keep-order_by p l))
    | inr h ↦ rw h (keep-insert_left p a (order_by le l) h ∙ keep-order_by p l)
  ]

module _ {ℓ} {A : Type ℓ} (le : A → A → Bool) where
  length-insert_by : (a : A) (l : List A) → length (insert_by le a l) ≡ 1 + length l
  unfolding insert_by
  length-insert_by a [] = refl
  length-insert_by a (b ∷ l) = ground (arith, length-insert_by a l)

  pub length-order_by : (l : List A) → length (order_by le l) ≡ length l
  unfolding order_by
  length-order_by [] = refl
  length-order_by (a ∷ l) = omega (arith, length-insert_by a (order_by le l), length-order_by l)
