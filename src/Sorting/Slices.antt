-- ===== src/Sorting/Slices.antt =====
-- Slices of lists, as pages take them.
use backend_exercise.Prelude.{
  ℕ, zero, suc, ◌+◌, ◌≤◌, ◌<◌, ◌≡◌, refl, ap, subst, Bool, true, Bool-cases, inl, inr, Option, none,
  some, List, [], ◌∷◌, ◌++◌, map, arith, All, keep, take, length, length-take, ltb,
}
use backend_exercise.Sorting.{Sorted, All-keep, insert_by, order_by}
use backend_exercise.Sorting.Keyset.{last_of}

module _ {ℓ} {A : Type ℓ} where
  pub keep-keep :
      (p q : A → Bool) (l : List A)
      → ((a : A) → p a ≡ true → q a ≡ true)
      → keep p (keep q l) ≡ keep p l
  keep-keep p q [] h = refl
  keep-keep p q (a ∷ l) h = ground (arith, h a, keep-keep p q l h)

  pub keep-true : (l : List A) → keep (λ a. true) l ≡ l
  keep-true [] = refl
  keep-true (a ∷ l) = ap (◌∷◌ a) (keep-true l)

  pub All-test : (p : A → Bool) (l : List A) → All (λ a. p a ≡ true) (keep p l)
  All-test p [] = tt
  All-test p (a ∷ l) = ground (arith, All-test p l)

  take-take-suc : (n : ℕ) (l : List A) → take n (take (suc n) l) ≡ take n l
  take-take-suc zero l = refl
  take-take-suc (suc n) [] = refl
  take-take-suc (suc n) (a ∷ l) = ap (◌∷◌ a) (take-take-suc n l)

  pub take-take : (n : ℕ) (l : List A) → take n (take (n + 1) l) ≡ take n l
  take-take n l =
      let same : suc n ≡ n + 1 = omega arith in
      subst (λ (m : ℕ). take n (take m l) ≡ take n l) same (take-take-suc n l)

  pub more_iff : (n : ℕ) (l : List A) → ltb n (length (take (n + 1) l)) ≡ ltb n (length l)
  more_iff n l = ground (arith, length-take (n + 1) l)

  pub take_all : (n : ℕ) (l : List A) → length l ≤ n → take n l ≡ l
  take_all zero [] h = refl
  take_all zero (a ∷ l) h = absurd (omega arith)
  take_all (suc n) [] h = refl
  take_all (suc n) (a ∷ l) h = ap (◌∷◌ a) (take_all n l (omega arith))

  last_known : (n : ℕ) (l : List A) → n < length l → (r : A) × (last_of (take (suc n) l) ≡ some r)
  last_known n [] h = absurd (omega arith)
  last_known zero (a ∷ l) h = (a, refl)
  last_known (suc n) (a ∷ []) h = absurd (omega arith)
  last_known (suc n) (a ∷ b ∷ l) h = last_known n (b ∷ l) (omega arith)

  pub last_of-take :
      (n : ℕ) (l : List A) → 1 ≤ n → n ≤ length l → (r : A) × (last_of (take n l) ≡ some r)
  last_of-take zero l p h = absurd (omega arith)
  last_of-take (suc n) l p h = last_known n l (omega arith)

  pub Sorted-keep :
      (le : A → A → Bool) (p : A → Bool) (l : List A) → Sorted le l → Sorted le (keep p l)
  Sorted-keep le p [] s = tt
  Sorted-keep le p (a ∷ l) s =
      ground (arith, All-keep (λ b. le a b ≡ true) p l s.0, Sorted-keep le p l s.1)

module _ {ℓ κ} {A : Type ℓ} {B : Type κ} (f : A → B) where
  abbrev mapped : Option A → Option B
  mapped none = none
  mapped (some a) = some (f a)

  pub last_of-map : (l : List A) (r : A) → last_of l ≡ some r → last_of (map f l) ≡ some (f r)
  last_of-map [] r h = absurd (ground arith)
  last_of-map (a ∷ []) r h = ap (λ (o : Option A). mapped o) h
  last_of-map (a ∷ b ∷ l) r h = last_of-map (b ∷ l) r h

  pub take-map : (n : ℕ) (l : List A) → take n (map f l) ≡ map f (take n l)
  take-map zero l = refl
  take-map (suc n) [] = refl
  take-map (suc n) (a ∷ l) = ap (◌∷◌ (f a)) (take-map n l)

  pub length-map : (l : List A) → length (map f l) ≡ length l
  length-map [] = refl
  length-map (a ∷ l) = ap suc (length-map l)

module _ {ℓ κ} {A : Type ℓ} (P : A → Type κ) where
  pub All-append : (l m : List A) → All P l → All P m → All P (l ++ m)
  All-append [] m h k = k
  All-append (a ∷ l) m h k = (h.0, All-append l m h.1 k)

  pub All-keep_inv : (p : A → Bool) (l : List A) → All P (keep p l) → All (λ a. p a ≡ true → P a) l
  All-keep_inv p [] h = tt
  All-keep_inv p (a ∷ l) h = elim (Bool-cases (p a)) [
    | inl e ↦
        let both : P a × All P (keep p l) = rw e at h in (λ q. both.0, All-keep_inv p l both.1)
    | inr e ↦ (λ q. absurd (ground arith), All-keep_inv p l (rw e at h))
  ]

  All-insert_by_inv :
      (le : A → A → Bool) (a : A) (l : List A) → All P (insert_by le a l) → P a × All P l
  unfolding insert_by
  All-insert_by_inv le a [] h = h
  All-insert_by_inv le a (b ∷ l) h = elim (Bool-cases (le a b)) [
    | inl e ↦ rw e at h
    | inr e ↦
        let both : P b × All P (insert_by le a l) = rw e at h in
        let rest = All-insert_by_inv le a l both.1 in (rest.0, (both.0, rest.1))
  ]

  pub All-order_by_inv : (le : A → A → Bool) (l : List A) → All P (order_by le l) → All P l
  unfolding order_by
  All-order_by_inv le [] h = tt
  All-order_by_inv le (a ∷ l) h =
      let both = All-insert_by_inv le a (order_by le l) h in (both.0, All-order_by_inv le l both.1)

  pub All-take : (n : ℕ) (l : List A) → All P l → All P (take n l)
  All-take zero l h = tt
  All-take (suc n) [] h = tt
  All-take (suc n) (a ∷ l) h = (h.0, All-take n l h.1)
