-- ===== src/Sorting/Keyset.antt =====
-- Keyset pagination in general: a page and the rows after its last one.
use backend_exercise.Prelude.{
  ℕ, zero, suc, ◌≡◌, refl, ap, subst, ◌&&◌, Bool, true, false, Option, none, some, List, [], ◌∷◌,
  arith, All, keep, take, drop,
}
use backend_exercise.Sorting.{Sorted}

module _ {ℓ} {A : Type ℓ} where
  pub keep-&& : (p q : A → Bool) (l : List A) → keep (λ a. p a && q a) l ≡ keep q (keep p l)
  keep-&& p q [] = refl
  keep-&& p q (a ∷ l) = ground (arith, keep-&& p q l)

  keep-All : (p : A → Bool) (l : List A) → All (λ a. p a ≡ true) l → keep p l ≡ l
  keep-All p [] h = refl
  keep-All p (a ∷ l) h = ground (arith, keep-All p l h.1)

  -- `snapshots[-1]`
  abbrev pub last_of : List A → Option A
  last_of [] = none
  last_of (a ∷ []) = some a
  last_of (a ∷ b ∷ l) = last_of (b ∷ l)

  abbrev last_known : Option A → A → A
  last_known none a = a
  last_known (some b) a = b

  some-inj : (a b : A) → ◌≡◌ {A = Option A} (some a) (some b) → a ≡ b
  some-inj a b h = ap (λ (o : Option A). last_known o a) h

  pub last-All {κ} :
      (P : A → Type κ) (n : ℕ) (l : List A) (r : A) → All P l → last_of (take n l) ≡ some r → P r
  last-All P zero l r h e = absurd (ground arith)
  last-All P (suc n) [] r h e = absurd (ground arith)
  last-All P (suc zero) (a ∷ l) r h e = subst P (some-inj a r e) h.0
  last-All P (suc (suc n)) (a ∷ []) r h e = subst P (some-inj a r e) h.0
  last-All P (suc (suc n)) (a ∷ b ∷ l) r h e = last-All P (suc n) (b ∷ l) r h.1 e

-- What a comparison must satisfy to tell the rows after a row.
pub record IsStrict {ℓ} {A : Type ℓ} (before : A → A → Bool) : Type ℓ where
  pub irrefl : (a : A) → before a a ≡ false
  pub asym : (a b : A) → before a b ≡ true → before b a ≡ false

module _ {ℓ} {A : Type ℓ} (before : A → A → Bool) (s : IsStrict before) where
  after_first : (a : A) (l : List A) → All (λ b. before a b ≡ true) l → keep (before a) (a ∷ l) ≡ l
  after_first a l h = rw (s.irrefl a) (keep-All (before a) l h)

  -- After the last row of a page come exactly the rows that the page left.
  pub keep-after_last :
      (n : ℕ) (l : List A) (r : A)
      → Sorted before l
      → last_of (take (suc n) l) ≡ some r
      → keep (before r) l ≡ drop (suc n) l
  keep-after_last n [] r d h = absurd (ground arith)
  keep-after_last zero (a ∷ l) r d h =
      subst (λ b. keep (before b) (a ∷ l) ≡ l) (some-inj a r h) (after_first a l d.0)
  keep-after_last (suc n) (a ∷ []) r d h =
      subst (λ b. keep (before b) (a ∷ []) ≡ []) (some-inj a r h) (after_first a [] tt)
  keep-after_last (suc n) (a ∷ b ∷ l) r d h =
      let found : before a r ≡ true = last-All (λ c. before a c ≡ true) (suc n) (b ∷ l) r d.0 h in
      rw (s.asym a r found) (keep-after_last n (b ∷ l) r d.1 h)
