-- ===== src/Dict.antt =====
-- Python's `dict` and `OrderedDict`: an association list in insertion order.
use backend_exercise.Prelude.{
  suc, ◌≤◌, ◌≡◌, refl, sym, subst, Option, none, some, List, [], ◌∷◌, arith, Eq, ◌==◌,
  if◌then◌else◌, length, All, Bool-cases, inl, inr,
}

abbrev pub Dict {ℓ κ} : Type ℓ → Type κ → Type (ℓ ⊔ κ)
Dict K V = List (K × V)

module _ {ℓ κ} {K : Type ℓ} {V : Type κ} ⦃e : Eq K⦄ where
  -- `d.get(k)`
  unfoldable pub get : K → Dict K V → Option V
  get k [] = none
  get k ((j, v) ∷ d) = if j == k then some v else get k d

  -- `d[k] = v`: in place for a key that is there, at the end otherwise
  unfoldable pub put : K → V → Dict K V → Dict K V
  put k v [] = (k, v) ∷ []
  put k v ((j, w) ∷ d) = if j == k then (j, v) ∷ d else (j, w) ∷ put k v d

  -- `del d[k]`
  unfoldable pub delete : K → Dict K V → Dict K V
  delete k [] = []
  delete k ((j, w) ∷ d) = let rest = delete k d in if j == k then rest else (j, w) ∷ rest

  -- Each key stands once. Every dictionary of the program has this shape.
  abbrev pub Distinct : Dict K V → Type (ℓ ⊔ κ)
  Distinct [] = Unit
  Distinct ((k, v) ∷ d) = (get k d ≡ none) × Distinct d

  pub get-put :
      (k j : K) (v : V) (d : Dict K V) → get j (put k v d) ≡ (if k == j then some v else get j d)
  unfolding get put
  get-put k j v [] = refl
  get-put k j v ((i, w) ∷ d) =
      ground (arith, e.beq_iff k j, e.beq_iff i k, e.beq_iff i j, get-put k j v d)

  pub get-delete :
      (k j : K) (d : Dict K V) → get j (delete k d) ≡ (if k == j then none else get j d)
  unfolding get delete
  get-delete k j [] = ground arith
  get-delete k j ((i, w) ∷ d) =
      ground (arith, e.beq_iff k j, e.beq_iff i k, e.beq_iff i j, get-delete k j d)

  pub length-put_new :
      (k : K) (v : V) (d : Dict K V) → get k d ≡ none → length (put k v d) ≡ suc (length d)
  unfolding get put
  length-put_new k v [] h = refl
  length-put_new k v ((i, w) ∷ d) h = ground (arith, length-put_new k v d)

  pub length-delete : (k : K) (d : Dict K V) → length (delete k d) ≤ length d
  unfolding delete
  length-delete k [] = omega arith
  length-delete k ((i, w) ∷ d) = ground (arith, length-delete k d)

  pub length-delete_found :
      (k : K) (v : V) (d : Dict K V) → get k d ≡ some v → suc (length (delete k d)) ≤ length d
  unfolding get delete
  length-delete_found k v [] h = cc
  length-delete_found k v ((i, w) ∷ d) h =
      ground (arith, length-delete k d, length-delete_found k v d)

  pub put-Distinct : (k : K) (v : V) (d : Dict K V) → Distinct d → Distinct (put k v d)
  unfolding put get
  put-Distinct k v [] h = (refl, tt)
  put-Distinct k v ((i, w) ∷ d) h =
      ground (arith, e.beq_iff i k, e.beq_iff k i, get-put k i v d, put-Distinct k v d h.1)

  pub delete-Distinct : (k : K) (d : Dict K V) → Distinct d → Distinct (delete k d)
  unfolding delete
  delete-Distinct k [] h = tt
  delete-Distinct k ((i, w) ∷ d) h =
      ground (arith, e.beq_iff i k, e.beq_iff k i, get-delete k i d, delete-Distinct k d h.1)

  -- What holds of all values holds of one that is found, and is kept by the operations.
  pub All-get {μ} :
      (P : V → Type μ) (k : K) (v : V) (d : Dict K V) → All (λ p. P p.1) d → get k d ≡ some v → P v
  unfolding get
  All-get P k v [] h g = absurd (ground arith)
  All-get P k v ((j, w) ∷ d) h g = elim (Bool-cases (j == k)) [
    | inl e ↦ ground arith
    | inr e ↦ All-get P k v d h.1 (ground arith)
  ]

  pub All-put {μ} :
      (P : V → Type μ) (k : K) (v : V) (d : Dict K V)
      → P v
      → All (λ p. P p.1) d
      → All (λ p. P p.1) (put k v d)
  unfolding put
  All-put P k v [] hv h = (hv, tt)
  All-put P k v ((j, w) ∷ d) hv h = ground (arith, All-put P k v d hv h.1)

  pub All-delete {μ} :
      (P : V → Type μ) (k : K) (d : Dict K V) → All (λ p. P p.1) d → All (λ p. P p.1) (delete k d)
  unfolding delete
  All-delete P k [] h = tt
  All-delete P k ((j, w) ∷ d) h = ground (arith, All-delete P k d h.1)

module _ {ℓ κ} {K : Type ℓ} {V : Type κ} where
  pub All-mono {μ ν} :
      (P : V → Type μ) (Q : V → Type ν) (d : Dict K V)
      → ((v : V) → P v → Q v)
      → All (λ p. P p.1) d
      → All (λ p. Q p.1) d
  All-mono P Q [] f h = tt
  All-mono P Q ((j, w) ∷ d) f h = (f w h.0, All-mono P Q d f h.1)

-- The same for predicates on whole entries.
module _ {ℓ κ μ} {K : Type ℓ} {V : Type κ} ⦃e : Eq K⦄ (P : K × V → Type μ) where
  pub All-put_entry : (k : K) (v : V) (d : Dict K V) → P (k, v) → All P d → All P (put k v d)
  unfolding put
  All-put_entry k v [] hv h = (hv, tt)
  All-put_entry k v ((j, w) ∷ d) hv h = elim (Bool-cases (j == k)) [
    | inl q ↦ rw q (subst (λ i. P (i, v)) (sym ((e.beq_iff j k).0 q)) hv, h.1)
    | inr q ↦ rw q (h.0, All-put_entry k v d hv h.1)
  ]

  pub All-get_entry : (k : K) (v : V) (d : Dict K V) → All P d → get k d ≡ some v → P (k, v)
  unfolding get
  All-get_entry k v [] h g = absurd (ground arith)
  All-get_entry k v ((j, w) ∷ d) h g = elim (Bool-cases (j == k)) [
    | inl q ↦
        let value : w ≡ v = ground arith in
        subst (λ i. P (i, v)) ((e.beq_iff j k).0 q) (subst (λ x. P (j, x)) value h.0)
    | inr q ↦ All-get_entry k v d h.1 (ground arith)
  ]

  pub All-delete_entry : (k : K) (d : Dict K V) → All P d → All P (delete k d)
  unfolding delete
  All-delete_entry k [] h = tt
  All-delete_entry k ((j, w) ∷ d) h = ground (arith, All-delete_entry k d h.1)
