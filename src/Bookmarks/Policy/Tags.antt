-- ===== src/Bookmarks/Policy/Tags.antt =====
-- The canonical membership of tags.
use backend_exercise.Prelude.{
  ℕ, ◌≤◌, ◌≡◌, refl, subst, ◌∙◌, ◌||◌, not, Bool, true, false, Bool-cases, inl, inr, List, [], ◌∷◌,
  String, string_eq, ◌==◌, ok, arith, All, length, eqb, require, >>=-eq-ok, >>-eq-ok, ok-inj, ◌>>◌,
  value_error,
}
use Prim.Native.String.{count}
use backend_exercise.Sorting.{insert_by, order_by, All-order_by}
use backend_exercise.Bookmarks.Models.{TextLibrary}
use backend_exercise.Bookmarks.Policy.{
  string_leb, normalize_tag_name, normalized_names, member, dedup, normalize_tag_membership,
}

-- Each name stands once.
abbrev pub Once : List String → Type 0
Once [] = Unit
Once (x ∷ l) = (member x l ≡ false) × Once l

module _ (le : String → String → Bool) where
  member-insert_by :
      (x a : String) (l : List String) → member x (insert_by le a l) ≡ (a == x || member x l)
  unfolding member insert_by
  member-insert_by x a [] = refl
  member-insert_by x a (b ∷ l) = ground (arith, member-insert_by x a l)

  member-order_by : (x : String) (l : List String) → member x (order_by le l) ≡ member x l
  unfolding member order_by
  member-order_by x [] = refl
  member-order_by x (a ∷ l) = member-insert_by x a (order_by le l) ∙ rw (member-order_by x l) refl

  insert_by-Once :
      (a : String) (l : List String) → member a l ≡ false → Once l → Once (insert_by le a l)
  unfolding member insert_by
  insert_by-Once a [] m o = (refl, tt)
  insert_by-Once a (b ∷ l) m o = ground (
    arith,
    member-insert_by b a l,
    string_eq.beq_iff a b,
    string_eq.beq_iff b a,
    insert_by-Once a l,
  )

  order_by-Once : (l : List String) → Once l → Once (order_by le l)
  unfolding order_by
  order_by-Once [] o = tt
  order_by-Once (a ∷ l) o =
      insert_by-Once a (order_by le l) (member-order_by a l ∙ o.0) (order_by-Once l o.1)

member-dedup : (x : String) (l : List String) → member x (dedup l) ≡ member x l
unfolding member dedup
member-dedup x [] = refl
member-dedup x (a ∷ l) = elim (Bool-cases (member a (dedup l))) [
  | inl m ↦ elim (Bool-cases (a == x)) [
    | inl e ↦ rw m (rw e (subst (λ y. member y (dedup l) ≡ true) ((string_eq.beq_iff a x).0 e) m))
    | inr e ↦ rw m (rw e (member-dedup x l))
  ]
  | inr m ↦ rw m (rw (member-dedup x l) refl)
]

dedup-Once : (l : List String) → Once (dedup l)
unfolding dedup
dedup-Once [] = tt
dedup-Once (a ∷ l) = elim (Bool-cases (member a (dedup l))) [
  | inl m ↦ rw m (dedup-Once l)
  | inr m ↦ rw m (m, dedup-Once l)
]

All-dedup : (P : String → Type 0) (l : List String) → All P l → All P (dedup l)
unfolding dedup
All-dedup P [] h = tt
All-dedup P (a ∷ l) h = ground (arith, All-dedup P l h.1)

abbrev pub IsTagName : String → Type 0
IsTagName name = (1 ≤ count name) × (count name ≤ 50)

normalize_tag_name-IsTagName :
    (text : TextLibrary) (value name : String)
    → normalize_tag_name text value ≡ ok name
    → IsTagName name
unfolding normalize_tag_name
normalize_tag_name-IsTagName text value name h = ground arith

normalized_names-IsTagName :
    (text : TextLibrary) (values names : List String)
    → normalized_names text values ≡ ok names
    → All IsTagName names
unfolding normalized_names
normalized_names-IsTagName text [] names h = subst (All IsTagName) (ok-inj [] names h) tt
normalized_names-IsTagName text (v ∷ values) names h =
    let (name, n, h1) = >>=-eq-ok (normalize_tag_name text v) _ h in
    let (rest, r, h2) = >>=-eq-ok (normalized_names text values) _ h1 in
    subst (All IsTagName) (ok-inj (name ∷ rest) names h2)
      (normalize_tag_name-IsTagName text v name n, normalized_names-IsTagName text values rest r)

not_empty :
    (n : ℕ) (a b : List String) → (require (not (eqb n 0)) value_error >> ok a) ≡ ok b → 1 ≤ n
not_empty n a b h = ground arith

pub record Canonical (text : TextLibrary) (values l : List String) : Type 0 where
  pub names : List String
  pub normal_forms : normalized_names text values ≡ ok names
  pub members : (x : String) → member x l ≡ member x names
  pub once : Once l
  pub some_tag : 1 ≤ length l
  pub valid : All IsTagName l

-- Where `normalize_tag_membership` returns, its result has exactly the normal forms of the names that
-- it is given, each once, at least one of them, and each of 1 to 50 characters.
pub normalize_tag_membership-Canonical :
    (text : TextLibrary) (values l : List String)
    → normalize_tag_membership text values ≡ ok l
    → Canonical text values l
unfolding normalize_tag_membership
normalize_tag_membership-Canonical text values l h =
    let (names, n, h1) = >>=-eq-ok (normalized_names text values) _ h in
    let same : order_by string_leb (dedup names) ≡ l =
      ok-inj _ l (>>-eq-ok (require _ value_error) _ h1) in
    record {
      names = names;
      normal_forms = n;
      members =
          λ x. rw (← same) (member-order_by string_leb x (dedup names) ∙ member-dedup x names);
      once = rw (← same) (order_by-Once string_leb (dedup names) (dedup-Once names));
      some_tag = subst (λ (m : List String). 1 ≤ length m) same (not_empty _ _ l h1);
      valid = rw (← same) (
          All-order_by IsTagName string_leb (dedup names)
            (All-dedup IsTagName names (normalized_names-IsTagName text values names n)));
    }
