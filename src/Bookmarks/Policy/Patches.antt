-- ===== src/Bookmarks/Policy/Patches.antt =====
-- When a PATCH changes something, and the time that it stamps.
use backend_exercise.Prelude.{
  ℕ, ◌+◌, ◌≤◌, ◌<◌, ◌≡◌, ◌⊎◌, refl, not, Bool, true, false, Option, none, some, List, [], ◌∷◌,
  String, string_eq, ◌==◌, ok, arith, ◌↔◌,
}
use backend_exercise.Clock.{DateTime, normalize_utc}
use backend_exercise.Bookmarks.Models.{BookmarkSnapshot}
use backend_exercise.Bookmarks.Policy.{
  BookmarkPatchValues, MaterialPatch, is_material, resolved, same_option, same_list, classify_patch,
  next_updated_at,
}

same_option_iff : (a b : Option String) → (same_option a b ≡ true) ↔ (a ≡ b)
same_option_iff none none = (λ h. refl, λ h. refl)
same_option_iff none (some t) = (λ h. absurd (ground arith), λ h. absurd (ground arith))
same_option_iff (some s) none = (λ h. absurd (ground arith), λ h. absurd (ground arith))
same_option_iff (some s) (some t) =
    (λ h. ground (arith, string_eq.beq_iff s t), λ h. ground (arith, string_eq.beq_iff s t))

same_list_iff : (l m : List String) → (same_list l m ≡ true) ↔ (l ≡ m)
same_list_iff [] [] = (λ h. refl, λ h. refl)
same_list_iff [] (y ∷ m) = (λ h. absurd (ground arith), λ h. absurd (ground arith))
same_list_iff (x ∷ l) [] = (λ h. absurd (ground arith), λ h. absurd (ground arith))
same_list_iff (x ∷ l) (y ∷ m) = (
  λ h. ground (arith, string_eq.beq_iff x y, same_list_iff l m),
  λ h. ground (arith, string_eq.beq_iff x y, same_list_iff l m),
)

-- The value that is asked of a field: the supplied one, or else the current one.
abbrev pub IsAsked {ℓ} : {A : Type ℓ} → Option A → (current value : A) → Type ℓ
IsAsked none current value = value ≡ current
IsAsked (some supplied) current value = value ≡ supplied

resolved-IsAsked {ℓ} :
    {A : Type ℓ} (given : Option A) (current : A) → IsAsked given current (resolved given current)
resolved-IsAsked none current = refl
resolved-IsAsked (some supplied) current = refl

-- What a PATCH asks for: the value of each field, whether it changes, and whether any does.
pub record Resolves (snapshot : BookmarkSnapshot) (patch : BookmarkPatchValues)
    (target : MaterialPatch) : Type 0 where
  pub url : IsAsked patch.url snapshot.url target.url
  pub title : IsAsked patch.title snapshot.title target.title
  pub description : IsAsked patch.description snapshot.description target.description
  pub tags : IsAsked patch.tags snapshot.tags target.tags
  pub same_url : (target.url_changed ≡ false) ↔ (snapshot.url ≡ target.url)
  pub same_title : (target.title_changed ≡ false) ↔ (snapshot.title ≡ target.title)
  pub same_description :
      (target.description_changed ≡ false) ↔ (snapshot.description ≡ target.description)
  pub same_tags : (target.tags_changed ≡ false) ↔ (snapshot.tags ≡ target.tags)
  pub immaterial : (is_material target ≡ false) ↔ (
      (snapshot.url ≡ target.url)
      × (snapshot.title ≡ target.title)
      × (snapshot.description ≡ target.description)
      × (snapshot.tags ≡ target.tags))

not-false : (b : Bool) → (not b ≡ false) ↔ (b ≡ true)
not-false true = (λ h. refl, λ h. refl)
not-false false = (λ h. ground arith, λ h. ground arith)

none_changed :
    (t : MaterialPatch)
    → (is_material t ≡ false) ↔ (
        (t.url_changed ≡ false)
        × (t.title_changed ≡ false)
        × (t.description_changed ≡ false)
        × (t.tags_changed ≡ false))
none_changed t = (λ h. (ground arith, ground arith, ground arith, ground arith), λ h. ground arith)

module _ (s : BookmarkSnapshot) (p : BookmarkPatchValues) where
  url_iff : ((classify_patch s p).url_changed ≡ false) ↔ (s.url ≡ resolved p.url s.url)
  unfolding classify_patch
  url_iff =
      let url = resolved p.url s.url in
      ground (arith, not-false (s.url == url), string_eq.beq_iff s.url url)

  title_iff : ((classify_patch s p).title_changed ≡ false) ↔ (s.title ≡ resolved p.title s.title)
  unfolding classify_patch
  title_iff =
      let title = resolved p.title s.title in
      ground (arith, not-false (s.title == title), string_eq.beq_iff s.title title)

  description_iff :
      ((classify_patch s p).description_changed ≡ false)
      ↔ (s.description ≡ resolved p.description s.description)
  unfolding classify_patch
  description_iff =
      let description = resolved p.description s.description in
      ground (
        arith,
        not-false (same_option s.description description),
        same_option_iff s.description description,
      )

  tags_iff : ((classify_patch s p).tags_changed ≡ false) ↔ (s.tags ≡ resolved p.tags s.tags)
  unfolding classify_patch
  tags_iff =
      let tags = resolved p.tags s.tags in
      ground (arith, not-false (same_list s.tags tags), same_list_iff s.tags tags)

-- A PATCH asks of each field the supplied value where one is supplied and the current one otherwise;
-- it reports a field as changed exactly if that value differs from the current one, and it is
-- material exactly unless all four fields are as they are.
pub classify_patch-Resolves :
    (s : BookmarkSnapshot) (p : BookmarkPatchValues) → Resolves s p (classify_patch s p)
unfolding classify_patch
classify_patch-Resolves s p =
    let none = none_changed (classify_patch s p) in
    record {
      url = resolved-IsAsked p.url s.url;
      title = resolved-IsAsked p.title s.title;
      description = resolved-IsAsked p.description s.description;
      tags = resolved-IsAsked p.tags s.tags;
      same_url = url_iff s p;
      same_title = title_iff s p;
      same_description = description_iff s p;
      same_tags = tags_iff s p;
      immaterial = (
        λ h.
            let (u, ti, d, ta) = none.0 h in
            (
              (url_iff s p).0 u,
              (title_iff s p).0 ti,
              (description_iff s p).0 d,
              (tags_iff s p).0 ta,
            ),
        λ (u, ti, d, ta). none.1 (
          (url_iff s p).1 u,
          (title_iff s p).1 ti,
          (description_iff s p).1 d,
          (tags_iff s p).1 ta,
        ),
      );
    }

-- The time of an update is later than the last one, and not earlier than the clock; it is the
-- clock's reading unless that has not advanced, and one microsecond after the last update then.
pub next_updated_at-eq-ok :
    (current observed : DateTime) (a b t : ℕ)
    → normalize_utc current ≡ ok a
    → normalize_utc observed ≡ ok b
    → next_updated_at current observed ≡ ok t
    → (a < t) × (b ≤ t) × (((a < b) × (t ≡ b)) ⊎ ((b ≤ a) × (t ≡ a + 1)))
unfolding next_updated_at
next_updated_at-eq-ok current observed a b t h k e = ground arith
