-- ===== src/Bookmarks/Policy.antt =====
-- app/bookmarks/policy.py. A URL is its canonical string.
pub mod Patches
pub mod Tags
use backend_exercise.Prelude.{
  ℕ, ◌+◌, ◌*◌, ◌&&◌, ◌||◌, not, max, Bool, true, false, Option, none, some, List, [], ◌∷◌, String,
  string_eq, Eq, ◌==◌, Result, ok, raise, value_error, overflow_error, eqb, leb, ltb, length,
  require, if◌then◌else◌, ◌>>=◌, ◌>>◌, map,
}
use Prim.Native.String.{count, compare}
use text.Mathlib.Text.{is_le}
use backend_exercise.Clock.{DateTime, normalize_utc, day, end_of_time}
use backend_exercise.Weekly.{plus}
use backend_exercise.Sorting.{order_by}
use backend_exercise.Bookmarks.Models.{TextLibrary, BookmarkSnapshot}

-- Python's and SQLite's order of strings: by code points.
abbrev pub string_leb : String → String → Bool
string_leb s t = is_le (compare s t)

-- `normalize_tag_name`
unfoldable pub normalize_tag_name : TextLibrary → String → Result String
normalize_tag_name text value = do
  let normalized = text.lower (text.strip value)
  require (not (eqb (count normalized) 0)) value_error
  require (leb (count normalized) 50) value_error
  ok normalized

abbrev pub consed {ℓ} : {A : Type ℓ} → Result A → Result (List A) → Result (List A)
consed first rest = do a ← first; l ← rest; ok (a ∷ l)

unfoldable pub normalized_names : TextLibrary → List String → Result (List String)
unfolding normalize_tag_name
normalized_names text [] = ok []
normalized_names text (value ∷ values) =
    consed (normalize_tag_name text value) (normalized_names text values)

-- A set comprehension keeps one of each value.
unfoldable pub member : String → List String → Bool
member x [] = false
member x (y ∷ l) = y == x || member x l

unfoldable pub dedup : List String → List String
unfolding member
dedup [] = []
dedup (x ∷ l) = let rest = dedup l in if member x rest then rest else x ∷ rest

-- `normalize_tag_membership`
unfoldable pub normalize_tag_membership : TextLibrary → List String → Result (List String)
unfolding normalized_names dedup order_by
normalize_tag_membership text values = do
  names ← normalized_names text values
  let normalized = order_by string_leb (dedup names)
  require (not (eqb (length normalized) 0)) value_error
  ok normalized

-- `utc_midnight_lower_bound` and `utc_midnight_upper_bound`; `date.max` is the calendar's last day.
abbrev date_max : ℕ
date_max = 3_652_058

abbrev pub utc_midnight_lower_bound : ℕ → ℕ
utc_midnight_lower_bound value = value * day

unfoldable pub utc_midnight_upper_bound : ℕ → Option ℕ
utc_midnight_upper_bound value =
    if eqb value date_max then none else some (utc_midnight_lower_bound (value + 1))

-- The fields of a PATCH: `none` is a field that is not in `model_fields_set`.
pub record BookmarkPatchValues : Type 0 where
  pub url : Option String
  pub title : Option String
  pub description : Option (Option String)
  pub tags : Option (List String)

pub record MaterialPatch : Type 0 where
  pub url : String
  pub title : String
  pub description : Option String
  pub tags : List String
  pub url_changed : Bool
  pub title_changed : Bool
  pub description_changed : Bool
  pub tags_changed : Bool

-- `MaterialPatch.is_material`
abbrev pub is_material : MaterialPatch → Bool
is_material p = p.url_changed || (p.title_changed || (p.description_changed || p.tags_changed))

abbrev pub resolved {ℓ} : {A : Type ℓ} → Option A → A → A
resolved none current = current
resolved (some given) current = given

abbrev pub same_option : Option String → Option String → Bool
same_option none none = true
same_option none (some t) = false
same_option (some s) none = false
same_option (some s) (some t) = s == t

abbrev pub same_list : List String → List String → Bool
same_list [] [] = true
same_list [] (y ∷ m) = false
same_list (x ∷ l) [] = false
same_list (x ∷ l) (y ∷ m) = x == y && same_list l m

-- `classify_patch`
unfoldable pub classify_patch : BookmarkSnapshot → BookmarkPatchValues → MaterialPatch
classify_patch snapshot patch =
    let url = resolved patch.url snapshot.url in
    let title = resolved patch.title snapshot.title in
    let description = resolved patch.description snapshot.description in
    let tags = resolved patch.tags snapshot.tags in
    record {
      url = url;
      title = title;
      description = description;
      tags = tags;
      url_changed = not (snapshot.url == url);
      title_changed = not (snapshot.title == title);
      description_changed = not (same_option snapshot.description description);
      tags_changed = not (same_list snapshot.tags tags);
    }

-- `next_updated_at`: Python evaluates the observed time before the sum.
unfoldable pub next_updated_at : (current observed : DateTime) → Result ℕ
next_updated_at current observed = do
  normalized_current ← normalize_utc current
  normalized_observed ← normalize_utc observed
  later ← plus normalized_current 1
  ok (max normalized_observed later)
