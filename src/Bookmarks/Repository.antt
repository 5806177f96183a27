-- ===== src/Bookmarks/Repository.antt =====
-- The queries of app/bookmarks/repository.py. Each SQL statement is a function on the tables; a
-- join is a comprehension over them. Rows read from the tables have identifiers.
pub mod Pages
pub mod Offsets
use backend_exercise.Prelude.{
  ℕ, ◌+◌, ◌-◌, ◌*◌, ◌&&◌, ◌||◌, not, Bool, true, false, Option, none, some, List, [], ◌∷◌, ◌++◌,
  String, string_eq, Eq, ◌==◌, eqb, leb, ltb, length, take, drop, keep, map, if◌then◌else◌,
}
use backend_exercise.Sorting.{order_by}
use backend_exercise.Bookmarks.Models.{
  Bookmark, Tag, BookmarkTag, Database, BookmarkSnapshot, BookmarkQuery, CursorBoundary,
  TextLibrary,
}
use backend_exercise.Bookmarks.Policy.{
  string_leb, utc_midnight_lower_bound, utc_midnight_upper_bound,
}
use backend_exercise.Bookmarks.Patterns.{literal_like_pattern}

unfoldable concat_map {ℓ κ} : {A : Type ℓ} {B : Type κ} → (A → List B) → List A → List B
concat_map f [] = []
concat_map f (a ∷ l) = f a ++ concat_map f l

abbrev pub any {ℓ} : {A : Type ℓ} → (A → Bool) → List A → Bool
any f [] = false
any f (a ∷ l) = f a || any f l

-- `_tag_names_for_bookmarks`, at one of the identifiers
unfoldable tag_names : Database → (user_id bookmark_id : ℕ) → List String
unfolding concat_map order_by
tag_names db user_id bookmark_id = order_by string_leb (
    concat_map
      (λ link.
        concat_map
          (λ tag.
            concat_map
              (λ bookmark.
                if eqb tag.id link.tag_id
                  && (eqb bookmark.id link.bookmark_id
                      && (eqb link.bookmark_id bookmark_id && eqb bookmark.user_id user_id))
                then tag.name ∷ []
                else [])
              db.bookmarks)
          db.tags)
      db.bookmark_tags)

-- `_snapshot` and `_snapshot_from_values`
unfoldable pub snapshot_of : Database → ℕ → Bookmark → BookmarkSnapshot
unfolding tag_names
snapshot_of db user_id b = record {
  id = b.id;
  url = b.url;
  title = b.title;
  description = b.description;
  tags = tag_names db user_id b.id;
  created_at = b.created_at;
  updated_at = b.updated_at;
}

-- `_search_predicates`: a filter that is not given accepts every row.
abbrev when_given {ℓ} : {A : Type ℓ} → Option A → (A → Bool) → Bool
when_given none test = true
when_given (some a) test = test a

abbrev has_tag : Database → Bookmark → String → Bool
has_tag db b name =
    any
      (λ link.
        any (λ tag. eqb tag.id link.tag_id && (eqb link.bookmark_id b.id && tag.name == name))
          db.tags)
      db.bookmark_tags

abbrev in_range : ℕ → (lower upper : Option ℕ) → Bool
in_range column lower upper =
    when_given lower (λ date. leb (utc_midnight_lower_bound date) column)
    && when_given upper
        (λ date. when_given (utc_midnight_upper_bound date) (λ bound. ltb column bound))

unfoldable pub search_predicates : TextLibrary → Database → ℕ → BookmarkQuery → Bookmark → Bool
unfolding utc_midnight_upper_bound literal_like_pattern
search_predicates text db user_id query b =
    eqb b.user_id user_id
    && (when_given query.tag (has_tag db b)
        && (when_given query.q (λ q. text.title_like b.title (literal_like_pattern (text.lower q)))
            && (in_range b.created_at query.created_from query.created_to
                && in_range b.updated_at query.updated_from query.updated_to)))

-- ORDER BY created_at DESC, id DESC
abbrev pub newer : Bookmark → Bookmark → Bool
newer a b = ltb b.created_at a.created_at || (eqb a.created_at b.created_at && leb b.id a.id)

-- `get_owned`: `scalar_one_or_none` on a condition on the primary key
abbrev pub one_or_none : Database → ℕ → List Bookmark → Option BookmarkSnapshot
one_or_none db user_id [] = none
one_or_none db user_id (b ∷ others) = some (snapshot_of db user_id b)

unfoldable pub get_owned : Database → (user_id bookmark_id : ℕ) → Option BookmarkSnapshot
unfolding snapshot_of
get_owned db user_id bookmark_id =
    one_or_none db user_id (keep (λ b. eqb b.id bookmark_id && eqb b.user_id user_id) db.bookmarks)

-- `list_owned`
unfoldable list_owned : Database → ℕ → List BookmarkSnapshot
unfolding snapshot_of order_by
list_owned db user_id =
    map (snapshot_of db user_id) (order_by newer (keep (λ b. eqb b.user_id user_id) db.bookmarks))

-- `search_owned`: a page, and the number of all matching rows
unfoldable pub search_owned : TextLibrary → Database → ℕ → BookmarkQuery → List BookmarkSnapshot × ℕ
unfolding snapshot_of search_predicates order_by
search_owned text db user_id query =
    let matching = keep (search_predicates text db user_id query) db.bookmarks in
    let total = length matching in
    let offset = (query.page - 1) * query.page_size in
    if leb total offset then ([], total) else (
      map (snapshot_of db user_id) (take query.page_size (drop offset (order_by newer matching))),
      total,
    )

-- `search_owned_after`: a page, the number of all matching rows, and whether there is more
abbrev pub older_than : Option CursorBoundary → Bookmark → Bool
older_than none b = true
older_than (some boundary) b =
    ltb b.created_at boundary.created_at
    || (eqb b.created_at boundary.created_at && ltb b.id boundary.bookmark_id)

unfoldable pub search_owned_after :
    TextLibrary
    → Database
    → ℕ
    → BookmarkQuery
    → Option CursorBoundary
    → List BookmarkSnapshot × ℕ × Bool
unfolding snapshot_of search_predicates order_by
search_owned_after text db user_id query boundary =
    let predicates = search_predicates text db user_id query in
    let total = length (keep predicates db.bookmarks) in
    let rows =
      take (query.page_size + 1)
        (order_by newer (keep (λ b. predicates b && older_than boundary b) db.bookmarks)) in
    (
      map (snapshot_of db user_id) (take query.page_size rows),
      total,
      ltb query.page_size (length rows),
    )
