-- ===== src/Bookmarks/Writes.antt =====
-- The statements of app/bookmarks/repository.py that write, as `BookmarkService` uses them. A new row
-- takes the identifier after the largest one, as SQLite numbers rows. CHECK constraints, which the
-- schemas of requests imply, are not modelled.
use backend_exercise.Prelude.{
  ℕ, ◌+◌, max, ◌&&◌, not, Bool, true, false, Option, none, some, List, [], ◌∷◌, ◌++◌, String,
  string_eq, ◌==◌, eqb, keep, map, if◌then◌else◌,
}
use backend_exercise.Bookmarks.Models.{Bookmark, Tag, Database}
use backend_exercise.Bookmarks.Policy.{MaterialPatch}

unfoldable largest : List ℕ → ℕ
largest [] = 0
largest (n ∷ l) = max n (largest l)

-- `add` and the flush that numbers the row
pub record BookmarkValues : Type 0 where
  pub url : String
  pub title : String
  pub description : Option String

unfoldable pub next_bookmark_id : Database → ℕ
unfolding largest
next_bookmark_id db = largest (map (λ b. b.id) db.bookmarks) + 1

unfoldable pub add_bookmark :
    Database → (user_id : ℕ) → BookmarkValues → (created_at : ℕ) → Database
unfolding next_bookmark_id
add_bookmark db user_id values created_at = record db {
  bookmarks =
      db.bookmarks
      ++ record {
        id = next_bookmark_id db;
        url = values.url;
        title = values.title;
        description = values.description;
        user_id = user_id;
        created_at = created_at;
        updated_at = created_at;
      }
        ∷ [];
}

-- `TagRepository.find_by_name`
unfoldable find_by_name : List Tag → String → Option Tag
find_by_name [] name = none
find_by_name (tag ∷ tags) name =
    let rest = find_by_name tags name in if tag.name == name then some tag else rest

-- `_resolve_tag_ids` with `_create_or_reload_tag`, within one transaction: the write lock excludes
-- the race in which another one creates the tag first.
abbrev found_or_new : List Tag → String → Option Tag → ℕ × List Tag
found_or_new tags name (some tag) = (tag.id, tags)
found_or_new tags name none =
    let id = largest (map (λ t. t.id) tags) + 1 in
    (id, tags ++ record { id = id; name = name } ∷ [])

unfoldable pub resolve_tag_ids : List Tag → List String → List ℕ × List Tag
unfolding find_by_name largest
resolve_tag_ids tags [] = ([], tags)
resolve_tag_ids tags (name ∷ names) =
    let (id, known) = found_or_new tags name (find_by_name tags name) in
    let (ids, after) = resolve_tag_ids known names in (id ∷ ids, after)

-- `_owned_bookmark_exists`
abbrev pub owned : ℕ → ℕ → Bookmark → Bool
owned user_id bookmark_id b = eqb b.id bookmark_id && eqb b.user_id user_id

unfoldable exists_in : (Bookmark → Bool) → List Bookmark → Bool
exists_in test [] = false
exists_in test (b ∷ l) = let rest = exists_in test l in if test b then true else rest

-- `replace_tag_links_owned`
unfoldable pub replace_tag_links_owned :
    Database → (user_id bookmark_id : ℕ) → List ℕ → Bool × Database
unfolding exists_in
replace_tag_links_owned db user_id bookmark_id tag_ids =
    if exists_in (owned user_id bookmark_id) db.bookmarks
    then (
      true,
      record db {
        bookmark_tags =
            keep (λ link. not (eqb link.bookmark_id bookmark_id)) db.bookmark_tags
            ++ map (λ id. record { bookmark_id = bookmark_id; tag_id = id }) tag_ids;
      },
    )
    else (false, db)

-- `update_owned` with the values of `patch`: those of the changed fields, and `updated_at`
abbrev patched : MaterialPatch → ℕ → Bookmark → Bookmark
patched target updated_at b = record b {
  url = if target.url_changed then target.url else b.url;
  title = if target.title_changed then target.title else b.title;
  description = if target.description_changed then target.description else b.description;
  updated_at = updated_at;
}

unfoldable update_where : (Bookmark → Bool) → (Bookmark → Bookmark) → List Bookmark → List Bookmark
update_where test f [] = []
update_where test f (b ∷ l) = (if test b then f b else b) ∷ update_where test f l

unfoldable pub update_owned :
    Database → (user_id bookmark_id : ℕ) → MaterialPatch → (updated_at : ℕ) → Bool × Database
unfolding exists_in update_where
update_owned db user_id bookmark_id target updated_at = (
  exists_in (owned user_id bookmark_id) db.bookmarks,
  record db {
    bookmarks = update_where (owned user_id bookmark_id) (patched target updated_at) db.bookmarks;
  },
)

-- `delete_owned`, and the cascade to the links of the deleted row
unfoldable pub delete_owned : Database → (user_id bookmark_id : ℕ) → Bool × Database
unfolding exists_in
delete_owned db user_id bookmark_id =
    if exists_in (owned user_id bookmark_id) db.bookmarks
    then (
      true,
      record db {
        bookmarks = keep (λ b. not (owned user_id bookmark_id b)) db.bookmarks;
        bookmark_tags = keep (λ link. not (eqb link.bookmark_id bookmark_id)) db.bookmark_tags;
      },
    )
    else (false, db)
