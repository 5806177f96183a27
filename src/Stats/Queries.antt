-- ===== src/Stats/Queries.antt =====
-- The three SQL statements that app/bookmarks/stats/raw_sql.py reads all time with and
-- app/bookmarks/stats/weekly.py a week, and the readers around them. The database is the snapshot
-- that a reader begins. `month_of` stands for the first seven characters of a stored time. That the
-- answers pass the validators of the response schema is not part of it.
use backend_exercise.Prelude.{
  ℕ, suc, ◌&&◌, ◌||◌, Bool, false, Option, none, some, List, [], ◌∷◌, ◌++◌, String, map, Result, ok,
  value_error, eqb, leb, ltb, length, take, keep, require, Eq, ◌==◌, nat_eq, string_eq, pair_eq,
  if◌then◌else◌, ◌>>◌,
}
use backend_exercise.Dict
use backend_exercise.Dict.{Dict}
use backend_exercise.Sorting.{order_by}
use backend_exercise.Weekly.{WeeklyWindow}
use backend_exercise.Bookmarks.Models.{Bookmark, Tag, BookmarkTag, Database}
use backend_exercise.Bookmarks.Policy.{string_leb}
use backend_exercise.Stats.Schemas.{TopTag, BookmarksPerMonth, BookmarkStats}
use backend_exercise.Stats.Dirty.{positive}
use backend_exercise.Stats.Projection.{canonical}

abbrev pub one_more : Option ℕ → ℕ
one_more none = 1
one_more (some n) = suc n

module _ {ℓ} {K : Type ℓ} ⦃e : Eq K⦄ where
  unfoldable pub is_member : K → List K → Bool
  is_member k [] = false
  is_member k (j ∷ l) = j == k || is_member k l

  -- DISTINCT
  unfoldable pub distinct : List K → List K
  unfolding is_member
  distinct [] = []
  distinct (k ∷ l) = let rest = distinct l in if is_member k l then rest else k ∷ rest

  -- GROUP BY with count(*)
  unfoldable pub group_count : List K → Dict K ℕ
  group_count [] = []
  group_count (k ∷ l) = let rest = group_count l in Dict.put k (one_more (Dict.get k rest)) rest

-- FROM bookmarks AS b JOIN bookmark_tags AS bt ON bt.bookmark_id = b.id
unfoldable pub joined : List Bookmark → List BookmarkTag → List BookmarkTag
joined [] links = []
joined (b ∷ bookmarks) links = keep (λ l. eqb l.bookmark_id b.id) links ++ joined bookmarks links

-- JOIN tags AS t ON t.id = bt.tag_id
unfoldable pub tagged : List BookmarkTag → List Tag → List (ℕ × String)
tagged [] tags = []
tagged (l ∷ links) tags =
    map (λ t. (t.id, t.name)) (keep (λ t. eqb t.id l.tag_id) tags) ++ tagged links tags

abbrev pub top_tag : (ℕ × String) × ℕ → TopTag
top_tag ((id, name), count) = record { name = name; count = count }

-- ORDER BY count DESC, t.name ASC
abbrev pub most_used : TopTag → TopTag → Bool
most_used s t = ltb t.count s.count || (eqb s.count t.count && string_leb s.name t.name)

abbrev pub month_count : String × ℕ → BookmarksPerMonth
month_count (month, count) = record { month = month; count = count }

-- ORDER BY month ASC
abbrev pub earlier_month : BookmarksPerMonth → BookmarksPerMonth → Bool
earlier_month m n = string_leb m.month n.month

-- WHERE
abbrev pub of_user : ℕ → Bookmark → Bool
of_user user_id b = eqb b.user_id user_id

abbrev pub in_window : ℕ → WeeklyWindow → Bookmark → Bool
in_window user_id window b =
    eqb b.user_id user_id && leb window.start b.created_at && ltb b.created_at window.end

module _ (month_of : ℕ → String) where
  -- The statements over the bookmarks that their WHERE clause selects.
  unfoldable pub aggregate : (top_tags_limit : ℕ) → Database → List Bookmark → BookmarkStats
  unfolding joined tagged distinct group_count order_by
  aggregate limit db bookmarks = record {
    total_bookmarks = length (distinct (map (λ b. b.id) bookmarks));
    total_tags = length (distinct (map (λ l. l.tag_id) (joined bookmarks db.bookmark_tags)));
    top_tags = take limit (
        order_by most_used
          (map top_tag (group_count (tagged (joined bookmarks db.bookmark_tags) db.tags))));
    bookmarks_per_month =
        order_by earlier_month
          (map month_count (group_count (map (λ b. month_of b.created_at) bookmarks)));
  }

  -- `BookmarkStatsReader.read`
  unfoldable pub read_all_time : (top_tags_limit : ℕ) → Database → (user_id : ℕ) → BookmarkStats
  unfolding aggregate
  read_all_time limit db user_id = aggregate limit db (keep (of_user user_id) db.bookmarks)

  -- `WeeklyStatsReader.read`
  unfoldable pub read_week :
      (top_tags_limit : ℕ) → Database → (user_id : ℕ) → WeeklyWindow → Result BookmarkStats
  unfolding aggregate
  read_week limit db user_id window = do
    positive user_id
    canonical window
    ok (aggregate limit db (keep (in_window user_id window) db.bookmarks))

-- `_top_tags_limit`
abbrev pub valid_limit : ℕ → Result (Unit {0})
valid_limit limit = require (leb 1 limit && leb limit 100) value_error
