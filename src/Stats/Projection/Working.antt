-- ===== src/Stats/Projection/Working.antt =====
-- The developing rows of `WeeklyProjectionRepository`: `get_working`, `replace_working`,
-- `delete_working` and `observe_overdue`. The table `bookmark_stats_window_working` is a dictionary
-- under its primary key, user and start of the week.
pub mod Rows
use backend_exercise.Prelude.{
  ℕ, ◌&&◌, ◌||◌, not, Bool, true, false, Option, none, some, List, [], ◌∷◌, Result, ok, raise,
  value_error, eqb, leb, ltb, take, keep, require, if◌then◌else◌, pair_eq, nat_eq, string_eq, ◌==◌,
  ◌>>=◌, ◌>>◌,
}
use backend_exercise.Clock.{DateTime, normalize_utc}
use backend_exercise.Dict
use backend_exercise.Dict.{Dict}
use backend_exercise.Sorting.{order_by}
use backend_exercise.Weekly.{WeeklyWindow}
use backend_exercise.Stats.Dirty.{positive, page_limit}
use backend_exercise.Stats.Projection.{
  WorkingProjectionRecord, canonical, validate_working, read_working,
}

abbrev pub WorkingTable : Type 0
WorkingTable = Dict (ℕ × ℕ) WorkingProjectionRecord

abbrev pub key_of : WorkingProjectionRecord → ℕ × ℕ
key_of r = (r.user_id, r.window.start)

abbrev pub read_some : Option WorkingProjectionRecord → Result (Option WorkingProjectionRecord)
read_some none = ok none
read_some (some row) = do r ← read_working row; ok (some r)

unfoldable pub get_working :
    WorkingTable → (user_id : ℕ) → WeeklyWindow → Result (Option WorkingProjectionRecord)
get_working table user_id window = do
  positive user_id
  canonical window
  read_some (Dict.get (user_id, window.start) table)

-- INSERT … ON CONFLICT(user_id, window_start) DO UPDATE
unfoldable pub replace_working : WorkingTable → WorkingProjectionRecord → Result WorkingTable
replace_working table r = do validate_working r; ok (Dict.put (key_of r) r table)

-- The other columns of the DELETE's condition.
abbrev pub same_columns : WorkingProjectionRecord → WorkingProjectionRecord → Bool
same_columns r s =
    eqb r.window.end s.window.end
    && r.payload == s.payload
    && eqb r.calculated_at s.calculated_at
    && eqb r.source_generation s.source_generation
    && r.calculation_version == s.calculation_version
    && r.content_hash == s.content_hash

abbrev pub delete_if_same :
    WorkingTable → WorkingProjectionRecord → Option WorkingProjectionRecord → Bool × WorkingTable
delete_if_same table r none = (false, table)
delete_if_same table r (some row) =
    if same_columns row r then (true, Dict.delete (key_of r) table) else (false, table)

unfoldable pub delete_working :
    WorkingTable → WorkingProjectionRecord → Result (Bool × WorkingTable)
delete_working table r = do
  validate_working r
  ok (delete_if_same table r (Dict.get (key_of r) table))

-- ORDER BY window_end ASC, user_id ASC
abbrev pub oldest_first :
    (ℕ × ℕ) × WorkingProjectionRecord → (ℕ × ℕ) × WorkingProjectionRecord → Bool
oldest_first (j, r) (k, s) =
    ltb r.window.end s.window.end || (eqb r.window.end s.window.end && leb r.user_id s.user_id)

abbrev pub is_overdue : ℕ → (ℕ × ℕ) × WorkingProjectionRecord → Bool
is_overdue now (k, r) = leb r.window.end now

abbrev pub consed_row :
    Result WorkingProjectionRecord
    → Result (List WorkingProjectionRecord)
    → Result (List WorkingProjectionRecord)
consed_row first rest = do r ← first; rs ← rest; ok (r ∷ rs)

unfoldable pub read_rows : WorkingTable → Result (List WorkingProjectionRecord)
read_rows [] = ok []
read_rows ((k, r) ∷ rows) = consed_row (read_working r) (read_rows rows)

unfoldable pub observe_overdue :
    WorkingTable → DateTime → (limit : ℕ) → Result (List WorkingProjectionRecord)
unfolding read_rows order_by
observe_overdue table now limit = do
  page_limit limit
  now' ← normalize_utc now
  read_rows (take limit (order_by oldest_first (keep (is_overdue now') table)))
