-- ===== src/Stats/Projection/Points.antt =====
-- `effective_point` and `append_point` of `WeeklyProjectionRepository`. The table
-- `bookmark_stats_window_point` is the list of its rows, the row inserted last in front.
pub mod History
use backend_exercise.Prelude.{
  ℕ, suc, ◌+◌, ◌&&◌, max, Bool, true, false, Option, none, some, List, [], ◌∷◌, Result, ok, raise,
  value_error, eqb, leb, take, keep, require, if◌then◌else◌, ◌>>=◌, ◌>>◌,
}
use backend_exercise.Sorting.{order_by}
use backend_exercise.Weekly.{WeeklyWindow}
use backend_exercise.Stats.Dirty.{positive}
use backend_exercise.Stats.Projection.{
  NewProjectionPoint, ProjectionPointRecord, canonical, validate_point, read_point,
}

abbrev pub Points : Type 0
Points = List ProjectionPointRecord

-- WHERE user_id=:user_id AND window_start=:window_start
abbrev pub at_window : ℕ → ℕ → ProjectionPointRecord → Bool
at_window user_id start p = eqb p.user_id user_id && eqb p.window.start start

-- ORDER BY revision DESC
abbrev pub newest_first : ProjectionPointRecord → ProjectionPointRecord → Bool
newest_first p q = leb q.revision p.revision

unfoldable pub first_read : Points → Result (Option ProjectionPointRecord)
first_read [] = ok none
first_read (p ∷ rest) = do r ← read_point p; ok (some r)

unfoldable pub effective_point : Points → ℕ → WeeklyWindow → Result (Option ProjectionPointRecord)
unfolding first_read order_by
effective_point points user_id window = do
  positive user_id
  canonical window
  first_read (take 1 (order_by newest_first (keep (at_window user_id window.start) points)))

abbrev pub is_some : Option ℕ → ℕ → Bool
is_some none n = false
is_some (some m) n = eqb m n

-- The guard of `append_point` against the effective point.
abbrev pub follows : NewProjectionPoint → Option ProjectionPointRecord → Result (Unit {0})
follows p none = require (eqb p.revision 1) value_error
follows p (some current) =
    if eqb p.revision 1
    then raise value_error
    else (require (eqb p.revision (current.revision + 1) && is_some p.supersedes_id current.id)
        value_error)

-- The identifier that SQLite gives a new row: one more than the greatest.
unfoldable pub next_id : Points → ℕ
next_id [] = 1
next_id (p ∷ points) = max (suc p.id) (next_id points)

unfoldable pub append_point : Points → NewProjectionPoint → Result (ProjectionPointRecord × Points)
unfolding next_id
append_point points p = do
  validate_point p
  current ← effective_point points p.user_id p.window
  follows p current
  let row : ProjectionPointRecord = record { point = p; id = next_id points }
  inserted ← read_point row
  ok (inserted, row ∷ points)
