-- ===== src/Stats/Dirty/Observe.antt =====
-- What the worker observes.
use backend_exercise.Prelude.{ℕ, ◌≡◌, true, List, map, All, length, min, ◌++◌}
use backend_exercise.Sorting.{Sorted, order_by}
use backend_exercise.Stats.Dirty.{Row, Table, DirtyMarker, before}

abbrev of_row : (ℕ × ℕ) × Row → DirtyMarker
of_row ((user, window), row) = record { user_id = user; window_start = window; row = row }

-- An observation of a table: the markers of its oldest rows, as many as were asked for, and the rows
-- that it leaves.
pub record Observed (table : Table) (limit : ℕ) (found : List DirtyMarker) : Type 0 where
  pub page : Table
  pub left : Table
  pub all_rows : page ++ left ≡ order_by before table
  pub shown : found ≡ map of_row page
  pub counted : length page ≡ min limit (length table)
  pub sorted : Sorted before page
  pub oldest_first : All (λ p. All (λ q. before p q ≡ true) left) page
