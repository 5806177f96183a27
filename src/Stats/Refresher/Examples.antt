-- ===== src/Stats/Refresher/Examples.antt =====
-- The refresh of a user with one marker.
use backend_exercise.Prelude.{[], ◌∷◌, ok}
use backend_exercise.Weekly.{week}
use backend_exercise.Stats.Snapshots.{empty}
use backend_exercise.Stats.Dirty.{Row, DirtyMarker, create}
use backend_exercise.Stats.Refresher.{Shared, Candidate, refresh_user}
use backend_exercise.Stats.Refresher.Refreshed.{Refreshed, refresh_user-Refreshed}

abbrev row : Row
row = record {
  generation = 1;
  current_completed_generation = 0;
  projection_completed_generation = 0;
  reason = create;
  first_marked_at = 5;
  last_marked_at = 5;
}

abbrev shared : Shared
shared = record { store = empty; table = ((1, week), row) ∷ [] }

abbrev candidate : Candidate
candidate = record {
  expected_epoch = 0;
  stats = record { total_bookmarks = 3; total_tags = 0; top_tags = []; bookmarks_per_month = [] };
  generated_at = 9;
}

abbrev seen : DirtyMarker
seen = record { user_id = 1; window_start = week; row = row }

refresh_user-Refreshed_example :
    Refreshed shared 1 (seen ∷ []) candidate (refresh_user shared 1 (seen ∷ []) candidate (ok tt))
refresh_user-Refreshed_example = refresh_user-Refreshed shared 1 (seen ∷ []) candidate (ok tt)
