-- ===== src/Stats/Examples/Samples.antt =====
-- A user with two bookmarks in the second and the third week of the calendar.
use backend_exercise.Prelude.{ℕ, ◌+◌, ◌*◌, none, some, [], ◌∷◌, String}
use backend_exercise.Clock.{day}
use backend_exercise.Weekly.{WeeklyWindow, week}
use backend_exercise.Bookmarks.Models.{Bookmark, Database}
use backend_exercise.Stats.Calculation.{CalculationLibrary, WeeklyCalculation}
use backend_exercise.Stats.Dirty.{Row, DirtyMarker, create}
use backend_exercise.Stats.Projection.{NewProjectionPoint, WorkingProjectionRecord, active}
use backend_exercise.Stats.Projection.Lifecycle.{StateRow}
use backend_exercise.Stats.Processor.{Session, Config, root_of}
use backend_exercise.Stats.Processor.Process.{working_of}

abbrev pub hash : String
hash = "0123456789abcdef0123456789abcdef0123456789abcdef0123456789abcdef"

abbrev pub second_week : WeeklyWindow
second_week = record { start = week; end = week + week }

abbrev pub now : ℕ
now = 2 * week + 3 * day

abbrev pub weekly : WeeklyCalculation
weekly = record { calculation_version = "weekly-v1"; payload = "{}"; content_hash = hash }

abbrev pub root : NewProjectionPoint
root = root_of 7 second_week weekly 4 now

abbrev pub developing : WorkingProjectionRecord
developing = working_of 7 second_week weekly 4 now

abbrev pub library : CalculationLibrary
library = record { digits = λ n. "9"; canonical_json = λ n stats. "{}"; hexdigest = λ s. hash }

abbrev pub config : Config
config = record { top_tags_limit = 9; library = library; month_of = λ t. "0001-01" }

abbrev pub version : String
version = "weekly-v1;payload-schema=9;top-tags-limit=9"

abbrev bookmark : ℕ → ℕ → Bookmark
bookmark id created_at = record {
  id = id;
  url = "https://example.org";
  title = "Example";
  description = none;
  user_id = 7;
  created_at = created_at;
  updated_at = created_at;
}

abbrev pub database : Database
database = record {
  bookmarks = bookmark 1 (week + day) ∷ bookmark 2 (2 * week + day) ∷ [];
  tags = [];
  bookmark_tags = [];
}

abbrev pub fresh : Session
fresh = record {
  users = 7 ∷ [];
  bookmarks = database;
  dirty = [];
  working = [];
  points = [];
  state = none;
}

abbrev pub active_row : StateRow
active_row = record {
  status = active;
  calculation_version = version;
  checkpoint_user_id = none;
  checkpoint_window_start = none;
  baseline_started_at = some week;
  baseline_completed_at = some week;
  updated_at = week;
  last_projection_success_at = none;
  failure_code = none;
}

abbrev pub dirty_row : Row
dirty_row = record {
  generation = 4;
  current_completed_generation = 0;
  projection_completed_generation = 0;
  reason = create;
  first_marked_at = now;
  last_marked_at = now;
}

abbrev pub marker : DirtyMarker
marker = record { user_id = 7; window_start = week; row = dirty_row }

abbrev pub dirty_session : Session
dirty_session = record fresh { dirty = ((7, week), dirty_row) ∷ []; state = some active_row }

abbrev pub overdue : WorkingProjectionRecord
overdue = working_of 7 second_week (record weekly { calculation_version = version }) 4 week

abbrev pub overdue_session : Session
overdue_session = record fresh { working = ((7, week), overdue) ∷ []; state = some active_row }
