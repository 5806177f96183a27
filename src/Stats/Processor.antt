-- ===== src/Stats/Processor.antt =====
-- `ProjectionProcessor` of app/bookmarks/stats/projection_service.py: one dirty marker or one overdue
-- developing row, in a transaction of the caller. `Session` is what the transaction reads and writes;
-- a processor returns it as it leaves it, rolled back after an exception.
pub mod Developed
pub mod Process
use backend_exercise.Prelude.{
  ℕ, ◌+◌, ◌&&◌, ◌||◌, not, Bool, true, false, Option, none, some, List, [], ◌∷◌, String, Result, ok,
  raise, value_error, projection_state_error, candidate_error, version_mismatch_error, eqb, leb,
  ltb, require, if◌then◌else◌, string_eq, ◌==◌, ◌>>=◌, ◌>>◌, pair_eq, nat_eq,
}
use backend_exercise.Clock.{DateTime, normalize_utc, utc}
use backend_exercise.Dict
use backend_exercise.Weekly.{WeeklyWindow, from_datetime}
use backend_exercise.Bookmarks.Models.{Database}
use backend_exercise.Stats.Dirty.{
  Table, Row, DirtyMarker, positive, acknowledge, projection, DirtyAcknowledgementStatus, stale,
  acknowledged, deleted,
}
use backend_exercise.Stats.Queries.{read_week, is_member}
use backend_exercise.Stats.Calculation.{
  CalculationLibrary, WeeklyCalculation, calculation_version, calculate_weekly_payload,
  compare_content_hashes, HashComparison, same, changed, version_mismatch,
}
use backend_exercise.Stats.Projection.{
  WorkingProjectionRecord, NewProjectionPoint, ProjectionPointRecord, CorrectionReason,
  late_recalculation, canonical,
}
use backend_exercise.Stats.Projection.Points.{Points, effective_point, append_point}
use backend_exercise.Stats.Projection.Working.{
  WorkingTable, get_working, replace_working, delete_working,
}
use backend_exercise.Stats.Projection.Lifecycle.{
  StateRow, require_active, record_projection_success,
}

pub record Session : Type 0 where
  pub users : List ℕ
  pub bookmarks : Database
  pub dirty : Table
  pub working : WorkingTable
  pub points : Points
  pub state : Option StateRow

-- What the processor is made with. `month_of` is a parameter of the reader's statements.
pub record Config : Type 0 where
  pub top_tags_limit : ℕ
  pub library : CalculationLibrary
  pub month_of : ℕ → String

-- `reader.calculation_version`
abbrev pub reader_version : Config → Result String
reader_version config = calculation_version config.library config.top_tags_limit

-- `_calculation`
unfoldable pub calculation : Config → Database → ℕ → WeeklyWindow → Result WeeklyCalculation
unfolding read_week calculate_weekly_payload
calculation config db user_id window = do
  stats ← read_week config.month_of config.top_tags_limit db user_id window
  c ← calculate_weekly_payload config.library stats config.top_tags_limit
  version ← reader_version config
  require (c.calculation_version == version) version_mismatch_error
  ok c

abbrev pub point_of :
    ℕ
    → WeeklyWindow
    → (revision : ℕ) (supersedes_id : Option ℕ) → Option CorrectionReason
    → WeeklyCalculation
    → (source_generation now : ℕ) → NewProjectionPoint
point_of user_id window revision supersedes_id reason c source_generation now = record {
  user_id = user_id;
  window = window;
  revision = revision;
  supersedes_id = supersedes_id;
  payload = c.payload;
  calculated_at = now;
  developed_at = now;
  correction_reason = reason;
  source_generation = source_generation;
  calculation_version = c.calculation_version;
  content_hash = c.content_hash;
}

abbrev pub root_of :
    ℕ → WeeklyWindow → WeeklyCalculation → (source_generation now : ℕ) → NewProjectionPoint
root_of user_id window c source_generation now =
    point_of user_id window 1 none none c source_generation now

abbrev pub correction_of :
    ProjectionPointRecord
    → ℕ
    → WeeklyWindow
    → WeeklyCalculation
    → (source_generation now : ℕ) → NewProjectionPoint
correction_of existing user_id window c source_generation now =
    point_of user_id window (existing.revision + 1) (some existing.id) (some late_recalculation) c
      source_generation now

-- An append for its effect, with the revision that it returns.
abbrev pub appended : Points → NewProjectionPoint → Result (Option ℕ × Points)
appended points p = do (inserted, after) ← append_point points p; ok (some p.revision, after)

abbrev pub compared : ProjectionPointRecord → WeeklyCalculation → HashComparison
compared existing c =
    compare_content_hashes existing.calculation_version existing.content_hash c.calculation_version
      c.content_hash

abbrev pub corrected : Points → NewProjectionPoint → HashComparison → Result (Option ℕ × Points)
corrected points p version_mismatch = raise version_mismatch_error
corrected points p same = ok (none, points)
corrected points p changed = appended points p

-- `_persist_developed`, by the effective point that it finds
abbrev pub developed :
    Points
    → ℕ
    → WeeklyWindow
    → WeeklyCalculation
    → (source_generation now : ℕ) → Option ProjectionPointRecord
    → Result (Option ℕ × Points)
developed points user_id window c source_generation now none =
    appended points (root_of user_id window c source_generation now)
developed points user_id window c source_generation now (some existing) =
    corrected points (correction_of existing user_id window c source_generation now)
      (compared existing c)

unfoldable pub persist_developed :
    Points
    → ℕ
    → WeeklyWindow
    → WeeklyCalculation
    → (source_generation now : ℕ) → Result (Option ℕ × Points)
unfolding effective_point append_point compare_content_hashes
persist_developed points user_id window c source_generation now = do
  existing ← effective_point points user_id window
  developed points user_id window c source_generation now existing
