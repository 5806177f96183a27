-- ===== src/Stats/Processor/Process.antt =====
-- `process_dirty` and `process_overdue` of `ProjectionProcessor`.
pub mod Applied
pub mod Weeks
pub mod Outcomes
pub mod DirtyMarkers
pub mod Finalized
pub mod Overdue
use backend_exercise.Prelude.{
  ℕ, ◌&&◌, not, Bool, true, false, Option, none, some, List, [], ◌∷◌, String, Result, ok, raise,
  projection_state_error, candidate_error, version_mismatch_error, eqb, leb, ltb, require,
  if◌then◌else◌, string_eq, nat_eq, ◌==◌, ◌>>=◌, ◌>>◌,
}
use backend_exercise.Clock.{DateTime, normalize_utc, utc}
use backend_exercise.Dict
use backend_exercise.Weekly.{WeeklyWindow, from_datetime}
use backend_exercise.Stats.Dirty.{
  Table, Row, DirtyMarker, positive, acknowledge, projection, DirtyAcknowledgementStatus,
}
use backend_exercise.Stats.Queries.{is_member}
use backend_exercise.Stats.Calculation.{WeeklyCalculation}
use backend_exercise.Stats.Projection.{WorkingProjectionRecord, canonical}
use backend_exercise.Stats.Projection.Points.{Points}
use backend_exercise.Stats.Projection.Readiness.{pending_projection_generation}
use backend_exercise.Stats.Projection.Working.{
  WorkingTable, get_working, replace_working, delete_working,
}
use backend_exercise.Stats.Projection.Lifecycle.{require_active, record_projection_success}
use backend_exercise.Stats.Processor.{
  Session, Config, reader_version, calculation, persist_developed,
}

abbrev pub working_of :
    ℕ → WeeklyWindow → WeeklyCalculation → (source_generation now : ℕ) → WorkingProjectionRecord
working_of user_id window c source_generation now = record {
  user_id = user_id;
  window = window;
  payload = c.payload;
  calculated_at = now;
  source_generation = source_generation;
  calculation_version = c.calculation_version;
  content_hash = c.content_hash;
}

-- A stored developing row must have the version of the calculation that replaces it.
abbrev pub same_version : Option WorkingProjectionRecord → String → Result (Unit {0})
same_version none version = ok tt
same_version (some row) version =
    require (row.calculation_version == version) version_mismatch_error

-- `_ensure_current_working`, by the row that it finds
abbrev pub ensured_current :
    Config
    → Session
    → ℕ
    → WeeklyWindow
    → (version : String) (now : ℕ) → Option WorkingProjectionRecord
    → Result (Bool × Session)
ensured_current config session user_id window version now (some row) = do
  same_version (some row) version
  ok (false, session)
ensured_current config session user_id window version now none = do
  c ← calculation config session.bookmarks user_id window
  working ← replace_working session.working (working_of user_id window c 0 now)
  ok (true, record session { working = working })

unfoldable pub ensure_current_working : Config → Session → ℕ → (now : ℕ) → Result (Bool × Session)
unfolding is_member get_working from_datetime calculation replace_working
ensure_current_working config session user_id now = do
  positive user_id
  if is_member user_id session.users
      then (do
        window ← from_datetime (utc now)
        row ← get_working session.working user_id window
        version ← reader_version config
        ensured_current config session user_id window version now row)
      else ok (false, session)

-- The closed week's developing row goes; it must not have changed meanwhile.
abbrev pub deleted_row : Bool × WorkingTable → Result WorkingTable
deleted_row (found, table) = do require found projection_state_error; ok table

abbrev pub remove_working : WorkingTable → Option WorkingProjectionRecord → Result WorkingTable
remove_working table none = ok table
remove_working table (some row) = delete_working table row >>= deleted_row

-- What a projection of one week leaves: the revision that it appended, whether it created the current
-- week's row, and the session.
pub record Projected : Type 0 where
  pub appended_revision : Option ℕ
  pub created_current_working : Bool
  pub session : Session

-- The branch of `process_dirty` for a week that has ended.
unfoldable pub project_closed :
    Config
    → Session
    → ℕ
    → WeeklyWindow
    → WeeklyCalculation
    → (generation now : ℕ) → Result Projected
unfolding persist_developed get_working delete_working ensure_current_working
project_closed config session user_id window c generation now = do
  (revision, points) ← persist_developed session.points user_id window c generation now
  row ← get_working session.working user_id window
  working ← remove_working session.working row
  (created, after) ←
      ensure_current_working config (record session { points = points; working = working }) user_id
        now
  ok (record { appended_revision = revision; created_current_working = created; session = after })

-- The branch for the current week.
unfoldable pub project_current :
    Session → ℕ → WeeklyWindow → WeeklyCalculation → (generation now : ℕ) → Result Projected
unfolding get_working replace_working
project_current session user_id window c generation now = do
  row ← get_working session.working user_id window
  same_version row c.calculation_version
  working ← replace_working session.working (working_of user_id window c generation now)
  ok (record {
    appended_revision = none;
    created_current_working = false;
    session = record session { working = working };
  })

unfoldable pub project :
    Config
    → Session
    → ℕ
    → WeeklyWindow
    → WeeklyCalculation
    → (generation now : ℕ) → Result Projected
unfolding project_closed project_current
project config session user_id window c generation now =
    if leb window.end now
    then project_closed config session user_id window c generation now
    else project_current session user_id window c generation now

pub data ProjectionProcessOutcome : Type 0 where
  applied :
      (appended_revision : Option ℕ) (created_current_working : Bool) → ProjectionProcessOutcome
  deferred stale absent : ProjectionProcessOutcome

-- After the acknowledgement: a stale one rolls back to `before`.
abbrev pub settled :
    (before : Session)
    → Projected
    → DirtyAcknowledgementStatus × Table
    → ProjectionProcessOutcome × Session
settled before p (DirtyAcknowledgementStatus.stale, table) =
    (ProjectionProcessOutcome.stale, before)
settled before p (status, table) =
    (applied p.appended_revision p.created_current_working, record p.session { dirty = table })

-- `process_dirty` from the projection's success on.
unfoldable pub acknowledge_projected :
    (before : Session)
    → DirtyMarker
    → WeeklyWindow
    → WeeklyCalculation
    → (now : ℕ) → Projected
    → Result (ProjectionProcessOutcome × Session)
unfolding record_projection_success acknowledge
acknowledge_projected before marker window c now p = do
  (success, state) ← record_projection_success p.session.state c.calculation_version (utc now)
  acknowledgement ←
      acknowledge projection p.session.dirty marker.user_id (utc window.start) marker.row.generation
  ok (settled before (record p { session = record p.session { state = state } }) acknowledgement)

-- `process_dirty` once the marker's window is known.
unfoldable pub project_marked :
    Config
    → Session
    → DirtyMarker
    → (now : ℕ) → WeeklyWindow
    → Result (ProjectionProcessOutcome × Session)
unfolding project calculation require_active acknowledge_projected
project_marked config session marker now window = do
  version ← reader_version config
  active ← require_active session.state version
  c ← calculation config session.bookmarks marker.user_id window
  p ← project config session marker.user_id window c marker.row.generation now
  acknowledge_projected session marker window c now p

-- The body of `process_dirty`'s `try`.
unfoldable pub dirty_in :
    Config → Session → DirtyMarker → DateTime → Result (ProjectionProcessOutcome × Session)
unfolding project_marked from_datetime
dirty_in config session marker clock = do
  now ← normalize_utc clock
  window ← from_datetime (utc marker.window_start)
  require (eqb window.start marker.window_start) candidate_error
  require (not (ltb now window.start)) candidate_error
  project_marked config session marker now window

-- `except Exception`: roll back and raise again.
abbrev pub or_rolled_back :
    Session
    → Result (ProjectionProcessOutcome × Session)
    → Result ProjectionProcessOutcome × Session
or_rolled_back before (raise error) = (raise error, before)
or_rolled_back before (ok (outcome, after)) = (ok outcome, after)

unfoldable pub process_dirty :
    Config → Session → DirtyMarker → (clock : DateTime) → Result ProjectionProcessOutcome × Session
unfolding dirty_in
process_dirty config session marker clock =
    or_rolled_back session (dirty_in config session marker clock)

-- The rest of `process_overdue` once no marker of the week is pending.
unfoldable pub finalize_overdue :
    Config → Session → WorkingProjectionRecord → ℕ → Result (ProjectionProcessOutcome × Session)
unfolding calculation persist_developed delete_working ensure_current_working
    record_projection_success
finalize_overdue config session working now = do
  c ← calculation config session.bookmarks working.user_id working.window
  (revision, points) ←
      persist_developed session.points working.user_id working.window c working.source_generation
        now
  table ← delete_working session.working working >>= deleted_row
  (created, after) ←
      ensure_current_working config (record session { points = points; working = table })
        working.user_id now
  (success, state) ← record_projection_success after.state c.calculation_version (utc now)
  ok (applied revision created, record after { state = state })

abbrev pub unless_pending :
    Session
    → Option ℕ
    → Result (ProjectionProcessOutcome × Session)
    → Result (ProjectionProcessOutcome × Session)
unless_pending session (some generation) rest = ok (deferred, session)
unless_pending session none rest = rest

-- `process_overdue` by the row that is refetched
unfoldable pub overdue_found :
    Config
    → Session
    → (version : String) (now : ℕ) → Option WorkingProjectionRecord
    → Result (ProjectionProcessOutcome × Session)
unfolding finalize_overdue pending_projection_generation
overdue_found config session version now none = ok (absent, session)
overdue_found config session version now (some working) = do
  require (leb working.window.end now) candidate_error
  require (working.calculation_version == version) version_mismatch_error
  generation ← pending_projection_generation session.dirty working.user_id working.window
  unless_pending session generation (finalize_overdue config session working now)

unfoldable pub overdue_in :
    Config
    → Session
    → WorkingProjectionRecord
    → DateTime
    → Result (ProjectionProcessOutcome × Session)
unfolding overdue_found require_active get_working
overdue_in config session observed clock = do
  now ← normalize_utc clock
  version ← reader_version config
  active ← require_active session.state version
  row ← get_working session.working observed.user_id observed.window
  overdue_found config session version now row

unfoldable pub process_overdue :
    Config
    → Session
    → WorkingProjectionRecord
    → (clock : DateTime) → Result ProjectionProcessOutcome × Session
unfolding overdue_in
process_overdue config session observed clock =
    or_rolled_back session (overdue_in config session observed clock)
