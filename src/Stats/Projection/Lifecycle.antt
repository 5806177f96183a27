-- ===== src/Stats/Projection/Lifecycle.antt =====
-- The singleton row of `bookmark_stats_projection_state` and its lifecycle in
-- `WeeklyProjectionRepository`: pending, running, active or failed.
pub mod Transitions
pub mod Moves
pub mod Running
use backend_exercise.Prelude.{
  ℕ, ◌&&◌, ◌||◌, not, Bool, true, false, Option, none, some, Result, ok, raise, value_error,
  transition_error, version_mismatch_error, eqb, leb, ltb, require, if◌then◌else◌, String,
  string_eq, ◌==◌, ◌>>=◌, ◌>>◌,
}
use backend_exercise.Clock.{DateTime, normalize_utc, utc}
use backend_exercise.Weekly.{WeeklyWindow, week, plus, from_bounds}
use backend_exercise.Stats.Dirty.{positive}
use backend_exercise.Stats.Projection.{
  ProjectionStateStatus, pending, running, active, failed, ProjectionStateRecord,
  SurvivingWindowCandidate, canonical, has, valid_version, valid_failure_code, validate_candidate,
}

-- The columns of the row; its id is 1.
pub record StateRow : Type 0 where
  pub status : ProjectionStateStatus
  pub calculation_version : String
  pub checkpoint_user_id : Option ℕ
  pub checkpoint_window_start : Option ℕ
  pub baseline_started_at : Option ℕ
  pub baseline_completed_at : Option ℕ
  pub updated_at : ℕ
  pub last_projection_success_at : Option ℕ
  pub failure_code : Option String

abbrev pub is_status : ProjectionStateStatus → ProjectionStateStatus → Bool
is_status pending pending = true
is_status running running = true
is_status active active = true
is_status failed failed = true
is_status _ _ = false

-- The checkpoint's part of `_validate_state`.
abbrev checkpoint_valid : Option ℕ → Option WeeklyWindow → Result (Unit {0})
checkpoint_valid none window = require (not (has window)) transition_error
checkpoint_valid (some user_id) none = do positive user_id; raise transition_error
checkpoint_valid (some user_id) (some window) = do positive user_id; canonical window

abbrev completed_after : (started completed : Option ℕ) → Result (Unit {0})
completed_after started none = ok tt
completed_after none (some completed) = raise transition_error
completed_after (some started) (some completed) =
    require (not (ltb completed started)) transition_error

abbrev failure_valid : Option String → Result (Unit {0})
failure_valid none = ok tt
failure_valid (some code) = valid_failure_code code

-- `_validate_state`
unfoldable pub validate_state : ProjectionStateRecord → Result (Unit {0})
validate_state r = do
  valid_version r.calculation_version
  checkpoint_valid r.checkpoint_user_id r.checkpoint_window
  completed_after r.baseline_started_at r.baseline_completed_at
  failure_valid r.failure_code
  require (not (is_status r.status active && not (has r.baseline_completed_at))) transition_error
  require (not (is_status r.status pending && has r.baseline_started_at)) transition_error

-- The window that a checkpoint's start names.
abbrev checkpoint_window_of : Option ℕ → Result (Option WeeklyWindow)
checkpoint_window_of none = ok none
checkpoint_window_of (some start) = do
  end ← plus start week
  window ← from_bounds (utc start) (utc end)
  ok (some window)

abbrev both_or_neither : Option ℕ → Option ℕ → Bool
both_or_neither none none = true
both_or_neither (some user_id) (some start) = true
both_or_neither _ _ = false

-- `_state`
unfoldable pub read_state : StateRow → Result ProjectionStateRecord
unfolding validate_state from_bounds
read_state row = do
  require (both_or_neither row.checkpoint_user_id row.checkpoint_window_start) transition_error
  window ← checkpoint_window_of row.checkpoint_window_start
  let r : ProjectionStateRecord = record {
    status = row.status;
    calculation_version = row.calculation_version;
    checkpoint_user_id = row.checkpoint_user_id;
    checkpoint_window = window;
    baseline_started_at = row.baseline_started_at;
    baseline_completed_at = row.baseline_completed_at;
    updated_at = row.updated_at;
    last_projection_success_at = row.last_projection_success_at;
    failure_code = row.failure_code;
  }
  validate_state r
  ok r

unfoldable pub get_state : Option StateRow → Result (Option ProjectionStateRecord)
get_state none = ok none
get_state (some row) = do r ← read_state row; ok (some r)

-- What a method answers, with the row that it leaves.
abbrev pub Answer : Type 0
Answer = Result (ProjectionStateRecord × Option StateRow)

-- After a write: the state that is read back must have the new status.
abbrev pub expect : ProjectionStateStatus → Option StateRow → Option ProjectionStateRecord → Answer
expect status row none = raise transition_error
expect status row (some r) =
    if is_status r.status status then ok (r, row) else raise transition_error

abbrev pub reread : ProjectionStateStatus → Option StateRow → Answer
reread status row = get_state row >>= expect status row

-- UPDATE … WHERE id=1 AND status=:expected
abbrev pub update_if :
    ProjectionStateStatus → (StateRow → StateRow) → Option StateRow → Option StateRow
update_if expected f none = none
update_if expected f (some row) = some (if is_status row.status expected then f row else row)

-- `_require_calculation_version`
abbrev pub require_version : ProjectionStateRecord → String → Result (Unit {0})
require_version r version = require (r.calculation_version == version) version_mismatch_error

abbrev pub first_row : String → ℕ → StateRow
first_row version now = record {
  status = pending;
  calculation_version = version;
  checkpoint_user_id = none;
  checkpoint_window_start = none;
  baseline_started_at = none;
  baseline_completed_at = none;
  updated_at = now;
  last_projection_success_at = none;
  failure_code = none;
}

abbrev pub created : Option StateRow → Option ProjectionStateRecord → Answer
created row none = raise transition_error
created row (some r) = ok (r, row)

-- `ensure_state`, by the state that is found
abbrev pub ensured : Option StateRow → String → ℕ → Option ProjectionStateRecord → Answer
ensured row version now none =
    get_state (some (first_row version now)) >>= created (some (first_row version now))
ensured row version now (some r) = do require_version r version; ok (r, row)

unfoldable pub ensure_state : Option StateRow → String → DateTime → Answer
unfolding get_state
ensure_state row version now = do
  valid_version version
  now' ← normalize_utc now
  found ← get_state row
  ensured row version now' found

abbrev pub started_at : ℕ → StateRow → StateRow
started_at now row = record row {
  status = running;
  baseline_started_at = some now;
  updated_at = now;
}

-- `start_or_resume`, by the status that is found
abbrev pub started : ProjectionStateRecord → Option StateRow → ℕ → ProjectionStateStatus → Answer
started r row now active = ok (r, row)
started r row now failed = raise transition_error
started r row now running = ok (r, row)
started r row now pending = reread running (update_if pending (started_at now) row)

unfoldable pub start_or_resume : Option StateRow → String → DateTime → Answer
unfolding ensure_state
start_or_resume row version now = do
  (r, row') ← ensure_state row version now
  now' ← normalize_utc now
  started r row' now' r.status

abbrev pub advanced_to : SurvivingWindowCandidate → ℕ → StateRow → StateRow
advanced_to c now row = record row {
  checkpoint_user_id = some c.user_id;
  checkpoint_window_start = some c.window.start;
  updated_at = now;
}

unfoldable pub advance : Option StateRow → SurvivingWindowCandidate → DateTime → Answer
unfolding validate_candidate get_state
advance row c now = do
  validate_candidate c
  now' ← normalize_utc now
  reread running (update_if running (advanced_to c now') row)

abbrev pub activated_at : ℕ → StateRow → StateRow
activated_at now row = record row {
  status = active;
  baseline_completed_at = some now;
  updated_at = now;
  failure_code = none;
}

unfoldable pub activate : Option StateRow → DateTime → Answer
unfolding get_state
activate row now = do
  now' ← normalize_utc now
  reread active (update_if running (activated_at now') row)

abbrev pub failed_with : String → ℕ → StateRow → StateRow
failed_with code now row = record row {
  status = failed;
  failure_code = some code;
  updated_at = now;
}

abbrev pub update {ℓ} : {A : Type ℓ} → (A → A) → Option A → Option A
update f none = none
update f (some row) = some (f row)

-- `fail`, by the state that is found
abbrev pub failing :
    Option StateRow → String → String → DateTime → Option ProjectionStateRecord → Answer
failing row version code now none = raise transition_error
failing row version code now (some r) = do
  require_version r version
  require (not (is_status r.status active)) transition_error
  now' ← normalize_utc now
  reread failed (update (failed_with code now') row)

unfoldable pub fail : Option StateRow → String → (failure_code : String) → DateTime → Answer
unfolding get_state
fail row version code now = do
  valid_version version
  valid_failure_code code
  found ← get_state row
  failing row version code now found

abbrev pub must_be_active : String → Option ProjectionStateRecord → Result ProjectionStateRecord
must_be_active version none = raise transition_error
must_be_active version (some r) = do
  require_version r version
  require (is_status r.status active) transition_error
  ok r

unfoldable pub require_active : Option StateRow → String → Result ProjectionStateRecord
unfolding get_state
require_active row version = do
  valid_version version
  found ← get_state row
  must_be_active version found

abbrev pub succeeded_at : ℕ → StateRow → StateRow
succeeded_at now row = record row {
  last_projection_success_at = some now;
  updated_at = now;
  failure_code = none;
}

abbrev pub is_current : String → Option StateRow → Bool
is_current version none = false
is_current version (some row) = is_status row.status active && row.calculation_version == version

unfoldable pub record_projection_success : Option StateRow → String → DateTime → Answer
unfolding get_state
record_projection_success row version now = do
  valid_version version
  now' ← normalize_utc now
  require (is_current version row) transition_error
  get_state (update (succeeded_at now') row) >>= created (update (succeeded_at now') row)
