-- ===== src/Stats/Projection/Readiness.antt =====
-- `pending_projection_generation` and `readiness_snapshot` of `WeeklyProjectionRepository`: what the
-- markers, the developing rows and the state say together.
use backend_exercise.Prelude.{
  ℕ, not, Bool, false, Option, none, some, String, Result, ok, eqb, length, keep, if◌then◌else◌,
  string_eq, ◌==◌, pair_eq, nat_eq, ◌>>=◌, ◌>>◌,
}
use backend_exercise.Clock.{DateTime, normalize_utc}
use backend_exercise.Dict
use backend_exercise.Weekly.{WeeklyWindow}
use backend_exercise.Stats.Dirty.{Table, Row, positive}
use backend_exercise.Stats.Projection.{ProjectionStateRecord, canonical, valid_version}
use backend_exercise.Stats.Projection.Working.{WorkingTable, is_overdue}
use backend_exercise.Stats.Projection.Lifecycle.{StateRow, get_state}

-- WHERE generation != projection_completed_generation
abbrev pub is_pending : Row → Bool
is_pending row = not (eqb row.projection_completed_generation row.generation)

abbrev pub generation_if_pending : Option Row → Result (Option ℕ)
generation_if_pending none = ok none
generation_if_pending (some row) = do
  positive row.generation
  ok (if is_pending row then some row.generation else none)

unfoldable pub pending_projection_generation :
    Table → (user_id : ℕ) → WeeklyWindow → Result (Option ℕ)
pending_projection_generation table user_id window = do
  positive user_id
  canonical window
  generation_if_pending (Dict.get (user_id, window.start) table)

pub record ProjectionReadinessSnapshot : Type 0 where
  pub state : Option ProjectionStateRecord
  pub calculation_version_compatible : Bool
  pub pending_projection_count : ℕ
  pub overdue_working_count : ℕ

abbrev pub is_compatible : Option ProjectionStateRecord → String → Bool
is_compatible none version = false
is_compatible (some r) version = r.calculation_version == version

abbrev pub pending_entry : (ℕ × ℕ) × Row → Bool
pending_entry (k, row) = is_pending row

unfoldable pub readiness_snapshot :
    Table
    → WorkingTable
    → Option StateRow
    → (calculation_version : String) → DateTime
    → Result ProjectionReadinessSnapshot
unfolding get_state
readiness_snapshot table working row version now = do
  valid_version version
  now' ← normalize_utc now
  state ← get_state row
  ok (record {
    state = state;
    calculation_version_compatible = is_compatible state version;
    pending_projection_count = length (keep pending_entry table);
    overdue_working_count = length (keep (is_overdue now') working);
  })
