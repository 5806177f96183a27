-- ===== src/Stats/Cycle.antt =====
-- The projection phase of a cycle of the worker, `_run_projection_phase` of
-- app/bookmarks/stats/refresher.py. `clock` gives the readings of the clock by their number. Nobody
-- else writes to the database between the phase's transactions; log lines are left out.
pub mod Safe
pub mod Phases
pub mod Reports
use backend_exercise.Prelude.{
  ℕ, suc, ◌+◌, not, Bool, true, false, Option, none, some, List, [], ◌∷◌, String, Result, ok, raise,
  Error, version_mismatch_error, keep, if◌then◌else◌, ◌>>=◌,
}
use backend_exercise.Clock.{DateTime, normalize_utc, utc}
use backend_exercise.Stats.Dirty.{DirtyMarker, observe}
use backend_exercise.Stats.Projection.{
  ProjectionStateStatus, ProjectionStateRecord, WorkingProjectionRecord,
}
use backend_exercise.Stats.Projection.Working.{observe_overdue}
use backend_exercise.Stats.Projection.Readiness.{
  ProjectionReadinessSnapshot, readiness_snapshot, is_pending,
}
use backend_exercise.Stats.Processor.{Session, Config, reader_version}
use backend_exercise.Stats.Processor.Process.{
  ProjectionProcessOutcome, applied, process_dirty, process_overdue,
}
use backend_exercise.Stats.Baseline.{ProjectionBaselineResult, run_step}

pub data ProjectionLifecycleStatus : Type 0 where
  disabled absent pending running active failed : ProjectionLifecycleStatus

-- `_ProjectionCycleResult`
pub record ProjectionCycleResult : Type 0 where
  pub status : ProjectionLifecycleStatus
  pub successful : Bool
  pub pending_count : ℕ
  pub overdue_count : ℕ
  pub version_compatible : Bool
  pub error_code : Option String

abbrev pub status_of : ProjectionStateStatus → ProjectionLifecycleStatus
status_of ProjectionStateStatus.pending = ProjectionLifecycleStatus.pending
status_of ProjectionStateStatus.running = ProjectionLifecycleStatus.running
status_of ProjectionStateStatus.active = ProjectionLifecycleStatus.active
status_of ProjectionStateStatus.failed = ProjectionLifecycleStatus.failed

abbrev pub status_if : Bool → Option ProjectionStateRecord → ProjectionLifecycleStatus
status_if compatible none = absent
status_if true (some r) = status_of r.status
status_if false (some r) = failed

-- `_projection_status`
abbrev pub projection_status : ProjectionReadinessSnapshot → ProjectionLifecycleStatus
projection_status snapshot = status_if snapshot.calculation_version_compatible snapshot.state

abbrev pub is_active_status : ProjectionLifecycleStatus → Bool
is_active_status active = true
is_active_status _ = false

abbrev pub is_failed_status : ProjectionLifecycleStatus → Bool
is_failed_status failed = true
is_failed_status _ = false

abbrev pub error_code_of : (version_compatible : Bool) → Option String
error_code_of true = none
error_code_of false = some "calculation_version_mismatch"

-- What a snapshot of readiness is reported as.
abbrev pub reported : ProjectionReadinessSnapshot → (successful : Bool) → ProjectionCycleResult
reported snapshot successful = record {
  status = projection_status snapshot;
  successful = successful;
  pending_count = snapshot.pending_projection_count;
  overdue_count = snapshot.overdue_working_count;
  version_compatible = snapshot.calculation_version_compatible;
  error_code = error_code_of snapshot.calculation_version_compatible;
}

abbrev pub plain : ProjectionLifecycleStatus → ProjectionCycleResult
plain status = record {
  status = status;
  successful = true;
  pending_count = 0;
  overdue_count = 0;
  version_compatible = true;
  error_code = none;
}

abbrev pub is_mismatch : Error → Bool
is_mismatch version_mismatch_error = true
is_mismatch _ = false

-- The two `except` clauses: a version that does not match, and any other error.
abbrev pub refused : Error → ProjectionCycleResult
refused error = record {
  status = if is_mismatch error then active else failed;
  successful = false;
  pending_count = 0;
  overdue_count = 0;
  version_compatible = not (is_mismatch error);
  error_code =
      some
        (if is_mismatch error then "calculation_version_mismatch" else "projection_cycle_failed");
}

-- A transaction is committed only if the work was applied.
abbrev pub committed_if_applied :
    (before : Session) → Result ProjectionProcessOutcome × Session → Result (Unit {0}) × Session
committed_if_applied before (ok (applied revision made), after) = (ok tt, after)
committed_if_applied before (ok outcome, after) = (ok tt, before)
committed_if_applied before (raise error, after) = (raise error, before)

abbrev pub and_then {ℓ κ} :
    {T : Type ℓ} {U : Type κ}
    → Result T × Session
    → (T → Session → Result U × Session)
    → Result U × Session
and_then (raise error, s) next = (raise error, s)
and_then (ok t, s) next = next t s

-- One transaction for each item, until one raises.
unfoldable pub process_all {ℓ} :
    {A : Type ℓ}
    → (Session → A → DateTime → Result ProjectionProcessOutcome × Session)
    → (clock : ℕ → DateTime) (n : ℕ) → List A
    → Session
    → Result (Unit {0}) × Session
process_all process clock n [] s = (ok tt, s)
process_all process clock n (a ∷ items) s =
    and_then (committed_if_applied s (process s a (clock n)))
      (λ u after. process_all process clock (suc n) items after)

-- A page holds at most a hundred items, so that the readings of the two loops do not meet.
-- What a read-only session answers.
abbrev pub reading {ℓ} : {T : Type ℓ} → Result T → Session → Result T × Session
reading result s = (result, s)

module _ (config : Config) (batch_size : ℕ) (clock : ℕ → DateTime) where
  abbrev pub readiness_at : (n : ℕ) → Session → Result ProjectionReadinessSnapshot
  readiness_at n s = do
    version ← reader_version config
    now ← normalize_utc (clock n)
    readiness_snapshot s.dirty s.working s.state version (utc now)

  -- The markers that are pending for projections, and the overdue rows.
  unfoldable pub observed_work :
      (n : ℕ) → Session → Result (List DirtyMarker × List WorkingProjectionRecord)
  unfolding observe observe_overdue
  observed_work n s = do
    markers ← observe s.dirty batch_size
    now ← normalize_utc (clock n)
    overdue ← observe_overdue s.working (utc now) batch_size
    ok (keep (λ m. is_pending m.row) markers, overdue)

  unfoldable pub worked :
      List DirtyMarker × List WorkingProjectionRecord → Session → Result (Unit {0}) × Session
  unfolding process_all process_dirty process_overdue
  worked (markers, overdue) s =
      and_then (process_all (process_dirty config) clock 3 markers s)
        (λ u after. process_all (process_overdue config) clock 103 overdue after)

  abbrev pub final_report : Session → Result ProjectionCycleResult × Session
  final_report s =
      and_then (reading (readiness_at 203 s) s)
        (λ final after. (ok (reported final (is_active_status (projection_status final))), after))

  -- Once the baseline is complete, by what readiness says.
  unfoldable pub active_phase :
      ProjectionReadinessSnapshot → Session → Result ProjectionCycleResult × Session
  unfolding observed_work worked
  active_phase snapshot s =
      if is_active_status (projection_status snapshot)
      then and_then (reading (observed_work 2 s) s)
          (λ work after. and_then (worked work after) (λ u last. final_report last))
      else (ok (reported snapshot (not (is_failed_status (projection_status snapshot)))), s)

  abbrev pub after_baseline :
      ProjectionBaselineResult → Session → Result ProjectionCycleResult × Session
  after_baseline baseline s =
      if baseline.is_active
      then and_then (reading (readiness_at 1 s) s) active_phase
      else (ok (plain running), s)

  abbrev pub or_refused : Result ProjectionCycleResult × Session → ProjectionCycleResult × Session
  or_refused (raise error, s) = (refused error, s)
  or_refused (ok result, s) = (result, s)

  unfoldable pub run_projection_phase :
      (projection_enabled : Bool) → Session → ProjectionCycleResult × Session
  unfolding run_step active_phase readiness_snapshot
  run_projection_phase false s = (plain disabled, s)
  run_projection_phase true s =
      or_refused (and_then (run_step config batch_size s (clock 0)) after_baseline)
