-- ===== src/Stats/Examples/Cycle.antt =====
-- The projection phase of a worker's cycle, at an overdue row.
use backend_exercise.Prelude.{◌≡◌, refl, true}
use backend_exercise.Clock.{utc, normalize_utc}
use backend_exercise.Dict
use backend_exercise.Stats.Projection.{
  canonical, validate_point, validate_working, valid_version, valid_hash, read_point, read_working,
}
use backend_exercise.Stats.Projection.Lifecycle.{read_state}
use backend_exercise.Stats.Projection.Points.History.{[]-IsHistory}
use backend_exercise.Stats.Cycle.{run_projection_phase, active}
use backend_exercise.Stats.Cycle.Reports.{IsReported, run_projection_phase-IsSafe}
use backend_exercise.Stats.Cycle.Safe.{IsSafe}
use backend_exercise.Stats.Examples.Samples.{config, now, overdue_session}

phase-successful :
    (run_projection_phase config 10 (λ n. utc now) true overdue_session).0.successful ≡ true
unfolding run_projection_phase normalize_utc valid_version read_state canonical validate_point
    valid_hash read_point Dict.get validate_working read_working Dict.delete
phase-successful = refl

run_projection_phase-IsSafe_example :
    let (result, after) = run_projection_phase config 10 (λ n. utc now) true overdue_session in
    IsSafe overdue_session after
    × (result.successful ≡ true
        → result.status ≡ active
        → IsReported config 10 (λ n. utc now) result after)
run_projection_phase-IsSafe_example =
    run_projection_phase-IsSafe config 10 (λ n. utc now) true overdue_session (refl, tt)
      []-IsHistory
