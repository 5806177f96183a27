-- ===== src/Stats/Current/Examples.antt =====
-- The service of the statistics at concrete requests.
use backend_exercise.Prelude.{
  ◌≡◌, ◌⊎◌, refl, true, some, Result, ok, raise, runtime_error, value_error,
}
use backend_exercise.Clock.{utc, normalize_utc, normalize_utc-utc}
use backend_exercise.Dict
use backend_exercise.Stats.Schemas.{BookmarkStats}
use backend_exercise.Stats.Snapshots
use backend_exercise.Stats.Snapshots.Examples.{three, stored}
use backend_exercise.Stats.Current.{
  CurrentStatsResult, CurrentStatsService, snapshot, trusted, considered, answer, read,
}
use backend_exercise.Stats.Current.Answers.{FromSnapshot, FromLive, read-eq-ok, read-eq-raise}

program : Unit {0}
unfolding trusted considered answer read normalize_utc Snapshots.get Snapshots.current_epoch
    Dict.get
program = tt

abbrev service : CurrentStatsService
service = record { store = some stored; refresh_enabled = true; stale_after_seconds = 60 }

abbrev from_snapshot : CurrentStatsResult
from_snapshot = record { stats = three; source = snapshot; generated_at = some 7 }

answered : read service 1 (utc 9) (ok true) (ok three) ≡ ok from_snapshot
unfolding program
answered = refl

-- The live query is asked where the worker is unhealthy, and its failure is the request's.
failed : read service 1 (utc 9) (raise runtime_error) (raise value_error) ≡ raise value_error
unfolding program
failed = refl

read-eq-ok_example :
    ((from_snapshot.source ≡ snapshot) × FromSnapshot service 1 9 (ok true) from_snapshot)
    ⊎ FromLive (ok three) from_snapshot
read-eq-ok_example =
    read-eq-ok service 1 9 (utc 9) (ok true) (ok three) from_snapshot (normalize_utc-utc 9) answered

read-eq-raise_example :
    (normalize_utc (utc 9) ≡ raise value_error)
    ⊎ (◌≡◌ {A = Result BookmarkStats} (raise value_error) (raise value_error))
read-eq-raise_example =
    read-eq-raise service 1 (utc 9) (raise runtime_error) (raise value_error) value_error failed
