-- ===== src/Stats/Current.antt =====
-- app/bookmarks/stats/service.py: which of the two sources answers a request for statistics. The
-- live reader, the clock's reading and the health check are arguments; each may raise.
pub mod Answers
mod Examples
use backend_exercise.Prelude.{
  ℕ, ◌+◌, ◌*◌, ◌-◌, ◌&&◌, not, Bool, true, false, Option, none, some, Result, ok, raise,
  value_error, eqb, leb, require, if◌then◌else◌, ◌>>=◌, ◌>>◌,
}
use backend_exercise.Clock.{DateTime, normalize_utc, second}
use backend_exercise.Stats.Schemas.{BookmarkStats}
use backend_exercise.Stats.Snapshots
use backend_exercise.Stats.Snapshots.{SnapshotRecord, StatsSnapshotStore}

pub data StatsSource : Type 0 where
  snapshot live : StatsSource

pub record CurrentStatsResult : Type 0 where
  pub stats : BookmarkStats
  pub source : StatsSource
  pub generated_at : Option ℕ

pub record CurrentStatsService : Type 0 where
  pub store : Option StatsSnapshotStore
  pub refresh_enabled : Bool
  pub stale_after_seconds : ℕ

-- `CurrentStatsService.__init__`
unfoldable new_service : Option StatsSnapshotStore → Bool → ℕ → Result CurrentStatsService
new_service store enabled seconds = do
  require (not (eqb seconds 0)) value_error
  ok (record { store = store; refresh_enabled = enabled; stale_after_seconds = seconds })

-- `record = self._store.get(user_id) if healthy else None`, under `except Exception: record = None`
abbrev or_none : Result (Option SnapshotRecord) → Option SnapshotRecord
or_none (ok found) = found
or_none (raise e) = none

unfoldable pub trusted : StatsSnapshotStore → ℕ → Result Bool → Option SnapshotRecord
trusted store user_id healthy =
    or_none (do up ← healthy; if up then Snapshots.get store user_id else ok none)

-- The snapshot that `read` considers.
unfoldable pub considered : CurrentStatsService → ℕ → Result Bool → Option SnapshotRecord
unfolding trusted
considered service user_id healthy = elim service.store [
  | none ↦ none
  | some store ↦ if service.refresh_enabled then trusted store user_id healthy else none
]

-- `timedelta(0) <= age <= self._stale_after`
abbrev pub is_fresh : CurrentStatsService → ℕ → SnapshotRecord → Bool
is_fresh service now r =
    leb r.generated_at now && leb (now - r.generated_at) (service.stale_after_seconds * second)

abbrev live_answer : Result BookmarkStats → Result CurrentStatsResult
live_answer reader = do
  stats ← reader
  ok (record { stats = stats; source = live; generated_at = none })

unfoldable pub answer :
    CurrentStatsService
    → ℕ
    → Option SnapshotRecord
    → Result BookmarkStats
    → Result CurrentStatsResult
answer service now none reader = live_answer reader
answer service now (some r) reader =
    if is_fresh service now r
    then ok (record { stats = r.stats; source = snapshot; generated_at = some r.generated_at })
    else live_answer reader

-- `read`
unfoldable pub read :
    CurrentStatsService
    → ℕ
    → (now : DateTime) → (healthy : Result Bool) → (reader : Result BookmarkStats)
    → Result CurrentStatsResult
unfolding answer considered
read service user_id now healthy reader = do
  instant ← normalize_utc now
  answer service instant (considered service user_id healthy) reader
