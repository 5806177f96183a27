-- ===== src/Stats/Refresher.antt =====
-- app/bookmarks/stats/refresher.py: how the worker refreshes one user, `_refresh_user`. `Shared` is
-- what it finds when it finalizes: the snapshot store, which requests may have invalidated since the
-- worker read the epoch, and the committed table of markers, which its write transaction holds.
pub mod Completed
pub mod Refreshed
mod Examples
use backend_exercise.Prelude.{
  ℕ, max, Bool, true, false, Option, none, some, List, [], ◌∷◌, Result, ok, raise, nat_eq, ◌>>=◌,
}
use backend_exercise.Clock.{DateTime, normalize_utc, utc}
use backend_exercise.Stats.Schemas.{BookmarkStats}
use backend_exercise.Stats.Snapshots
use backend_exercise.Stats.Snapshots.{StatsSnapshotStore}
use backend_exercise.Stats.Dirty.{
  Table, DirtyMarker, DirtyAcknowledgementStatus, stale, acknowledged, deleted, current,
  acknowledge,
}

pub record Shared : Type 0 where
  pub store : StatsSnapshotStore
  pub table : Table

-- The first part: the epoch, then the statistics, then the time. The reader and the clock may raise.
pub record Candidate : Type 0 where
  pub expected_epoch : ℕ
  pub stats : BookmarkStats
  pub generated_at : ℕ

unfoldable read_candidate :
    StatsSnapshotStore → (user_id : ℕ) → Result BookmarkStats → (now : DateTime) → Result Candidate
read_candidate store user_id reader now = do
  expected_epoch ← Snapshots.epoch store user_id
  stats ← reader
  generated_at ← normalize_utc now
  ok (record { expected_epoch = expected_epoch; stats = stats; generated_at = generated_at })

-- The loop over the markers, in one transaction: `none` if one of them is stale.
abbrev pub unless_stale : DirtyAcknowledgementStatus → Result (Option Table) → Result (Option Table)
unless_stale stale rest = ok none
unless_stale acknowledged rest = rest
unless_stale deleted rest = rest

unfoldable pub acknowledge_all : Table → List DirtyMarker → Result (Option Table)
unfolding acknowledge
acknowledge_all table [] = ok (some table)
acknowledge_all table (m ∷ markers) = do
  done ← acknowledge current table m.user_id (utc m.window_start) m.row.generation
  unless_stale done.0 (acknowledge_all done.1 markers)

unfoldable pub source_generation : List DirtyMarker → ℕ
source_generation [] = 0
source_generation (m ∷ markers) = max m.row.generation (source_generation markers)

-- `_invalidate_safely`
abbrev or_same : StatsSnapshotStore → Result (ℕ × StatsSnapshotStore) → StatsSnapshotStore
or_same store (ok (epoch, after)) = after
or_same store (raise e) = store

unfoldable pub invalidate_safely : StatsSnapshotStore → ℕ → StatsSnapshotStore
invalidate_safely store user_id = or_same store (Snapshots.invalidate store user_id)

-- The commit of the acknowledgements, which is left out where there are none
unfoldable pub committed :
    Shared
    → StatsSnapshotStore
    → (user_id : ℕ) → List DirtyMarker
    → Table
    → (commit : Result (Unit {0})) → Result Bool × Shared
unfolding invalidate_safely
committed shared store user_id [] working commit = (ok true, record shared { store = store })
committed shared store user_id (m ∷ markers) working (ok done) =
    (ok true, record { store = store; table = working })
committed shared store user_id (m ∷ markers) working (raise e) =
    (raise e, record shared { store = invalidate_safely store user_id })

unfoldable pub published :
    Shared
    → (user_id : ℕ) → List DirtyMarker
    → Table
    → (commit : Result (Unit {0})) → Result (Bool × StatsSnapshotStore)
    → Result Bool × Shared
unfolding committed
published shared user_id markers working commit (raise e) = (raise e, shared)
published shared user_id markers working commit (ok (false, store)) =
    (ok false, record shared { store = store })
published shared user_id markers working commit (ok (true, store)) =
    committed shared store user_id markers working commit

unfoldable pub finalize :
    Shared
    → (user_id : ℕ) → List DirtyMarker
    → Candidate
    → (commit : Result (Unit {0})) → Result (Option Table)
    → Result Bool × Shared
unfolding source_generation
finalize shared user_id markers c commit (raise e) = (raise e, shared)
finalize shared user_id markers c commit (ok none) = (ok false, shared)
finalize shared user_id markers c commit (ok (some working)) =
    published shared user_id markers working commit (
      Snapshots.publish shared.store user_id c.stats (utc c.generated_at)
        (source_generation markers) c.expected_epoch)

-- `_refresh_user` from the acknowledgements on; an exception's handler rolls back too.
unfoldable pub refresh_user :
    Shared
    → (user_id : ℕ) → List DirtyMarker
    → Candidate
    → (commit : Result (Unit {0})) → Result Bool × Shared
refresh_user shared user_id markers c commit =
    finalize shared user_id markers c commit (acknowledge_all shared.table markers)
