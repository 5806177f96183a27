-- ===== src/Stats/Snapshots/Examples.antt =====
-- The snapshot store in use, and its coherence at a concrete run.
use backend_exercise.Prelude.{◌≡◌, refl, true, none, some, [], ◌∷◌, ok, raise, value_error}
use backend_exercise.Clock.{utc, normalize_utc}
use backend_exercise.Dict
use backend_exercise.Stats.Schemas.{BookmarkStats}
use backend_exercise.Stats.Snapshots.{
  SnapshotRecord, StatsSnapshotStore, current_epoch, empty, invalidate, epoch, publish, get,
}
use backend_exercise.Stats.Snapshots.Coherence.{
  World, idle, Reach, here, next, observe, read, install, get-truth,
}

program : Unit {0}
unfolding current_epoch invalidate epoch publish get normalize_utc Dict.get Dict.put
program = tt

abbrev pub three : BookmarkStats
three = record { total_bookmarks = 3; total_tags = 0; top_tags = []; bookmarks_per_month = [] }

abbrev pub first : SnapshotRecord
first = record { stats = three; generated_at = 7; source_generation = 0; invalidation_epoch = 0 }

abbrev pub stored : StatsSnapshotStore
stored = record { records = (1, first) ∷ []; epochs = [] }

abbrev bumped : StatsSnapshotStore
bumped = record { records = []; epochs = (1, 1) ∷ [] }

published : publish empty 1 three (utc 7) 0 0 ≡ ok (true, stored)
unfolding program
published = refl

pub seen :
    (get stored 1 ≡ ok (some first)) × (get stored 2 ≡ ok none) × (get stored 0 ≡ raise value_error)
unfolding program
seen = (refl, refl, refl)

bumped_first : invalidate empty 1 ≡ ok (1, bumped)
unfolding program
bumped_first = refl

abbrev pub start : World
start = record { store = empty; truth = λ u. three; pending = λ u. 0; worker = idle }

no_epoch : epoch start.store 1 ≡ ok 0
unfolding program
no_epoch = refl

abbrev pub later : World
later = record start { store = stored }

pub refreshed : Reach start later
refreshed =
    next (next (next here (observe 1 0 no_epoch)) (read 1 0 refl))
      (install 1 0 three (utc 7) 0 true stored refl published)

get-truth_example : first.stats ≡ three
get-truth_example =
    get-truth start later 1 first (record { no_snapshot = refl; no_work = refl }) refreshed refl
      seen.0
