-- ===== src/Stats/Snapshots.antt =====
-- app/bookmarks/stats/snapshots.py: the process-local snapshots. Each method holds the store's lock
-- for its whole work on the store, so it is one step. Identifiers, generations and epochs are ℕ:
-- the tests for negative numbers and for other types than int have no counterpart.
pub mod Epochs
pub mod Coherence
pub mod Examples
use backend_exercise.Prelude.{
  ℕ, ◌+◌, Bool, true, false, not, Option, none, some, [], Result, ok, raise, value_error, eqb,
  nat_eq, require, if◌then◌else◌, ◌>>=◌, ◌>>◌,
}
use backend_exercise.Clock.{DateTime, normalize_utc}
use backend_exercise.Dict
use backend_exercise.Dict.{Dict}
use backend_exercise.Stats.Schemas.{BookmarkStats}

pub record SnapshotRecord : Type 0 where
  pub stats : BookmarkStats
  pub generated_at : ℕ
  pub source_generation : ℕ
  pub invalidation_epoch : ℕ

pub record StatsSnapshotStore : Type 0 where
  pub records : Dict ℕ SnapshotRecord
  pub epochs : Dict ℕ ℕ

abbrev positive_identifier : ℕ → Result (Unit {0})
positive_identifier value = require (not (eqb value 0)) value_error

abbrev pub or_zero : Option ℕ → ℕ
or_zero none = 0
or_zero (some n) = n

-- `self._epochs.get(user_id, 0)`
unfoldable pub current_epoch : StatsSnapshotStore → ℕ → ℕ
current_epoch s user_id = or_zero (Dict.get user_id s.epochs)

abbrev pub empty : StatsSnapshotStore
empty = record { records = []; epochs = [] }

-- `invalidate`: the new epoch and the store.
unfoldable pub invalidate : StatsSnapshotStore → ℕ → Result (ℕ × StatsSnapshotStore)
invalidate s user_id = do
  positive_identifier user_id
  let next = current_epoch s user_id + 1
  ok (next, record s { epochs = Dict.put user_id next s.epochs })

-- `epoch`
unfoldable pub epoch : StatsSnapshotStore → ℕ → Result ℕ
epoch s user_id = do positive_identifier user_id; ok (current_epoch s user_id)

-- `publish`: whether the candidate was installed, and the store.
unfoldable pub publish :
    StatsSnapshotStore
    → (user_id : ℕ) → BookmarkStats
    → (generated_at : DateTime) → (source_generation expected_epoch : ℕ)
    → Result (Bool × StatsSnapshotStore)
publish s user_id stats generated_at source_generation expected_epoch = do
  positive_identifier user_id
  at ← normalize_utc generated_at
  let candidate : SnapshotRecord = record {
    stats = stats;
    generated_at = at;
    source_generation = source_generation;
    invalidation_epoch = expected_epoch;
  }
  if eqb (current_epoch s user_id) expected_epoch
      then ok (true, record s { records = Dict.put user_id candidate s.records })
      else ok (false, s)

-- The test of `get` on what it looked up.
abbrev current_record : Option SnapshotRecord → ℕ → Option SnapshotRecord
current_record none now = none
current_record (some r) now = if eqb r.invalidation_epoch now then some r else none

-- `get`
unfoldable pub get : StatsSnapshotStore → ℕ → Result (Option SnapshotRecord)
get s user_id = do
  positive_identifier user_id
  ok (current_record (Dict.get user_id s.records) (current_epoch s user_id))
