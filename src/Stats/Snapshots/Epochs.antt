-- ===== src/Stats/Snapshots/Epochs.antt =====
-- What the operations of the snapshot store do to epochs and records.
use backend_exercise.Prelude.{
  ℕ, ◌+◌, ◌≡◌, ◌≢◌, ◌⊎◌, inl, inr, Bool, true, false, some, arith, Result, ok, raise, eqb, nat_eq,
  if◌then◌else◌, Bool-cases,
}
use backend_exercise.Clock.{DateTime, normalize_utc}
use backend_exercise.Dict
use backend_exercise.Stats.Schemas.{BookmarkStats}
use backend_exercise.Stats.Snapshots.{
  SnapshotRecord, StatsSnapshotStore, current_epoch, invalidate, epoch, publish, get, or_zero,
}

pub record Invalidated (s : StatsSnapshotStore) (u e : ℕ) (after : StatsSnapshotStore)
    : Type 0 where
  pub next : e ≡ current_epoch s u + 1
  pub epochs : (v : ℕ) → current_epoch after v ≡ (if eqb u v then e else current_epoch s v)
  pub same_records : after.records ≡ s.records

pub invalidate-eq-ok :
    (s : StatsSnapshotStore) (u e : ℕ) (after : StatsSnapshotStore)
    → invalidate s u ≡ ok (e, after)
    → Invalidated s u e after
unfolding invalidate current_epoch
invalidate-eq-ok s u e after h = record {
  next = ground arith;
  epochs = λ v. ground (arith, Dict.get-put u v (or_zero (Dict.get u s.epochs) + 1) s.epochs);
  same_records = ground arith;
}

-- The record that `publish` makes of its arguments.
abbrev stamp : Result ℕ → ℕ
stamp (ok t) = t
stamp (raise e) = 0

abbrev pub candidate : BookmarkStats → DateTime → ℕ → ℕ → SnapshotRecord
candidate stats at g e = record {
  stats = stats;
  generated_at = stamp (normalize_utc at);
  source_generation = g;
  invalidation_epoch = e;
}

pub record Installed (s : StatsSnapshotStore) (u : ℕ) (r : SnapshotRecord)
    (after : StatsSnapshotStore) : Type 0 where
  pub in_time : current_epoch s u ≡ r.invalidation_epoch
  pub records :
      (v : ℕ) → Dict.get v after.records ≡ (if eqb u v then some r else Dict.get v s.records)
  pub same_epochs : (v : ℕ) → current_epoch after v ≡ current_epoch s v

pub publish-eq-ok :
    (s : StatsSnapshotStore) (u : ℕ) (stats : BookmarkStats) (at : DateTime) (g e : ℕ) (b : Bool)
    (after : StatsSnapshotStore)
    → publish s u stats at g e ≡ ok (b, after)
    → ((b ≡ true) × Installed s u (candidate stats at g e) after)
      ⊎ ((b ≡ false) × (current_epoch s u ≢ e) × (after ≡ s))
unfolding publish
publish-eq-ok s u stats at g e b after h = elim (Bool-cases (eqb (current_epoch s u) e)) [
  | inl q ↦ inl (
    ground arith,
    record {
      in_time = ground arith;
      records = λ v. ground (arith, Dict.get-put u v (candidate stats at g e) s.records);
      same_epochs = λ v. unfold current_epoch in ground arith;
    },
  )
  | inr q ↦ inr (ground arith, ground arith, ground arith)
]

pub epoch-eq-ok : (s : StatsSnapshotStore) (u e : ℕ) → epoch s u ≡ ok e → e ≡ current_epoch s u
unfolding epoch
epoch-eq-ok s u e h = ground arith

pub get-eq-some :
    (s : StatsSnapshotStore) (u : ℕ) (r : SnapshotRecord)
    → get s u ≡ ok (some r)
    → (Dict.get u s.records ≡ some r) × (r.invalidation_epoch ≡ current_epoch s u)
unfolding get
get-eq-some s u r h = ground arith
