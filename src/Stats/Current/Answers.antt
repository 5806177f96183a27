-- ===== src/Stats/Current/Answers.antt =====
-- What a request for statistics is answered.
use backend_exercise.Prelude.{
  ℕ, ◌+◌, ◌*◌, ◌≤◌, ◌≡◌, ◌⊎◌, inl, inr, refl, Error, Option-cases, Bool, true, Option, none, some,
  Result, ok, raise, arith, Bool-cases,
}
use backend_exercise.Clock.{DateTime, normalize_utc, second}
use backend_exercise.Stats.Schemas.{BookmarkStats}
use backend_exercise.Stats.Snapshots
use backend_exercise.Stats.Snapshots.{SnapshotRecord, StatsSnapshotStore}
use backend_exercise.Stats.Current.{
  CurrentStatsResult, CurrentStatsService, snapshot, live, considered, answer, is_fresh, read,
}

-- What an answer from a snapshot shows of the service at that moment.
pub record FromSnapshot (service : CurrentStatsService) (user now : ℕ) (healthy : Result Bool)
    (a : CurrentStatsResult) : Type 0 where
  pub store : StatsSnapshotStore
  pub found : SnapshotRecord
  pub enabled : service.refresh_enabled ≡ true
  pub has_store : service.store ≡ some store
  pub is_healthy : healthy ≡ ok true
  pub current : Snapshots.get store user ≡ ok (some found)
  pub from_past : found.generated_at ≤ now
  pub recent : now ≤ found.generated_at + service.stale_after_seconds * second
  pub same_stats : a.stats ≡ found.stats
  pub same_time : a.generated_at ≡ some found.generated_at

considered-some :
    (service : CurrentStatsService) (user : ℕ) (healthy : Result Bool) (r : SnapshotRecord)
    → considered service user healthy ≡ some r
    → (s : StatsSnapshotStore) × (service.store ≡ some s)
      × (service.refresh_enabled ≡ true)
      × (healthy ≡ ok true)
      × (Snapshots.get s user ≡ ok (some r))
unfolding considered
considered-some service user healthy r h = elim (Option-cases service.store) [
  | inl e ↦ absurd (ground arith)
  | inr (s, e) ↦ (s, e, ground arith, ground arith, ground arith)
]

abbrev pub FromLive : Result BookmarkStats → CurrentStatsResult → Type 0
FromLive reader a = (a.source ≡ live) × (reader ≡ ok a.stats) × (a.generated_at ≡ none)

answer-eq-ok :
    (service : CurrentStatsService) (user now : ℕ) (healthy : Result Bool)
    (reader : Result BookmarkStats) (o : Option SnapshotRecord) (a : CurrentStatsResult)
    → considered service user healthy ≡ o
    → answer service now o reader ≡ ok a
    → ((a.source ≡ snapshot) × FromSnapshot service user now healthy a) ⊎ FromLive reader a
unfolding answer
answer-eq-ok service user now healthy reader none a c h = inr (ground arith)
answer-eq-ok service user now healthy reader (some r) a c h =
    elim (Bool-cases (is_fresh service now r)) [
      | inl f ↦
          let (s, has, on, up, got) = considered-some service user healthy r c in
          inl (
            ground arith,
            record {
              store = s;
              found = r;
              enabled = on;
              has_store = has;
              is_healthy = up;
              current = got;
              from_past = ground arith;
              recent = ground arith;
              same_stats = ground arith;
              same_time = ground arith;
            },
          )
      | inr f ↦ inr (ground arith)
    ]

-- Every answer says truly where it is from. One that is marked as a snapshot is the store's current
-- record for the user, given only while refreshing is on and the worker healthy, and it is at most
-- the configured time old and not from the future; any other answer is what the live query returned.
pub read-eq-ok :
    (service : CurrentStatsService) (user t : ℕ) (now : DateTime) (healthy : Result Bool)
    (reader : Result BookmarkStats) (a : CurrentStatsResult)
    → normalize_utc now ≡ ok t
    → read service user now healthy reader ≡ ok a
    → ((a.source ≡ snapshot) × FromSnapshot service user t healthy a) ⊎ FromLive reader a
unfolding read
read-eq-ok service user t now healthy reader a n h =
    answer-eq-ok service user t healthy reader (considered service user healthy) a refl
      (ground arith)

answer-eq-raise :
    (service : CurrentStatsService) (t : ℕ) (o : Option SnapshotRecord)
    (reader : Result BookmarkStats) (e : Error)
    → answer service t o reader ≡ raise e
    → reader ≡ raise e
unfolding answer
answer-eq-raise service t none reader e h = ground arith
answer-eq-raise service t (some r) reader e h = ground arith

Result-cases {ℓ} :
    {A : Type ℓ} (m : Result A) → ((a : A) × (m ≡ ok a)) ⊎ ((e : Error) × (m ≡ raise e))
Result-cases (ok a) = inl (a, refl)
Result-cases (raise e) = inr (e, refl)

-- Trouble with the snapshot, the store or the health check never fails a request: it fails only if
-- the clock does, or the live query does.
pub read-eq-raise :
    (service : CurrentStatsService) (user : ℕ) (now : DateTime) (healthy : Result Bool)
    (reader : Result BookmarkStats) (e : Error)
    → read service user now healthy reader ≡ raise e
    → (normalize_utc now ≡ raise e) ⊎ (reader ≡ raise e)
unfolding read
read-eq-raise service user now healthy reader e h = elim (Result-cases (normalize_utc now)) [
  | inl (t, n) ↦
      inr (answer-eq-raise service t (considered service user healthy) reader e (ground arith))
  | inr (x, n) ↦ inl (ground arith)
]
