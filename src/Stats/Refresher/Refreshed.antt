-- ===== src/Stats/Refresher/Refreshed.antt =====
-- The worker completes a user's markers only together with a snapshot.
use backend_exercise.Prelude.{
  ℕ, ◌+◌, ◌≡◌, ◌⊎◌, inl, inr, refl, sym, ◌∙◌, ap, Bool, true, false, Bool-cases, Option, none, some,
  List, [], ◌∷◌, Result, ok, raise, arith, pair_eq, nat_eq, All, eqb, eqb_iff,
}
use backend_exercise.Clock.{DateTime, utc}
use backend_exercise.Dict
use backend_exercise.Stats.Schemas.{BookmarkStats}
use backend_exercise.Stats.Snapshots
use backend_exercise.Stats.Snapshots.{StatsSnapshotStore, SnapshotRecord, current_epoch}
use backend_exercise.Stats.Snapshots.Epochs.{
  candidate, publish-eq-ok, Invalidated, invalidate-eq-ok,
}
use backend_exercise.Stats.Dirty.{Table, DirtyMarker}
use backend_exercise.Stats.Refresher.{
  Shared, Candidate, acknowledge_all, source_generation, invalidate_safely, committed, published,
  finalize, refresh_user,
}
use backend_exercise.Stats.Refresher.Completed.{Completed, acknowledge_all-Completed}

-- What a refresh leaves.
abbrev pub Refreshed : Shared → ℕ → List DirtyMarker → Candidate → Result Bool × Shared → Type 0
Refreshed shared user markers c (ok true, after) =
    All (Completed after.table) markers
    × (Snapshots.get after.store user
        ≡ ok (
            some (
              candidate c.stats (utc c.generated_at) (source_generation markers) c.expected_epoch)))
Refreshed shared user markers c (ok false, after) = after ≡ shared
Refreshed shared user markers c (raise e, after) =
    (after.table ≡ shared.table)
    × ((after.store ≡ shared.store) ⊎ (Snapshots.get after.store user ≡ ok none))

-- A published snapshot is the current one, until its user is invalidated.
publish-positive :
    (s : StatsSnapshotStore) (u : ℕ) (stats : BookmarkStats) (at : DateTime) (g e : ℕ)
    (x : Bool × StatsSnapshotStore)
    → Snapshots.publish s u stats at g e ≡ ok x
    → eqb u 0 ≡ false
unfolding Snapshots.publish
publish-positive s u stats at g e x h = elim (Bool-cases (eqb u 0)) [
  | inl z ↦ absurd (ground arith)
  | inr n ↦ n
]

get-current :
    (s : StatsSnapshotStore) (u : ℕ) (r : SnapshotRecord)
    → eqb u 0 ≡ false
    → Dict.get u s.records ≡ some r
    → current_epoch s u ≡ r.invalidation_epoch
    → Snapshots.get s u ≡ ok (some r)
unfolding Snapshots.get
get-current s u r p f q =
    rw p (rw f (rw ((eqb_iff r.invalidation_epoch (current_epoch s u)).1 (sym q)) refl))

get-outdated :
    (s : StatsSnapshotStore) (u : ℕ) (r : SnapshotRecord)
    → eqb u 0 ≡ false
    → Dict.get u s.records ≡ some r
    → eqb r.invalidation_epoch (current_epoch s u) ≡ false
    → Snapshots.get s u ≡ ok none
unfolding Snapshots.get
get-outdated s u r p f q = rw p (rw f (rw q refl))

invalidate_safely-Invalidated :
    (s : StatsSnapshotStore) (u : ℕ)
    → eqb u 0 ≡ false
    → Invalidated s u (current_epoch s u + 1) (invalidate_safely s u)
unfolding invalidate_safely Snapshots.invalidate
invalidate_safely-Invalidated s u p =
    invalidate-eq-ok s u (current_epoch s u + 1) (invalidate_safely s u) (rw p refl)

behind : (n : ℕ) → eqb n (n + 1) ≡ false
behind n = ground arith

module _ (shared : Shared) (user : ℕ) (c : Candidate) where
  abbrev made : ℕ → SnapshotRecord
  made g = candidate c.stats (utc c.generated_at) g c.expected_epoch

  visible :
      (g : ℕ) (store : StatsSnapshotStore)
      → Snapshots.publish shared.store user c.stats (utc c.generated_at) g c.expected_epoch
        ≡ ok (true, store)
      → (Snapshots.get store user ≡ ok (some (made g)))
        × (Snapshots.get (invalidate_safely store user) user ≡ ok none)
  visible g store h =
      elim (publish-eq-ok shared.store user c.stats (utc c.generated_at) g c.expected_epoch true
        store h) [
          | inl (b, done) ↦
              let pos =
                publish-positive shared.store user c.stats (utc c.generated_at) g c.expected_epoch
                  (true, store) h in
              let same : eqb user user ≡ true = (eqb_iff user user).1 refl in
              let found : Dict.get user store.records ≡ some (made g) =
                rw (done.records user) (rw same refl) in
              let now : current_epoch store user ≡ c.expected_epoch =
                done.same_epochs user ∙ done.in_time in
              let gone = invalidate_safely-Invalidated store user pos in
              let later : current_epoch (invalidate_safely store user) user
                  ≡ current_epoch store user + 1 =
                rw (gone.epochs user) (rw same refl) in
              (
                get-current store user (made g) pos found now,
                get-outdated (invalidate_safely store user) user (made g) pos
                    (rw gone.same_records found) (rw later (rw now (behind c.expected_epoch))),
              )
          | inr late ↦ absurd (ground arith)
        ]

committed-Refreshed :
    (shared : Shared) (user : ℕ) (markers : List DirtyMarker) (c : Candidate)
    (store : StatsSnapshotStore) (working : Table) (commit : Result (Unit {0}))
    → Snapshots.publish shared.store user c.stats
        (utc c.generated_at)
        (source_generation markers)
        c.expected_epoch
      ≡ ok (true, store)
    → All (Completed working) markers
    → Refreshed shared user markers c (committed shared store user markers working commit)
unfolding committed
committed-Refreshed shared user [] c store working commit h d =
    (tt, (visible shared user c (source_generation []) store h).0)
committed-Refreshed shared user (m ∷ markers) c store working (ok done) h d =
    (d, (visible shared user c (source_generation (m ∷ markers)) store h).0)
committed-Refreshed shared user (m ∷ markers) c store working (raise e) h d =
    (refl, inr (visible shared user c (source_generation (m ∷ markers)) store h).1)

published-Refreshed :
    (shared : Shared) (user : ℕ) (markers : List DirtyMarker) (c : Candidate) (working : Table)
    (commit : Result (Unit {0})) (p : Result (Bool × StatsSnapshotStore))
    → Snapshots.publish shared.store user c.stats
        (utc c.generated_at)
        (source_generation markers)
        c.expected_epoch
      ≡ p
    → All (Completed working) markers
    → Refreshed shared user markers c (published shared user markers working commit p)
unfolding published
published-Refreshed shared user markers c working commit (raise e) h d = (refl, inl refl)
published-Refreshed shared user markers c working commit (ok (true, store)) h d =
    committed-Refreshed shared user markers c store working commit h d
published-Refreshed shared user markers c working commit (ok (false, store)) h d =
    elim (publish-eq-ok shared.store user c.stats (utc c.generated_at) (source_generation markers)
      c.expected_epoch false store h) [
        | inl done ↦ absurd (ground arith)
        | inr late ↦ ap (λ (x : StatsSnapshotStore). record shared { store = x }) late.2
      ]

finalize-Refreshed :
    (shared : Shared) (user : ℕ) (markers : List DirtyMarker) (c : Candidate)
    (commit : Result (Unit {0})) (done : Result (Option Table))
    → acknowledge_all shared.table markers ≡ done
    → Refreshed shared user markers c (finalize shared user markers c commit done)
unfolding finalize
finalize-Refreshed shared user markers c commit (raise e) h = (refl, inl refl)
finalize-Refreshed shared user markers c commit (ok none) h = refl
finalize-Refreshed shared user markers c commit (ok (some working)) h =
    published-Refreshed shared user markers c working commit _ refl
      (acknowledge_all-Completed shared.table markers working h)

-- No work is completed without its snapshot. If a refresh succeeds, every marker that it was for is
-- gone or completed at its generation, and the store returns the statistics that were read as the
-- user's snapshot. If it reports a stale candidate, it has changed nothing. If it fails, whether a
-- marker is refused, the publication fails or the commit does, no marker has changed, and the store
-- is as it was or returns no snapshot of the user.
pub refresh_user-Refreshed :
    (shared : Shared) (user : ℕ) (markers : List DirtyMarker) (c : Candidate)
    (commit : Result (Unit {0}))
    → Refreshed shared user markers c (refresh_user shared user markers c commit)
unfolding refresh_user
refresh_user-Refreshed shared user markers c commit =
    finalize-Refreshed shared user markers c commit (acknowledge_all shared.table markers) refl
