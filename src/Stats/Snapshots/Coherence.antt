-- ===== src/Stats/Snapshots/Coherence.antt =====
-- Why a snapshot can be trusted. The parties that touch the store run concurrently: requests commit
-- a mutation and then invalidate, and the one worker reads the epoch, then the statistics, then
-- publishes (app/bookmarks/service.py, `StatsInvalidationPublisher.publish` and
-- `StatsRefresher._refresh_user`). The steps below are the points at which they meet.
use backend_exercise.Prelude.{
  ℕ, ◌+◌, ◌≤◌, ◌≡◌, inl, inr, refl, sym, subst, ◌∙◌, Bool, false, some, arith, ok, eqb, eqb_iff,
  nat_eq, if◌then◌else◌, Bool-cases,
}
use backend_exercise.Clock.{DateTime}
use backend_exercise.Dict
use backend_exercise.Stats.Schemas.{BookmarkStats}
use backend_exercise.Stats.Snapshots.{
  SnapshotRecord, StatsSnapshotStore, current_epoch, empty, invalidate, epoch, publish, get,
}
use backend_exercise.Stats.Snapshots.Epochs.{
  Invalidated, invalidate-eq-ok, Installed, candidate, publish-eq-ok, epoch-eq-ok, get-eq-some,
}

-- What the worker holds between its calls.
pub data Worker : Type 0 where
  idle : Worker
  observing : (user epoch : ℕ) → Worker
  holding : (user epoch : ℕ) → BookmarkStats → Worker

-- `truth` is what the statistics queries return of the committed data; `pending` counts a user's
-- commits whose invalidation has not run yet.
pub record World : Type 0 where
  pub store : StatsSnapshotStore
  pub truth : ℕ → BookmarkStats
  pub pending : ℕ → ℕ
  pub worker : Worker

abbrev at_key {ℓ} : {A : Type ℓ} → (ℕ → A) → ℕ → A → ℕ → A
at_key f u v k = if eqb u k then v else f k

pub data Step (w : World) : World → Type 0 where
  commit :
      (u : ℕ) (stats : BookmarkStats)
      → Step w (record w {
        truth = at_key w.truth u stats;
        pending = at_key w.pending u (w.pending u + 1);
      })
  notify :
      (u n e : ℕ) (s : StatsSnapshotStore)
      → w.pending u ≡ n + 1
      → invalidate w.store u ≡ ok (e, s)
      → Step w (record w { store = s; pending = at_key w.pending u n })
  distrust :
      (u e : ℕ) (s : StatsSnapshotStore)
      → invalidate w.store u ≡ ok (e, s)
      → Step w (record w { store = s })
  observe : (u e : ℕ) → epoch w.store u ≡ ok e → Step w (record w { worker = observing u e })
  read :
      (u e : ℕ) → w.worker ≡ observing u e → Step w (record w { worker = holding u e (w.truth u) })
  install :
      (u e : ℕ) (stats : BookmarkStats) (at : DateTime) (g : ℕ) (b : Bool) (s : StatsSnapshotStore)
      → w.worker ≡ holding u e stats
      → publish w.store u stats at g e ≡ ok (b, s)
      → Step w (record w { store = s; worker = idle })
  abandon : Step w (record w { worker = idle })

pub data Reach (w : World) : World → Type 0 where
  here : Reach w w
  next : {v x : World} → Reach w v → Step v x → Reach w x

abbrev Held : World → Worker → Type 0
Held w idle = Unit
Held w (observing u e) = e ≤ current_epoch w.store u
Held w (holding u e stats) =
    (e ≤ current_epoch w.store u)
    × (e ≡ current_epoch w.store u → w.pending u ≡ 0 → stats ≡ w.truth u)

record Inv (w : World) : Type 0 where
  bounded :
      (u : ℕ) (r : SnapshotRecord)
      → Dict.get u w.store.records ≡ some r
      → r.invalidation_epoch ≤ current_epoch w.store u
  fresh :
      (u : ℕ) (r : SnapshotRecord)
      → Dict.get u w.store.records ≡ some r
      → r.invalidation_epoch ≡ current_epoch w.store u
      → w.pending u ≡ 0
      → r.stats ≡ w.truth u
  held : Held w w.worker

commit-Held :
    (w : World) (u : ℕ) (stats : BookmarkStats) (k : Worker)
    → Held w k
    → Held
        (record w {
          truth = at_key w.truth u stats;
          pending = at_key w.pending u (w.pending u + 1);
        })
        k
commit-Held w u stats idle h = tt
commit-Held w u stats (observing v e) h = h
commit-Held w u stats (holding v e found) h = (h.0, λ q p. ground (arith, h.1 q))

commit-Inv :
    (w : World) (u : ℕ) (stats : BookmarkStats)
    → Inv w
    → Inv (record w {
      truth = at_key w.truth u stats;
      pending = at_key w.pending u (w.pending u + 1);
    })
commit-Inv w u stats i = record {
  bounded = i.bounded;
  fresh = λ v r g q p. ground (arith, i.fresh v r g q);
  held = commit-Held w u stats w.worker i.held;
}

module _ (w : World) (u e : ℕ) (s : StatsSnapshotStore) (pending : ℕ → ℕ)
    (others : (v : ℕ) → eqb u v ≡ false → pending v ≡ w.pending v)
    (done : Invalidated w.store u e s) where
  epoch_grows : (v : ℕ) → current_epoch w.store v ≤ current_epoch s v
  epoch_grows v = ground (arith, done.next, done.epochs v, eqb_iff u v)

  invalidate-Held : (k : Worker) → Held w k → Held (record w { store = s; pending = pending }) k
  invalidate-Held idle h = tt
  invalidate-Held (observing v x) h = omega (arith, epoch_grows v)
  invalidate-Held (holding v x found) h = (
    omega (arith, h.0, epoch_grows v),
    λ q p. elim (Bool-cases (eqb u v)) [
      | inl same ↦ absurd (ground (arith, done.next, done.epochs v, eqb_iff u v, h.0))
      | inr other ↦ h.1 (ground (arith, done.epochs v)) (sym (others v other) ∙ p)
    ],
  )

  invalidate-Inv : Inv w → Inv (record w { store = s; pending = pending })
  invalidate-Inv i = record {
    bounded = λ v r g.
        let old = i.bounded v r (rw done.same_records at g) in omega (arith, old, epoch_grows v);
    fresh = λ v r g q p.
        let found : Dict.get v w.store.records ≡ some r = rw (← done.same_records) g in
        let old = i.bounded v r found in
        elim (Bool-cases (eqb u v)) [
          | inl same ↦ absurd (ground (arith, done.next, done.epochs v, eqb_iff u v))
          | inr other ↦ i.fresh v r found (ground (arith, done.epochs v)) (sym (others v other) ∙ p)
        ];
    held = invalidate-Held w.worker i.held;
  }

install-Inv :
    (w : World) (u e : ℕ) (stats : BookmarkStats) (at : DateTime) (g : ℕ) (s : StatsSnapshotStore)
    → w.worker ≡ holding u e stats
    → Installed w.store u (candidate stats at g e) s
    → Inv w
    → Inv (record w { store = s; worker = idle })
install-Inv w u e stats at g s k done i =
    let (low, true_still) = subst (Held w) k i.held in
    record {
      bounded =
          λ v r f. ground (arith, done.records v, done.same_epochs v, eqb_iff u v, i.bounded v r);
      fresh = λ v r f q p. ground (
        arith,
        done.records v,
        done.same_epochs v,
        eqb_iff u v,
        done.in_time,
        true_still,
        i.fresh v r,
      );
      held = tt;
    }

-- No step breaks the invariant.
Step-Inv : {w v : World} → Step w v → Inv w → Inv v
Step-Inv {w} (commit u stats) i = commit-Inv w u stats i
Step-Inv {w} (notify u n e s p h) i =
    invalidate-Inv w u e s (at_key w.pending u n) (λ v q. ground arith)
      (invalidate-eq-ok w.store u e s h) i
Step-Inv {w} (distrust u e s h) i =
    invalidate-Inv w u e s w.pending (λ v q. refl) (invalidate-eq-ok w.store u e s h) i
Step-Inv {w} (observe u e h) i = record {
  bounded = i.bounded;
  fresh = i.fresh;
  held = omega (arith, epoch-eq-ok w.store u e h);
}
Step-Inv {w} (read u e k) i = record {
  bounded = i.bounded;
  fresh = i.fresh;
  held = (subst (Held w) k i.held, λ q p. refl);
}
Step-Inv {w} (install u e stats at g b s k h) i =
    elim (publish-eq-ok w.store u stats at g e b s h) [
      | inl done ↦ install-Inv w u e stats at g s k done.1 i
      | inr late ↦ rw late.2 (record { bounded = i.bounded; fresh = i.fresh; held = tt })
    ]
Step-Inv {w} abandon i = record { bounded = i.bounded; fresh = i.fresh; held = tt }

Reach-Inv : {w v : World} → Inv w → Reach w v → Inv v
Reach-Inv i here = i
Reach-Inv i (next r s) = Step-Inv s (Reach-Inv i r)

-- A process starts with no snapshot.
pub record IsStart (w : World) : Type 0 where
  pub no_snapshot : w.store ≡ empty
  pub no_work : w.worker ≡ idle

start-Inv : (w : World) → IsStart w → Inv w
unfolding Dict.get
start-Inv w h = record {
  bounded = λ u r g. absurd (ground (arith, h.no_snapshot));
  fresh = λ u r g q p. absurd (ground (arith, h.no_snapshot));
  held = rw h.no_work tt;
}

-- However the commits and invalidations of the requests interleave with the reads and publications
-- of the worker, a snapshot that `get` returns for a user holds the statistics of the committed
-- data, unless a commit of that user has not been followed by its invalidation yet.
pub get-truth :
    (w v : World) (u : ℕ) (r : SnapshotRecord)
    → IsStart w
    → Reach w v
    → v.pending u ≡ 0
    → get v.store u ≡ ok (some r)
    → r.stats ≡ v.truth u
get-truth w v u r h reach p g =
    let (found, current) = get-eq-some v.store u r g in
    (Reach-Inv (start-Inv w h) reach).fresh u r found current p
