-- ===== src/Stats/Cycle/Phases.antt =====
-- What the work on markers and overdue rows keeps.
use backend_exercise.Prelude.{ℕ, suc, ap, Bool, Option, List, [], ◌∷◌, Result, ok, raise}
use backend_exercise.Clock.{DateTime}
use backend_exercise.Weekly.{WeeklyWindow}
use backend_exercise.Stats.Calculation.{WeeklyCalculation}
use backend_exercise.Stats.Dirty.{DirtyMarker}
use backend_exercise.Stats.Projection.{WorkingProjectionRecord}
use backend_exercise.Stats.Projection.Points.History.{IsHistory}
use backend_exercise.Stats.Projection.Working.Rows.{IsKeyed}
use backend_exercise.Stats.Processor.{Session, Config}
use backend_exercise.Stats.Processor.Process.{
  ProjectionProcessOutcome, applied, deferred, stale, absent,
}
use backend_exercise.Stats.Processor.Process.Applied.{IsProjected, projections}
use backend_exercise.Stats.Processor.Process.DirtyMarkers.{DirtyOutcome}
use backend_exercise.Stats.Processor.Process.Overdue.{OverdueOutcome}
use backend_exercise.Stats.Cycle.{committed_if_applied, and_then, process_all}
use backend_exercise.Stats.Cycle.Safe.{IsSafe, IsSafe-same, IsSafe-trans}

pub and_then-IsSafe {ℓ κ} :
    {T : Type ℓ} {U : Type κ} (s : Session) (x : Result T × Session)
    (next : T → Session → Result U × Session)
    → IsSafe s x.1
    → ((t : T) (m : Session) → IsKeyed m.working → IsHistory m.points → IsSafe m (next t m).1)
    → IsSafe s (and_then x next).1
and_then-IsSafe s (raise error, m) next a b = a
and_then-IsSafe s (ok t, m) next a b = IsSafe-trans s m (next t m).1 a (b t m a.keyed a.history)

projected-IsSafe :
    (before after : Session) (u : ℕ) (w : WeeklyWindow) (c : WeeklyCalculation) (g now : ℕ)
    (revision : Option ℕ) (made : Bool)
    → IsProjected before u w c g now (record {
      appended_revision = revision;
      created_current_working = made;
      session = projections before after;
    })
    → IsSafe before after
projected-IsSafe before after u w c g now revision made is = record {
  keyed = is.keyed;
  history = is.history;
  users_same = ap (λ (x : Session). x.users) is.only_projections;
  bookmarks_same = ap (λ (x : Session). x.bookmarks) is.only_projections;
}

module _ (config : Config) (s : Session) (keyed : IsKeyed s.working)
    (history : IsHistory s.points) where
  pub dirty-IsSafe :
      (m : DirtyMarker) (clock : DateTime) (r : Result ProjectionProcessOutcome) (after : Session)
      → DirtyOutcome config s m clock r after
      → IsSafe s (committed_if_applied s (r, after)).1
  dirty-IsSafe m clock (raise error) after o = IsSafe-same s keyed history
  dirty-IsSafe m clock (ok deferred) after o = absurd o
  dirty-IsSafe m clock (ok stale) after o = IsSafe-same s keyed history
  dirty-IsSafe m clock (ok absent) after o = absurd o
  dirty-IsSafe m clock (ok (applied revision made)) after o =
      projected-IsSafe s after m.user_id o.window o.c m.row.generation o.now revision made
        o.projected

  pub overdue-IsSafe :
      (row : WorkingProjectionRecord) (clock : DateTime) (r : Result ProjectionProcessOutcome)
      (after : Session)
      → OverdueOutcome config s row clock r after
      → IsSafe s (committed_if_applied s (r, after)).1
  overdue-IsSafe row clock (raise error) after o = IsSafe-same s keyed history
  overdue-IsSafe row clock (ok deferred) after o = IsSafe-same s keyed history
  overdue-IsSafe row clock (ok stale) after o = absurd o
  overdue-IsSafe row clock (ok absent) after o = IsSafe-same s keyed history
  overdue-IsSafe row clock (ok (applied revision made)) after o =
      projected-IsSafe s after o.row.user_id o.row.window o.finalized.c o.row.source_generation
        o.now revision made o.finalized.projected

pub process_all-IsSafe {ℓ} :
    {A : Type ℓ} (process : Session → A → DateTime → Result ProjectionProcessOutcome × Session)
    (clock : ℕ → DateTime)
    → ((s : Session) (a : A) (d : DateTime)
        → IsKeyed s.working
        → IsHistory s.points
        → IsSafe s (committed_if_applied s (process s a d)).1)
    → (n : ℕ) (items : List A) (s : Session) → IsKeyed s.working
    → IsHistory s.points
    → IsSafe s (process_all process clock n items s).1
unfolding process_all
process_all-IsSafe process clock one n [] s k h = IsSafe-same s k h
process_all-IsSafe process clock one n (a ∷ items) s k h =
    and_then-IsSafe s (committed_if_applied s (process s a (clock n)))
      (λ u after. process_all process clock (suc n) items after) (one s a (clock n) k h)
      (λ u m k' h'. process_all-IsSafe process clock one (suc n) items m k' h')
