-- ===== src/Stats/Cycle/Reports.antt =====
-- What the projection phase keeps, and what it reports.
use backend_exercise.Prelude.{
  ℕ, ◌≡◌, refl, Bool, true, false, List, Result, ok, raise, Error, Bool-cases, inl, inr,
}
use backend_exercise.Clock.{DateTime}
use backend_exercise.Stats.Dirty.{DirtyMarker}
use backend_exercise.Stats.Projection.{WorkingProjectionRecord}
use backend_exercise.Stats.Projection.Points.History.{IsHistory}
use backend_exercise.Stats.Projection.Working.Rows.{IsKeyed}
use backend_exercise.Stats.Projection.Readiness.{ProjectionReadinessSnapshot}
use backend_exercise.Stats.Processor.{Session, Config}
use backend_exercise.Stats.Processor.Process.{process_dirty, process_overdue}
use backend_exercise.Stats.Processor.Process.DirtyMarkers.{process_dirty-DirtyOutcome}
use backend_exercise.Stats.Processor.Process.Overdue.{process_overdue-OverdueOutcome}
use backend_exercise.Stats.Baseline.{ProjectionBaselineResult, run_step}
use backend_exercise.Stats.Cycle.{
  ProjectionCycleResult, ProjectionLifecycleStatus, projection_status, is_active_status, reported,
  refused, active, and_then, process_all, reading, readiness_at, observed_work, worked,
  active_phase, after_baseline, or_refused, run_projection_phase,
}
use backend_exercise.Stats.Cycle.Safe.{IsSafe, IsSafe-same, run_step-IsSafe}
use backend_exercise.Stats.Cycle.Phases.{
  and_then-IsSafe, process_all-IsSafe, dirty-IsSafe, overdue-IsSafe,
}

-- A success with the status of an active baseline is what readiness says of the database that is left.
pub record IsReported (config : Config) (batch_size : ℕ) (clock : ℕ → DateTime)
    (result : ProjectionCycleResult) (after : Session) : Type 0 where
  pub n : ℕ
  pub snapshot : ProjectionReadinessSnapshot
  pub read : readiness_at config batch_size clock n after ≡ ok snapshot
  pub is_active : projection_status snapshot ≡ active
  pub same : result ≡ reported snapshot true

module _ (config : Config) (batch_size : ℕ) (clock : ℕ → DateTime) where
  abbrev Good : ProjectionCycleResult → Session → Type 0
  Good result after =
      result.successful ≡ true
      → result.status ≡ active
      → IsReported config batch_size clock result after

  abbrev IsGood : Result ProjectionCycleResult × Session → Type 0
  IsGood (raise error, after) = Unit
  IsGood (ok result, after) = Good result after

  and_then-IsGood {ℓ} :
      {T : Type ℓ} (x : Result T × Session)
      (next : T → Session → Result ProjectionCycleResult × Session)
      → ((t : T) (m : Session) → IsGood (next t m))
      → IsGood (and_then x next)
  and_then-IsGood (raise error, m) next g = tt
  and_then-IsGood (ok t, m) next g = g t m

  inactive :
      (status : ProjectionLifecycleStatus) → is_active_status status ≡ false → status ≡ active → ⊥
  inactive status h e = let contradiction : true ≡ false = rw e at h in cc

  final-IsGood :
      (s : Session) (r : Result ProjectionReadinessSnapshot)
      → readiness_at config batch_size clock 203 s ≡ r
      → IsGood (
          and_then (reading r s) (λ final after.
            (ok (reported final (is_active_status (projection_status final))), after)))
  final-IsGood s (raise error) e = tt
  final-IsGood s (ok final) e = λ successful status. record {
    n = 203;
    snapshot = final;
    read = e;
    is_active = status;
    same = rw successful refl;
  }

  active_phase-IsGood :
      (snapshot : ProjectionReadinessSnapshot) (s : Session)
      → IsGood (active_phase config batch_size clock snapshot s)
  unfolding active_phase
  active_phase-IsGood snapshot s =
      elim (Bool-cases (is_active_status (projection_status snapshot))) [
        | inl e ↦ rw e (
            and_then-IsGood (reading (observed_work config batch_size clock 2 s) s) _ (λ work m.
              and_then-IsGood (worked config batch_size clock work m) _
                (λ u last. final-IsGood last (readiness_at config batch_size clock 203 last) refl)))
        | inr e ↦
            rw e (λ successful status. absurd (inactive (projection_status snapshot) e status))
      ]

  after_baseline-IsGood :
      (baseline : ProjectionBaselineResult) (s : Session)
      → IsGood (after_baseline config batch_size clock baseline s)
  after_baseline-IsGood baseline s = elim (Bool-cases baseline.is_active) [
    | inl e ↦ rw e (
        and_then-IsGood (reading (readiness_at config batch_size clock 1 s) s) _
          (λ snapshot m. active_phase-IsGood snapshot m))
    | inr e ↦ rw e (λ successful status. cc)
  ]

  refused-Good : (error : Error) (s : Session) → Good (refused error) s
  refused-Good error s = λ successful status. cc

  or_refused-Good :
      (x : Result ProjectionCycleResult × Session)
      → IsGood x
      → Good (or_refused config batch_size clock x).0 (or_refused config batch_size clock x).1
  or_refused-Good (raise error, s) g = refused-Good error s
  or_refused-Good (ok result, s) g = g

  worked-IsSafe :
      (markers : List DirtyMarker) (overdue : List WorkingProjectionRecord) (s : Session)
      → IsKeyed s.working
      → IsHistory s.points
      → IsSafe s (worked config batch_size clock (markers, overdue) s).1
  unfolding worked
  worked-IsSafe markers overdue s k h =
      and_then-IsSafe s (process_all (process_dirty config) clock 3 markers s) _
        (process_all-IsSafe (process_dirty config) clock
          (λ t m d k' h'.
            dirty-IsSafe config t k' h' m d (process_dirty config t m d).0
              (process_dirty config t m d).1 (process_dirty-DirtyOutcome config t m d k' h'))
          3 markers s k h)
        (λ u after k' h'.
          process_all-IsSafe (process_overdue config) clock
            (λ t row d k'' h''.
              overdue-IsSafe config t k'' h'' row d (process_overdue config t row d).0
                (process_overdue config t row d).1
                (process_overdue-OverdueOutcome config t row d k'' h''))
            103 overdue after k' h')

  reading-IsSafe {ℓ} :
      {T : Type ℓ} (r : Result T) (s : Session)
      (next : T → Session → Result ProjectionCycleResult × Session)
      → IsKeyed s.working
      → IsHistory s.points
      → ((t : T) → IsSafe s (next t s).1)
      → IsSafe s (and_then (reading r s) next).1
  reading-IsSafe (raise error) s next k h safe = IsSafe-same s k h
  reading-IsSafe (ok t) s next k h safe = safe t

  active_phase-IsSafe :
      (snapshot : ProjectionReadinessSnapshot) (s : Session)
      → IsKeyed s.working
      → IsHistory s.points
      → IsSafe s (active_phase config batch_size clock snapshot s).1
  unfolding active_phase
  active_phase-IsSafe snapshot s k h =
      elim (Bool-cases (is_active_status (projection_status snapshot))) [
        | inl e ↦ rw e (
            reading-IsSafe (observed_work config batch_size clock 2 s) s _ k h (λ work.
              and_then-IsSafe s (worked config batch_size clock work s) _
                (worked-IsSafe work.0 work.1 s k h)
                (λ u last k' h'.
                  reading-IsSafe (readiness_at config batch_size clock 203 last) last _ k' h'
                    (λ final. IsSafe-same last k' h'))))
        | inr e ↦ rw e (IsSafe-same s k h)
      ]

  after_baseline-IsSafe :
      (baseline : ProjectionBaselineResult) (s : Session)
      → IsKeyed s.working
      → IsHistory s.points
      → IsSafe s (after_baseline config batch_size clock baseline s).1
  after_baseline-IsSafe baseline s k h = elim (Bool-cases baseline.is_active) [
    | inl e ↦ rw e (
        reading-IsSafe (readiness_at config batch_size clock 1 s) s _ k h
          (λ snapshot. active_phase-IsSafe snapshot s k h))
    | inr e ↦ rw e (IsSafe-same s k h)
  ]

  or_refused-IsSafe :
      (s : Session) (x : Result ProjectionCycleResult × Session)
      → IsSafe s x.1
      → IsSafe s (or_refused config batch_size clock x).1
  or_refused-IsSafe s (raise error, m) a = a
  or_refused-IsSafe s (ok result, m) a = a

-- From developing rows under their own keys and a history of points, the projection phase of a cycle,
-- whether or not it succeeds, leaves such rows and such a history, and users and bookmarks as they
-- were. If it reports success with the status of an active baseline, then the database that it leaves
-- is read as active with a compatible version at some reading of the clock, and the report is that
-- reading: the counts are of the markers and rows that are left.
pub run_projection_phase-IsSafe :
    (config : Config) (batch_size : ℕ) (clock : ℕ → DateTime) (projection_enabled : Bool)
    (s : Session)
    → IsKeyed s.working
    → IsHistory s.points
    → let (result, after) = run_projection_phase config batch_size clock projection_enabled s in
      IsSafe s after
      × (result.successful ≡ true
          → result.status ≡ active
          → IsReported config batch_size clock result after)
unfolding run_projection_phase
run_projection_phase-IsSafe config n clock false s k h =
    (IsSafe-same s k h, λ successful status. cc)
run_projection_phase-IsSafe config n clock true s k h =
    let first : Result ProjectionBaselineResult × Session = run_step config n s (clock 0) in
    let next = after_baseline config n clock in
    (
      or_refused-IsSafe config n clock s (and_then first next) (
          and_then-IsSafe s first next (run_step-IsSafe config n s (clock 0) k h)
            (λ baseline m k' h'. after_baseline-IsSafe config n clock baseline m k' h')),
      or_refused-Good config n clock (and_then first next) (
          and_then-IsGood config n clock first next
            (λ baseline m. after_baseline-IsGood config n clock baseline m)),
    )
