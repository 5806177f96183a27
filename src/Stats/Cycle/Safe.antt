-- ===== src/Stats/Cycle/Safe.antt =====
-- What every transaction of the projections keeps, whether or not the baseline is complete.
use backend_exercise.Prelude.{
  ℕ, ◌+◌, ◌≡◌, ◌∙◌, refl, ap, subst, not, Bool, Option, none, some, List, [], ◌∷◌, Result, ok,
  raise, leb, ltb, require, candidate_error, pair_eq, nat_eq, ◌>>=◌, ◌>>◌, >>=-eq-ok, >>-eq-ok,
  ok-inj, Bool-cases, inl, inr, length, take,
}
use backend_exercise.Clock.{DateTime, normalize_utc, utc}
use backend_exercise.Sorting.Keyset.{last_of}
use backend_exercise.Stats.Calculation.{
  WeeklyCalculation, HashComparison, same, changed, version_mismatch,
}
use backend_exercise.Stats.Projection.{
  ProjectionPointRecord, SurvivingWindowCandidate, ProjectionStateRecord, ProjectionStateStatus,
  pending, running, active, failed, WorkingProjectionRecord,
}
use backend_exercise.Stats.Projection.Points.{Points, effective_point, append_point}
use backend_exercise.Stats.Projection.Points.History.{IsHistory, append_point-IsHistory}
use backend_exercise.Stats.Projection.Working.{get_working, replace_working}
use backend_exercise.Stats.Projection.Working.Rows.{IsKeyed, replace_working-IsKeyed}
use backend_exercise.Stats.Projection.Lifecycle.{StateRow, start_or_resume}
use backend_exercise.Stats.Projection.Candidates.{surviving_candidates_after}
use backend_exercise.Stats.Processor.{
  Session, Config, reader_version, calculation, root_of, appended, compared,
}
use backend_exercise.Stats.Processor.Process.{working_of, same_version}
use backend_exercise.Stats.Baseline.{
  unless_mismatch, rooted, persist_closed_candidate, persist_current_candidate, persisted,
  persist_candidate, persist_page, checkpoint_of, advanced_past, activated,
  ProjectionBaselineResult, already_active, page_step, run_page, stepped, step_in, run_step,
  committed_or_not,
}

-- Rows and history are well formed, and users and bookmarks are as they were.
pub record IsSafe (before after : Session) : Type 0 where
  pub keyed : IsKeyed after.working
  pub history : IsHistory after.points
  pub users_same : after.users ≡ before.users
  pub bookmarks_same : after.bookmarks ≡ before.bookmarks

pub IsSafe-same : (s : Session) → IsKeyed s.working → IsHistory s.points → IsSafe s s
IsSafe-same s k h = record { keyed = k; history = h; users_same = refl; bookmarks_same = refl }

pub IsSafe-trans : (s t u : Session) → IsSafe s t → IsSafe t u → IsSafe s u
IsSafe-trans s t u a b = record {
  keyed = b.keyed;
  history = b.history;
  users_same = b.users_same ∙ a.users_same;
  bookmarks_same = b.bookmarks_same ∙ a.bookmarks_same;
}

IsSafe-state :
    (s t : Session) (state : Option StateRow) → IsSafe s t → IsSafe s (record t { state = state })
IsSafe-state s t state a = record {
  keyed = a.keyed;
  history = a.history;
  users_same = a.users_same;
  bookmarks_same = a.bookmarks_same;
}

unless_mismatch-eq-ok :
    (points : Points) (x : HashComparison) (after : Points)
    → unless_mismatch points x ≡ ok after
    → points ≡ after
unless_mismatch-eq-ok points same after e = ok-inj points after e
unless_mismatch-eq-ok points changed after e = ok-inj points after e
unless_mismatch-eq-ok points version_mismatch after e = cc

IsSafe-from :
    (s : Session) (state : Option StateRow) (t : Session)
    → IsSafe (record s { state = state }) t
    → IsSafe s t
IsSafe-from s state t a = record {
  keyed = a.keyed;
  history = a.history;
  users_same = a.users_same;
  bookmarks_same = a.bookmarks_same;
}

rooted-IsHistory :
    (points : Points) (candidate : SurvivingWindowCandidate) (c : WeeklyCalculation) (now : ℕ)
    (existing : Option ProjectionPointRecord) (after : Points)
    → IsHistory points
    → rooted points candidate c now existing ≡ ok after
    → IsHistory after
rooted-IsHistory points candidate c now none after h e =
    let p = root_of candidate.user_id candidate.window c 0 now in
    let ((revision, grown), e1, e2) = >>=-eq-ok (appended points p) (λ x. ok x.1) e in
    let ((inserted, more), e3, e4) =
      >>=-eq-ok (append_point points p) (λ x. ok (some p.revision, x.1)) e1 in
    let (_, _, history) = append_point-IsHistory points p inserted more h e3 in
    let same_points : more ≡ grown =
      ap (λ (x : Option ℕ × Points). x.1) (ok-inj (some p.revision, more) (revision, grown) e4) in
    subst IsHistory (same_points ∙ ok-inj grown after e2) history
rooted-IsHistory points candidate c now (some existing) after h e =
    subst IsHistory (unless_mismatch-eq-ok points (compared existing c) after e) h

persisted-IsSafe :
    (s : Session) (candidate : SurvivingWindowCandidate) (c : WeeklyCalculation) (now : ℕ)
    (after : Session)
    → IsKeyed s.working
    → IsHistory s.points
    → persisted s candidate c now ≡ ok after
    → IsSafe s after
unfolding persist_closed_candidate persist_current_candidate
persisted-IsSafe s candidate c now after k h e = elim (Bool-cases (leb candidate.window.end now)) [
  | inl b ↦
      let (points, e1, e2) =
        >>=-eq-ok (persist_closed_candidate s.points candidate c now)
          (λ points. ok (record s { points = points })) (rw b at e) in
      let (existing, _, e3) =
        >>=-eq-ok (effective_point s.points candidate.user_id candidate.window)
          (rooted s.points candidate c now) e1 in
      subst (IsSafe s) (ok-inj _ after e2) (record {
        keyed = k;
        history = rooted-IsHistory s.points candidate c now existing points h e3;
        users_same = refl;
        bookmarks_same = refl;
      })
  | inr b ↦
      let (working, e1, e2) =
        >>=-eq-ok (persist_current_candidate s.working candidate c now)
          (λ working. ok (record s { working = working })) (rw b at e) in
      let r : WorkingProjectionRecord = working_of candidate.user_id candidate.window c 0 now in
      let (existing, _, e3) =
        >>=-eq-ok (get_working s.working candidate.user_id candidate.window)
          (λ existing. same_version existing c.calculation_version >> replace_working s.working r)
          e1 in
      subst (IsSafe s) (ok-inj _ after e2) (record {
        keyed =
            replace_working-IsKeyed s.working r working k
              (>>-eq-ok (same_version existing c.calculation_version) _ e3);
        history = h;
        users_same = refl;
        bookmarks_same = refl;
      })
]

persist_candidate-IsSafe :
    (config : Config) (s : Session) (candidate : SurvivingWindowCandidate) (now : ℕ)
    (after : Session)
    → IsKeyed s.working
    → IsHistory s.points
    → persist_candidate config s candidate now ≡ ok after
    → IsSafe s after
unfolding persist_candidate
persist_candidate-IsSafe config s candidate now after k h e =
    let (c, _, e1) =
      >>=-eq-ok (calculation config s.bookmarks candidate.user_id candidate.window)
        (λ c. persisted s candidate c now)
        (>>-eq-ok (require (not (ltb now candidate.window.start)) candidate_error) _ e) in
    persisted-IsSafe s candidate c now after k h e1

persist_page-IsSafe :
    (config : Config) (s : Session) (page : List SurvivingWindowCandidate) (now : ℕ)
    (after : Session)
    → IsKeyed s.working
    → IsHistory s.points
    → persist_page config s page now ≡ ok after
    → IsSafe s after
unfolding persist_page
persist_page-IsSafe config s [] now after k h e =
    subst (IsSafe s) (ok-inj s after e) (IsSafe-same s k h)
persist_page-IsSafe config s (candidate ∷ page) now after k h e =
    let (middle, e1, e2) =
      >>=-eq-ok (persist_candidate config s candidate now) (λ t. persist_page config t page now)
        e in
    let first = persist_candidate-IsSafe config s candidate now middle k h e1 in
    IsSafe-trans s middle after first
      (persist_page-IsSafe config middle page now after first.keyed first.history e2)

abbrev page_result : List SurvivingWindowCandidate → Bool → ProjectionBaselineResult
page_result page has_more = record {
  processed_candidate_count = length page;
  has_more = has_more;
  is_active = not has_more;
}

page_step-IsSafe :
    (config : Config) (s : Session) (now : ℕ) (page : List SurvivingWindowCandidate)
    (has_more : Bool) (result : ProjectionBaselineResult) (after : Session)
    → IsKeyed s.working
    → IsHistory s.points
    → page_step config s now page has_more ≡ ok (result, after)
    → IsSafe s after
page_step-IsSafe config s now page has_more result after k h e =
    let finish = λ (t : Session) (state : Option StateRow).
      ok (page_result page has_more, record t { state = state }) in
    let activate_after =
      λ (t : Session) (row : Option StateRow). (activated row has_more now >>= finish t) in
    let (t, e1, e2) =
      >>=-eq-ok (persist_page config s page now)
        (λ t. advanced_past t.state (last_of page) now >>= activate_after t) e in
    let (row, _, e3) = >>=-eq-ok (advanced_past t.state (last_of page) now) (activate_after t) e2 in
    let (state, _, e4) = >>=-eq-ok (activated row has_more now) (finish t) e3 in
    subst (λ (x : ProjectionBaselineResult × Session). IsSafe s x.1) (ok-inj _ (result, after) e4)
      (IsSafe-state s t state (persist_page-IsSafe config s page now t k h e1))

paged-IsSafe :
    (config : Config) (batch_size : ℕ) (s : Session) (now : ℕ) (r : ProjectionStateRecord)
    (result : ProjectionBaselineResult) (after : Session)
    → IsKeyed s.working
    → IsHistory s.points
    → stepped config batch_size s now r running ≡ ok (result, after)
    → IsSafe s after
unfolding run_page
paged-IsSafe config n s now r result after k h e =
    let read = λ (checkpoint : Option SurvivingWindowCandidate).
      (surviving_candidates_after s.bookmarks.bookmarks checkpoint (n + 1)
        >>= run_page config n s now) in
    let (checkpoint, _, e1) =
      >>=-eq-ok (checkpoint_of r.checkpoint_user_id r.checkpoint_window) read e in
    let (candidates, _, e2) =
      >>=-eq-ok (surviving_candidates_after s.bookmarks.bookmarks checkpoint (n + 1))
        (run_page config n s now) e1 in
    page_step-IsSafe config s now (take n candidates) (ltb n (length candidates)) result after k h
      e2

stepped-IsSafe :
    (config : Config) (batch_size : ℕ) (s : Session) (now : ℕ) (r : ProjectionStateRecord)
    (status : ProjectionStateStatus) (result : ProjectionBaselineResult) (after : Session)
    → IsKeyed s.working
    → IsHistory s.points
    → stepped config batch_size s now r status ≡ ok (result, after)
    → IsSafe s after
unfolding run_page
stepped-IsSafe config n s now r active result after k h e =
    subst (λ (x : ProjectionBaselineResult × Session). IsSafe s x.1)
      (ok-inj (already_active, s) (result, after) e) (IsSafe-same s k h)
stepped-IsSafe config n s now r pending result after k h e =
    paged-IsSafe config n s now r result after k h e
stepped-IsSafe config n s now r running result after k h e =
    paged-IsSafe config n s now r result after k h e
stepped-IsSafe config n s now r failed result after k h e =
    paged-IsSafe config n s now r result after k h e

step_in-IsSafe :
    (config : Config) (batch_size : ℕ) (s : Session) (clock : DateTime)
    (result : ProjectionBaselineResult) (after : Session)
    → IsKeyed s.working
    → IsHistory s.points
    → step_in config batch_size s clock ≡ ok (result, after)
    → IsSafe s after
unfolding step_in
step_in-IsSafe config n s clock result after k h e =
    let go = λ (now : ℕ) (x : ProjectionStateRecord × Option StateRow).
      stepped config n (record s { state = x.1 }) now x.0 x.0.status in
    let (now, _, e1) =
      >>=-eq-ok (normalize_utc clock)
        (λ now.
          reader_version config >>= λ version. start_or_resume s.state version (utc now) >>= go now)
        e in
    let (version, _, e2) =
      >>=-eq-ok (reader_version config)
        (λ version. start_or_resume s.state version (utc now) >>= go now) e1 in
    let (x, _, e3) = >>=-eq-ok (start_or_resume s.state version (utc now)) (go now) e2 in
    IsSafe-from s x.1 after
      (stepped-IsSafe config n (record s { state = x.1 }) now x.0 x.0.status result after k h e3)

committed-IsSafe :
    (s : Session) (r : Result (ProjectionBaselineResult × Session))
    → IsKeyed s.working
    → IsHistory s.points
    → ((result : ProjectionBaselineResult) (after : Session)
        → r ≡ ok (result, after)
        → IsSafe s after)
    → IsSafe s (committed_or_not s r).1
committed-IsSafe s (raise error) k h safe = IsSafe-same s k h
committed-IsSafe s (ok (result, after)) k h safe = safe result after refl

pub run_step-IsSafe :
    (config : Config) (batch_size : ℕ) (s : Session) (clock : DateTime)
    → IsKeyed s.working
    → IsHistory s.points
    → IsSafe s (run_step config batch_size s clock).1
unfolding run_step
run_step-IsSafe config n s clock k h =
    committed-IsSafe s (step_in config n s clock) k h
      (λ result after e. step_in-IsSafe config n s clock result after k h e)
