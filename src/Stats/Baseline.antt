-- ===== src/Stats/Baseline.antt =====
-- `BaselineRunner` of app/bookmarks/stats/projection_service.py: one page of surviving weeks in a
-- transaction of its own, restartable after the checkpoint of the last one.
pub mod Calculated
pub mod Written
pub mod Persist
pub mod Steps
pub mod Pages
pub mod Stepped
pub mod Terminates
pub mod Completes
use backend_exercise.Prelude.{
  ℕ, ◌+◌, ◌&&◌, not, Bool, true, false, Option, none, some, List, [], ◌∷◌, String, Result, ok,
  raise, value_error, projection_state_error, candidate_error, version_mismatch_error, leb, ltb,
  length, take, require, if◌then◌else◌, string_eq, ◌==◌, ◌>>=◌, ◌>>◌,
}
use backend_exercise.Clock.{DateTime, normalize_utc, utc}
use backend_exercise.Weekly.{WeeklyWindow}
use backend_exercise.Sorting.Keyset.{last_of}
use backend_exercise.Stats.Calculation.{
  WeeklyCalculation, HashComparison, same, changed, version_mismatch, compare_content_hashes,
}
use backend_exercise.Stats.Projection.{
  SurvivingWindowCandidate, ProjectionStateRecord, ProjectionStateStatus, pending, running, active,
  failed, ProjectionPointRecord, WorkingProjectionRecord,
}
use backend_exercise.Stats.Projection.Points.{Points, effective_point, append_point}
use backend_exercise.Stats.Projection.Working.{WorkingTable, get_working, replace_working}
use backend_exercise.Stats.Projection.Lifecycle.{StateRow, start_or_resume, advance, activate}
use backend_exercise.Stats.Projection.Candidates.{surviving_candidates_after}
use backend_exercise.Stats.Processor.{
  Session, Config, reader_version, calculation, root_of, appended, compared,
}
use backend_exercise.Stats.Processor.Process.{working_of, same_version}

abbrev pub unless_mismatch : Points → HashComparison → Result Points
unless_mismatch points version_mismatch = raise version_mismatch_error
unless_mismatch points same = ok points
unless_mismatch points changed = ok points

-- A root that is there stays as it is, whatever its hash.
abbrev pub rooted :
    Points
    → SurvivingWindowCandidate
    → WeeklyCalculation
    → (now : ℕ) → Option ProjectionPointRecord
    → Result Points
rooted points candidate c now none = do
  (revision, after) ← appended points (root_of candidate.user_id candidate.window c 0 now)
  ok after
rooted points candidate c now (some existing) = unless_mismatch points (compared existing c)

unfoldable pub persist_closed_candidate :
    Points → SurvivingWindowCandidate → WeeklyCalculation → (now : ℕ) → Result Points
unfolding effective_point append_point compare_content_hashes
persist_closed_candidate points candidate c now = do
  existing ← effective_point points candidate.user_id candidate.window
  rooted points candidate c now existing

unfoldable pub persist_current_candidate :
    WorkingTable → SurvivingWindowCandidate → WeeklyCalculation → (now : ℕ) → Result WorkingTable
unfolding get_working replace_working
persist_current_candidate table candidate c now = do
  existing ← get_working table candidate.user_id candidate.window
  same_version existing c.calculation_version
  replace_working table (working_of candidate.user_id candidate.window c 0 now)

abbrev pub persisted :
    Session → SurvivingWindowCandidate → WeeklyCalculation → (now : ℕ) → Result Session
persisted session candidate c now =
    if leb candidate.window.end now
    then (do
      points ← persist_closed_candidate session.points candidate c now
      ok (record session { points = points }))
    else (do
      working ← persist_current_candidate session.working candidate c now
      ok (record session { working = working }))

unfoldable pub persist_candidate :
    Config → Session → SurvivingWindowCandidate → (now : ℕ) → Result Session
unfolding persist_closed_candidate persist_current_candidate calculation
persist_candidate config session candidate now = do
  require (not (ltb now candidate.window.start)) candidate_error
  c ← calculation config session.bookmarks candidate.user_id candidate.window
  persisted session candidate c now

unfoldable pub persist_page :
    Config → Session → List SurvivingWindowCandidate → (now : ℕ) → Result Session
unfolding persist_candidate
persist_page config session [] now = ok session
persist_page config session (candidate ∷ page) now =
    persist_candidate config session candidate now >>= λ after. persist_page config after page now

-- `_checkpoint`
abbrev pub checkpoint_of :
    (user_id : Option ℕ) → Option WeeklyWindow → Result (Option SurvivingWindowCandidate)
checkpoint_of none window = ok none
checkpoint_of (some user_id) none = raise projection_state_error
checkpoint_of (some user_id) (some window) =
    ok (some (record { user_id = user_id; window = window }))

-- `if page: repository.advance(page[-1], now)`
abbrev pub advanced_past :
    Option StateRow → Option SurvivingWindowCandidate → ℕ → Result (Option StateRow)
advanced_past row none now = ok row
advanced_past row (some candidate) now = do (r, after) ← advance row candidate (utc now); ok after

-- `if not has_more: repository.activate(now)`
abbrev pub activated : Option StateRow → (has_more : Bool) → ℕ → Result (Option StateRow)
activated row true now = ok row
activated row false now = do (r, after) ← activate row (utc now); ok after

pub record ProjectionBaselineResult : Type 0 where
  pub processed_candidate_count : ℕ
  pub has_more : Bool
  pub is_active : Bool

abbrev pub already_active : ProjectionBaselineResult
already_active = record { processed_candidate_count = 0; has_more = false; is_active = true }

-- A page is persisted, then the checkpoint, and after the last page the activation.
abbrev pub page_step :
    Config
    → Session
    → (now : ℕ) → (page : List SurvivingWindowCandidate) → (has_more : Bool)
    → Result (ProjectionBaselineResult × Session)
page_step config session now page has_more = do
  after ← persist_page config session page now
  row ← advanced_past after.state (last_of page) now
  state ← activated row has_more now
  ok (
    record {
      processed_candidate_count = length page;
      has_more = has_more;
      is_active = not has_more;
    },
    record after { state = state },
  )

-- The page is read with one candidate more than it may hold.
unfoldable pub run_page :
    Config
    → (batch_size : ℕ) → Session
    → (now : ℕ) → List SurvivingWindowCandidate
    → Result (ProjectionBaselineResult × Session)
unfolding persist_page advance activate
run_page config batch_size session now candidates =
    page_step config session now (take batch_size candidates) (ltb batch_size (length candidates))

abbrev pub stepped :
    Config
    → (batch_size : ℕ) → Session
    → (now : ℕ) → ProjectionStateRecord
    → ProjectionStateStatus
    → Result (ProjectionBaselineResult × Session)
stepped config batch_size session now r active = ok (already_active, session)
stepped config batch_size session now r status = do
  checkpoint ← checkpoint_of r.checkpoint_user_id r.checkpoint_window
  candidates ← surviving_candidates_after session.bookmarks.bookmarks checkpoint (batch_size + 1)
  run_page config batch_size session now candidates

unfoldable pub step_in :
    Config → (batch_size : ℕ) → Session → DateTime → Result (ProjectionBaselineResult × Session)
unfolding start_or_resume surviving_candidates_after run_page
step_in config batch_size session clock = do
  now ← normalize_utc clock
  version ← reader_version config
  (r, row) ← start_or_resume session.state version (utc now)
  stepped config batch_size (record session { state = row }) now r r.status

abbrev pub committed_or_not :
    Session
    → Result (ProjectionBaselineResult × Session)
    → Result ProjectionBaselineResult × Session
committed_or_not before (raise error) = (raise error, before)
committed_or_not before (ok (result, after)) = (ok result, after)

-- `run_step`: the database after it, committed or rolled back
unfoldable pub run_step :
    Config
    → (batch_size : ℕ) → Session
    → (clock : DateTime) → Result ProjectionBaselineResult × Session
unfolding step_in
run_step config batch_size session clock =
    committed_or_not session (step_in config batch_size session clock)
