-- ===== src/Stats/Processor/Process/Outcomes.antt =====
-- What `process_dirty` leaves, on each of its outcomes.
use backend_exercise.Prelude.{
  ℕ, ◌≤◌, ◌≡◌, not, Option, String, ok, candidate_error, arith, eqb, ltb, require, pair_eq, nat_eq,
  ◌>>=◌, ◌>>◌, >>=-eq-ok, ok-inj,
}
use backend_exercise.Clock.{DateTime, normalize_utc, utc}
use backend_exercise.Weekly.{WeeklyWindow, from_datetime}
use backend_exercise.Stats.Dirty.{
  Table, DirtyMarker, DirtyAcknowledgementStatus, acknowledge, projection,
}
use backend_exercise.Stats.Calculation.{WeeklyCalculation}
use backend_exercise.Stats.Projection.{ProjectionStateRecord}
use backend_exercise.Stats.Projection.Lifecycle.{
  StateRow, require_active, record_projection_success,
}
use backend_exercise.Stats.Processor.{Session, Config, reader_version, calculation}
use backend_exercise.Stats.Processor.Process.{
  Projected, project, ProjectionProcessOutcome, settled, acknowledge_projected, project_marked,
  dirty_in,
}

-- The steps of a body that has run to its end.
pub record Acknowledged (before : Session) (marker : DirtyMarker) (window : WeeklyWindow)
    (c : WeeklyCalculation) (now : ℕ) (p : Projected) (outcome : ProjectionProcessOutcome)
    (after : Session) : Type 0 where
  pub success : ProjectionStateRecord
  pub state : Option StateRow
  pub succeeded :
      record_projection_success p.session.state c.calculation_version (utc now)
      ≡ ok (success, state)
  pub status : DirtyAcknowledgementStatus
  pub table : Table
  pub acknowledged_as :
      acknowledge projection p.session.dirty marker.user_id (utc window.start) marker.row.generation
      ≡ ok (status, table)
  pub left :
      settled before (record p { session = record p.session { state = state } }) (status, table)
      ≡ (outcome, after)

acknowledge_projected-Acknowledged :
    (before : Session) (marker : DirtyMarker) (w : WeeklyWindow) (c : WeeklyCalculation) (now : ℕ)
    (p : Projected) (outcome : ProjectionProcessOutcome) (after : Session)
    → acknowledge_projected before marker w c now p ≡ ok (outcome, after)
    → Acknowledged before marker w c now p outcome after
unfolding acknowledge_projected
acknowledge_projected-Acknowledged before marker w c now p outcome after h =
    let last = λ (state : Option StateRow) (a : DirtyAcknowledgementStatus × Table).
      ok (settled before (record p { session = record p.session { state = state } }) a) in
    let ((success, state), succeeded, h1) =
      >>=-eq-ok (record_projection_success p.session.state c.calculation_version (utc now))
        (λ x.
          acknowledge projection p.session.dirty marker.user_id (utc w.start) marker.row.generation
          >>= last x.1)
        h in
    let ((status, table), acknowledged_as, h2) =
      >>=-eq-ok
        (acknowledge projection p.session.dirty marker.user_id (utc w.start) marker.row.generation)
        (last state) h1 in
    record {
      success = success;
      state = state;
      succeeded = succeeded;
      status = status;
      table = table;
      acknowledged_as = acknowledged_as;
      left = ok-inj _ _ h2;
    }

pub record Marked (config : Config) (before : Session) (marker : DirtyMarker) (now : ℕ)
    (window : WeeklyWindow) (outcome : ProjectionProcessOutcome) (after : Session) : Type 0 where
  pub version : String
  pub active : ProjectionStateRecord
  pub active_of : require_active before.state version ≡ ok active
  pub c : WeeklyCalculation
  pub calculated : calculation config before.bookmarks marker.user_id window ≡ ok c
  pub p : Projected
  pub projected : project config before marker.user_id window c marker.row.generation now ≡ ok p
  pub rest : Acknowledged before marker window c now p outcome after

project_marked-Marked :
    (config : Config) (before : Session) (marker : DirtyMarker) (now : ℕ) (w : WeeklyWindow)
    (outcome : ProjectionProcessOutcome) (after : Session)
    → project_marked config before marker now w ≡ ok (outcome, after)
    → Marked config before marker now w outcome after
unfolding project_marked
project_marked-Marked config before marker now w outcome after h =
    let u : ℕ = marker.user_id in
    let f4 =
      λ (c : WeeklyCalculation) (p : Projected). acknowledge_projected before marker w c now p in
    let f3 =
      λ (c : WeeklyCalculation). (project config before u w c marker.row.generation now >>= f4 c) in
    let f2 = λ (r : ProjectionStateRecord). (calculation config before.bookmarks u w >>= f3) in
    let (version, _, h4) =
      >>=-eq-ok (reader_version config) (λ version. require_active before.state version >>= f2) h in
    let (active, active_of, h5) = >>=-eq-ok (require_active before.state version) f2 h4 in
    let (c, calculated, h6) = >>=-eq-ok (calculation config before.bookmarks u w) f3 h5 in
    let (p, projected, h7) =
      >>=-eq-ok (project config before u w c marker.row.generation now) (f4 c) h6 in
    record {
      version = version;
      active = active;
      active_of = active_of;
      c = c;
      calculated = calculated;
      p = p;
      projected = projected;
      rest = acknowledge_projected-Acknowledged before marker w c now p outcome after h7;
    }

pub record Ran (config : Config) (before : Session) (marker : DirtyMarker) (clock : DateTime)
    (outcome : ProjectionProcessOutcome) (after : Session) : Type 0 where
  pub now : ℕ
  pub now_of : normalize_utc clock ≡ ok now
  pub window : WeeklyWindow
  pub window_of : from_datetime (utc marker.window_start) ≡ ok window
  pub is_canonical : window.start ≡ marker.window_start
  pub begun : window.start ≤ now
  pub marked : Marked config before marker now window outcome after

pub dirty_in-Ran :
    (config : Config) (before : Session) (marker : DirtyMarker) (clock : DateTime)
    (outcome : ProjectionProcessOutcome) (after : Session)
    → dirty_in config before marker clock ≡ ok (outcome, after)
    → Ran config before marker clock outcome after
unfolding dirty_in
dirty_in-Ran config before marker clock outcome after h =
    let f1 = λ (now : ℕ) (w : WeeklyWindow).
      (require (eqb w.start marker.window_start) candidate_error
        >> (require (not (ltb now w.start)) candidate_error
            >> project_marked config before marker now w)) in
    let (now, now_of, h0) =
      >>=-eq-ok (normalize_utc clock) (λ now. from_datetime (utc marker.window_start) >>= f1 now)
        h in
    let (w, window_of, h1) = >>=-eq-ok (from_datetime (utc marker.window_start)) (f1 now) h0 in
    let (x, same, h2) =
      >>=-eq-ok (require (eqb w.start marker.window_start) candidate_error)
        (λ x.
          require (not (ltb now w.start)) candidate_error
          >> project_marked config before marker now w)
        h1 in
    let (y, begun, h3) =
      >>=-eq-ok (require (not (ltb now w.start)) candidate_error)
        (λ y. project_marked config before marker now w) h2 in
    record {
      now = now;
      now_of = now_of;
      window = w;
      window_of = window_of;
      is_canonical = ground arith;
      begun = ground arith;
      marked = project_marked-Marked config before marker now w outcome after h3;
    }
