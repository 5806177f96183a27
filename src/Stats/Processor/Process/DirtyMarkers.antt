-- ===== src/Stats/Processor/Process/DirtyMarkers.antt =====
-- A dirty marker is projected, acknowledged and its success recorded in one transaction, or nothing
-- changes.
use backend_exercise.Prelude.{
  ℕ, ◌≤◌, ◌≡◌, ◌≢◌, refl, ap, subst, Bool, Option, some, Result, ok, raise, arith, pair_eq, nat_eq,
}
use backend_exercise.Clock.{DateTime, normalize_utc, utc, normalize_utc-utc}
use backend_exercise.Dict
use backend_exercise.Weekly.{WeeklyWindow, from_datetime, utc_monday}
use backend_exercise.Weekly.Windows.{IsWeek, from_datetime_iff, utc_monday_iff}
use backend_exercise.Stats.Dirty.{
  Table, Row, DirtyMarker, DirtyAcknowledgementStatus, acknowledged, deleted, acknowledge,
  projection,
}
use backend_exercise.Stats.Dirty.Acknowledge.{acknowledge-Outcome}
use backend_exercise.Stats.Calculation.{WeeklyCalculation}
use backend_exercise.Stats.Projection.{ProjectionStateRecord}
use backend_exercise.Stats.Projection.Points.History.{IsHistory}
use backend_exercise.Stats.Projection.Working.Rows.{IsKeyed}
use backend_exercise.Stats.Projection.Lifecycle.{StateRow, record_projection_success}
use backend_exercise.Stats.Processor.{Session, Config, calculation}
use backend_exercise.Stats.Processor.Process.{
  Projected, ProjectionProcessOutcome, applied, deferred, absent, settled, dirty_in, or_rolled_back,
  process_dirty,
}
use backend_exercise.Stats.Processor.Process.Applied.{
  IsProjected, projections, IsProjected-projections,
}
use backend_exercise.Stats.Processor.Process.Weeks.{project-IsProjected}
use backend_exercise.Stats.Processor.Process.Outcomes.{Ran, dirty_in-Ran}

pub record IsApplied (config : Config) (before : Session) (marker : DirtyMarker) (clock : DateTime)
    (revision : Option ℕ) (made : Bool) (after : Session) : Type 0 where
  pub now : ℕ
  pub now_of : normalize_utc clock ≡ ok now
  pub window : WeeklyWindow
  pub is_week : IsWeek window
  pub starts : window.start ≡ marker.window_start
  pub begun : window.start ≤ now
  pub c : WeeklyCalculation
  pub calculated : calculation config before.bookmarks marker.user_id window ≡ ok c
  pub projected : IsProjected before marker.user_id window c marker.row.generation now (record {
    appended_revision = revision;
    created_current_working = made;
    session = projections before after;
  })
  pub status : DirtyAcknowledgementStatus
  pub not_stale : status ≢ DirtyAcknowledgementStatus.stale
  pub acknowledged_as :
      acknowledge projection before.dirty marker.user_id (utc window.start) marker.row.generation
      ≡ ok (status, after.dirty)
  pub success : ProjectionStateRecord
  pub succeeded :
      record_projection_success before.state c.calculation_version (utc now)
      ≡ ok (success, after.state)

abbrev pub Outdated : Session → DirtyMarker → Type 0
Outdated before marker =
    (row : Row)
    → Dict.get (marker.user_id, marker.window_start) before.dirty ≡ some row
    → row.generation ≢ marker.row.generation

abbrev pub DirtyOutcome :
    Config → Session → DirtyMarker → DateTime → Result ProjectionProcessOutcome → Session → Type 0
DirtyOutcome config before marker clock (raise error) after = after ≡ before
DirtyOutcome config before marker clock (ok ProjectionProcessOutcome.stale) after =
    (after ≡ before) × Outdated before marker
DirtyOutcome config before marker clock (ok (applied revision made)) after =
    IsApplied config before marker clock revision made after
DirtyOutcome config before marker clock (ok deferred) after = ⊥
DirtyOutcome config before marker clock (ok absent) after = ⊥

utc_monday-canonical : (w : WeeklyWindow) → IsWeek w → utc_monday (utc w.start) ≡ ok w.start
utc_monday-canonical w h =
    (utc_monday_iff (utc w.start) w.start w.start (normalize_utc-utc w.start)).1
      (h.on_monday, omega arith, omega arith)

window-IsWeek : (t : ℕ) (w : WeeklyWindow) → from_datetime (utc t) ≡ ok w → IsWeek w
window-IsWeek t w h = ((from_datetime_iff (utc t) t w (normalize_utc-utc t)).0 h).0

module _ (config : Config) (before : Session) (marker : DirtyMarker) (clock : DateTime)
    (keyed : IsKeyed before.working) (history : IsHistory before.points) where
  -- What a projection and an acknowledgement that is not stale leave.
  IsApplied-when :
      (outcome : ProjectionProcessOutcome) (after : Session)
      (r : Ran config before marker clock outcome after) (p : Projected) (state : Option StateRow)
      (success : ProjectionStateRecord) (status : DirtyAcknowledgementStatus) (table : Table)
      → IsProjected before marker.user_id r.window r.marked.c marker.row.generation r.now p
      → record_projection_success p.session.state r.marked.c.calculation_version (utc r.now)
        ≡ ok (success, state)
      → acknowledge projection p.session.dirty marker.user_id
          (utc r.window.start)
          marker.row.generation
        ≡ ok (status, table)
      → status ≢ DirtyAcknowledgementStatus.stale
      → IsApplied config before marker clock p.appended_revision p.created_current_working
          (record p.session { state = state; dirty = table })
  IsApplied-when outcome after r p state success status table is e a n =
      let same_dirty : p.session.dirty ≡ before.dirty =
        ap (λ (x : Session). x.dirty) is.only_projections in
      let same_state : p.session.state ≡ before.state =
        ap (λ (x : Session). x.state) is.only_projections in
      record {
        now = r.now;
        now_of = r.now_of;
        window = r.window;
        is_week = window-IsWeek marker.window_start r.window r.window_of;
        starts = r.is_canonical;
        begun = r.begun;
        c = r.marked.c;
        calculated = r.marked.calculated;
        projected =
            IsProjected-projections before marker.user_id r.window r.marked.c marker.row.generation
              r.now p is;
        status = status;
        not_stale = n;
        acknowledged_as = rw same_dirty at a;
        success = success;
        succeeded = rw same_state at e;
      }

  Outdated-when :
      (w : WeeklyWindow) (p : Projected) (table : Table)
      → IsWeek w
      → w.start ≡ marker.window_start
      → p.session.dirty ≡ before.dirty
      → acknowledge projection p.session.dirty marker.user_id (utc w.start) marker.row.generation
        ≡ ok (DirtyAcknowledgementStatus.stale, table)
      → Outdated before marker
  Outdated-when w p table is_week starts same a row f =
      let o =
        acknowledge-Outcome projection p.session.dirty marker.user_id w.start (utc w.start)
          marker.row.generation DirtyAcknowledgementStatus.stale table
          (utc_monday-canonical w is_week) a in
      o.outdated row (rw (same, starts) f)

  outcome_when :
      (outcome : ProjectionProcessOutcome) (after : Session)
      (r : Ran config before marker clock outcome after) (p : Projected) (state : Option StateRow)
      (success : ProjectionStateRecord) (status : DirtyAcknowledgementStatus) (table : Table)
      → IsProjected before marker.user_id r.window r.marked.c marker.row.generation r.now p
      → record_projection_success p.session.state r.marked.c.calculation_version (utc r.now)
        ≡ ok (success, state)
      → acknowledge projection p.session.dirty marker.user_id
          (utc r.window.start)
          marker.row.generation
        ≡ ok (status, table)
      → settled before (record p { session = record p.session { state = state } }) (status, table)
        ≡ (outcome, after)
      → DirtyOutcome config before marker clock (ok outcome) after
  outcome_when outcome after r p state success DirtyAcknowledgementStatus.stale table is e a left =
      subst
        (λ (x : ProjectionProcessOutcome × Session).
          DirtyOutcome config before marker clock (ok x.0) x.1)
        left
        (
          refl,
          Outdated-when r.window p table (window-IsWeek marker.window_start r.window r.window_of)
              r.is_canonical (ap (λ (x : Session). x.dirty) is.only_projections) a,
        )
  outcome_when outcome after r p state success acknowledged table is e a left =
      subst
        (λ (x : ProjectionProcessOutcome × Session).
          DirtyOutcome config before marker clock (ok x.0) x.1)
        left (IsApplied-when outcome after r p state success acknowledged table is e a (λ q. cc))
  outcome_when outcome after r p state success deleted table is e a left =
      subst
        (λ (x : ProjectionProcessOutcome × Session).
          DirtyOutcome config before marker clock (ok x.0) x.1)
        left (IsApplied-when outcome after r p state success deleted table is e a (λ q. cc))

  Ran-DirtyOutcome :
      (outcome : ProjectionProcessOutcome) (after : Session)
      → Ran config before marker clock outcome after
      → DirtyOutcome config before marker clock (ok outcome) after
  Ran-DirtyOutcome outcome after r =
      let m = r.marked in
      let is_week = window-IsWeek marker.window_start r.window r.window_of in
      outcome_when outcome after r m.p m.rest.state m.rest.success m.rest.status m.rest.table
        (project-IsProjected config before marker.user_id r.window m.c marker.row.generation r.now
          keyed history m.p is_week.seven_days m.projected)
        m.rest.succeeded m.rest.acknowledged_as m.rest.left

  rolled_back-DirtyOutcome :
      (result : Result (ProjectionProcessOutcome × Session))
      → dirty_in config before marker clock ≡ result
      → DirtyOutcome config before marker clock
          (or_rolled_back before result).0
          (or_rolled_back before result).1
  rolled_back-DirtyOutcome (raise error) e = refl
  rolled_back-DirtyOutcome (ok (outcome, after)) e =
      Ran-DirtyOutcome outcome after (dirty_in-Ran config before marker clock outcome after e)

-- Where every developing row stands under its own key and the points are a history, processing a dirty
-- marker is all-or-nothing. It raises or finds the marker stale, and then nothing has changed, and a
-- stale marker's row is gone or has another generation. Or it is applied: the marker's week is canonical
-- and has begun, its calculation is projected, the generation is acknowledged for projections on the
-- unchanged table of markers, and the success is recorded. If the week has ended, the effective point
-- has the calculation's hash and version and the week's developing row is gone; if it is the current
-- one, its developing row is the calculation's and no point is written. Users and bookmarks stay.
pub process_dirty-DirtyOutcome :
    (config : Config) (session : Session) (marker : DirtyMarker) (clock : DateTime)
    → IsKeyed session.working
    → IsHistory session.points
    → DirtyOutcome config session marker clock
        (process_dirty config session marker clock).0
        (process_dirty config session marker clock).1
unfolding process_dirty
process_dirty-DirtyOutcome config session marker clock keyed history =
    rolled_back-DirtyOutcome config session marker clock keyed history
      (dirty_in config session marker clock) refl
