-- ===== src/Stats/Processor/Process/Finalized.antt =====
-- What the end of `process_overdue` leaves.
use backend_exercise.Prelude.{
  ℕ, ◌≤◌, ◌≡◌, ap, subst, Bool, Option, some, ok, arith, pair_eq, nat_eq, string_eq, ◌>>=◌,
  >>=-eq-ok, ok-inj,
}
use backend_exercise.Clock.{utc, normalize_utc-utc}
use backend_exercise.Dict
use backend_exercise.Weekly.{WeeklyWindow, from_bounds}
use backend_exercise.Weekly.Windows.{IsWeek, from_bounds_iff}
use backend_exercise.Stats.Calculation.{WeeklyCalculation}
use backend_exercise.Stats.Projection.{
  ProjectionStateRecord, WorkingProjectionRecord, canonical, validate_working,
}
use backend_exercise.Stats.Projection.Points.{Points}
use backend_exercise.Stats.Projection.Points.History.{IsHistory}
use backend_exercise.Stats.Projection.Working.{WorkingTable, key_of, delete_working}
use backend_exercise.Stats.Projection.Working.Rows.{IsKeyed, valid_key}
use backend_exercise.Stats.Projection.Lifecycle.{StateRow, record_projection_success}
use backend_exercise.Stats.Processor.{Session, Config, calculation, persist_developed}
use backend_exercise.Stats.Processor.Developed.{persist_developed-IsDeveloped}
use backend_exercise.Stats.Processor.Process.{
  ProjectionProcessOutcome, applied, deleted_row, remove_working, ensure_current_working,
  finalize_overdue,
}
use backend_exercise.Stats.Processor.Process.Applied.{
  IsProjected, projections, IsProjected-projections, remove_working-removed,
  ensure_current_working-Kept,
}
use backend_exercise.Stats.Processor.Process.Weeks.{closed-IsProjected}

window-canonical : (w : WeeklyWindow) → canonical w ≡ ok tt → IsWeek w
unfolding canonical
window-canonical w h =
    let (w', e, _) = >>=-eq-ok (from_bounds (utc w.start) (utc w.end)) (λ w'. ok tt) h in
    let (is_week, starts, ends) =
      (from_bounds_iff (utc w.start) (utc w.end) w.start w.end w' (normalize_utc-utc w.start)
          (normalize_utc-utc w.end)).0
        e in
    record {
      on_monday = omega (arith, is_week.on_monday, starts);
      seven_days = omega (arith, is_week.seven_days, starts, ends);
      in_calendar = omega (arith, is_week.in_calendar, ends);
    }

delete_working-week :
    (t : WorkingTable) (r : WorkingProjectionRecord) (x : Bool × WorkingTable)
    → delete_working t r ≡ ok x
    → IsWeek r.window
unfolding delete_working
delete_working-week t r x h =
    let (_, valid, _) = >>=-eq-ok (validate_working r) _ h in
    window-canonical r.window (valid_key r valid).1

-- The row's week is recomputed from the bookmarks and its calculation is developed.
pub record IsFinalized (config : Config) (before : Session) (row : WorkingProjectionRecord)
    (now : ℕ) (revision : Option ℕ) (made : Bool) (after : Session) : Type 0 where
  pub c : WeeklyCalculation
  pub calculated : calculation config before.bookmarks row.user_id row.window ≡ ok c
  pub projected : IsProjected before row.user_id row.window c row.source_generation now (record {
    appended_revision = revision;
    created_current_working = made;
    session = projections before after;
  })
  pub markers_same : after.dirty ≡ before.dirty
  pub success : ProjectionStateRecord
  pub succeeded :
      record_projection_success before.state c.calculation_version (utc now)
      ≡ ok (success, after.state)

-- From what each step has computed.
IsFinalized-from :
    (config : Config) (before : Session) (row : WorkingProjectionRecord) (now : ℕ)
    (c : WeeklyCalculation) (revision : Option ℕ) (points : Points) (found : Bool × WorkingTable)
    (table : WorkingTable) (made : Bool) (mid : Session) (success : ProjectionStateRecord)
    (state : Option StateRow)
    → IsKeyed before.working
    → IsHistory before.points
    → Dict.get (key_of row) before.working ≡ some row
    → row.window.end ≤ now
    → calculation config before.bookmarks row.user_id row.window ≡ ok c
    → persist_developed before.points row.user_id row.window c row.source_generation now
      ≡ ok (revision, points)
    → delete_working before.working row ≡ ok found
    → deleted_row found ≡ ok table
    → ensure_current_working config
        (record before { points = points; working = table })
        row.user_id
        now
      ≡ ok (made, mid)
    → record_projection_success mid.state c.calculation_version (utc now) ≡ ok (success, state)
    → IsFinalized config before row now revision made (record mid { state = state })
IsFinalized-from config before row now c revision points found table made mid success state keyed
      history stored ended calculated persisted deleted left ensured succeeded =
    let is_week = delete_working-week before.working row found deleted in
    let removed : remove_working before.working (some row) ≡ ok table = rw deleted left in
    let (keyed', gone) =
      remove_working-removed before.working row.user_id row.window.start (some row) table keyed
        stored removed in
    let is =
      closed-IsProjected config before row.user_id row.window c row.source_generation now keyed
        history revision points table made mid ended is_week.seven_days
        (persist_developed-IsDeveloped before.points row.user_id row.window c row.source_generation
          now revision points history persisted).0
        gone
        (ensure_current_working-Kept config (record before { points = points; working = table })
          row.user_id now made mid keyed' ensured) in
    record {
      c = c;
      calculated = calculated;
      projected =
          IsProjected-projections before row.user_id row.window c row.source_generation now
            (record { appended_revision = revision; created_current_working = made; session = mid })
            is;
      markers_same = ap (λ (x : Session). x.dirty) is.only_projections;
      success = success;
      succeeded = rw (ap (λ (x : Session). x.state) is.only_projections) at succeeded;
    }

abbrev finished :
    Option ℕ
    → Bool × Session
    → ProjectionStateRecord × Option StateRow
    → ProjectionProcessOutcome × Session
finished revision (made, mid) (success, state) =
    (applied revision made, record mid { state = state })

abbrev pub FinalizedOutcome :
    Config → Session → WorkingProjectionRecord → ℕ → ProjectionProcessOutcome → Session → Type 0
FinalizedOutcome config before row now (applied revision made) after =
    IsFinalized config before row now revision made after
FinalizedOutcome config before row now _ after = ⊥

pub finalize_overdue-FinalizedOutcome :
    (config : Config) (before : Session) (row : WorkingProjectionRecord) (now : ℕ)
    (outcome : ProjectionProcessOutcome) (after : Session)
    → IsKeyed before.working
    → IsHistory before.points
    → Dict.get (key_of row) before.working ≡ some row
    → row.window.end ≤ now
    → finalize_overdue config before row now ≡ ok (outcome, after)
    → FinalizedOutcome config before row now outcome after
unfolding finalize_overdue
finalize_overdue-FinalizedOutcome config before row now outcome after keyed history stored ended h =
    let finish =
      λ (revision : Option ℕ) (x : Bool × Session) (y : ProjectionStateRecord × Option StateRow).
        ok (finished revision x y) in
    let succeed = λ (c : WeeklyCalculation) (revision : Option ℕ) (x : Bool × Session).
      (record_projection_success x.1.state c.calculation_version (utc now) >>= finish revision x) in
    let create =
      λ (c : WeeklyCalculation) (revision : Option ℕ) (points : Points) (table : WorkingTable).
        (ensure_current_working config (record before { points = points; working = table })
            row.user_id now
          >>= succeed c revision) in
    let remove = λ (c : WeeklyCalculation) (x : Option ℕ × Points).
      (delete_working before.working row >>= deleted_row >>= create c x.0 x.1) in
    let persist = λ (c : WeeklyCalculation).
      (persist_developed before.points row.user_id row.window c row.source_generation now
        >>= remove c) in
    let (c, calculated, h1) =
      >>=-eq-ok (calculation config before.bookmarks row.user_id row.window) persist h in
    let ((revision, points), persisted, h2) =
      >>=-eq-ok (persist_developed before.points row.user_id row.window c row.source_generation now)
        (remove c) h1 in
    let (table, removed, h3) =
      >>=-eq-ok (delete_working before.working row >>= deleted_row) (create c revision points) h2 in
    let (found, deleted, left) =
      >>=-eq-ok (delete_working before.working row) deleted_row removed in
    let ((made, mid), ensured, h4) =
      >>=-eq-ok
        (ensure_current_working config (record before { points = points; working = table })
          row.user_id now)
        (succeed c revision) h3 in
    let ((success, state), succeeded, h5) =
      >>=-eq-ok (record_projection_success mid.state c.calculation_version (utc now))
        (finish revision (made, mid)) h4 in
    subst
      (λ (x : ProjectionProcessOutcome × Session). FinalizedOutcome config before row now x.0 x.1)
      (ok-inj (finished revision (made, mid) (success, state)) (outcome, after) h5)
      (IsFinalized-from config before row now c revision points found table made mid success state
        keyed history stored ended calculated persisted deleted left ensured succeeded)
