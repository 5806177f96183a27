-- ===== src/Stats/Projection/Lifecycle/Running.antt =====
-- A baseline that runs: its row can always be read, resumed, advanced and activated.
use backend_exercise.Prelude.{
  ℕ, ◌+◌, ◌≤◌, ◌≡◌, refl, false, Option, none, some, ok, arith, String, leb, string_eq,
}
use backend_exercise.Clock.{utc, end_of_time, normalize_utc-utc}
use backend_exercise.Weekly.{WeeklyWindow, week, from_bounds}
use backend_exercise.Weekly.Windows.{IsWeek, from_bounds_iff}
use backend_exercise.Stats.Projection.{
  running, ProjectionStateRecord, valid_version, validate_candidate,
}
use backend_exercise.Stats.Projection.Points.History.{positive-tt}
use backend_exercise.Stats.Projection.Candidates.Pages.{window_at, canonical-week}
use backend_exercise.Stats.Projection.Lifecycle.{
  StateRow, Answer, read_state, validate_state, checkpoint_window_of, get_state, first_row,
  ensure_state, start_or_resume, advance, activated_at, activate,
}

abbrev pub user_of : Option (ℕ × ℕ) → Option ℕ
user_of none = none
user_of (some (u, w)) = some u

abbrev pub start_of : Option (ℕ × ℕ) → Option ℕ
start_of none = none
start_of (some (u, w)) = some w

abbrev pub window_of : Option (ℕ × ℕ) → Option WeeklyWindow
window_of none = none
window_of (some (u, w)) = some (window_at w)

-- The row of a baseline that started at `from`, and has reached a checkpoint.
abbrev pub running_row : String → Option (ℕ × ℕ) → (from now : ℕ) → StateRow
running_row version checkpoint from now = record {
  status = running;
  calculation_version = version;
  checkpoint_user_id = user_of checkpoint;
  checkpoint_window_start = start_of checkpoint;
  baseline_started_at = some from;
  baseline_completed_at = none;
  updated_at = now;
  last_projection_success_at = none;
  failure_code = none;
}

abbrev pub shown : StateRow → Option WeeklyWindow → ProjectionStateRecord
shown row window = record {
  status = row.status;
  calculation_version = row.calculation_version;
  checkpoint_user_id = row.checkpoint_user_id;
  checkpoint_window = window;
  baseline_started_at = row.baseline_started_at;
  baseline_completed_at = row.baseline_completed_at;
  updated_at = row.updated_at;
  last_projection_success_at = row.last_projection_success_at;
  failure_code = row.failure_code;
}

abbrev pub IsCheckpoint : Option (ℕ × ℕ) → Type 0
IsCheckpoint none = Unit
IsCheckpoint (some (u, w)) = (1 ≤ u) × IsWeek (window_at w)

from_bounds-week :
    (w : ℕ) → IsWeek (window_at w) → from_bounds (utc w) (utc (w + week)) ≡ ok (window_at w)
from_bounds-week w h =
    (from_bounds_iff (utc w) (utc (w + week)) w (w + week) (window_at w) (normalize_utc-utc w)
        (normalize_utc-utc (w + week))).1
      (h, refl, refl)

checkpoint_window :
    (w : ℕ) → IsWeek (window_at w) → checkpoint_window_of (some w) ≡ ok (some (window_at w))
checkpoint_window w h =
    let small : leb end_of_time (w + week) ≡ false = ground (arith, h.in_calendar) in
    rw (small, checkpoint_window_of) (rw (from_bounds-week w h) refl)

module _ (version : String) (valid : valid_version version ≡ ok tt) where
  pub running-read :
      (checkpoint : Option (ℕ × ℕ)) (from now : ℕ)
      → IsCheckpoint checkpoint
      → read_state (running_row version checkpoint from now)
        ≡ ok (shown (running_row version checkpoint from now) (window_of checkpoint))
  unfolding read_state validate_state
  running-read none from now h = rw valid refl
  running-read (some (u, w)) from now (pos, is_week) =
      let window : checkpoint_window_of (some w) ≡ ok (some (window_at w)) =
        checkpoint_window w is_week in
      rw (window, read_state)
        (rw valid (rw (positive-tt u pos) (rw (canonical-week (window_at w) is_week) refl)))

  first-read :
      (now : ℕ) → read_state (first_row version now) ≡ ok (shown (first_row version now) none)
  unfolding read_state validate_state
  first-read now = rw valid refl

  pub active-read :
      (checkpoint : Option (ℕ × ℕ)) (from now : ℕ)
      → IsCheckpoint checkpoint
      → from ≤ now
      → read_state (activated_at now (running_row version checkpoint from now))
        ≡ ok (
            shown
              (activated_at now (running_row version checkpoint from now))
              (window_of checkpoint))
  unfolding read_state validate_state
  active-read none from now h later = rw valid (ground arith)
  active-read (some (u, w)) from now (pos, is_week) later =
      let window : checkpoint_window_of (some w) ≡ ok (some (window_at w)) =
        checkpoint_window w is_week in
      rw (window, read_state)
        (rw valid
          (rw (positive-tt u pos) (rw (canonical-week (window_at w) is_week) (ground arith))))

  -- The answer of a method that leaves such a row.
  abbrev pub running_answer : Option (ℕ × ℕ) → (from now : ℕ) → Answer
  running_answer checkpoint from now = ok (
    shown (running_row version checkpoint from now) (window_of checkpoint),
    some (running_row version checkpoint from now),
  )

  pub start-running :
      (checkpoint : Option (ℕ × ℕ)) (from now t : ℕ)
      → IsCheckpoint checkpoint
      → start_or_resume (some (running_row version checkpoint from now)) version (utc t)
        ≡ running_answer checkpoint from now
  unfolding start_or_resume ensure_state get_state
  start-running checkpoint from now t h = ground (
    arith,
    normalize_utc-utc t,
    running-read checkpoint from now h,
    string_eq.beq_iff version version,
  )

  pub start-absent : (t : ℕ) → start_or_resume none version (utc t) ≡ running_answer none t t
  unfolding start_or_resume ensure_state get_state
  start-absent t = ground (arith, normalize_utc-utc t, first-read t, running-read none t t tt)

  pub advance-running :
      (checkpoint : Option (ℕ × ℕ)) (from now t u w : ℕ)
      → 1 ≤ u
      → IsWeek (window_at w)
      → advance
          (some (running_row version checkpoint from now))
          (record { user_id = u; window = window_at w })
          (utc t)
        ≡ running_answer (some (u, w)) from t
  unfolding advance validate_candidate get_state
  advance-running checkpoint from now t u w pos is_week = ground (
    arith,
    normalize_utc-utc t,
    positive-tt u pos,
    canonical-week (window_at w) is_week,
    running-read (some (u, w)) from t (pos, is_week),
  )

  pub activate-running :
      (checkpoint : Option (ℕ × ℕ)) (from now t : ℕ)
      → IsCheckpoint checkpoint
      → from ≤ t
      → activate (some (running_row version checkpoint from now)) (utc t)
        ≡ ok (
          shown (activated_at t (running_row version checkpoint from now)) (window_of checkpoint),
          some (activated_at t (running_row version checkpoint from now)),
        )
  unfolding activate get_state
  activate-running checkpoint from now t h later =
      ground (arith, normalize_utc-utc t, active-read checkpoint from t h later)
