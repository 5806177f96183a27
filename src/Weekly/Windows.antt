-- ===== src/Weekly/Windows.antt =====
-- The weekly windows partition time.
use backend_exercise.Prelude.{
  ℕ, ◌+◌, ◌*◌, ◌/◌, ◌%◌, ◌≤◌, ◌<◌, ◌≡◌, ◌↔◌, arith, ◌&&◌, ◌>>=◌, eqb, require, value_error, Result,
  ok,
}
use backend_exercise.Clock.{DateTime, day, end_of_time, normalize_utc}
use backend_exercise.Weekly.{
  WeeklyWindow, week, weekday, monday, plus, from_datetime, utc_monday, from_bounds,
}

monday_lem : (t : ℕ) → monday t ≡ (t / week) * week
monday_lem t = omega arith

abbrev pub Contains : WeeklyWindow → ℕ → Type 0
Contains w t = (w.start ≤ t) × (t < w.end)

-- A Monday-to-Monday window within the calendar.
pub record IsWeek (w : WeeklyWindow) : Type 0 where
  pub on_monday : w.start % week ≡ 0
  pub seven_days : w.end ≡ w.start + week
  pub in_calendar : w.end < end_of_time

-- `from_datetime` at a time that normalizes.
window_at :
    (t : ℕ) (w : WeeklyWindow)
    → ((plus (monday t) week >>= λ end. ok (record { start = monday t; end = end })) ≡ ok w)
      ↔ (IsWeek w × Contains w t)
window_at t w = (λ h. ground (arith, monday_lem t), λ h. ground (arith, monday_lem t))

-- Of a time that normalizes to the instant t, `from_datetime` returns a window exactly if that is a
-- window from a Monday to the next within the calendar, and contains t.
pub from_datetime_iff :
    (d : DateTime) (t : ℕ) (w : WeeklyWindow)
    → normalize_utc d ≡ ok t
    → (from_datetime d ≡ ok w) ↔ (IsWeek w × Contains w t)
unfolding from_datetime
from_datetime_iff d t w h = rw (h, from_datetime) (window_at t w)

bounds_at :
    (s e : ℕ) (w : WeeklyWindow)
    → ((require (eqb (weekday s) 0 && eqb (s % day) 0) value_error >>= λ _.
          plus s week >>= λ expected.
          require (eqb e expected) value_error >>= λ _. ok (record { start = s; end = e }))
        ≡ ok w)
      ↔ (IsWeek w × (w.start ≡ s) × (w.end ≡ e))
bounds_at s e w = (λ h. ground arith, λ h. ground arith)

-- Of two times that normalize, `from_bounds` returns a window exactly if that is a window from a
-- Monday to the next within the calendar and has these two instants as its bounds.
pub from_bounds_iff :
    (c d : DateTime) (s e : ℕ) (w : WeeklyWindow)
    → normalize_utc c ≡ ok s
    → normalize_utc d ≡ ok e
    → (from_bounds c d ≡ ok w) ↔ (IsWeek w × (w.start ≡ s) × (w.end ≡ e))
unfolding from_bounds
from_bounds_iff c d s e w h k = rw (h, k, from_bounds) (bounds_at s e w)

monday_at :
    (t m : ℕ)
    → (◌≡◌ {A = Result ℕ} (ok (monday t)) (ok m)) ↔ ((m % week ≡ 0) × (m ≤ t) × (t < m + week))
monday_at t m = (λ h. ground (arith, monday_lem t), λ h. ground (arith, monday_lem t))

-- Of a time that normalizes to the instant t, `utc_monday` returns an instant exactly if that is the
-- midnight of a Monday from which t is less than seven days away; so it is the start of the window of
-- `from_datetime`, where there is one.
pub utc_monday_iff :
    (d : DateTime) (t m : ℕ)
    → normalize_utc d ≡ ok t
    → (utc_monday d ≡ ok m) ↔ ((m % week ≡ 0) × (m ≤ t) × (t < m + week))
unfolding utc_monday
utc_monday_iff d t m h = rw (h, utc_monday) (monday_at t m)

start-from_datetime :
    (d : DateTime) (w : WeeklyWindow) → from_datetime d ≡ ok w → utc_monday d ≡ ok w.start
unfolding from_datetime utc_monday
start-from_datetime d w h = ground arith
