-- ===== src/Weekly/Examples.antt =====
-- The weeks at concrete times.
use backend_exercise.Prelude.{ℕ, ◌+◌, ◌*◌, ◌%◌, ◌≤◌, ◌<◌, ◌≡◌, ◌↔◌, ok}
use backend_exercise.Clock.{utc, day, normalize_utc-utc}
use backend_exercise.Weekly.{WeeklyWindow, week, from_datetime, from_bounds, utc_monday}
use backend_exercise.Weekly.Windows.{
  IsWeek, Contains, from_datetime_iff, from_bounds_iff, utc_monday_iff,
}

abbrev second_week : WeeklyWindow
second_week = record { start = week; end = week + week }

abbrev thursday : ℕ
thursday = week + 3 * day + 5

from_datetime_iff_example :
    (from_datetime (utc thursday) ≡ ok second_week)
    ↔ (IsWeek second_week × Contains second_week thursday)
from_datetime_iff_example =
    from_datetime_iff (utc thursday) thursday second_week (normalize_utc-utc thursday)

from_bounds_iff_example :
    (from_bounds (utc week) (utc (week + week)) ≡ ok second_week)
    ↔ (IsWeek second_week × (second_week.start ≡ week) × (second_week.end ≡ week + week))
from_bounds_iff_example =
    from_bounds_iff (utc week) (utc (week + week)) week (week + week) second_week
      (normalize_utc-utc week) (normalize_utc-utc (week + week))

utc_monday_iff_example :
    (utc_monday (utc thursday) ≡ ok week)
    ↔ ((week % week ≡ 0) × (week ≤ thursday) × (thursday < week + week))
utc_monday_iff_example = utc_monday_iff (utc thursday) thursday week (normalize_utc-utc thursday)
