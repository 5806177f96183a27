-- ===== src/Weekly.antt =====
-- The weeks of app/bookmarks/stats/weekly.py and app/bookmarks/stats/dirty.py. The first day of
-- Python's calendar is a Monday, so the weekday of an instant is its day modulo seven.
pub mod Windows
mod Examples
use backend_exercise.Prelude.{
  ℕ, ◌+◌, ◌-◌, ◌*◌, ◌/◌, ◌%◌, ◌&&◌, not, Result, ok, raise, value_error, overflow_error, eqb, leb,
  require, if◌then◌else◌, ◌>>=◌, ◌>>◌,
}
use backend_exercise.Clock.{DateTime, day, end_of_time, normalize_utc}

abbrev pub week : ℕ
week = 7 * day

abbrev pub weekday : ℕ → ℕ
weekday t = (t / day) % 7

-- `.replace(hour=0, minute=0, second=0, microsecond=0)`
abbrev pub midnight : ℕ → ℕ
midnight t = (t / day) * day

pub record WeeklyWindow : Type 0 where
  pub start : ℕ
  pub end : ℕ

-- `value + timedelta(...)`
abbrev pub plus : ℕ → ℕ → Result ℕ
plus t d = if leb end_of_time (t + d) then raise overflow_error else ok (t + d)

-- The part that `WeeklyWindow.from_datetime` and `utc_monday` share.
abbrev pub monday : ℕ → ℕ
monday instant = midnight (instant - weekday instant * day)

-- `WeeklyWindow.from_datetime`, also called `weekly_window`
unfoldable pub from_datetime : DateTime → Result WeeklyWindow
from_datetime value = do
  instant ← normalize_utc value
  end ← plus (monday instant) week
  ok (record { start = monday instant; end = end })

-- `utc_monday`
unfoldable pub utc_monday : DateTime → Result ℕ
utc_monday value = do instant ← normalize_utc value; ok (monday instant)

-- `WeeklyWindow.from_bounds`
unfoldable pub from_bounds : DateTime → DateTime → Result WeeklyWindow
from_bounds start end = do
  normalized_start ← normalize_utc start
  normalized_end ← normalize_utc end
  require (eqb (weekday normalized_start) 0 && eqb (normalized_start % day) 0) value_error
  expected ← plus normalized_start week
  require (eqb normalized_end expected) value_error
  ok (record { start = normalized_start; end = normalized_end })
