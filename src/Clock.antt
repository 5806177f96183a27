-- ===== src/Clock.antt =====
-- app/core/clock.py. An aware datetime of Python is its wall clock with the offset of its zone; a
-- wall clock is the number of microseconds since 0001-01-01T00:00:00, the least that Python has.
-- After `normalize_utc` a time is such a number alone, an instant.
use backend_exercise.Prelude.{
  ℕ, ◌+◌, ◌-◌, ◌*◌, ◌≡◌, arith, Result, ok, raise, value_error, overflow_error, ltb, leb,
  if◌then◌else◌,
}

abbrev pub second : ℕ
second = 1_000_000

abbrev pub day : ℕ
day = 86_400 * second

-- Python's calendar ends with the year 9999.
abbrev pub end_of_time : ℕ
end_of_time = 3_652_059 * day

pub data Offset : Type 0 where
  east : ℕ → Offset
  west : ℕ → Offset

pub data DateTime : Type 0 where
  naive : ℕ → DateTime
  aware : ℕ → Offset → DateTime

-- `value.astimezone(UTC)`, which fails where the calendar ends
unfoldable pub normalize_utc : DateTime → Result ℕ
normalize_utc (naive wall) = raise value_error
normalize_utc (aware wall (east o)) = if ltb wall o then raise overflow_error else ok (wall - o)
normalize_utc (aware wall (west o)) =
    if leb end_of_time (wall + o) then raise overflow_error else ok (wall + o)

-- A time in UTC as a datetime.
abbrev pub utc : ℕ → DateTime
utc t = aware t (east 0)

-- The two datetimes name one moment: their clocks differ by their offsets.
abbrev SameMoment : DateTime → ℕ → Type 0
SameMoment (naive wall) t = ⊥
SameMoment (aware wall (east o)) t = t + o ≡ wall
SameMoment (aware wall (west o)) t = t ≡ wall + o

-- Normalization keeps the moment and stays within the calendar.
normalize_utc_lem : (d : DateTime) (t : ℕ) → normalize_utc d ≡ ok t → SameMoment d t
unfolding normalize_utc
normalize_utc_lem (naive wall) t h = cc
normalize_utc_lem (aware wall (east o)) t h = ground arith
normalize_utc_lem (aware wall (west o)) t h = ground arith

pub normalize_utc-utc : (t : ℕ) → normalize_utc (utc t) ≡ ok t
unfolding normalize_utc
normalize_utc-utc t = ground arith
