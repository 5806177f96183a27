-- ===== src/Stats/Dirty.antt =====
-- app/bookmarks/stats/dirty.py: the durable markers of weeks whose statistics must be refreshed. The
-- table `bookmark_stats_window_dirty` is a dictionary under its primary key; each SQL statement of
-- the repository is a function on it. A stored time is the instant that it encodes: the text format
-- is fixed in width and sorts like the instants. Types of arguments and negative numbers, which the
-- guards also refuse, have no counterpart.
pub mod Constraints
pub mod Acknowledge
pub mod Marks
pub mod Observe
mod Examples
use backend_exercise.Prelude.{
  ℕ, ◌+◌, ◌&&◌, ◌||◌, not, Bool, true, false, Option, none, some, List, [], ◌∷◌, map, Result, ok,
  raise, value_error, eqb, leb, ltb, length, take, keep, require, pair_eq, nat_eq, min,
  if◌then◌else◌, ◌>>=◌, ◌>>◌,
}
use backend_exercise.Clock.{DateTime, normalize_utc, utc}
use backend_exercise.Dict
use backend_exercise.Sorting.{order_by}
use backend_exercise.Dict.{Dict}
use backend_exercise.Weekly.{utc_monday, monday}

pub data DirtyReason : Type 0 where
  create update delete reconcile : DirtyReason

-- The columns beside the key.
pub record Row : Type 0 where
  pub generation : ℕ
  pub current_completed_generation : ℕ
  pub projection_completed_generation : ℕ
  pub reason : DirtyReason
  pub first_marked_at : ℕ
  pub last_marked_at : ℕ

abbrev pub Table : Type 0
Table = Dict (ℕ × ℕ) Row

pub record DirtyMarker : Type 0 where
  pub user_id : ℕ
  pub window_start : ℕ
  pub row : Row
  pub open row use *

pub record DirtyBacklog : Type 0 where
  pub count : ℕ
  pub oldest_marked_at : Option ℕ

pub data DirtyAcknowledgementStatus : Type 0 where
  stale acknowledged deleted : DirtyAcknowledgementStatus

abbrev pub positive : ℕ → Result (Unit {0})
positive value = require (not (eqb value 0)) value_error

-- `mark_dirty`: INSERT … ON CONFLICT DO UPDATE
abbrev pub marked_row : Option Row → DirtyReason → ℕ → Row
marked_row none reason marked = record {
  generation = 1;
  current_completed_generation = 0;
  projection_completed_generation = 0;
  reason = reason;
  first_marked_at = marked;
  last_marked_at = marked;
}
marked_row (some old) reason marked = record old {
  generation = old.generation + 1;
  current_completed_generation = 0;
  projection_completed_generation = 0;
  reason = reason;
  last_marked_at = marked;
}

unfoldable pub mark_dirty : Table → ℕ → DateTime → DirtyReason → DateTime → Result Table
mark_dirty table user_id window_start reason marked_at = do
  positive user_id
  window ← utc_monday window_start
  marked ← normalize_utc marked_at
  ok (
      Dict.put (user_id, window) (marked_row (Dict.get (user_id, window) table) reason marked)
        table)

-- ORDER BY last_marked_at ASC, user_id ASC, window_start ASC
abbrev pub before : (ℕ × ℕ) × Row → (ℕ × ℕ) × Row → Bool
before ((u, w), r) ((v, x), s) =
    ltb r.last_marked_at s.last_marked_at
    || (eqb r.last_marked_at s.last_marked_at && (ltb u v || (eqb u v && leb w x)))

-- `_marker` checks what it reads.
unfoldable pub marker : (ℕ × ℕ) × Row → Result DirtyMarker
marker ((user_id, window), row) = do
  require (eqb window (monday window)) value_error
  positive user_id
  positive row.generation
  ok (record { user_id = user_id; window_start = window; row = row })

abbrev pub consed : Result DirtyMarker → Result (List DirtyMarker) → Result (List DirtyMarker)
consed first rest = do m ← first; ms ← rest; ok (m ∷ ms)

unfoldable pub markers : List ((ℕ × ℕ) × Row) → Result (List DirtyMarker)
unfolding marker
markers [] = ok []
markers (r ∷ rows) = consed (marker r) (markers rows)

abbrev pub page_limit : ℕ → Result (Unit {0})
page_limit limit = do positive limit; require (leb limit 100) value_error

-- `observe`
unfoldable pub observe : Table → ℕ → Result (List DirtyMarker)
unfolding markers order_by
observe table limit = do page_limit limit; markers (take limit (order_by before table))

-- `user_ids_after`, over the identifiers of the table `users`
unfoldable user_ids_after : List ℕ → (after_id limit : ℕ) → Result (List ℕ)
unfolding order_by
user_ids_after users after_id limit = do
  page_limit limit
  ok (take limit (order_by leb (keep (ltb after_id) users)))

-- `backlog`: count(*) and min(first_marked_at)
abbrev pub earlier : Option ℕ → ℕ → Option ℕ
earlier none t = some t
earlier (some s) t = some (min s t)

unfoldable pub oldest : Table → Option ℕ
oldest [] = none
oldest ((k, r) ∷ rows) = earlier (oldest rows) r.first_marked_at

unfoldable backlog : Table → DirtyBacklog
unfolding oldest
backlog table = record { count = length table; oldest_marked_at = oldest table }

-- The two completion columns.
pub data Consumer : Type 0 where
  current projection : Consumer

abbrev pub complete : Consumer → ℕ → Row → Row
complete current generation r = record r { current_completed_generation = generation }
complete projection generation r = record r { projection_completed_generation = generation }

-- The UPDATE and the DELETE of `_acknowledge`, on the row that its key finds.
unfoldable pub settle :
    Table → ℕ × ℕ → Consumer → ℕ → Option Row → DirtyAcknowledgementStatus × Table
settle table key c generation none = (stale, table)
settle table key c generation (some r) =
    if eqb r.generation generation
    then (let done = complete c generation r in
        if eqb done.current_completed_generation generation
          && eqb done.projection_completed_generation generation
        then (deleted, Dict.delete key table)
        else (acknowledged, Dict.put key done table))
    else (stale, table)

-- `_acknowledge`, which `acknowledge_current` and `acknowledge_projection` call
unfoldable pub acknowledge :
    Consumer
    → Table
    → (user_id : ℕ) → DateTime
    → (generation : ℕ) → Result (DirtyAcknowledgementStatus × Table)
unfolding settle
acknowledge c table user_id window_start generation = do
  positive user_id
  positive generation
  window ← utc_monday window_start
  ok (settle table (user_id, window) c generation (Dict.get (user_id, window) table))
