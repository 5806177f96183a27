-- ===== src/Events.antt =====
-- app/bookmarks/events.py: the invalidation hint, and what its validator accepts. Identifiers and
-- the integer of a UUID are ℕ; an exception of the validator is a `ValueError`.
use backend_exercise.Prelude.{
  ◌≡◌, sym, ok-inj, Bool, >>-eq-ok, ℕ, ◌%◌, ◌||◌, not, Result, ok, raise, value_error, eqb, require,
  ◌>>◌,
}
use backend_exercise.Clock.{DateTime, naive, aware, east, west, day}
use backend_exercise.Weekly.{weekday}

pub data BookmarkMutationKind : Type 0 where
  created updated tags_updated deleted : BookmarkMutationKind

pub data PublishOutcome : Type 0 where
  enqueued queue_full unavailable : PublishOutcome

pub record BookmarkStatsInvalidated : Type 0 where
  pub user_id : ℕ
  pub window_start : DateTime
  pub mutation_kind : BookmarkMutationKind
  pub bookmark_id : ℕ
  pub occurred_at : DateTime
  pub correlation_id : ℕ

-- `_require_utc`
unfoldable require_utc : DateTime → Result (Unit {0})
require_utc (naive wall) = raise value_error
require_utc (aware wall (east o)) = require (eqb o 0) value_error
require_utc (aware wall (west o)) = require (eqb o 0) value_error

abbrev wall_clock : DateTime → ℕ
wall_clock (naive wall) = wall
wall_clock (aware wall offset) = wall

-- `BookmarkStatsInvalidated(...)` with `_validate_invariants`
unfoldable pub invalidated : BookmarkStatsInvalidated → Result BookmarkStatsInvalidated
unfolding require_utc
invalidated e = do
  require (not (eqb e.user_id 0)) value_error
  require (not (eqb e.bookmark_id 0)) value_error
  require_utc e.window_start
  require_utc e.occurred_at
  let wall = wall_clock e.window_start
  require (not (not (eqb (weekday wall) 0) || not (eqb (wall % day) 0))) value_error
  require (not (eqb e.correlation_id 0)) value_error
  ok e

abbrev on_monday : BookmarkStatsInvalidated → Bool
on_monday e =
    let wall = wall_clock e.window_start in
    not (not (eqb (weekday wall) 0) || not (eqb (wall % day) 0))

-- An event that is accepted is not changed.
pub invalidated-eq : (e f : BookmarkStatsInvalidated) → invalidated e ≡ ok f → f ≡ e
unfolding invalidated
invalidated-eq e f h = sym (
    ok-inj e f (
      >>-eq-ok (require (not (eqb e.correlation_id 0)) value_error) _ (
        >>-eq-ok (require (on_monday e) value_error) _ (
          >>-eq-ok (require_utc e.occurred_at) _ (
            >>-eq-ok (require_utc e.window_start) _ (
              >>-eq-ok (require (not (eqb e.bookmark_id 0)) value_error) _
                (>>-eq-ok (require (not (eqb e.user_id 0)) value_error) _ h)))))))
