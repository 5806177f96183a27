-- ===== src/Stats/Dirty/Examples.antt =====
-- The dirty markers at a concrete run: two users' marks, and what the consumers do.
use backend_exercise.Prelude.{
  ℕ, ◌+◌, ◌<◌, ◌≡◌, ◌≢◌, refl, none, some, [], ◌∷◌, ok, arith, pair_eq, nat_eq,
}
use backend_exercise.Clock.{utc, normalize_utc}
use backend_exercise.Weekly.{week, utc_monday}
use backend_exercise.Dict
use backend_exercise.Stats.Dirty.{
  Row, Table, create, update, current, projection, mark_dirty, settle, acknowledge,
  DirtyAcknowledgementStatus, stale, acknowledged, deleted,
}
use backend_exercise.Stats.Dirty.Constraints.{IsValid, mark_dirty-IsValid, acknowledge-IsValid}
use backend_exercise.Stats.Dirty.Acknowledge.{Outcome, acknowledge-Outcome, acknowledge-both}
use backend_exercise.Stats.Dirty.Marks.{Marks, unmarked, hit, Remarked, acknowledge-late}

program : Unit {0}
unfolding mark_dirty settle acknowledge normalize_utc utc_monday Dict.get Dict.put Dict.delete
program = tt

abbrev marked : Row
marked = record {
  generation = 1;
  current_completed_generation = 0;
  projection_completed_generation = 0;
  reason = create;
  first_marked_at = 5;
  last_marked_at = 5;
}

abbrev one_row : Table
one_row = ((1, week), marked) ∷ []

abbrev half_done : Table
half_done = ((1, week), record marked { current_completed_generation = 1 }) ∷ []

abbrev marked_again : Table
marked_again =
    ((1, week), record marked { generation = 2; reason = update; last_marked_at = 8 }) ∷ []

marked_first : mark_dirty [] 1 (utc (week + 3)) create (utc 5) ≡ ok one_row
unfolding program
marked_first = refl

marked_second : mark_dirty one_row 1 (utc (week + 4)) update (utc 8) ≡ ok marked_again
unfolding program
marked_second = refl

in_second_week : (utc_monday (utc (week + 3)) ≡ ok week) × (utc_monday (utc (week + 4)) ≡ ok week)
unfolding program
in_second_week = (refl, refl)

current_first : acknowledge current one_row 1 (utc (week + 3)) 1 ≡ ok (acknowledged, half_done)
unfolding program
current_first = refl

then_projection : acknowledge projection half_done 1 (utc (week + 3)) 1 ≡ ok (deleted, [])
unfolding program
then_projection = refl

too_late : acknowledge current marked_again 1 (utc (week + 3)) 1 ≡ ok (stale, marked_again)
unfolding program
too_late = refl

found : Dict.get (1, week) one_row ≡ some marked
unfolding program
found = refl

mark_dirty-IsValid_example : IsValid one_row
mark_dirty-IsValid_example =
    mark_dirty-IsValid [] 1 (utc (week + 3)) create (utc 5) one_row
      (record { distinct = tt; entries = tt }) marked_first

one_row-IsValid : IsValid one_row
unfolding program
one_row-IsValid = record {
  distinct = (refl, tt);
  entries = (
    record {
      user_positive = omega arith;
      on_monday = refl;
      row = record {
        generation_positive = omega arith;
        current_bounded = omega arith;
        projection_bounded = omega arith;
      };
    },
    tt,
  );
}

acknowledge-IsValid_example : IsValid half_done
acknowledge-IsValid_example =
    acknowledge-IsValid current one_row 1 (utc (week + 3)) 1 acknowledged half_done one_row-IsValid
      current_first

acknowledge-Outcome_example : Outcome half_done (1, week) projection 1 (deleted, [])
acknowledge-Outcome_example =
    acknowledge-Outcome projection half_done 1 week (utc (week + 3)) 1 deleted [] in_second_week.0
      then_projection

not_stale : acknowledged ≢ stale
not_stale = λ h. ground arith

acknowledge-both_example : Dict.get {K = ℕ × ℕ} {V = Row} (1, week) [] ≡ none
acknowledge-both_example =
    acknowledge-both current one_row half_done [] 1 week (utc (week + 3)) 1 acknowledged deleted
      in_second_week.0 current_first not_stale then_projection

again : Marks (1, week) one_row 1 marked_again
again = hit (utc (week + 4)) update (utc 8) unmarked in_second_week.1 marked_second

some_mark : 0 < 1
some_mark = omega arith

acknowledge-late_example :
    (◌≡◌ {A = DirtyAcknowledgementStatus} stale stale)
    × (marked_again ≡ marked_again)
    × Remarked marked 1 (Dict.get (1, week) marked_again)
acknowledge-late_example =
    acknowledge-late current one_row marked_again marked_again 1 week 1 (utc (week + 3)) marked
      stale found again some_mark in_second_week.0 too_late
