-- ===== src/Stats/Examples/Repository.antt =====
-- The repository of the projections.
use backend_exercise.Prelude.{ℕ, ◌≡◌, refl, false, none, some, [], ◌∷◌, ok, ◌==◌, pair_eq, nat_eq}
use backend_exercise.Clock.{utc, normalize_utc}
use backend_exercise.Weekly.{WeeklyWindow}
use backend_exercise.Dict
use backend_exercise.Stats.Projection.{
  ProjectionPointRecord, validate_point, validate_working, canonical, valid_version, valid_hash,
  read_point,
}
use backend_exercise.Stats.Projection.Points.{append_point, effective_point}
use backend_exercise.Stats.Projection.Points.History.{
  IsHistory, []-IsHistory, append_point-IsHistory,
}
use backend_exercise.Stats.Projection.Working.{replace_working, get_working, key_of}
use backend_exercise.Stats.Projection.Working.Rows.{get_working-replace_working}
use backend_exercise.Stats.Projection.Lifecycle.{StateRow, start_or_resume, read_state}
use backend_exercise.Stats.Projection.Lifecycle.Running.{running_row, shown}
use backend_exercise.Stats.Projection.Lifecycle.Transitions.{Moved, answer, start}
use backend_exercise.Stats.Projection.Lifecycle.Moves.{answer-Moved}
use backend_exercise.Stats.Examples.Samples.{root, developing, second_week, version, now}

abbrev inserted : ProjectionPointRecord
inserted = record { point = root; id = 1 }

root_appended : append_point [] root ≡ ok (inserted, inserted ∷ [])
unfolding append_point validate_point canonical normalize_utc valid_version valid_hash
    effective_point read_point
root_appended = refl

append_point-IsHistory_example :
    (inserted.point ≡ root) × (inserted ∷ [] ≡ inserted ∷ []) × IsHistory (inserted ∷ [])
append_point-IsHistory_example =
    append_point-IsHistory [] root inserted (inserted ∷ []) []-IsHistory root_appended

row_replaced : replace_working [] developing ≡ ok ((key_of developing, developing) ∷ [])
unfolding replace_working validate_working canonical normalize_utc valid_version valid_hash Dict.put
row_replaced = refl

get_working-replace_working_example :
    (get_working ((key_of developing, developing) ∷ []) 7 second_week ≡ ok (some developing))
    × ((user_id : ℕ) (window : WeeklyWindow)
        → (key_of developing == (user_id, window.start)) ≡ false
        → get_working ((key_of developing, developing) ∷ []) user_id window
          ≡ get_working [] user_id window)
get_working-replace_working_example =
    get_working-replace_working [] developing ((key_of developing, developing) ∷ []) row_replaced

abbrev started : StateRow
started = running_row version none now now

baseline_started : answer (start version (utc now)) none ≡ ok (shown started none, some started)
unfolding answer start_or_resume valid_version normalize_utc read_state
baseline_started = refl

answer-Moved_example : Moved none (shown started none) (some started)
answer-Moved_example =
    answer-Moved (start version (utc now)) none (shown started none) (some started) baseline_started
