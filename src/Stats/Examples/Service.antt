-- ===== src/Stats/Examples/Service.antt =====
-- The processor and the baseline.
use backend_exercise.Prelude.{ℕ, ◌≡◌, refl, true, none, some, [], ◌∷◌, ok}
use backend_exercise.Clock.{utc, normalize_utc}
use backend_exercise.Dict
use backend_exercise.Weekly.{utc_monday}
use backend_exercise.Stats.Projection.{
  ProjectionPointRecord, canonical, validate_point, validate_working, valid_version, valid_hash,
  read_point, read_working,
}
use backend_exercise.Stats.Projection.Lifecycle.{read_state}
use backend_exercise.Stats.Projection.Points.History.{[]-IsHistory}
use backend_exercise.Stats.Processor.{persist_developed}
use backend_exercise.Stats.Processor.Developed.{IsDeveloped, persist_developed-IsDeveloped}
use backend_exercise.Stats.Processor.Process.{process_dirty, process_overdue, applied}
use backend_exercise.Stats.Processor.Process.Overdue.{
  OverdueOutcome, process_overdue-OverdueOutcome,
}
use backend_exercise.Stats.Processor.Process.DirtyMarkers.{DirtyOutcome, process_dirty-DirtyOutcome}
use backend_exercise.Stats.Examples.Samples.{
  root, weekly, second_week, now, config, dirty_session, marker, overdue, overdue_session,
}

abbrev inserted : ProjectionPointRecord
inserted = record { point = root; id = 1 }

root_persisted : persist_developed [] 7 second_week weekly 4 now ≡ ok (some 1, inserted ∷ [])
unfolding persist_developed canonical normalize_utc validate_point valid_version valid_hash
    read_point
root_persisted = refl

persist_developed-IsDeveloped_example :
    IsDeveloped [] 7 second_week weekly (some 1) (inserted ∷ [])
    × ((g later : ℕ)
        → persist_developed (inserted ∷ []) 7 second_week weekly g later ≡ ok (none, inserted ∷ []))
persist_developed-IsDeveloped_example =
    persist_developed-IsDeveloped [] 7 second_week weekly 4 now (some 1) (inserted ∷ [])
      []-IsHistory root_persisted

-- The second week is over, and the current one gets a developing row.
marker-applied :
    (process_dirty config dirty_session marker (utc now)).0 ≡ ok (applied (some 1) true)
unfolding process_dirty normalize_utc valid_version read_state canonical validate_point valid_hash
    read_point Dict.get validate_working utc_monday
marker-applied = refl

process_dirty-DirtyOutcome_example :
    DirtyOutcome config dirty_session marker
      (utc now)
      (process_dirty config dirty_session marker (utc now)).0
      (process_dirty config dirty_session marker (utc now)).1
process_dirty-DirtyOutcome_example =
    process_dirty-DirtyOutcome config dirty_session marker (utc now) tt []-IsHistory

-- The row of the second week goes, and the current week gets one.
overdue-applied :
    (process_overdue config overdue_session overdue (utc now)).0 ≡ ok (applied (some 1) true)
unfolding process_overdue normalize_utc valid_version read_state canonical validate_point valid_hash
    read_point Dict.get validate_working read_working Dict.delete
overdue-applied = refl

process_overdue-OverdueOutcome_example :
    OverdueOutcome config overdue_session overdue
      (utc now)
      (process_overdue config overdue_session overdue (utc now)).0
      (process_overdue config overdue_session overdue (utc now)).1
process_overdue-OverdueOutcome_example =
    process_overdue-OverdueOutcome config overdue_session overdue (utc now) (refl, tt) []-IsHistory
