-- ===== src/Stats/Publisher/Examples.antt =====
-- The publisher in use: a queue of one that overflows.
use backend_exercise.Prelude.{
  ℕ, ◌≡◌, refl, false, [], ◌∷◌, ◌++◌, List, ok, raise, value_error, arith,
}
use backend_exercise.Clock.{utc}
use backend_exercise.Dict
use backend_exercise.Events.{BookmarkStatsInvalidated, created, enqueued, queue_full, unavailable}
use backend_exercise.Stats.Snapshots.{empty, invalidate, current_epoch}
use backend_exercise.Stats.Publisher.{
  StatsInvalidationPublisher, new_publisher, publish, attempt, put_nowait, drain, state,
  acknowledge_full_reconciliation, require_full_reconciliation,
}
use backend_exercise.Stats.Publisher.Accounting.{
  Call, publishes, drains, step, run, accepted, delivered, suspicions, suspicion, IsBounded,
  accepted-eq-delivered, run-IsBounded, Acknowledged, acknowledge-Acknowledged,
}

program : Unit {0}
unfolding new_publisher publish attempt put_nowait drain state acknowledge_full_reconciliation
    require_full_reconciliation invalidate current_epoch Dict.get Dict.put step run suspicions
    suspicion
program = tt

abbrev hint : ℕ → BookmarkStatsInvalidated
hint n = record {
  user_id = 1;
  window_start = utc 0;
  mutation_kind = created;
  bookmark_id = n;
  occurred_at = utc 5;
  correlation_id = 1;
}

abbrev idle : StatsInvalidationPublisher
idle = record {
  store = empty;
  queue = [];
  capacity = 1;
  reconciliation_required = false;
  overflow_logged = false;
  enqueued_count = 0;
  overflow_count = 0;
  failure_count = 0;
  reconciliation_epoch = 0;
}

constructed : (new_publisher empty 1 9 ≡ ok idle) × (new_publisher empty 0 9 ≡ raise value_error)
unfolding program
constructed = (refl, refl)

outcomes :
    ((publish idle (hint 1)).0 ≡ enqueued)
    × ((publish (publish idle (hint 1)).1 (hint 2)).0 ≡ queue_full)
    × ((publish idle (record (hint 1) { user_id = 0 })).0 ≡ unavailable)
unfolding program
outcomes = (refl, refl, refl)

abbrev calls : List Call
calls = publishes (hint 1) ∷ publishes (hint 2) ∷ drains 1 ∷ []

one_lost :
    (suspicions idle calls ≡ 1) × ((acknowledge_full_reconciliation (run idle calls) 0).0 ≡ false)
unfolding program
one_lost = (refl, refl)

accepted-eq-delivered_example :
    idle.queue ++ accepted idle calls ≡ delivered idle calls ++ (run idle calls).queue
accepted-eq-delivered_example = accepted-eq-delivered idle calls

run-IsBounded_example : IsBounded (run idle calls)
run-IsBounded_example = run-IsBounded idle calls (record { within = omega arith })

acknowledge-Acknowledged_example : Acknowledged idle calls
acknowledge-Acknowledged_example = acknowledge-Acknowledged idle calls
