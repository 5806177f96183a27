-- ===== src/Stats/Publisher.antt =====
-- app/bookmarks/stats/publisher.py: the bounded in-process queue of invalidation hints. Each method
-- works under the publisher's lock or on the thread-safe queue, so it is one step here; log calls,
-- whose exceptions it swallows, have no effect on the state.
pub mod Accounting
mod Examples
use backend_exercise.Prelude.{
  ℕ, ◌+◌, ◌&&◌, ◌||◌, not, Bool, true, false, List, [], ◌∷◌, ◌++◌, Result, ok, raise, value_error,
  eqb, leb, ltb, length, take, drop, require, if◌then◌else◌, ◌>>=◌, ◌>>◌,
}
use backend_exercise.Events.{
  BookmarkStatsInvalidated, PublishOutcome, enqueued, queue_full, unavailable,
}
use backend_exercise.Stats.Snapshots
use backend_exercise.Stats.Snapshots.{StatsSnapshotStore}

pub record StatsInvalidationPublisher : Type 0 where
  pub store : StatsSnapshotStore
  pub queue : List BookmarkStatsInvalidated
  pub capacity : ℕ
  pub reconciliation_required : Bool
  pub overflow_logged : Bool
  pub enqueued_count : ℕ
  pub overflow_count : ℕ
  pub failure_count : ℕ
  pub reconciliation_epoch : ℕ

pub record PublisherState : Type 0 where
  pub queue_depth : ℕ
  pub reconciliation_required : Bool
  pub enqueued_count : ℕ
  pub overflow_count : ℕ
  pub failure_count : ℕ
  pub reconciliation_epoch : ℕ

-- `StatsInvalidationPublisher.__init__`, with `_MAX_QUEUE_CAPACITY`
unfoldable pub new_publisher :
    StatsSnapshotStore → ℕ → (service_instance_id : ℕ) → Result StatsInvalidationPublisher
new_publisher store capacity service_instance_id = do
  require (leb 1 capacity && leb capacity 1_000_000) value_error
  require (not (eqb service_instance_id 0)) value_error
  ok (record {
    store = store;
    queue = [];
    capacity = capacity;
    reconciliation_required = false;
    overflow_logged = false;
    enqueued_count = 0;
    overflow_count = 0;
    failure_count = 0;
    reconciliation_epoch = 0;
  })

-- `_record_overflow`; whether to log is its result, which nothing but the log call reads.
unfoldable record_overflow : StatsInvalidationPublisher → StatsInvalidationPublisher
record_overflow p = record p {
  reconciliation_required = true;
  reconciliation_epoch = p.reconciliation_epoch + 1;
  overflow_count = p.overflow_count + 1;
  overflow_logged = true;
}

unfoldable record_failure : StatsInvalidationPublisher → StatsInvalidationPublisher
record_failure p = record p {
  reconciliation_required = true;
  reconciliation_epoch = p.reconciliation_epoch + 1;
  failure_count = p.failure_count + 1;
}

-- `self._queue.put_nowait(event_value)` on a queue with this maximal size, and the branches on it
unfoldable pub put_nowait :
    StatsInvalidationPublisher
    → BookmarkStatsInvalidated
    → PublishOutcome × StatsInvalidationPublisher
unfolding record_overflow
put_nowait p event = if leb p.capacity (length p.queue) then (queue_full, record_overflow p) else (
  enqueued,
  record p { queue = p.queue ++ event ∷ []; enqueued_count = p.enqueued_count + 1 },
)

-- The `try` of `publish`, from the result of `self._store.invalidate`.
unfoldable pub attempt :
    StatsInvalidationPublisher
    → BookmarkStatsInvalidated
    → Result (ℕ × StatsSnapshotStore)
    → PublishOutcome × StatsInvalidationPublisher
unfolding record_failure
attempt p event (ok (next, store)) = put_nowait (record p { store = store }) event
attempt p event (raise e) = (unavailable, record_failure p)

-- `publish` returns an outcome whatever happens.
unfoldable pub publish :
    StatsInvalidationPublisher
    → BookmarkStatsInvalidated
    → PublishOutcome × StatsInvalidationPublisher
publish p event = attempt p event (Snapshots.invalidate p.store event.user_id)

-- `drain`
unfoldable pub drain :
    StatsInvalidationPublisher
    → ℕ
    → Result (List BookmarkStatsInvalidated × StatsInvalidationPublisher)
drain p limit = do
  require (leb 1 limit && leb limit p.capacity) value_error
  ok (take limit p.queue, record p { queue = drop limit p.queue })

-- `state`
unfoldable pub state : StatsInvalidationPublisher → PublisherState
state p = record {
  queue_depth = length p.queue;
  reconciliation_required = p.reconciliation_required;
  enqueued_count = p.enqueued_count;
  overflow_count = p.overflow_count;
  failure_count = p.failure_count;
  reconciliation_epoch = p.reconciliation_epoch;
}

unfoldable pub acknowledge_full_reconciliation :
    StatsInvalidationPublisher → ℕ → Bool × StatsInvalidationPublisher
acknowledge_full_reconciliation p expected_epoch =
    if eqb p.reconciliation_epoch expected_epoch
    then (true, record p { reconciliation_required = false; overflow_logged = false })
    else (false, p)

unfoldable pub require_full_reconciliation : StatsInvalidationPublisher → StatsInvalidationPublisher
require_full_reconciliation p = record p {
  reconciliation_required = true;
  reconciliation_epoch = p.reconciliation_epoch + 1;
}
