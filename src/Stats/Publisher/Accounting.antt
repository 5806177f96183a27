-- ===== src/Stats/Publisher/Accounting.antt =====
-- What the publisher keeps account of, over any sequence of calls between two acknowledgements.
-- Only the worker acknowledges, so none stands among the calls.
use mathlib.Core.List.{append_assoc, append-nil}
use native.Mathlib.Decide.{dec_lt}
use backend_exercise.Prelude.{
  ℕ, ◌+◌, ◌≤◌, ◌<◌, ◌≡◌, inl, inr, refl, sym, ap, ◌∙◌, true, false, List, [], ◌∷◌, ◌++◌, arith,
  Result, ok, raise, leb, length, length-append, length-drop, take-append-drop, Bool-cases,
}
use backend_exercise.Events.{
  BookmarkStatsInvalidated, PublishOutcome, enqueued, queue_full, unavailable,
}
use backend_exercise.Stats.Snapshots
use backend_exercise.Stats.Publisher.{
  StatsInvalidationPublisher, publish, attempt, put_nowait, drain, acknowledge_full_reconciliation,
  require_full_reconciliation,
}

pub data Call : Type 0 where
  publishes : BookmarkStatsInvalidated → Call
  drains : ℕ → Call
  requires : Call

-- The hints that a call hands out, and the publisher after it; a refused `drain` hands out nothing.
abbrev pub drained :
    StatsInvalidationPublisher
    → Result (List BookmarkStatsInvalidated × StatsInvalidationPublisher)
    → List BookmarkStatsInvalidated × StatsInvalidationPublisher
drained p (ok r) = r
drained p (raise e) = ([], p)

unfoldable pub step :
    StatsInvalidationPublisher → Call → List BookmarkStatsInvalidated × StatsInvalidationPublisher
step p (publishes e) = ([], (publish p e).1)
step p (drains n) = drained p (drain p n)
step p requires = ([], require_full_reconciliation p)

unfoldable pub run : StatsInvalidationPublisher → List Call → StatsInvalidationPublisher
run p [] = p
run p (c ∷ cs) = run (step p c).1 cs

unfoldable pub delivered : StatsInvalidationPublisher → List Call → List BookmarkStatsInvalidated
delivered p [] = []
delivered p (c ∷ cs) = (step p c).0 ++ delivered (step p c).1 cs

-- What `publish` said of a hint.
abbrev pub taken : PublishOutcome → BookmarkStatsInvalidated → List BookmarkStatsInvalidated
taken enqueued e = e ∷ []
taken queue_full e = []
taken unavailable e = []

abbrev pub lost : PublishOutcome → ℕ
lost enqueued = 0
lost queue_full = 1
lost unavailable = 1

unfoldable pub taken_by : StatsInvalidationPublisher → Call → List BookmarkStatsInvalidated
taken_by p (publishes e) = taken (publish p e).0 e
taken_by p (drains n) = []
taken_by p requires = []

unfoldable pub accepted : StatsInvalidationPublisher → List Call → List BookmarkStatsInvalidated
accepted p [] = []
accepted p (c ∷ cs) = taken_by p c ++ accepted (step p c).1 cs

-- The hints that were refused and the demands for a full reconciliation.
unfoldable pub suspicion : StatsInvalidationPublisher → Call → ℕ
suspicion p (publishes e) = lost (publish p e).0
suspicion p (drains n) = 0
suspicion p requires = 1

unfoldable pub suspicions : StatsInvalidationPublisher → List Call → ℕ
suspicions p [] = 0
suspicions p (c ∷ cs) = suspicion p c + suspicions (step p c).1 cs

pub record IsBounded (p : StatsInvalidationPublisher) : Type 0 where
  pub within : length p.queue ≤ p.capacity

-- One hint: it stands at the end of the queue or is counted as lost.
record Recorded (p : StatsInvalidationPublisher) (e : BookmarkStatsInvalidated) (o : PublishOutcome)
    (after : StatsInvalidationPublisher) : Type 0 where
  queued : after.queue ≡ p.queue ++ taken o e
  counted : after.reconciliation_epoch ≡ p.reconciliation_epoch + lost o
  same_capacity : after.capacity ≡ p.capacity
  room : length p.queue ≤ p.capacity → length after.queue ≤ p.capacity
  suspicious : lost o ≡ 1 → after.reconciliation_required ≡ true
  still : p.reconciliation_required ≡ true → after.reconciliation_required ≡ true

put_nowait-Recorded :
    (p : StatsInvalidationPublisher) (e : BookmarkStatsInvalidated)
    → Recorded p e (put_nowait p e).0 (put_nowait p e).1
unfolding put_nowait
put_nowait-Recorded p e = elim (Bool-cases (leb p.capacity (length p.queue))) [
  | inl full ↦ rw full (record {
    queued = sym (append-nil p.queue);
    counted = refl;
    same_capacity = refl;
    room = λ h. h;
    suspicious = λ h. refl;
    still = λ h. refl;
  })
  | inr space ↦ rw space (record {
    queued = refl;
    counted = omega arith;
    same_capacity = refl;
    room = λ h. ground (arith, length-append p.queue (e ∷ []));
    suspicious = λ h. absurd (omega arith);
    still = λ h. h;
  })
]

lost_once : (o : PublishOutcome) → 0 < lost o → lost o ≡ 1
lost_once enqueued h = absurd (omega arith)
lost_once queue_full h = refl
lost_once unavailable h = refl

attempt-Recorded :
    (p : StatsInvalidationPublisher) (e : BookmarkStatsInvalidated)
    (i : Result (ℕ × Snapshots.StatsSnapshotStore))
    → Recorded p e (attempt p e i).0 (attempt p e i).1
unfolding attempt
attempt-Recorded p e (ok (n, store)) =
    let q = put_nowait-Recorded (record p { store = store }) e in
    record {
      queued = q.queued;
      counted = q.counted;
      same_capacity = q.same_capacity;
      room = q.room;
      suspicious = q.suspicious;
      still = q.still;
    }
attempt-Recorded p e (raise x) = record {
  queued = sym (append-nil p.queue);
  counted = refl;
  same_capacity = refl;
  room = λ h. h;
  suspicious = λ h. refl;
  still = λ h. refl;
}

publish-Recorded :
    (p : StatsInvalidationPublisher) (e : BookmarkStatsInvalidated)
    → Recorded p e (publish p e).0 (publish p e).1
unfolding publish
publish-Recorded p e = attempt-Recorded p e (Snapshots.invalidate p.store e.user_id)

-- What holds of every call.
record Stepped (p : StatsInvalidationPublisher) (c : Call) : Type 0 where
  split : p.queue ++ taken_by p c ≡ (step p c).0 ++ (step p c).1.queue
  counted : (step p c).1.reconciliation_epoch ≡ p.reconciliation_epoch + suspicion p c
  same_capacity : (step p c).1.capacity ≡ p.capacity
  room : length p.queue ≤ p.capacity → length (step p c).1.queue ≤ p.capacity
  suspicious : 0 < suspicion p c → (step p c).1.reconciliation_required ≡ true
  still : p.reconciliation_required ≡ true → (step p c).1.reconciliation_required ≡ true

step-Stepped : (p : StatsInvalidationPublisher) (c : Call) → Stepped p c
unfolding step taken_by suspicion drain require_full_reconciliation
step-Stepped p (publishes e) =
    let q = publish-Recorded p e in
    record {
      split = sym q.queued;
      counted = q.counted;
      same_capacity = q.same_capacity;
      room = q.room;
      suspicious = λ h. q.suspicious (lost_once (publish p e).0 h);
      still = q.still;
    }
step-Stepped p (drains n) = record {
  split = ground (arith, take-append-drop n p.queue, append-nil p.queue);
  counted = ground arith;
  same_capacity = ground arith;
  room = λ h. ground (arith, length-drop n p.queue);
  suspicious = λ h. absurd (omega arith);
  still = λ h. ground arith;
}
step-Stepped p requires = record {
  split = append-nil p.queue;
  counted = refl;
  same_capacity = refl;
  room = λ h. h;
  suspicious = λ h. refl;
  still = λ h. refl;
}

-- First in, first out, and nothing in between: the hints that were accepted are, in order, those
-- that were drained and those that still wait.
pub accepted-eq-delivered :
    (p : StatsInvalidationPublisher) (cs : List Call)
    → p.queue ++ accepted p cs ≡ delivered p cs ++ (run p cs).queue
unfolding accepted delivered run
accepted-eq-delivered p [] = append-nil p.queue
accepted-eq-delivered p (c ∷ cs) =
    sym (append_assoc p.queue (taken_by p c) (accepted (step p c).1 cs))
    ∙ ap (λ (l : List BookmarkStatsInvalidated). l ++ accepted (step p c).1 cs)
        (step-Stepped p c).split
    ∙ append_assoc (step p c).0 (step p c).1.queue (accepted (step p c).1 cs)
    ∙ ap (◌++◌ (step p c).0) (accepted-eq-delivered (step p c).1 cs)
    ∙ sym (append_assoc (step p c).0 (delivered (step p c).1 cs) (run (step p c).1 cs).queue)

-- The queue never holds more than its capacity.
pub run-IsBounded :
    (p : StatsInvalidationPublisher) (cs : List Call) → IsBounded p → IsBounded (run p cs)
unfolding run
run-IsBounded p [] h = h
run-IsBounded p (c ∷ cs) h =
    let s = step-Stepped p c in
    run-IsBounded (step p c).1 cs
      (record { within = omega (arith, s.room h.within, s.same_capacity) })

epoch-run :
    (p : StatsInvalidationPublisher) (cs : List Call)
    → (run p cs).reconciliation_epoch ≡ p.reconciliation_epoch + suspicions p cs
unfolding run suspicions
epoch-run p [] = omega arith
epoch-run p (c ∷ cs) = omega (arith, epoch-run (step p c).1 cs, (step-Stepped p c).counted)

required-run :
    (p : StatsInvalidationPublisher) (cs : List Call)
    → p.reconciliation_required ≡ true
    → (run p cs).reconciliation_required ≡ true
unfolding run
required-run p [] h = h
required-run p (c ∷ cs) h = required-run (step p c).1 cs ((step-Stepped p c).still h)

suspicious-run :
    (p : StatsInvalidationPublisher) (cs : List Call)
    → 0 < suspicions p cs
    → (run p cs).reconciliation_required ≡ true
unfolding run suspicions
suspicious-run p [] h = absurd (omega arith)
suspicious-run p (c ∷ cs) h = elim (dec_lt 0 (suspicion p c)) [
  | yes now ↦ required-run (step p c).1 cs ((step-Stepped p c).suspicious now)
  | no later ↦ suspicious-run (step p c).1 cs (omega arith)
]

-- What acknowledging does to a publisher that has taken some calls since its epoch was read.
pub record Acknowledged (p : StatsInvalidationPublisher) (cs : List Call) : Type 0 where
  pub cleared :
      suspicions p cs ≡ 0
      → let r = acknowledge_full_reconciliation (run p cs) p.reconciliation_epoch in
        (r.0 ≡ true) × (r.1.reconciliation_required ≡ false)
  pub kept :
      0 < suspicions p cs
      → let r = acknowledge_full_reconciliation (run p cs) p.reconciliation_epoch in
        (r.0 ≡ false) × (r.1 ≡ run p cs) × (r.1.reconciliation_required ≡ true)

-- A full reconciliation clears the suspicion exactly if no hint was refused and no reconciliation
-- demanded since the worker read the epoch, whatever was published and drained meanwhile. If one
-- was, the acknowledgement is refused, changes nothing, and the demand stands.
pub acknowledge-Acknowledged : (p : StatsInvalidationPublisher) (cs : List Call) → Acknowledged p cs
unfolding acknowledge_full_reconciliation
acknowledge-Acknowledged p cs = record {
  cleared = λ h. ground (arith, epoch-run p cs);
  kept = λ h. ground (arith, epoch-run p cs, suspicious-run p cs);
}
