-- ===== src/Stats/Dirty/Marks.antt =====
-- Marks that come between an observation and its acknowledgement.
use backend_exercise.Prelude.{
  ℕ, suc, ◌+◌, ◌<◌, ◌≡◌, refl, ap, ◌∙◌, false, Option, some, ok, arith, ◌==◌, pair_eq, nat_eq,
}
use backend_exercise.Clock.{DateTime}
use backend_exercise.Weekly.{utc_monday}
use backend_exercise.Dict
use backend_exercise.Stats.Dirty.{
  Row, Table, DirtyReason, Consumer, marked_row, mark_dirty, acknowledge,
  DirtyAcknowledgementStatus, stale, acknowledged, deleted,
}
use backend_exercise.Stats.Dirty.Constraints.{Marked, mark_dirty-eq-ok}
use backend_exercise.Stats.Dirty.Acknowledge.{Outcome, acknowledge-Outcome, beq_refl}

-- The marks that requests commit one after another, and how many fall on one key.
pub data Marks (k : ℕ × ℕ) (t : Table) : ℕ → Table → Type 0 where
  unmarked : Marks k t 0 t
  hit :
      {n : ℕ} {now after : Table} (d : DateTime) (reason : DirtyReason) (at : DateTime)
      → Marks k t n now
      → utc_monday d ≡ ok k.1
      → mark_dirty now k.0 d reason at ≡ ok after
      → Marks k t (suc n) after
  miss :
      {n : ℕ} {now after : Table} (u w : ℕ) (d : DateTime) (reason : DirtyReason) (at : DateTime)
      → Marks k t n now
      → utc_monday d ≡ ok w
      → ((u, w) == k) ≡ false
      → mark_dirty now u d reason at ≡ ok after
      → Marks k t n after

-- The row of a key after so many marks on it.
pub record Remarked (old : Row) (n : ℕ) (o : Option Row) : Type 0 where
  pub now : Row
  pub there : o ≡ some now
  pub generation : now.generation ≡ old.generation + n
  pub same : n ≡ 0 → now ≡ old
  pub pending :
      0 < n → (now.current_completed_generation ≡ 0) × (now.projection_completed_generation ≡ 0)

pub Marked-window :
    (t after : Table) (u w : ℕ) (d : DateTime) (reason : DirtyReason) (at : DateTime)
    → (m : Marked t u d reason at after) → utc_monday d ≡ ok w
    → after ≡ Dict.put (u, w) (marked_row (Dict.get (u, w) t) reason m.time) t
Marked-window t after u w d reason at m h =
    let same : m.window ≡ w = ground (arith, m.window_of) in
    m.written
    ∙ ap (λ (x : ℕ). Dict.put (u, x) (marked_row (Dict.get (u, x) t) reason m.time) t) same

marked_again :
    (old before : Row) (n : ℕ) (k : ℕ × ℕ) (t after : Table) (reason : DirtyReason) (time : ℕ)
    → Dict.get k t ≡ some before
    → before.generation ≡ old.generation + n
    → after ≡ Dict.put k (marked_row (Dict.get k t) reason time) t
    → Remarked old (suc n) (Dict.get k after)
marked_again old before n k t after reason time there g e = record {
  now = marked_row (some before) reason time;
  there = rw e (
      rw (Dict.get-put k k (marked_row (Dict.get k t) reason time) t)
        (rw (beq_refl k) (rw there refl)));
  generation = omega arith;
  same = λ h. absurd (omega arith);
  pending = λ h. (refl, refl);
}

Marks-Remarked :
    {k : ℕ × ℕ} {t after : Table} {n : ℕ} (old : Row)
    → Dict.get k t ≡ some old
    → Marks k t n after
    → Remarked old n (Dict.get k after)
Marks-Remarked old e unmarked = record {
  now = old;
  there = e;
  generation = omega arith;
  same = λ h. refl;
  pending = λ h. absurd (omega arith);
}
Marks-Remarked {k} {n = suc n} old e (hit {now = t1} {after = t2} d reason at ms m h) =
    let before = Marks-Remarked old e ms in
    let marked = mark_dirty-eq-ok t1 k.0 d reason at t2 h in
    marked_again old before.now n k t1 t2 reason marked.time before.there before.generation
      (Marked-window t1 t2 k.0 k.1 d reason at marked m)
Marks-Remarked {k} {n = n} old e (miss {now = t1} {after = t2} u w d reason at ms m x h) =
    let before = Marks-Remarked old e ms in
    let marked = mark_dirty-eq-ok t1 u d reason at t2 h in
    let row = marked_row (Dict.get (u, w) t1) reason marked.time in
    let kept : Dict.get k t2 ≡ Dict.get k t1 =
      rw (Marked-window t1 t2 u w d reason at marked m)
        (rw (Dict.get-put (u, w) k row t1) (rw x refl)) in
    rw kept before

stale-Outcome :
    (c : Consumer) (k : ℕ × ℕ) (t after : Table) (g : ℕ) (s : DirtyAcknowledgementStatus)
    (now : Row)
    → Dict.get k t ≡ some now
    → g < now.generation
    → Outcome t k c g (s, after)
    → (s ≡ stale) × (after ≡ t)
stale-Outcome c k t after g stale now e l x = (refl, x.untouched)
stale-Outcome c k t after g deleted now e l x =
    absurd
      (let same : x.found ≡ now = ground (arith, x.found_at) in ground (arith, x.same_generation))
stale-Outcome c k t after g acknowledged now e l x =
    absurd
      (let same : x.found ≡ now = ground (arith, x.found_at) in ground (arith, x.same_generation))

-- No mutation is lost. If requests mark a row at least once, whatever else they mark, after a
-- consumer observed it, then the acknowledgement of the observed generation is stale and leaves the
-- table as it is, with the row at a larger generation that neither consumer has completed.
pub acknowledge-late :
    (c : Consumer) (t now after : Table) (u w n : ℕ) (d : DateTime) (seen : Row)
    (s : DirtyAcknowledgementStatus)
    → Dict.get (u, w) t ≡ some seen
    → Marks (u, w) t n now
    → 0 < n
    → utc_monday d ≡ ok w
    → acknowledge c now u d seen.generation ≡ ok (s, after)
    → (s ≡ stale) × (after ≡ now) × Remarked seen n (Dict.get (u, w) after)
acknowledge-late c t now after u w n d seen s e ms pos m h =
    let later = Marks-Remarked seen e ms in
    let (q, same) =
      stale-Outcome c (u, w) now after seen.generation s later.now later.there
        (ground (arith, later.generation))
        (acknowledge-Outcome c now u w d seen.generation s after m h) in
    (q, same, rw same later)
