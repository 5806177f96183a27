-- ===== src/Stats/Dirty/Acknowledge.antt =====
-- What an acknowledgement does, and why a mutation that comes between an observation and its
-- acknowledgement is not lost.
use backend_exercise.Prelude.{
  ℕ, ◌≡◌, ◌≢◌, refl, sym, ◌∙◌, subst, true, false, Option, none, some, ok, arith, ◌==◌, pair_eq,
  nat_eq, if◌then◌else◌,
}
use backend_exercise.Clock.{DateTime}
use backend_exercise.Weekly.{utc_monday}
use backend_exercise.Dict
use backend_exercise.Stats.Dirty.{
  Row, Table, Consumer, current, projection, complete, settle, acknowledge,
  DirtyAcknowledgementStatus, stale, acknowledged, deleted,
}
use backend_exercise.Stats.Dirty.Constraints.{settle_cases, both_done, acknowledge-eq-ok}

-- How far the other consumer has come.
abbrev other_completed : Consumer → Row → ℕ
other_completed current r = r.projection_completed_generation
other_completed projection r = r.current_completed_generation

both_done-true :
    (t : Table) (k : ℕ × ℕ) (c : Consumer) (g : ℕ) (r : Row)
    → both_done t k c g r ≡ true
    → other_completed c r ≡ g
both_done-true t k current g r h = ground arith
both_done-true t k projection g r h = ground arith

both_done-false :
    (t : Table) (k : ℕ × ℕ) (c : Consumer) (g : ℕ) (r : Row)
    → both_done t k c g r ≡ false
    → other_completed c r ≢ g
both_done-false t k current g r h = ground arith
both_done-false t k projection g r h = ground arith

-- The three outcomes.
pub record IsStale (t : Table) (k : ℕ × ℕ) (g : ℕ) (after : Table) : Type 0 where
  pub outdated : (r : Row) → Dict.get k t ≡ some r → r.generation ≢ g
  pub untouched : after ≡ t

pub record IsDeleted (t : Table) (k : ℕ × ℕ) (c : Consumer) (g : ℕ) (after : Table) : Type 0 where
  pub found : Row
  pub found_at : Dict.get k t ≡ some found
  pub same_generation : found.generation ≡ g
  pub other_done : other_completed c found ≡ g
  pub removed : (j : ℕ × ℕ) → Dict.get j after ≡ (if k == j then none else Dict.get j t)

pub record IsAcknowledged (t : Table) (k : ℕ × ℕ) (c : Consumer) (g : ℕ) (after : Table)
    : Type 0 where
  pub found : Row
  pub found_at : Dict.get k t ≡ some found
  pub same_generation : found.generation ≡ g
  pub other_pending : other_completed c found ≢ g
  pub recorded :
      (j : ℕ × ℕ) → Dict.get j after ≡ (if k == j then some (complete c g found) else Dict.get j t)

abbrev pub Outcome : Table → ℕ × ℕ → Consumer → ℕ → DirtyAcknowledgementStatus × Table → Type 0
Outcome t k c g (stale, after) = IsStale t k g after
Outcome t k c g (deleted, after) = IsDeleted t k c g after
Outcome t k c g (acknowledged, after) = IsAcknowledged t k c g after

settle-Outcome :
    (t : Table) (k : ℕ × ℕ) (c : Consumer) (g : ℕ) → Outcome t k c g (settle t k c g (Dict.get k t))
settle-Outcome t k c g =
    settle_cases t k c g (Outcome t k c g) (Dict.get k t)
      (λ n. record { outdated = n; untouched = refl })
      (λ r e q b. record {
        found = r;
        found_at = e;
        same_generation = q;
        other_done = both_done-true t k c g r b;
        removed = λ j. Dict.get-delete k j t;
      })
      (λ r e q b. record {
        found = r;
        found_at = e;
        same_generation = q;
        other_pending = both_done-false t k c g r b;
        recorded = λ j. Dict.get-put k j (complete c g r) t;
      })

-- An acknowledgement that returns says what it did to the table. It is stale, and changes nothing,
-- if the row of its key is gone or of another generation. Otherwise the row is deleted if the other
-- consumer has completed that generation too, and only then; if it has not, the completion is
-- recorded. No other row changes.
pub acknowledge-Outcome :
    (c : Consumer) (t : Table) (u w : ℕ) (d : DateTime) (g : ℕ) (s : DirtyAcknowledgementStatus)
    (after : Table)
    → utc_monday d ≡ ok w
    → acknowledge c t u d g ≡ ok (s, after)
    → Outcome t (u, w) c g (s, after)
acknowledge-Outcome c t u w d g s after m h =
    let a = acknowledge-eq-ok c t u d g s after h in
    let same : a.window ≡ w = ground (arith, a.window_of) in
    subst (λ (x : ℕ). Outcome t (u, x) c g (s, after)) same
      (rw (a.status, a.written) (settle-Outcome t (u, a.window) c g))

abbrev pub other : Consumer → Consumer
other current = projection
other projection = current

pub beq_refl : (k : ℕ × ℕ) → (k == k) ≡ true
beq_refl k = (pair_eq.beq_iff k k).1 refl

other_of_other : (c : Consumer) (g : ℕ) (r : Row) → other_completed (other c) (complete c g r) ≡ g
other_of_other current g r = refl
other_of_other projection g r = refl

generation-complete : (c : Consumer) (g : ℕ) (r : Row) → (complete c g r).generation ≡ r.generation
generation-complete current g r = refl
generation-complete projection g r = refl

after_first :
    (c : Consumer) (t t' : Table) (k : ℕ × ℕ) (g : ℕ) (s : DirtyAcknowledgementStatus)
    (o : Option Row)
    → Dict.get k t ≡ o
    → ((r : Row) → o ≡ some r → (r.generation ≡ g) × (other_completed (other c) r ≡ g))
    → Outcome t k (other c) g (s, t')
    → Dict.get k t' ≡ none
after_first c t t' k g stale none e f x = rw x.untouched e
after_first c t t' k g stale (some r) e f x = absurd (x.outdated r e (f r refl).0)
after_first c t t' k g deleted o e f x = rw (x.removed k, beq_refl k)
after_first c t t' k g acknowledged o e f x =
    absurd (x.other_pending (f x.found (sym e ∙ x.found_at)).1)

first_done :
    (c : Consumer) (t t' : Table) (k : ℕ × ℕ) (g : ℕ) (s : DirtyAcknowledgementStatus)
    → s ≢ stale
    → Outcome t k c g (s, t')
    → (r : Row) → Dict.get k t' ≡ some r
    → (r.generation ≡ g) × (other_completed (other c) r ≡ g)
first_done c t t' k g stale n x r e = absurd (n refl)
first_done c t t' k g deleted n x r e = absurd (ground (arith, x.removed k, beq_refl k))
first_done c t t' k g acknowledged n x r e =
    let q : r ≡ complete c g x.found = ground (arith, x.recorded k, beq_refl k) in
    rw q (rw (generation-complete, other_of_other) (x.same_generation, refl))

-- Work ends. Once one consumer has acknowledged a generation of a marker and the other acknowledges
-- it too, in either order and with nothing in between, the marker is gone.
pub acknowledge-both :
    (c : Consumer) (t t' t'' : Table) (u w : ℕ) (d : DateTime) (g : ℕ)
    (s s' : DirtyAcknowledgementStatus)
    → utc_monday d ≡ ok w
    → acknowledge c t u d g ≡ ok (s, t')
    → s ≢ stale
    → acknowledge (other c) t' u d g ≡ ok (s', t'')
    → Dict.get (u, w) t'' ≡ none
acknowledge-both c t t' t'' u w d g s s' m a n b =
    after_first c t' t'' (u, w) g s' (Dict.get (u, w) t') refl
      (first_done c t t' (u, w) g s n (acknowledge-Outcome c t u w d g s t' m a))
      (acknowledge-Outcome (other c) t' u w d g s' t'' m b)
