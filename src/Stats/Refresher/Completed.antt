-- ===== src/Stats/Refresher/Completed.antt =====
-- The acknowledgements of a refresh complete the markers that it was for.
use backend_exercise.Prelude.{
  ℕ, ◌≡◌, ◌≢◌, inl, inr, refl, sym, subst, ◌∙◌, Bool-cases, Option, none, some, List, [], ◌∷◌,
  Result, ok, arith, ◌==◌, pair_eq, nat_eq, All, >>=-eq-ok,
}
use backend_exercise.Clock.{utc, normalize_utc-utc}
use backend_exercise.Weekly.{monday, utc_monday}
use backend_exercise.Dict
use backend_exercise.Stats.Dirty.{
  Row, Table, DirtyMarker, DirtyAcknowledgementStatus, stale, acknowledged, deleted, current,
  acknowledge,
}
use backend_exercise.Stats.Dirty.Acknowledge.{Outcome, acknowledge-Outcome, beq_refl}
use backend_exercise.Stats.Refresher.{unless_stale, acknowledge_all}

-- A marker's row is gone, or it is of the marker's generation and the worker has completed that.
abbrev pub key_of : DirtyMarker → ℕ × ℕ
key_of m = (m.user_id, monday m.window_start)

abbrev pub Settled : ℕ → ℕ × ℕ → Option Row → Type 0
Settled g k none = Unit
Settled g k (some r) = (r.generation ≡ g) × (r.current_completed_generation ≡ g)

abbrev pub Completed : Table → DirtyMarker → Type 0
Completed t m = Settled m.row.generation (key_of m) (Dict.get (key_of m) t)

pub utc_monday-utc : (t : ℕ) → utc_monday (utc t) ≡ ok (monday t)
unfolding utc_monday
utc_monday-utc t = rw (normalize_utc-utc t) refl

-- One acknowledgement that is not stale settles its own row, and unsettles none.
pub own-Settled :
    (t after : Table) (k : ℕ × ℕ) (g : ℕ) (s : DirtyAcknowledgementStatus)
    → s ≢ stale
    → Outcome t k current g (s, after)
    → Settled g k (Dict.get k after)
own-Settled t after k g stale n x = absurd (n refl)
own-Settled t after k g deleted n x = rw (x.removed k) (rw (beq_refl k) tt)
own-Settled t after k g acknowledged n x =
    rw (x.recorded k) (rw (beq_refl k) (x.same_generation, refl))

pub other-Settled :
    (t after : Table) (k j : ℕ × ℕ) (g h : ℕ) (s : DirtyAcknowledgementStatus)
    → Outcome t k current g (s, after)
    → Settled h j (Dict.get j t)
    → Settled h j (Dict.get j after)
other-Settled t after k j g h stale x d = rw x.untouched d
other-Settled t after k j g h deleted x d = elim (Bool-cases (k == j)) [
  | inl e ↦ rw (x.removed j) (rw e tt)
  | inr e ↦ rw (x.removed j) (rw e d)
]
other-Settled t after k j g h acknowledged x d = elim (Bool-cases (k == j)) [
  | inl e ↦
      let same : k ≡ j = (pair_eq.beq_iff k j).0 e in
      let found : Dict.get j t ≡ some x.found =
        subst (λ (i : ℕ × ℕ). Dict.get i t ≡ some x.found) same x.found_at in
      let old : Settled h j (some x.found) = subst (Settled h j) found d in
      rw (x.recorded j) (rw e (old.0, sym x.same_generation ∙ old.0))
  | inr e ↦ rw (x.recorded j) (rw e d)
]

pub unless_stale-eq-ok :
    (s : DirtyAcknowledgementStatus) (rest : Result (Option Table)) (after : Table)
    → unless_stale s rest ≡ ok (some after)
    → (s ≢ stale) × (rest ≡ ok (some after))
unless_stale-eq-ok stale rest after h = absurd (ground arith)
unless_stale-eq-ok acknowledged rest after h = (λ e. ground arith, h)
unless_stale-eq-ok deleted rest after h = (λ e. ground arith, h)

-- The first step of the loop, where the loop ends without a stale marker.
pub record Stepped (t : Table) (m : DirtyMarker) (markers : List DirtyMarker) (after : Table)
    : Type 0 where
  pub status : DirtyAcknowledgementStatus
  pub between : Table
  pub not_stale : status ≢ stale
  pub outcome : Outcome t (key_of m) current m.row.generation (status, between)
  pub rest : acknowledge_all between markers ≡ ok (some after)

pub acknowledge_all-Stepped :
    (t : Table) (m : DirtyMarker) (markers : List DirtyMarker) (after : Table)
    → acknowledge_all t (m ∷ markers) ≡ ok (some after)
    → Stepped t m markers after
unfolding acknowledge_all
acknowledge_all-Stepped t m markers after h =
    let (done, a, h1) =
      >>=-eq-ok (acknowledge current t m.user_id (utc m.window_start) m.row.generation) _ h in
    let (n, rest) = unless_stale-eq-ok done.0 (acknowledge_all done.1 markers) after h1 in
    record {
      status = done.0;
      between = done.1;
      not_stale = n;
      outcome =
          acknowledge-Outcome current t m.user_id (monday m.window_start) (utc m.window_start)
            m.row.generation done.0 done.1 (utc_monday-utc m.window_start) a;
      rest = rest;
    }

pub acknowledge_all-Settled :
    (t : Table) (markers : List DirtyMarker) (after : Table) (j : ℕ × ℕ) (g : ℕ)
    → acknowledge_all t markers ≡ ok (some after)
    → Settled g j (Dict.get j t)
    → Settled g j (Dict.get j after)
unfolding acknowledge_all
acknowledge_all-Settled t [] after j g h d =
    let same : t ≡ after = ground arith in subst (λ (x : Table). Settled g j (Dict.get j x)) same d
acknowledge_all-Settled t (m ∷ markers) after j g h d =
    let s = acknowledge_all-Stepped t m markers after h in
    acknowledge_all-Settled s.between markers after j g s.rest
      (other-Settled t s.between (key_of m) j m.row.generation g s.status s.outcome d)

pub acknowledge_all-Completed :
    (t : Table) (markers : List DirtyMarker) (after : Table)
    → acknowledge_all t markers ≡ ok (some after)
    → All (Completed after) markers
acknowledge_all-Completed t [] after h = tt
acknowledge_all-Completed t (m ∷ markers) after h =
    let s = acknowledge_all-Stepped t m markers after h in
    (
      acknowledge_all-Settled s.between markers after (key_of m) m.row.generation s.rest
          (own-Settled t s.between (key_of m) m.row.generation s.status s.not_stale s.outcome),
      acknowledge_all-Completed s.between markers after s.rest,
    )
