-- ===== src/Stats/Dirty/Constraints.antt =====
-- The CHECK constraints and the primary key of `bookmark_stats_window_dirty`: no statement of the
-- repository violates them.
use backend_exercise.Prelude.{
  ℕ, ◌≤◌, ◌≡◌, ◌&&◌, refl, subst, ◌≢◌, ◌>>=◌, Bool, true, false, Option, none, some, [], ◌∷◌, ok,
  arith, eqb, eqb_iff, All, pair_eq, nat_eq, >>=-eq-ok, Bool-cases, inl, inr,
}
use backend_exercise.Clock.{DateTime, normalize_utc}
use backend_exercise.Weekly.{utc_monday, monday}
use backend_exercise.Dict
use backend_exercise.Dict.{Distinct}
use backend_exercise.Stats.Dirty.{
  Row, Table, DirtyReason, Consumer, current, projection, complete, marked_row, mark_dirty, settle,
  acknowledge, positive, DirtyAcknowledgementStatus, stale, acknowledged, deleted,
}

pub record IsRow (r : Row) : Type 0 where
  pub generation_positive : 1 ≤ r.generation
  pub current_bounded : r.current_completed_generation ≤ r.generation
  pub projection_bounded : r.projection_completed_generation ≤ r.generation

pub record IsEntry (p : (ℕ × ℕ) × Row) : Type 0 where
  pub user_positive : 1 ≤ p.0.0
  pub on_monday : monday p.0.1 ≡ p.0.1
  pub row : IsRow p.1

pub record IsValid (t : Table) : Type 0 where
  pub distinct : Distinct t
  pub entries : All IsEntry t

marked_row-IsRow : (o : Option Row) (reason : DirtyReason) (t : ℕ) → IsRow (marked_row o reason t)
marked_row-IsRow none reason t = record {
  generation_positive = omega arith;
  current_bounded = omega arith;
  projection_bounded = omega arith;
}
marked_row-IsRow (some r) reason t = record {
  generation_positive = omega arith;
  current_bounded = omega arith;
  projection_bounded = omega arith;
}

put-IsValid :
    (t : Table) (u w : ℕ) (r : Row)
    → 1 ≤ u
    → monday w ≡ w
    → IsRow r
    → IsValid t
    → IsValid (Dict.put (u, w) r t)
put-IsValid t u w r pos mon row v = record {
  distinct = Dict.put-Distinct (u, w) r t v.distinct;
  entries =
      Dict.All-put_entry IsEntry (u, w) r t
        (record { user_positive = pos; on_monday = mon; row = row }) v.entries;
}

delete-IsValid : (t : Table) (k : ℕ × ℕ) → IsValid t → IsValid (Dict.delete k t)
delete-IsValid t k v = record {
  distinct = Dict.delete-Distinct k t v.distinct;
  entries = Dict.All-delete_entry IsEntry k t v.entries;
}

positive-eq-ok : (n : ℕ) (x : Unit {0}) → positive n ≡ ok x → 1 ≤ n
positive-eq-ok n x h = ground arith

monday-monday : (t : ℕ) → monday (monday t) ≡ monday t
monday-monday t = omega arith

utc_monday-on_monday : (d : DateTime) (m : ℕ) → utc_monday d ≡ ok m → monday m ≡ m
unfolding utc_monday
utc_monday-on_monday d m h =
    let (t, n, q) = >>=-eq-ok (normalize_utc d) (λ t. ok (monday t)) h in
    let e : monday t ≡ m = ground arith in subst (λ (x : ℕ). monday x ≡ x) e (monday-monday t)

-- What a mark that succeeds has computed.
pub record Marked (t : Table) (u : ℕ) (w : DateTime) (reason : DirtyReason) (at : DateTime)
    (after : Table) : Type 0 where
  pub window : ℕ
  pub time : ℕ
  pub user_positive : 1 ≤ u
  pub window_of : utc_monday w ≡ ok window
  pub time_of : normalize_utc at ≡ ok time
  pub written : after ≡ Dict.put (u, window) (marked_row (Dict.get (u, window) t) reason time) t

pub mark_dirty-eq-ok :
    (t : Table) (u : ℕ) (w : DateTime) (reason : DirtyReason) (at : DateTime) (after : Table)
    → mark_dirty t u w reason at ≡ ok after
    → Marked t u w reason at after
unfolding mark_dirty
mark_dirty-eq-ok t u w reason at after h =
    let rest = λ (x : Unit {0}).
      (utc_monday w >>= λ window. normalize_utc at >>= λ marked.
      ok (Dict.put (u, window) (marked_row (Dict.get (u, window) t) reason marked) t)) in
    let (x, pos, h1) = >>=-eq-ok (positive u) rest h in
    let (window, win, h2) =
      >>=-eq-ok (utc_monday w)
        (λ window. normalize_utc at >>= λ marked.
          ok (Dict.put (u, window) (marked_row (Dict.get (u, window) t) reason marked) t))
        h1 in
    let (time, stamped, h3) =
      >>=-eq-ok (normalize_utc at)
        (λ marked. ok (Dict.put (u, window) (marked_row (Dict.get (u, window) t) reason marked) t))
        h2 in
    record {
      window = window;
      time = time;
      user_positive = positive-eq-ok u x pos;
      window_of = win;
      time_of = stamped;
      written = ground arith;
    }

-- Marking a week keeps every row within the constraints of the table and its key unique.
pub mark_dirty-IsValid :
    (t : Table) (u : ℕ) (w : DateTime) (reason : DirtyReason) (at : DateTime) (after : Table)
    → IsValid t
    → mark_dirty t u w reason at ≡ ok after
    → IsValid after
mark_dirty-IsValid t u w reason at after v h =
    let m = mark_dirty-eq-ok t u w reason at after h in
    rw m.written (
      put-IsValid t u m.window _ m.user_positive (utc_monday-on_monday w m.window m.window_of)
        (marked_row-IsRow (Dict.get (u, m.window) t) reason m.time) v)

complete-IsRow : (c : Consumer) (r : Row) → IsRow r → IsRow (complete c r.generation r)
complete-IsRow current r v = record {
  generation_positive = v.generation_positive;
  current_bounded = omega arith;
  projection_bounded = v.projection_bounded;
}
complete-IsRow projection r v = record {
  generation_positive = v.generation_positive;
  current_bounded = v.current_bounded;
  projection_bounded = omega arith;
}

-- `settle` on each of its branches.
module _ (t : Table) (k : ℕ × ℕ) (c : Consumer) (g : ℕ) where
  abbrev pub both_done : Row → Bool
  both_done r =
      eqb (complete c g r).current_completed_generation g
      && eqb (complete c g r).projection_completed_generation g

  pub settle_cases {ℓ} :
      (P : DirtyAcknowledgementStatus × Table → Type ℓ) (o : Option Row)
      → (((r : Row) → o ≡ some r → r.generation ≢ g) → P (stale, t))
      → ((r : Row)
          → o ≡ some r
          → r.generation ≡ g
          → both_done r ≡ true
          → P (deleted, Dict.delete k t))
      → ((r : Row)
          → o ≡ some r
          → r.generation ≡ g
          → both_done r ≡ false
          → P (acknowledged, Dict.put k (complete c g r) t))
      → P (settle t k c g o)
  unfolding settle
  settle_cases P none old gone kept = old (λ r e. absurd (ground arith))
  settle_cases P (some r) old gone kept = elim (Bool-cases (eqb r.generation g)) [
    | inl q ↦ elim (Bool-cases (both_done r)) [
      | inl b ↦ rw q (rw b (gone r refl ((eqb_iff r.generation g).0 q) b))
      | inr b ↦ rw q (rw b (kept r refl ((eqb_iff r.generation g).0 q) b))
    ]
    | inr q ↦ rw q (old (λ s e. ground arith))
  ]

All-rows : (t : Table) → All IsEntry t → All (λ p. IsRow p.1) t
All-rows [] h = tt
All-rows (p ∷ t) h = (h.0.row, All-rows t h.1)

All-get_entry :
    (t : Table) (u w : ℕ) (r : Row) → All IsEntry t → Dict.get (u, w) t ≡ some r → IsRow r
All-get_entry t u w r h g = Dict.All-get IsRow (u, w) r t (All-rows t h) g

settle-IsValid :
    (t : Table) (u w : ℕ) (c : Consumer) (g : ℕ)
    → 1 ≤ u
    → monday w ≡ w
    → IsValid t
    → IsValid (settle t (u, w) c g (Dict.get (u, w) t)).1
settle-IsValid t u w c g pos mon v =
    settle_cases t (u, w) c g (λ x. IsValid x.1) (Dict.get (u, w) t) (λ n. v)
      (λ r e q b. delete-IsValid t (u, w) v)
      (λ r e q b.
        put-IsValid t u w (complete c g r) pos mon
          (subst (λ (n : ℕ). IsRow (complete c n r)) q
            (complete-IsRow c r (All-get_entry t u w r v.entries e)))
          v)

-- What an acknowledgement that returns has computed.
pub record Acknowledged (c : Consumer) (t : Table) (u : ℕ) (w : DateTime) (g : ℕ)
    (s : DirtyAcknowledgementStatus) (after : Table) : Type 0 where
  pub window : ℕ
  pub user_positive : 1 ≤ u
  pub window_of : utc_monday w ≡ ok window
  pub status : s ≡ (settle t (u, window) c g (Dict.get (u, window) t)).0
  pub written : after ≡ (settle t (u, window) c g (Dict.get (u, window) t)).1

pub acknowledge-eq-ok :
    (c : Consumer) (t : Table) (u : ℕ) (w : DateTime) (g : ℕ) (s : DirtyAcknowledgementStatus)
    (after : Table)
    → acknowledge c t u w g ≡ ok (s, after)
    → Acknowledged c t u w g s after
unfolding acknowledge
acknowledge-eq-ok c t u w g s after h =
    let last = λ (window : ℕ). ok (settle t (u, window) c g (Dict.get (u, window) t)) in
    let (x, pos, h1) = >>=-eq-ok (positive u) (λ _. positive g >>= λ _. utc_monday w >>= last) h in
    let (y, gpos, h2) = >>=-eq-ok (positive g) (λ _. utc_monday w >>= last) h1 in
    let (window, win, h3) = >>=-eq-ok (utc_monday w) last h2 in
    record {
      window = window;
      user_positive = positive-eq-ok u x pos;
      window_of = win;
      status = ground arith;
      written = ground arith;
    }

-- Acknowledging keeps them too, whatever its outcome.
pub acknowledge-IsValid :
    (c : Consumer) (t : Table) (u : ℕ) (w : DateTime) (g : ℕ) (s : DirtyAcknowledgementStatus)
    (after : Table)
    → IsValid t
    → acknowledge c t u w g ≡ ok (s, after)
    → IsValid after
acknowledge-IsValid c t u w g s after v h =
    let a = acknowledge-eq-ok c t u w g s after h in
    rw a.written (
      settle-IsValid t u a.window c g a.user_positive (utc_monday-on_monday w a.window a.window_of)
        v)
