-- ===== src/Stats/Projection/Points/History.antt =====
-- The points of one week are an unbroken chain of revisions, and the table only grows.
use backend_exercise.Prelude.{
  ℕ, suc, ◌≤◌, ◌<◌, ◌≡◌, ◌≢◌, ◌∙◌, refl, sym, ap, subst, true, Option, none, some, List, [], ◌∷◌,
  Result, ok, arith, leb, take, keep, length, All, ◌>>=◌, ◌>>◌, >>=-eq-ok, >>-eq-ok, Bool-cases,
  inl, inr, ok-inj,
}
use backend_exercise.Sorting.{Sorted, order_by-same, All-keep}
use backend_exercise.Weekly.{WeeklyWindow}
use backend_exercise.Stats.Dirty.{positive}
use backend_exercise.Stats.Projection.{
  NewProjectionPoint, ProjectionPointRecord, canonical, validate_point, read_point, valid_payload,
  root_or_correction,
}
use backend_exercise.Stats.Projection.Points.{
  Points, at_window, newest_first, first_read, effective_point, follows, next_id, append_point,
}

-- A root has revision 1; a correction names the row that it supersedes, which is one revision older.
abbrev pub Follows : ProjectionPointRecord → Points → Type 0
Follows p [] = (p.revision ≡ 1) × (p.supersedes_id ≡ none) × (p.correction_reason ≡ none)
Follows p (q ∷ older) =
    (p.revision ≡ suc q.revision) × (p.supersedes_id ≡ some q.id) × (p.correction_reason ≢ none)

abbrev pub IsChain : Points → Type 0
IsChain [] = Unit
IsChain (p ∷ older) = Follows p older × IsChain older

abbrev pub Descending : Points → Type 0
Descending [] = Unit
Descending (p ∷ older) = All (λ q. q.id < p.id) older × Descending older

pub record IsHistory (points : Points) : Type 0 where
  pub chains : (user_id start : ℕ) → IsChain (keep (at_window user_id start) points)
  pub readable : All (λ p. read_point p ≡ ok p) points
  pub descending : Descending points

pub []-IsHistory : IsHistory []
[]-IsHistory = record { chains = λ u w. tt; readable = tt; descending = tt }

pub revision-IsChain :
    (p : ProjectionPointRecord) (l : Points) → IsChain (p ∷ l) → p.revision ≡ suc (length l)
revision-IsChain p [] c = c.0.0
revision-IsChain p (q ∷ l) c = omega (arith, c.0.0, revision-IsChain q l c.1)

older-revisions :
    (n : ℕ) (l : Points) → IsChain l → length l ≤ n → All (λ q. leb q.revision n ≡ true) l
older-revisions n [] c h = tt
older-revisions n (q ∷ l) c h =
    (ground (arith, revision-IsChain q l c), older-revisions n l c.1 (omega arith))

IsChain-Sorted : (l : Points) → IsChain l → Sorted newest_first l
IsChain-Sorted [] c = tt
IsChain-Sorted (p ∷ l) c =
    let r : p.revision ≡ suc (length l) = revision-IsChain p l c in
    (older-revisions p.revision l c.1 (omega arith), IsChain-Sorted l c.1)

abbrev pub first {ℓ} : {A : Type ℓ} → List A → Option A
first [] = none
first (a ∷ l) = some a

first_read-lem :
    (l : Points) → All (λ p. read_point p ≡ ok p) l → first_read (take 1 l) ≡ ok (first l)
unfolding first_read
first_read-lem [] h = refl
first_read-lem (p ∷ l) h = rw h.0 refl

pub positive-tt : (n : ℕ) → 1 ≤ n → positive n ≡ ok tt
positive-tt n h = ground arith

-- Of a history and a valid key, the effective point is the one inserted last.
pub effective_point-first :
    (points : Points) (user_id : ℕ) (window : WeeklyWindow)
    → IsHistory points
    → 1 ≤ user_id
    → canonical window ≡ ok tt
    → effective_point points user_id window
      ≡ ok (first (keep (at_window user_id window.start) points))
unfolding effective_point
effective_point-first points u w h pos can =
    let l : Points = keep (at_window u w.start) points in
    rw (positive-tt u pos) (
      rw can (
        rw (order_by-same newest_first l (IsChain-Sorted l (h.chains u w.start))) (
          first_read-lem l
            (All-keep (λ p. read_point p ≡ ok p) (at_window u w.start) points h.readable))))

pub effective_point-valid :
    (points : Points) (user_id : ℕ) (window : WeeklyWindow) (o : Option ProjectionPointRecord)
    → effective_point points user_id window ≡ ok o
    → (1 ≤ user_id) × (canonical window ≡ ok tt)
unfolding effective_point
effective_point-valid points u w o h = (ground arith, ground arith)

-- What a successful `append_point` has computed.
pub record Appended (points : Points) (p : NewProjectionPoint) (inserted : ProjectionPointRecord)
    (after : Points) : Type 0 where
  pub current : Option ProjectionPointRecord
  pub valid : validate_point p ≡ ok tt
  pub current_of : effective_point points p.user_id p.window ≡ ok current
  pub linked : follows p current ≡ ok tt
  pub row : inserted ≡ record { point = p; id = next_id points }
  pub reread : read_point inserted ≡ ok inserted
  pub grown : after ≡ inserted ∷ points

unit-tt : (r : Result (Unit {0})) (x : Unit {0}) → r ≡ ok x → r ≡ ok tt
unit-tt r tt h = h

read_point-same : (r s : ProjectionPointRecord) → read_point r ≡ ok s → s ≡ r
unfolding read_point
read_point-same r s h = sym (
    ok-inj r s (
      >>-eq-ok (validate_point r.point) (ok r) (
        >>-eq-ok (positive r.id) (validate_point r.point >> ok r) (
          >>-eq-ok (valid_payload r.payload) (positive r.id >> (validate_point r.point >> ok r)) (
            >>-eq-ok (canonical r.window)
              (valid_payload r.payload >> (positive r.id >> (validate_point r.point >> ok r)))
              h)))))

pub append_point-eq-ok :
    (points : Points) (p : NewProjectionPoint) (inserted : ProjectionPointRecord) (after : Points)
    → append_point points p ≡ ok (inserted, after)
    → Appended points p inserted after
unfolding append_point
append_point-eq-ok points p inserted after h =
    let row : ProjectionPointRecord = record { point = p; id = next_id points } in
    let written = λ (r : ProjectionPointRecord). ok (r, row ∷ points) in
    let (x, valid, h1) =
      >>=-eq-ok (validate_point p)
        (λ x. effective_point points p.user_id p.window >>= λ current.
          follows p current >>= λ y. read_point row >>= written)
        h in
    let (current, found, h2) =
      >>=-eq-ok (effective_point points p.user_id p.window)
        (λ current. follows p current >>= λ y. read_point row >>= written) h1 in
    let (y, linked, h3) = >>=-eq-ok (follows p current) (λ y. read_point row >>= written) h2 in
    let (r, read, h4) = >>=-eq-ok (read_point row) written h3 in
    let same : r ≡ row = read_point-same row r read in
    let pair : ◌≡◌ {A = ProjectionPointRecord × Points} (r, row ∷ points) (inserted, after) =
      ok-inj _ _ h4 in
    let row_of : inserted ≡ row = sym (ap (λ q. q.0) pair) ∙ same in
    record {
      current = current;
      valid = unit-tt (validate_point p) x valid;
      current_of = found;
      linked = unit-tt (follows p current) y linked;
      row = row_of;
      reread = rw row_of (rw same at read);
      grown = sym (ap (λ q. q.1) pair) ∙ ap (λ q. q ∷ points) (sym row_of);
    }

record IsPoint (p : NewProjectionPoint) : Type 0 where
  pub user_positive : 1 ≤ p.user_id
  pub window_canonical : canonical p.window ≡ ok tt
  pub kind : root_or_correction p.revision p.supersedes_id p.correction_reason ≡ ok tt

validate_point-IsPoint : (p : NewProjectionPoint) → validate_point p ≡ ok tt → IsPoint p
unfolding validate_point
validate_point-IsPoint p h = ground arith

-- The guard of `append_point` makes the new row continue the chain.
follows-Follows :
    (points l : Points) (p : NewProjectionPoint)
    → root_or_correction p.revision p.supersedes_id p.correction_reason ≡ ok tt
    → follows p (first l) ≡ ok tt
    → Follows (record { point = p; id = next_id points }) l
follows-Follows points [] p k h = ground arith
follows-Follows points (q ∷ l) p k h = ground arith

ids-below : (n : ℕ) (points : Points) → next_id points ≤ n → All (λ q. q.id < n) points
unfolding next_id
ids-below n [] h = tt
ids-below n (p ∷ points) h = (omega arith, ids-below n points (omega arith))

-- A row that continues the chain of its own week makes a history of a history.
grown-chains :
    (points : Points) (row : ProjectionPointRecord)
    → IsHistory points
    → Follows row (keep (at_window row.user_id row.window.start) points)
    → (u w : ℕ) → IsChain (keep (at_window u w) (row ∷ points))
grown-chains points row h f u w = elim (Bool-cases (at_window u w row)) [
  | inl e ↦
      let user : row.user_id ≡ u = ground arith in
      let start : row.window.start ≡ w = ground arith in
      rw e (
        subst (λ (x : ℕ). Follows row (keep (at_window x w) points)) user
            (subst (λ (x : ℕ). Follows row (keep (at_window row.user_id x) points)) start f),
        h.chains u w,
      )
  | inr e ↦ rw e (h.chains u w)
]

grown-IsHistory :
    (points : Points) (row : ProjectionPointRecord)
    → IsHistory points
    → Follows row (keep (at_window row.user_id row.window.start) points)
    → read_point row ≡ ok row
    → next_id points ≤ row.id
    → IsHistory (row ∷ points)
grown-IsHistory points row h f r i = record {
  chains = grown-chains points row h f;
  readable = (r, h.readable);
  descending = (ids-below row.id points i, h.descending);
}

-- The point that `append_point` writes stands in the table in front of the rows that were there,
-- none of which changes, and the table stays a history: the revisions of each week count up from a
-- root without a gap, each correction supersedes the revision before it and has a reason, every row
-- can be read back, and no identifier is used twice.
pub append_point-IsHistory :
    (points : Points) (p : NewProjectionPoint) (inserted : ProjectionPointRecord) (after : Points)
    → IsHistory points
    → append_point points p ≡ ok (inserted, after)
    → (inserted.point ≡ p) × (after ≡ inserted ∷ points) × IsHistory after
append_point-IsHistory points p inserted after h e =
    let a = append_point-eq-ok points p inserted after e in
    let v = validate_point-IsPoint p a.valid in
    let l : Points = keep (at_window p.user_id p.window.start) points in
    let row : ProjectionPointRecord = record { point = p; id = next_id points } in
    let current : a.current ≡ first l = ok-inj _ _ (
      sym a.current_of
      ∙ effective_point-first points p.user_id p.window h v.user_positive v.window_canonical) in
    let linked : follows p (first l) ≡ ok tt = rw current at a.linked in
    let grown : after ≡ row ∷ points = a.grown ∙ ap (λ q. q ∷ points) a.row in
    let read : read_point row ≡ ok row = rw a.row at a.reread in
    (
      ap (λ q. q.point) a.row,
      a.grown,
      rw grown (
          grown-IsHistory points row h (follows-Follows points l p v.kind linked) read
            (omega arith)),
    )
