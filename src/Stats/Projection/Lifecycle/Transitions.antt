-- ===== src/Stats/Projection/Lifecycle/Transitions.antt =====
-- The transitions of the lifecycle: which statuses each method leads to.
use backend_exercise.Prelude.{
  ℕ, ◌≡◌, sym, true, Option, none, some, ok, arith, String, string_eq, ◌>>=◌, >>=-eq-ok, >>-eq-ok,
  ok-inj,
}
use backend_exercise.Clock.{DateTime, normalize_utc}
use backend_exercise.Stats.Projection.{
  ProjectionStateStatus, pending, running, active, failed, ProjectionStateRecord,
  SurvivingWindowCandidate, valid_version,
}
use backend_exercise.Stats.Projection.Lifecycle.{
  StateRow, Answer, is_status, read_state, get_state, expect, reread, first_row, created, ensured,
  ensure_state, start_or_resume, advance, activate, fail, record_projection_success,
}

-- The methods that write.
pub data Request : Type 0 where
  ensure start : (calculation_version : String) → DateTime → Request
  move : SurvivingWindowCandidate → DateTime → Request
  complete : DateTime → Request
  give_up : (calculation_version failure_code : String) → DateTime → Request
  succeed : (calculation_version : String) → DateTime → Request

unfoldable pub answer : Request → Option StateRow → Answer
answer (ensure version now) row = ensure_state row version now
answer (start version now) row = start_or_resume row version now
answer (move candidate now) row = advance row candidate now
answer (complete now) row = activate row now
answer (give_up version code now) row = fail row version code now
answer (succeed version now) row = record_projection_success row version now

infix 40 ◌⟶◌
pub data ◌⟶◌ : Option ProjectionStateStatus → Option ProjectionStateStatus → Type 0 where
  stay : {s : Option ProjectionStateStatus} → s ⟶ s
  create : none ⟶ some pending
  create_and_begin : none ⟶ some running
  begin : some pending ⟶ some running
  finish : some running ⟶ some active
  lose_pending : some pending ⟶ some failed
  lose_running : some running ⟶ some failed

abbrev pub status_of : Option StateRow → Option ProjectionStateStatus
status_of none = none
status_of (some row) = some row.status

abbrev pub SameVersion : Option StateRow → Option StateRow → Type 0
SameVersion none after = Unit
SameVersion (some row) none = ⊥
SameVersion (some row) (some after) = after.calculation_version ≡ row.calculation_version

pub record Moved (row : Option StateRow) (r : ProjectionStateRecord) (after : Option StateRow)
    : Type 0 where
  pub edge : status_of row ⟶ status_of after
  pub same_version : SameVersion row after
  pub durable : get_state after ≡ ok (some r)

-- The columns that a validated state shows as they are stored.
pub record Shows (row : StateRow) (r : ProjectionStateRecord) : Type 0 where
  pub status_same : r.status ≡ row.status
  pub version_same : r.calculation_version ≡ row.calculation_version

read_state-Shows :
    (row : StateRow) (r : ProjectionStateRecord) → read_state row ≡ ok r → Shows row r
unfolding read_state
read_state-Shows row r h = ground arith

pub get_state-some :
    (row : StateRow) (o : Option ProjectionStateRecord)
    → get_state (some row) ≡ ok o
    → (r : ProjectionStateRecord) × (o ≡ some r) × Shows row r
unfolding get_state
get_state-some row o h =
    let (r, e, q) = >>=-eq-ok (read_state row) (λ r. ok (some r)) h in
    (r, sym (ok-inj _ _ q), read_state-Shows row r e)

pub is_status-eq : (s t : ProjectionStateStatus) → is_status s t ≡ true → s ≡ t
is_status-eq pending t h = ground arith
is_status-eq running t h = ground arith
is_status-eq active t h = ground arith
is_status-eq failed t h = ground arith

pub reread-ok :
    (status : ProjectionStateStatus) (row : StateRow) (r : ProjectionStateRecord)
    (after : Option StateRow)
    → reread status (some row) ≡ ok (r, after)
    → (after ≡ some row) × (get_state after ≡ ok (some r)) × (row.status ≡ status)
reread-ok status row r after h =
    let (o, g, e) = >>=-eq-ok (get_state (some row)) (expect status (some row)) h in
    let (r', q, shows) = get_state-some row o g in
    ground (arith, shows.status_same, is_status-eq r'.status status)

pub created-ok :
    (row : Option StateRow) (r : ProjectionStateRecord) (after : Option StateRow)
    → (get_state row >>= created row) ≡ ok (r, after)
    → (after ≡ row) × (get_state after ≡ ok (some r))
created-ok row r after h = let (o, g, e) = >>=-eq-ok (get_state row) (created row) h in ground arith

-- The row that `ensure_state` finds, or else the one that it inserts.
abbrev pub ensured_row : Option StateRow → String → ℕ → StateRow
ensured_row none version now = first_row version now
ensured_row (some row) version now = row

pub record Ensured (row : Option StateRow) (r : ProjectionStateRecord) (after : Option StateRow)
    : Type 0 where
  pub version : String
  pub now : ℕ
  pub written : after ≡ some (ensured_row row version now)
  pub durable : get_state after ≡ ok (some r)

ensured-ok :
    (row : Option StateRow) (version : String) (now : ℕ) (o : Option ProjectionStateRecord)
    (r : ProjectionStateRecord) (after : Option StateRow)
    → get_state row ≡ ok o
    → ensured row version now o ≡ ok (r, after)
    → (after ≡ some (ensured_row row version now)) × (get_state after ≡ ok (some r))
unfolding get_state
ensured-ok none version now (some r') r after g h = cc
ensured-ok none version now none r after g h = created-ok (some (first_row version now)) r after h
ensured-ok (some row) version now none r after g h =
    let (r', q, shows) = get_state-some row none g in cc
ensured-ok (some row) version now (some r') r after g h = ground arith

pub ensure_state-Ensured :
    (row : Option StateRow) (version : String) (now : DateTime) (r : ProjectionStateRecord)
    (after : Option StateRow)
    → ensure_state row version now ≡ ok (r, after)
    → Ensured row r after
unfolding ensure_state
ensure_state-Ensured row version now r after h =
    let (t, _, e) =
      >>=-eq-ok (normalize_utc now) (λ now'. get_state row >>= ensured row version now')
        (>>-eq-ok (valid_version version)
          (normalize_utc now >>= λ now'. get_state row >>= ensured row version now') h) in
    let (o, g, q) = >>=-eq-ok (get_state row) (ensured row version t) e in
    let (written, durable) = ensured-ok row version t o r after g q in
    record { version = version; now = t; written = written; durable = durable }
