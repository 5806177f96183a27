-- ===== src/Stats/Projection/Lifecycle/Moves.antt =====
-- Every method of the lifecycle moves along the edges of its diagram.
use backend_exercise.Prelude.{
  ℕ, ◌≡◌, refl, ap, true, Option, none, some, ok, arith, String, string_eq, require,
  transition_error, ◌>>=◌, ◌>>◌, >>=-eq-ok, >>-eq-ok, ok-inj, subst, Bool-cases, inl, inr,
  if◌then◌else◌, not,
}
use backend_exercise.Clock.{DateTime, normalize_utc}
use backend_exercise.Stats.Projection.{
  ProjectionStateStatus, pending, running, active, failed, ProjectionStateRecord,
  SurvivingWindowCandidate, valid_version, valid_failure_code, validate_candidate,
}
use backend_exercise.Stats.Projection.Lifecycle.{
  StateRow, Answer, is_status, get_state, reread, update_if, require_version, first_row, created,
  ensure_state, started_at, started, start_or_resume, advanced_to, advance, activated_at, activate,
  failed_with, failing, fail, succeeded_at, is_current, record_projection_success,
}
use backend_exercise.Stats.Projection.Lifecycle.Transitions.{
  Request, ensure, start, move, complete, give_up, succeed, answer, ◌⟶◌, stay, create,
  create_and_begin, begin, finish, lose_pending, lose_running, status_of, SameVersion, Moved,
  ensured_row, get_state-some, is_status-eq, reread-ok, created-ok, ensure_state-Ensured,
}

moved :
    (row : Option StateRow) (row' : StateRow) (r : ProjectionStateRecord) (after : Option StateRow)
    → after ≡ some row'
    → get_state after ≡ ok (some r)
    → status_of row ⟶ some row'.status
    → SameVersion row (some row')
    → Moved row r after
moved row row' r after e d edge same = record {
  edge = rw e edge;
  same_version = rw e same;
  durable = d;
}

ensure_state-Moved :
    (row : Option StateRow) (version : String) (now : DateTime) (r : ProjectionStateRecord)
    (after : Option StateRow)
    → ensure_state row version now ≡ ok (r, after)
    → Moved row r after
ensure_state-Moved none version now r after h =
    let e = ensure_state-Ensured none version now r after h in
    moved none (first_row e.version e.now) r after e.written e.durable create tt
ensure_state-Moved (some row) version now r after h =
    let e = ensure_state-Ensured (some row) version now r after h in
    moved (some row) row r after e.written e.durable stay refl

-- An update that is guarded by a status, and read back.
guarded-Moved :
    (expected status : ProjectionStateStatus) (f : StateRow → StateRow) (row : Option StateRow)
    (r : ProjectionStateRecord) (after : Option StateRow)
    → ((x : StateRow) → (f x).calculation_version ≡ x.calculation_version)
    → some expected ⟶ some status
    → reread status (update_if expected f row) ≡ ok (r, after)
    → Moved row r after
unfolding get_state
guarded-Moved expected status f none r after same edge h = cc
guarded-Moved expected status f (some row) r after same edge h =
    elim (Bool-cases (is_status row.status expected)) [
      | inl e ↦
          let (written, durable, s) = reread-ok status (f row) r after (rw e at h) in
          moved (some row) (f row) r after written durable
            (rw (s, is_status-eq row.status expected e) edge) (same row)
      | inr e ↦
          let (written, durable, s) = reread-ok status row r after (rw e at h) in
          moved (some row) row r after written durable stay refl
    ]

advance-Moved :
    (row : Option StateRow) (c : SurvivingWindowCandidate) (now : DateTime)
    (r : ProjectionStateRecord) (after : Option StateRow)
    → advance row c now ≡ ok (r, after)
    → Moved row r after
unfolding advance
advance-Moved row c now r after h =
    let (t, _, e) =
      >>=-eq-ok (normalize_utc now)
        (λ now'. reread running (update_if running (advanced_to c now') row))
        (>>-eq-ok (validate_candidate c) _ h) in
    guarded-Moved running running (advanced_to c t) row r after (λ x. refl) stay e

activate-Moved :
    (row : Option StateRow) (now : DateTime) (r : ProjectionStateRecord) (after : Option StateRow)
    → activate row now ≡ ok (r, after)
    → Moved row r after
unfolding activate
activate-Moved row now r after h =
    let (t, _, e) =
      >>=-eq-ok (normalize_utc now)
        (λ now'. reread active (update_if running (activated_at now') row)) h in
    guarded-Moved running active (activated_at t) row r after (λ x. refl) finish e

begin-Moved :
    (row : Option StateRow) (x : StateRow) (version : String) (now t : ℕ)
    (r : ProjectionStateRecord) (after : Option StateRow)
    → x ≡ ensured_row row version now
    → reread running (some (if is_status x.status pending then started_at t x else x))
      ≡ ok (r, after)
    → Moved row r after
begin-Moved none x version now t r after e h =
    let p : x.status ≡ pending = ap (λ y. y.status) e in
    let (written, durable, s) = reread-ok running (started_at t x) r after (rw p at h) in
    moved none (started_at t x) r after written durable create_and_begin tt
begin-Moved (some row) x version now t r after e h =
    guarded-Moved pending running (started_at t) (some row) r after (λ x. refl) begin (rw e at h)

answered-Moved :
    (row : Option StateRow) (found r : ProjectionStateRecord) (before after : Option StateRow)
    → Moved row found before
    → ◌≡◌ {A = Answer} (ok (found, before)) (ok (r, after))
    → Moved row r after
answered-Moved row found r before after m h =
    subst (λ (p : ProjectionStateRecord × Option StateRow). Moved row p.0 p.1)
      (ok-inj (found, before) (r, after) h) m

-- `start_or_resume` by the status that it finds, on the row that `ensure_state` leaves.
started-Moved :
    (row : Option StateRow) (version : String) (now t : ℕ) (s : ProjectionStateStatus)
    (found r : ProjectionStateRecord) (before after : Option StateRow)
    → before ≡ some (ensured_row row version now)
    → Moved row found before
    → started found before t s ≡ ok (r, after)
    → Moved row r after
started-Moved row version now t active found r before after w m h =
    answered-Moved row found r before after m h
started-Moved row version now t running found r before after w m h =
    answered-Moved row found r before after m h
started-Moved row version now t failed found r before after w m h = cc
started-Moved row version now t pending found r before after w m h =
    begin-Moved row (ensured_row row version now) version now t r after refl (rw w at h)

start_or_resume-Moved :
    (row : Option StateRow) (version : String) (now : DateTime) (r : ProjectionStateRecord)
    (after : Option StateRow)
    → start_or_resume row version now ≡ ok (r, after)
    → Moved row r after
unfolding start_or_resume
start_or_resume-Moved row version now r after h =
    let ((found, before), e, h1) =
      >>=-eq-ok (ensure_state row version now)
        (λ p. normalize_utc now >>= λ now'. started p.0 p.1 now' p.0.status) h in
    let (t, _, h2) =
      >>=-eq-ok (normalize_utc now) (λ now'. started found before now' found.status) h1 in
    let x = ensure_state-Ensured row version now found before e in
    started-Moved row x.version x.now t found.status found r before after x.written
      (ensure_state-Moved row version now found before e) h2

fail_edge : (s : ProjectionStateStatus) → not (is_status s active) ≡ true → some s ⟶ some failed
fail_edge pending h = lose_pending
fail_edge running h = lose_running
fail_edge active h = cc
fail_edge failed h = stay

failing-Moved :
    (row : Option StateRow) (version code : String) (now : DateTime)
    (o : Option ProjectionStateRecord) (r : ProjectionStateRecord) (after : Option StateRow)
    → get_state row ≡ ok o
    → failing row version code now o ≡ ok (r, after)
    → Moved row r after
unfolding get_state
failing-Moved row version code now none r after g h = cc
failing-Moved none version code now (some found) r after g h = cc
failing-Moved (some row) version code now (some found) r after g h =
    let rest = λ (t : ℕ). reread failed (some (failed_with code t row)) in
    let (x, live, h1) =
      >>=-eq-ok (require (not (is_status found.status active)) transition_error)
        (λ x. normalize_utc now >>= rest)
        (>>-eq-ok (require_version found version)
          (require (not (is_status found.status active)) transition_error
            >> (normalize_utc now >>= rest))
          h) in
    let (t, _, h2) = >>=-eq-ok (normalize_utc now) rest h1 in
    let (written, durable, _) = reread-ok failed (failed_with code t row) r after h2 in
    let (found', q, shows) = get_state-some row (some found) g in
    let same : found.status ≡ row.status = ground (arith, shows.status_same) in
    moved (some row) (failed_with code t row) r after written durable
      (subst (λ s. some s ⟶ some failed) same (fail_edge found.status (ground arith))) refl

fail-Moved :
    (row : Option StateRow) (version code : String) (now : DateTime) (r : ProjectionStateRecord)
    (after : Option StateRow)
    → fail row version code now ≡ ok (r, after)
    → Moved row r after
unfolding fail
fail-Moved row version code now r after h =
    let (o, g, e) = >>=-eq-ok (get_state row) (failing row version code now) (
      >>-eq-ok (valid_failure_code code) (get_state row >>= failing row version code now) (
        >>-eq-ok (valid_version version)
          (valid_failure_code code >> (get_state row >>= failing row version code now)) h)) in
    failing-Moved row version code now o r after g e

record_projection_success-Moved :
    (row : Option StateRow) (version : String) (now : DateTime) (r : ProjectionStateRecord)
    (after : Option StateRow)
    → record_projection_success row version now ≡ ok (r, after)
    → Moved row r after
unfolding record_projection_success
record_projection_success-Moved none version now r after h = ground arith
record_projection_success-Moved (some row) version now r after h =
    let written = λ (t : ℕ). some (succeeded_at t row) in
    let rest = λ (t : ℕ). get_state (written t) >>= created (written t) in
    let (t, _, h1) =
      >>=-eq-ok (normalize_utc now)
        (λ t. require (is_current version (some row)) transition_error >> rest t)
        (>>-eq-ok (valid_version version)
          (normalize_utc now >>= λ t.
            require (is_current version (some row)) transition_error >> rest t)
          h) in
    let (w, durable) =
      created-ok (written t) r after
        (>>-eq-ok (require (is_current version (some row)) transition_error) (rest t) h1) in
    moved (some row) (succeeded_at t row) r after w durable stay refl

-- A method of the lifecycle that succeeds moves its row along an edge of the diagram: absent to
-- pending, absent straight to running, pending to running, running to active, pending or running to
-- failed, or nowhere; so no method leaves active or failed. It keeps the calculation version of a row that is there, and the
-- state that it returns is the one that `get_state` reads afterwards.
pub answer-Moved :
    (q : Request) (row : Option StateRow) (r : ProjectionStateRecord) (after : Option StateRow)
    → answer q row ≡ ok (r, after)
    → Moved row r after
unfolding answer
answer-Moved (ensure version now) row r after h = ensure_state-Moved row version now r after h
answer-Moved (start version now) row r after h = start_or_resume-Moved row version now r after h
answer-Moved (move c now) row r after h = advance-Moved row c now r after h
answer-Moved (complete now) row r after h = activate-Moved row now r after h
answer-Moved (give_up version code now) row r after h = fail-Moved row version code now r after h
answer-Moved (succeed version now) row r after h =
    record_projection_success-Moved row version now r after h
