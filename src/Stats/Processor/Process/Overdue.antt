-- ===== src/Stats/Processor/Process/Overdue.antt =====
-- A developing row whose week has ended is finalized, or left to its pending marker, or nothing
-- changes.
use backend_exercise.Prelude.{
  ℕ, ◌≤◌, ◌≡◌, ◌∙◌, refl, ap, subst, Bool, true, false, Option, none, some, Result, ok, raise,
  arith, leb, require, candidate_error, version_mismatch_error, pair_eq, nat_eq, ◌==◌, string_eq,
  String, ◌>>=◌, ◌>>◌, >>=-eq-ok, >>-eq-ok, ok-inj,
}
use backend_exercise.Clock.{DateTime, normalize_utc}
use backend_exercise.Dict
use backend_exercise.Weekly.{WeeklyWindow}
use backend_exercise.Stats.Dirty.{Table, Row, positive}
use backend_exercise.Stats.Projection.{WorkingProjectionRecord, canonical}
use backend_exercise.Stats.Projection.Readiness.{
  is_pending, generation_if_pending, pending_projection_generation,
}
use backend_exercise.Stats.Projection.Points.History.{IsHistory}
use backend_exercise.Stats.Projection.Working.{key_of, get_working}
use backend_exercise.Stats.Projection.Working.Rows.{IsKeyed, get_working-found}
use backend_exercise.Stats.Projection.Lifecycle.{require_active}
use backend_exercise.Stats.Processor.{Session, Config, reader_version}
use backend_exercise.Stats.Processor.Process.{
  ProjectionProcessOutcome, applied, deferred, absent, finalize_overdue, unless_pending,
  overdue_found, overdue_in, or_rolled_back, process_overdue,
}
use backend_exercise.Stats.Processor.Process.Finalized.{
  IsFinalized, FinalizedOutcome, finalize_overdue-FinalizedOutcome,
}

-- What is pending of a week, by its key in the table of markers.
abbrev PendingOutcome : Table → ℕ × ℕ → Option ℕ → Type 0
PendingOutcome table k (some generation) =
    (m : Row) × (Dict.get k table ≡ some m) × (is_pending m ≡ true)
PendingOutcome table k none = (m : Row) → Dict.get k table ≡ some m → is_pending m ≡ false

generation_if_pending-PendingOutcome :
    (table : Table) (k : ℕ × ℕ) (found : Option Row) (generation : Option ℕ)
    → Dict.get k table ≡ found
    → generation_if_pending found ≡ ok generation
    → PendingOutcome table k generation
generation_if_pending-PendingOutcome table k none none e h = λ m f. cc
generation_if_pending-PendingOutcome table k none (some g) e h = cc
generation_if_pending-PendingOutcome table k (some m) none e h = λ m' f. ground arith
generation_if_pending-PendingOutcome table k (some m) (some g) e h = (m, e, ground arith)

pending-PendingOutcome :
    (table : Table) (u : ℕ) (w : WeeklyWindow) (generation : Option ℕ)
    → pending_projection_generation table u w ≡ ok generation
    → PendingOutcome table (u, w.start) generation
unfolding pending_projection_generation
pending-PendingOutcome table u w generation h =
    generation_if_pending-PendingOutcome table (u, w.start) (Dict.get (u, w.start) table) generation
      refl (>>-eq-ok (canonical w) _ (>>-eq-ok (positive u) _ h))

-- The row that is stored under the observed one's key is over and nothing is pending of its week.
pub record IsOverdueApplied (config : Config) (before : Session)
    (observed : WorkingProjectionRecord) (clock : DateTime) (revision : Option ℕ) (made : Bool)
    (after : Session) : Type 0 where
  pub now : ℕ
  pub now_of : normalize_utc clock ≡ ok now
  pub row : WorkingProjectionRecord
  pub stored : Dict.get (key_of observed) before.working ≡ some row
  pub ended : row.window.end ≤ now
  pub none_pending :
      (m : Row) → Dict.get (key_of observed) before.dirty ≡ some m → is_pending m ≡ false
  pub finalized : IsFinalized config before row now revision made after

abbrev pub OverdueOutcome :
    Config
    → Session
    → WorkingProjectionRecord
    → DateTime
    → Result ProjectionProcessOutcome
    → Session
    → Type 0
OverdueOutcome config before observed clock (raise error) after = after ≡ before
OverdueOutcome config before observed clock (ok absent) after =
    (after ≡ before) × (Dict.get (key_of observed) before.working ≡ none)
OverdueOutcome config before observed clock (ok deferred) after =
    (after ≡ before)
    × ((m : Row) × (Dict.get (key_of observed) before.dirty ≡ some m) × (is_pending m ≡ true))
OverdueOutcome config before observed clock (ok (applied revision made)) after =
    IsOverdueApplied config before observed clock revision made after
OverdueOutcome config before observed clock (ok ProjectionProcessOutcome.stale) after = ⊥

module _ (config : Config) (before : Session) (observed : WorkingProjectionRecord)
    (clock : DateTime) (keyed : IsKeyed before.working) (history : IsHistory before.points)
    (now : ℕ) (now_of : normalize_utc clock ≡ ok now) where
  finalized-OverdueOutcome :
      (row : WorkingProjectionRecord) (outcome : ProjectionProcessOutcome) (after : Session)
      → Dict.get (key_of observed) before.working ≡ some row
      → row.window.end ≤ now
      → PendingOutcome before.dirty (key_of observed) none
      → FinalizedOutcome config before row now outcome after
      → OverdueOutcome config before observed clock (ok outcome) after
  finalized-OverdueOutcome row (applied revision made) after stored ended quiet f = record {
    now = now;
    now_of = now_of;
    row = row;
    stored = stored;
    ended = ended;
    none_pending = quiet;
    finalized = f;
  }
  finalized-OverdueOutcome row deferred after stored ended quiet f = absurd f
  finalized-OverdueOutcome row ProjectionProcessOutcome.stale after stored ended quiet f = absurd f
  finalized-OverdueOutcome row absent after stored ended quiet f = absurd f

  unless_pending-OverdueOutcome :
      (row : WorkingProjectionRecord) (generation : Option ℕ) (outcome : ProjectionProcessOutcome)
      (after : Session)
      → Dict.get (key_of observed) before.working ≡ some row
      → row.window.end ≤ now
      → PendingOutcome before.dirty (key_of observed) generation
      → unless_pending before generation (finalize_overdue config before row now)
        ≡ ok (outcome, after)
      → OverdueOutcome config before observed clock (ok outcome) after
  unless_pending-OverdueOutcome row (some g) outcome after stored ended pending h =
      subst
        (λ (x : ProjectionProcessOutcome × Session).
          OverdueOutcome config before observed clock (ok x.0) x.1)
        (ok-inj (deferred, before) (outcome, after) h) (refl, pending)
  unless_pending-OverdueOutcome row none outcome after stored ended quiet h =
      let key : key_of row ≡ key_of observed =
        Dict.All-get_entry (λ e. key_of e.1 ≡ e.0) (key_of observed) row before.working keyed
          stored in
      finalized-OverdueOutcome row outcome after stored ended quiet (
        finalize_overdue-FinalizedOutcome config before row now outcome after keyed history
          (ap (λ k. Dict.get k before.working) key ∙ stored) ended h)

  found-OverdueOutcome :
      (version : String) (found : Option WorkingProjectionRecord)
      (outcome : ProjectionProcessOutcome) (after : Session)
      → Dict.get (key_of observed) before.working ≡ found
      → overdue_found config before version now found ≡ ok (outcome, after)
      → OverdueOutcome config before observed clock (ok outcome) after
  unfolding overdue_found
  found-OverdueOutcome version none outcome after stored h =
      subst
        (λ (x : ProjectionProcessOutcome × Session).
          OverdueOutcome config before observed clock (ok x.0) x.1)
        (ok-inj (absent, before) (outcome, after) h) (refl, stored)
  found-OverdueOutcome version (some row) outcome after stored h =
      let settle = λ (generation : Option ℕ).
        unless_pending before generation (finalize_overdue config before row now) in
      let rest = (pending_projection_generation before.dirty row.user_id row.window >>= settle) in
      let same = require (row.calculation_version == version) version_mismatch_error in
      let (x, ended, h1) =
        >>=-eq-ok (require (leb row.window.end now) candidate_error) (λ x. same >> rest) h in
      let (generation, g, h2) =
        >>=-eq-ok (pending_projection_generation before.dirty row.user_id row.window) settle
          (>>-eq-ok same rest h1) in
      let key : key_of row ≡ key_of observed =
        Dict.All-get_entry (λ e. key_of e.1 ≡ e.0) (key_of observed) row before.working keyed
          stored in
      unless_pending-OverdueOutcome row generation outcome after stored (ground arith)
        (subst (λ k. PendingOutcome before.dirty k generation) key
          (pending-PendingOutcome before.dirty row.user_id row.window generation g))
        h2

in-OverdueOutcome :
    (config : Config) (before : Session) (observed : WorkingProjectionRecord) (clock : DateTime)
    (keyed : IsKeyed before.working) (history : IsHistory before.points)
    (result : Result (ProjectionProcessOutcome × Session))
    → overdue_in config before observed clock ≡ result
    → OverdueOutcome config before observed clock
        (or_rolled_back before result).0
        (or_rolled_back before result).1
unfolding overdue_in
in-OverdueOutcome config before observed clock keyed history (raise error) h = refl
in-OverdueOutcome config before observed clock keyed history (ok (outcome, after)) h =
    let find = λ (now : ℕ) (version : String).
      (get_working before.working observed.user_id observed.window
        >>= overdue_found config before version now) in
    let check = λ (now : ℕ) (version : String).
      (require_active before.state version >>= λ active. find now version) in
    let (now, now_of, h1) =
      >>=-eq-ok (normalize_utc clock) (λ now. reader_version config >>= check now) h in
    let (version, _, h2) = >>=-eq-ok (reader_version config) (check now) h1 in
    let (active, _, h3) =
      >>=-eq-ok (require_active before.state version) (λ active. find now version) h2 in
    let (found, f, h4) =
      >>=-eq-ok (get_working before.working observed.user_id observed.window)
        (overdue_found config before version now) h3 in
    found-OverdueOutcome config before observed clock keyed history now now_of version found outcome
      after (get_working-found before.working observed.user_id observed.window found f) h4

-- Where every developing row stands under its own key and the points are a history, processing an
-- observed row is all-or-nothing. It raises, or no row is stored under the key, or a marker of the
-- week is pending for projections and it is deferred: then nothing has changed. Or it is applied: the
-- row that is stored now is over, no marker of its week is pending, and its week is recomputed from
-- the bookmarks and projected under the row's own generation, so that the effective point has the
-- calculation's hash and version and the row is gone. The success is recorded, and markers, users and
-- bookmarks stay. It never finds the row stale.
pub process_overdue-OverdueOutcome :
    (config : Config) (session : Session) (observed : WorkingProjectionRecord) (clock : DateTime)
    → IsKeyed session.working
    → IsHistory session.points
    → OverdueOutcome config session observed clock
        (process_overdue config session observed clock).0
        (process_overdue config session observed clock).1
unfolding process_overdue
process_overdue-OverdueOutcome config session observed clock keyed history =
    in-OverdueOutcome config session observed clock keyed history
      (overdue_in config session observed clock) refl
