-- ===== src/Stats/Baseline/Persist.antt =====
-- Persisting a candidate cannot fail where all that is stored is of the running version.
use backend_exercise.Prelude.{
  ℕ, ◌≤◌, ◌≡◌, ◌≢◌, ◌⊎◌, ◌∙◌, refl, sym, ap, subst, Option, none, some, [], ◌∷◌, String, ok, arith,
  leb, keep, All, pair_eq, nat_eq, string_eq, ◌==◌, Bool-cases, inl, inr,
}
use backend_exercise.Dict
use backend_exercise.Sorting.{All-keep}
use backend_exercise.Weekly.{WeeklyWindow}
use backend_exercise.Stats.Dirty.Acknowledge.{beq_refl}
use backend_exercise.Stats.Calculation.{WeeklyCalculation, compare_content_hashes}
use backend_exercise.Stats.Projection.{
  NewProjectionPoint, ProjectionPointRecord, WorkingProjectionRecord, SurvivingWindowCandidate,
  canonical, valid_version, validate_working, read_working,
}
use backend_exercise.Stats.Projection.Points.{Points, at_window}
use backend_exercise.Stats.Projection.Points.History.{
  IsHistory, first, effective_point-first, append_point-IsHistory, positive-tt,
}
use backend_exercise.Stats.Projection.Working.{WorkingTable, key_of, get_working, replace_working}
use backend_exercise.Stats.Projection.Working.Rows.{IsKeyed, replace_working-IsKeyed, read_valid}
use backend_exercise.Stats.Processor.{Session, root_of, compared}
use backend_exercise.Stats.Processor.Process.{working_of, same_version}
use backend_exercise.Stats.Baseline.{
  unless_mismatch, persist_closed_candidate, persist_current_candidate, persisted,
}
use backend_exercise.Stats.Baseline.Calculated.{IsCalculation}
use backend_exercise.Stats.Baseline.Written.{append_root, working_valid}

pub record IsStoredRow (version : String) (r : WorkingProjectionRecord) : Type 0 where
  pub readable : read_working r ≡ ok r
  pub version_same : r.calculation_version ≡ version

pub record IsSeeded (version : String) (s : Session) : Type 0 where
  pub history : IsHistory s.points
  pub points_version : All (λ p. p.calculation_version ≡ version) s.points
  pub keyed : IsKeyed s.working
  pub rows : All (λ e. IsStoredRow version e.1) s.working

-- The week has a point or a developing row.
abbrev pub Covered : Session → ℕ → ℕ → Type 0
Covered s user_id start =
    (first (keep (at_window user_id start) s.points) ≢ none)
    ⊎ (Dict.get (user_id, start) s.working ≢ none)

pub record IsPersisted (version : String) (before : Session) (user_id start : ℕ) (after : Session)
    : Type 0 where
  pub seeded : IsSeeded version after
  pub only_projections : after ≡ record before { points = after.points; working = after.working }
  pub covered : Covered after user_id start
  pub keeps : (u w : ℕ) → Covered before u w → Covered after u w

first-All {κ} :
    (P : ProjectionPointRecord → Type κ) (l : Points) (p : ProjectionPointRecord)
    → All P l
    → first l ≡ some p
    → P p
first-All P [] p h e = absurd (ground arith)
first-All P (q ∷ l) p h e = let same : q ≡ p = ground arith in subst P same h.0

unless_mismatch-ok :
    (points : Points) (e : ProjectionPointRecord) (c : WeeklyCalculation)
    → e.calculation_version ≡ c.calculation_version
    → unless_mismatch points (compared e c) ≡ ok points
unfolding compare_content_hashes
unless_mismatch-ok points e c h =
    ground (arith, string_eq.beq_iff e.calculation_version c.calculation_version)

grown-Covered :
    (s : Session) (row : ProjectionPointRecord) (v x : ℕ)
    → Covered s v x
    → Covered (record s { points = row ∷ s.points }) v x
grown-Covered s row v x (inr h) = inr h
grown-Covered s row v x (inl h) = elim (Bool-cases (at_window v x row)) [
  | inl e ↦ inl (rw e (λ q. cc))
  | inr e ↦ inl (rw e h)
]

put-Covered :
    (s : Session) (k : ℕ × ℕ) (r : WorkingProjectionRecord) (v x : ℕ)
    → Covered s v x
    → Covered (record s { working = Dict.put k r s.working }) v x
put-Covered s k r v x (inl h) = inl h
put-Covered s k r v x (inr h) = inr (
    rw (Dict.get-put k (v, x) r s.working)
      (elim (Bool-cases (k == (v, x))) [ inl e ↦ rw e (λ q. cc) | inr e ↦ rw e h ]))

module _ (version : String) (s : Session) (u : ℕ) (w : WeeklyWindow) (c : WeeklyCalculation)
    (now : ℕ) (seeded : IsSeeded version s) (pos : 1 ≤ u) (can : canonical w ≡ ok tt)
    (valid : valid_version version ≡ ok tt) (is : IsCalculation version c) where
  abbrev here : SurvivingWindowCandidate
  here = record { user_id = u; window = w }

  abbrev Closed : Type 0
  Closed =
      (points : Points) × (persist_closed_candidate s.points here c now ≡ ok points)
      × IsPersisted version s u w.start (record s { points = points })

  closed_new : first (keep (at_window u w.start) s.points) ≡ none → Closed
  unfolding persist_closed_candidate
  closed_new empty =
      let (row, made) =
        append_root s.points u w version c 0 now seeded.history pos can valid is empty in
      let (point, grown, history) =
        append_point-IsHistory s.points (root_of u w c 0 now) row (row ∷ s.points) seeded.history
          made in
      let user : row.user_id ≡ u = ap (λ (x : NewProjectionPoint). x.user_id) point in
      let window : row.window ≡ w = ap (λ (x : NewProjectionPoint). x.window) point in
      let start : row.window.start ≡ w.start = ap (λ (x : WeeklyWindow). x.start) window in
      (
        row ∷ s.points,
        rw (effective_point-first s.points u w seeded.history pos can, persist_closed_candidate)
            (rw empty (rw made refl)),
        record {
          seeded = record {
            history = history;
            points_version = (
              ap (λ (x : NewProjectionPoint). x.calculation_version) point ∙ is.version_same,
              seeded.points_version,
            );
            keyed = seeded.keyed;
            rows = seeded.rows;
          };
          only_projections = refl;
          covered = inl (ground arith);
          keeps = λ v x h. grown-Covered s row v x h;
        },
      )

  closed_there :
      (e : ProjectionPointRecord) → first (keep (at_window u w.start) s.points) ≡ some e → Closed
  unfolding persist_closed_candidate
  closed_there e found =
      let same : e.calculation_version ≡ version =
        first-All (λ p. p.calculation_version ≡ version) (keep (at_window u w.start) s.points) e
          (All-keep (λ p. p.calculation_version ≡ version) (at_window u w.start) s.points
            seeded.points_version)
          found in
      (
        s.points,
        rw (effective_point-first s.points u w seeded.history pos can, persist_closed_candidate)
            (rw found (unless_mismatch-ok s.points e c (same ∙ sym is.version_same))),
        record {
          seeded = seeded;
          only_projections = refl;
          covered = inl (ground arith);
          keeps = λ v x h. h;
        },
      )

  closed_ok :
      (o : Option ProjectionPointRecord) → first (keep (at_window u w.start) s.points) ≡ o → Closed
  closed_ok none e = closed_new e
  closed_ok (some p) e = closed_there p e

  abbrev Current : Type 0
  Current =
      (table : WorkingTable) × (persist_current_candidate s.working here c now ≡ ok table)
      × IsPersisted version s u w.start (record s { working = table })

  found_row :
      (r : WorkingProjectionRecord)
      → Dict.get (u, w.start) s.working ≡ some r
      → IsStoredRow version r
  found_row r e = Dict.All-get (IsStoredRow version) (u, w.start) r s.working seeded.rows e

  -- What is read there is of the same version.
  read_here :
      (o : Option WorkingProjectionRecord)
      → Dict.get (u, w.start) s.working ≡ o
      → (get_working s.working u w ≡ ok o) × (same_version o c.calculation_version ≡ ok tt)
  unfolding get_working
  read_here none e = (rw (positive-tt u pos) (rw can (rw e refl)), refl)
  read_here (some r) e =
      let row = found_row r e in
      let same : r.calculation_version ≡ c.calculation_version =
        row.version_same ∙ sym is.version_same in
      (
        rw (positive-tt u pos) (rw can (rw e (rw row.readable refl))),
        ground (arith, string_eq.beq_iff r.calculation_version c.calculation_version),
      )

  current_ok : Current
  unfolding persist_current_candidate replace_working
  current_ok =
      let r : WorkingProjectionRecord = working_of u w c 0 now in
      let written : validate_working r ≡ ok tt =
        working_valid u w version c 0 now pos can valid is in
      let (found, same) = read_here (Dict.get (u, w.start) s.working) refl in
      let replaced : replace_working s.working r ≡ ok (Dict.put (key_of r) r s.working) =
        rw written refl in
      (
        Dict.put (u, w.start) r s.working,
        rw (found, persist_current_candidate) (rw same replaced),
        record {
          seeded = record {
            history = seeded.history;
            points_version = seeded.points_version;
            keyed =
                replace_working-IsKeyed s.working r (Dict.put (u, w.start) r s.working) seeded.keyed
                  replaced;
            rows =
                Dict.All-put (IsStoredRow version) (u, w.start) r s.working
                  (record { readable = read_valid r written; version_same = is.version_same })
                  seeded.rows;
          };
          only_projections = refl;
          covered = inr (
              rw (Dict.get-put (u, w.start) (u, w.start) r s.working)
                (rw (beq_refl (u, w.start)) (λ q. cc)));
          keeps = λ v x h. put-Covered s (u, w.start) r v x h;
        },
      )

  pub persisted-ok :
      (after : Session) × (persisted s here c now ≡ ok after)
      × IsPersisted version s u w.start after
  persisted-ok = elim (Bool-cases (leb w.end now)) [
    | inl e ↦
        let (points, made, step) = closed_ok (first (keep (at_window u w.start) s.points)) refl in
        (record s { points = points }, rw e (rw made refl), step)
    | inr e ↦
        let (table, made, step) = current_ok in
        (record s { working = table }, rw e (rw made refl), step)
  ]
