-- ===== src/Stats/Processor/Developed.antt =====
-- What `_persist_developed` does to the history of a week.
use backend_exercise.Prelude.{
  ℕ, suc, ◌≤◌, ◌≡◌, ◌∙◌, refl, sym, ap, subst, Option, none, some, ◌∷◌, String, ok, arith, length,
  keep, string_eq, >>=-eq-ok, ok-inj,
}
use backend_exercise.Weekly.{WeeklyWindow}
use backend_exercise.Stats.Calculation.{
  WeeklyCalculation, HashComparison, same, changed, version_mismatch, compare_content_hashes,
}
use backend_exercise.Stats.Projection.{NewProjectionPoint, ProjectionPointRecord, canonical}
use backend_exercise.Stats.Projection.Points.{Points, at_window, effective_point, append_point}
use backend_exercise.Stats.Projection.Points.History.{
  IsHistory, IsChain, effective_point-first, append_point-IsHistory, revision-IsChain,
  effective_point-valid,
}
use backend_exercise.Stats.Processor.{
  root_of, correction_of, appended, compared, corrected, developed, persist_developed,
}

-- What a call that returns `revision` has added: nothing, or the effective point in front.
abbrev pub Added :
    Points
    → ℕ
    → WeeklyWindow
    → WeeklyCalculation
    → Option ℕ
    → ProjectionPointRecord
    → Points
    → Type 0
Added points user_id window c none effective after = after ≡ points
Added points user_id window c (some n) effective after =
    (after ≡ effective ∷ points)
    × (effective.revision ≡ n)
    × (effective.payload ≡ c.payload)
    × (n ≡ suc (length (keep (at_window user_id window.start) points)))

pub record IsDeveloped (points : Points) (user_id : ℕ) (window : WeeklyWindow)
    (c : WeeklyCalculation) (revision : Option ℕ) (after : Points) : Type 0 where
  pub history : IsHistory after
  pub effective : ProjectionPointRecord
  pub effective_of : effective_point after user_id window ≡ ok (some effective)
  pub version_same : effective.calculation_version ≡ c.calculation_version
  pub hash_same : effective.content_hash ≡ c.content_hash
  pub added : Added points user_id window c revision effective after

compare-same :
    (stored_version stored_hash version hash : String)
    → compare_content_hashes stored_version stored_hash version hash ≡ same
    → (stored_version ≡ version) × (stored_hash ≡ hash)
unfolding compare_content_hashes
compare-same v h w k e =
    (ground (arith, string_eq.beq_iff v w), ground (arith, string_eq.beq_iff h k))

pub compare-equal :
    (version hash : String) → compare_content_hashes version hash version hash ≡ same
unfolding compare_content_hashes
compare-equal v h = ground (arith, string_eq.beq_iff v v, string_eq.beq_iff h h)

module _ (points : Points) (u : ℕ) (w : WeeklyWindow) (h : IsHistory points) (pos : 1 ≤ u)
    (can : canonical w ≡ ok tt) where
  -- A point of this week that is appended becomes the effective one.
  appended-effective :
      (inserted : ProjectionPointRecord) (after : Points)
      → inserted.user_id ≡ u
      → inserted.window ≡ w
      → after ≡ inserted ∷ points
      → IsHistory after
      → effective_point after u w ≡ ok (some inserted)
  appended-effective inserted after user window e hist =
      effective_point-first after u w hist pos can
      ∙ rw e (ground (arith, ap (λ (x : WeeklyWindow). x.start) window))

  appended-IsDeveloped :
      (c : WeeklyCalculation) (p : NewProjectionPoint) (revision : Option ℕ) (after : Points)
      → p.user_id ≡ u
      → p.window ≡ w
      → p.calculation_version ≡ c.calculation_version
      → p.content_hash ≡ c.content_hash
      → p.payload ≡ c.payload
      → appended points p ≡ ok (revision, after)
      → IsDeveloped points u w c revision after
  appended-IsDeveloped c p revision after user window version hash payload e =
      let ((inserted, grown), q, r) =
        >>=-eq-ok (append_point points p) (λ x. ok (some p.revision, x.1)) e in
      let (point, front, hist) = append_point-IsHistory points p inserted grown h q in
      let user' : inserted.user_id ≡ u = ap (λ (x : NewProjectionPoint). x.user_id) point ∙ user in
      let window' : inserted.window ≡ w =
        ap (λ (x : NewProjectionPoint). x.window) point ∙ window in
      let start : inserted.window.start ≡ w.start = ap (λ (x : WeeklyWindow). x.start) window' in
      let l : Points = keep (at_window u w.start) points in
      let at : keep (at_window u w.start) grown ≡ inserted ∷ l = rw front (ground arith) in
      let chain : IsChain (inserted ∷ l) = subst IsChain at (hist.chains u w.start) in
      let revision' : inserted.revision ≡ p.revision =
        ap (λ (x : NewProjectionPoint). x.revision) point in
      subst (λ (x : Option ℕ × Points). IsDeveloped points u w c x.0 x.1) (ok-inj _ _ r)
        (record {
          history = hist;
          effective = inserted;
          effective_of = appended-effective inserted grown user' window' front hist;
          version_same = ap (λ (x : NewProjectionPoint). x.calculation_version) point ∙ version;
          hash_same = ap (λ (x : NewProjectionPoint). x.content_hash) point ∙ hash;
          added = (
            front,
            revision',
            ap (λ (x : NewProjectionPoint). x.payload) point ∙ payload,
            sym revision' ∙ revision-IsChain inserted l chain,
          );
        })

  corrected-IsDeveloped :
      (c : WeeklyCalculation) (existing : ProjectionPointRecord) (g now : ℕ) (s : HashComparison)
      (revision : Option ℕ) (after : Points)
      → effective_point points u w ≡ ok (some existing)
      → compared existing c ≡ s
      → corrected points (correction_of existing u w c g now) s ≡ ok (revision, after)
      → IsDeveloped points u w c revision after
  corrected-IsDeveloped c existing g now version_mismatch revision after f k e = cc
  corrected-IsDeveloped c existing g now changed revision after f k e =
      appended-IsDeveloped c (correction_of existing u w c g now) revision after refl refl refl refl
        refl e
  corrected-IsDeveloped c existing g now same revision after f k e =
      let (version, hash) =
        compare-same existing.calculation_version existing.content_hash c.calculation_version
          c.content_hash k in
      subst (λ (x : Option ℕ × Points). IsDeveloped points u w c x.0 x.1)
        (ok-inj (none, points) _ e)
        (record {
          history = h;
          effective = existing;
          effective_of = f;
          version_same = version;
          hash_same = hash;
          added = refl;
        })

developed-IsDeveloped :
    (points : Points) (u : ℕ) (w : WeeklyWindow)
    → IsHistory points
    → 1 ≤ u
    → canonical w ≡ ok tt
    → (c : WeeklyCalculation) (g now : ℕ) (o : Option ProjectionPointRecord) (revision : Option ℕ)
      (after : Points)
    → effective_point points u w ≡ ok o
    → developed points u w c g now o ≡ ok (revision, after)
    → IsDeveloped points u w c revision after
developed-IsDeveloped points u w h pos can c g now none revision after f e =
    appended-IsDeveloped points u w h pos can c (root_of u w c g now) revision after refl refl refl
      refl refl e
developed-IsDeveloped points u w h pos can c g now (some existing) revision after f e =
    corrected-IsDeveloped points u w h pos can c existing g now (compared existing c) revision after
      f refl e

persisted-IsDeveloped :
    (points : Points) (u : ℕ) (w : WeeklyWindow) (c : WeeklyCalculation) (g now : ℕ)
    (revision : Option ℕ) (after : Points)
    → IsHistory points
    → persist_developed points u w c g now ≡ ok (revision, after)
    → IsDeveloped points u w c revision after
unfolding persist_developed
persisted-IsDeveloped points u w c g now revision after h e =
    let (o, f, e1) = >>=-eq-ok (effective_point points u w) (developed points u w c g now) e in
    let (pos, can) = effective_point-valid points u w o f in
    developed-IsDeveloped points u w h pos can c g now o revision after f e1

-- Persisting a calculation for a week that has ended, where it succeeds on a history, leaves a history
-- whose effective point of the week has the version and the hash of the calculation. If it returns no
-- revision the table is unchanged; otherwise the effective point is new, stands in front of unchanged
-- rows, has the calculation's payload, and its revision is the one returned, one more than the number
-- of points that the week had. Persisting the same calculation again, at any time and for any
-- generation, returns no revision and changes nothing.
pub persist_developed-IsDeveloped :
    (points : Points) (user_id : ℕ) (window : WeeklyWindow) (c : WeeklyCalculation)
    (source_generation now : ℕ) (revision : Option ℕ) (after : Points)
    → IsHistory points
    → persist_developed points user_id window c source_generation now ≡ ok (revision, after)
    → IsDeveloped points user_id window c revision after
      × ((g later : ℕ) → persist_developed after user_id window c g later ≡ ok (none, after))
unfolding persist_developed
persist_developed-IsDeveloped points u w c g now revision after h e =
    let d = persisted-IsDeveloped points u w c g now revision after h e in
    let k : compared d.effective c ≡ same =
      rw (d.version_same, d.hash_same) (compare-equal c.calculation_version c.content_hash) in
    (d, λ g' later. rw d.effective_of (rw k refl))
