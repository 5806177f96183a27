-- ===== src/Stats/Baseline/Written.antt =====
-- When a root and a developing row of a calculation cannot be refused.
use backend_exercise.Prelude.{ℕ, ◌≤◌, ◌≡◌, ◌∙◌, refl, ap, none, [], ◌∷◌, String, ok, arith, keep}
use backend_exercise.Weekly.{WeeklyWindow}
use backend_exercise.Stats.Dirty.{positive}
use backend_exercise.Stats.Calculation.{WeeklyCalculation}
use backend_exercise.Stats.Projection.{
  NewProjectionPoint, ProjectionPointRecord, canonical, valid_version, valid_payload,
  validate_point, validate_working, read_point,
}
use backend_exercise.Stats.Projection.Points.{
  Points, at_window, effective_point, append_point, next_id,
}
use backend_exercise.Stats.Projection.Points.History.{IsHistory, first, effective_point-first}
use backend_exercise.Stats.Processor.{root_of}
use backend_exercise.Stats.Processor.Process.{working_of}
use backend_exercise.Stats.Baseline.Calculated.{IsCalculation}

next_id-positive : (points : Points) → positive (next_id points) ≡ ok tt
unfolding next_id
next_id-positive [] = refl
next_id-positive (p ∷ points) = ground arith

root_valid :
    (u : ℕ) (w : WeeklyWindow) (version : String) (c : WeeklyCalculation) (g now : ℕ)
    → 1 ≤ u
    → canonical w ≡ ok tt
    → valid_version c.calculation_version ≡ ok tt
    → IsCalculation version c
    → validate_point (root_of u w c g now) ≡ ok tt
unfolding validate_point
root_valid u w version c g now pos can valid is = ground (arith, is.payload_valid, is.hash_valid)

readable_when :
    (r : ProjectionPointRecord)
    → canonical r.window ≡ ok tt
    → valid_payload r.payload ≡ ok tt
    → positive r.id ≡ ok tt
    → validate_point r.point ≡ ok tt
    → read_point r ≡ ok r
unfolding read_point
readable_when r can payload id valid = ground arith

-- A root of a week that has no point yet is appended.
pub append_root :
    (points : Points) (u : ℕ) (w : WeeklyWindow) (version : String) (c : WeeklyCalculation)
    (g now : ℕ)
    → IsHistory points
    → 1 ≤ u
    → canonical w ≡ ok tt
    → valid_version version ≡ ok tt
    → IsCalculation version c
    → first (keep (at_window u w.start) points) ≡ none
    → (row : ProjectionPointRecord) × (append_point points (root_of u w c g now)
        ≡ ok (row, row ∷ points))
unfolding append_point
append_root points u w version c g now h pos can valid is empty =
    let p : NewProjectionPoint = root_of u w c g now in
    let row : ProjectionPointRecord = record { point = p; id = next_id points } in
    let found : effective_point points u w ≡ ok none =
      effective_point-first points u w h pos can ∙ ap (λ o. ok o) empty in
    let version_ok : valid_version c.calculation_version ≡ ok tt = rw is.version_same valid in
    let valid_point : validate_point p ≡ ok tt =
      root_valid u w version c g now pos can version_ok is in
    let readable : read_point row ≡ ok row =
      readable_when row can is.payload_valid (next_id-positive points) valid_point in
    (row, rw (valid_point, append_point) (rw (found, append_point) (rw readable refl)))

pub working_valid :
    (u : ℕ) (w : WeeklyWindow) (version : String) (c : WeeklyCalculation) (g now : ℕ)
    → 1 ≤ u
    → canonical w ≡ ok tt
    → valid_version version ≡ ok tt
    → IsCalculation version c
    → validate_working (working_of u w c g now) ≡ ok tt
unfolding validate_working
working_valid u w version c g now pos can valid is =
    let version_ok : valid_version c.calculation_version ≡ ok tt = rw is.version_same valid in
    ground (arith, is.payload_valid, is.hash_valid)
