-- ===== src/Stats/Baseline/Steps.antt =====
-- A page of candidates is persisted whole.
use backend_exercise.Prelude.{
  ℕ, ◌≤◌, ◌≡◌, ◌∙◌, refl, ap, false, List, [], ◌∷◌, map, String, ok, arith, ltb, All,
}
use backend_exercise.Stats.Projection.{canonical}
use backend_exercise.Stats.Projection.Candidates.Pages.{
  IsGroup, candidate_of, canonical-week, group-IsWeek, window_at,
}
use backend_exercise.Stats.Processor.{Session, Config}
use backend_exercise.Stats.Baseline.{persist_candidate, persist_page}
use backend_exercise.Stats.Baseline.Calculated.{IsCalculator, calculation-ok}
use backend_exercise.Stats.Baseline.Persist.{IsSeeded, Covered, IsPersisted, persisted-ok}

abbrev pub Groups : Type 0
Groups = List ((ℕ × ℕ) × ℕ)

pub record IsPaged (version : String) (before : Session) (rows : Groups) (after : Session)
    : Type 0 where
  pub seeded : IsSeeded version after
  pub only_projections : after ≡ record before { points = after.points; working = after.working }
  pub covered : All (λ r. Covered after r.0.0 r.0.1) rows
  pub keeps : (u w : ℕ) → Covered before u w → Covered after u w

module _ (config : Config) (version : String) (first now : ℕ) (k : IsCalculator config version)
    (later : first ≤ now) where
  persist_candidate-ok :
      (s : Session) (row : (ℕ × ℕ) × ℕ)
      → IsSeeded version s
      → IsGroup first row
      → (after : Session) × (persist_candidate config s (candidate_of row) now ≡ ok after)
        × IsPersisted version s row.0.0 row.0.1 after
  unfolding persist_candidate
  persist_candidate-ok s ((u, w), t) seeded g =
      let can : canonical (window_at w) ≡ ok tt =
        canonical-week (window_at w) (group-IsWeek first ((u, w), t) g) in
      let (c, made, is) =
        calculation-ok config version s.bookmarks u (window_at w) k g.user_positive can in
      let (after, done, step) =
        persisted-ok version s u (window_at w) c now seeded g.user_positive can k.version_valid
          is in
      let begun : ltb now w ≡ false = ground (arith, g.begun) in
      (after, rw (begun, persist_candidate) (rw (made, persist_candidate) done), step)

  all_keeps :
      (before after : Session) (rows : Groups)
      → ((u w : ℕ) → Covered before u w → Covered after u w)
      → All (λ r. Covered before r.0.0 r.0.1) rows
      → All (λ r. Covered after r.0.0 r.0.1) rows
  all_keeps before after [] h c = tt
  all_keeps before after (r ∷ rows) h c = (h r.0.0 r.0.1 c.0, all_keeps before after rows h c.1)

  pub persist_page-ok :
      (s : Session) (rows : Groups)
      → IsSeeded version s
      → All (IsGroup first) rows
      → (after : Session) × (persist_page config s (map candidate_of rows) now ≡ ok after)
        × IsPaged version s rows after
  unfolding persist_page
  persist_page-ok s [] seeded g = (
    s,
    refl,
    record { seeded = seeded; only_projections = refl; covered = tt; keeps = λ u w c. c },
  )
  persist_page-ok s (row ∷ rows) seeded g =
      let (middle, one, step) = persist_candidate-ok s row seeded g.0 in
      let (after, rest, paged) = persist_page-ok middle rows step.seeded g.1 in
      (
        after,
        rw (one, persist_page) rest,
        record {
          seeded = paged.seeded;
          only_projections =
              paged.only_projections
              ∙ ap (λ (x : Session). record x { points = after.points; working = after.working })
                  step.only_projections;
          covered = (paged.keeps row.0.0 row.0.1 step.covered, paged.covered);
          keeps = λ u w c. paged.keeps u w (step.keeps u w c);
        },
      )
