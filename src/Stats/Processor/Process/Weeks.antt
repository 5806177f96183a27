-- ===== src/Stats/Processor/Process/Weeks.antt =====
-- A week that has ended, and the current one.
use backend_exercise.Prelude.{
  ℕ, ◌+◌, ◌≤◌, ◌<◌, ◌≡◌, ◌∙◌, refl, sym, ap, subst, Bool, false, Option, none, ok, arith, leb,
  pair_eq, nat_eq, ◌==◌, ◌>>=◌, ◌>>◌, >>=-eq-ok, >>-eq-ok, ok-inj, Bool-cases, inl, inr,
  if◌then◌else◌,
}
use backend_exercise.Dict
use backend_exercise.Weekly.{WeeklyWindow, week}
use backend_exercise.Stats.Calculation.{WeeklyCalculation}
use backend_exercise.Stats.Projection.{WorkingProjectionRecord}
use backend_exercise.Stats.Projection.Points.{Points}
use backend_exercise.Stats.Projection.Points.History.{IsHistory}
use backend_exercise.Stats.Projection.Working.{WorkingTable, get_working, replace_working}
use backend_exercise.Stats.Projection.Working.Rows.{
  IsKeyed, get_working-found, replace_working-put, replace_working-IsKeyed,
}
use backend_exercise.Stats.Processor.{Session, Config, persist_developed}
use backend_exercise.Stats.Processor.Developed.{IsDeveloped, persist_developed-IsDeveloped}
use backend_exercise.Stats.Processor.Process.{
  working_of, same_version, ensure_current_working, remove_working, Projected, project_closed,
  project_current, project,
}
use backend_exercise.Stats.Processor.Process.Applied.{
  Kept, IsProjected, ensure_current_working-Kept, remove_working-removed,
}

module _ (config : Config) (s : Session) (u : ℕ) (w : WeeklyWindow) (c : WeeklyCalculation)
    (g now : ℕ) (keyed : IsKeyed s.working) (history : IsHistory s.points) where
  -- From the rows that are there after the closed week's row has gone.
  pub closed-IsProjected :
      (revision : Option ℕ) (points : Points) (working : WorkingTable) (made : Bool)
      (after : Session)
      → w.end ≤ now
      → w.end ≡ w.start + week
      → IsDeveloped s.points u w c revision points
      → ((j : ℕ × ℕ)
          → Dict.get j working ≡ (if (u, w.start) == j then none else Dict.get j s.working))
      → Kept (record s { points = points; working = working }) u now after
      → IsProjected s u w c g now
          (record { appended_revision = revision; created_current_working = made; session = after })
  closed-IsProjected revision points working made after ended seven d gone kept =
      let rest : after ≡ record s { points = points; working = after.working } =
        kept.only_working in
      let same : after.points ≡ points = ap (λ (x : Session). x.points) rest in
      let d' : IsDeveloped s.points u w c revision after.points =
        subst (λ (x : Points). IsDeveloped s.points u w c revision x) (sym same) d in
      record {
        only_projections =
            rest ∙ ap (λ (x : Points). record s { points = x; working = after.working }) (sym same);
        keyed = kept.keyed;
        history = d'.history;
        week_done = inl (
          ended,
          record {
            developed = d';
            removed =
                kept.rows_same (u, w.start) (ground (arith, kept.recent))
                ∙ rw (gone (u, w.start)) (ground arith);
            other_users =
                λ v x n. kept.rows_same (v, x) (ground arith) ∙ rw (gone (v, x)) (ground arith);
          },
        );
      }

  project_closed-IsProjected :
      (p : Projected)
      → w.end ≤ now
      → w.end ≡ w.start + week
      → project_closed config s u w c g now ≡ ok p
      → IsProjected s u w c g now p
  unfolding project_closed
  project_closed-IsProjected p ended seven h =
      let finish = λ (revision : Option ℕ) (x : Bool × Session).
        ok
          (record { appended_revision = revision; created_current_working = x.0; session = x.1 }) in
      let create = λ (revision : Option ℕ) (points : Points) (working : WorkingTable).
        (ensure_current_working config (record s { points = points; working = working }) u now
          >>= finish revision) in
      let remove = λ (revision : Option ℕ) (points : Points) (row : Option WorkingProjectionRecord).
        (remove_working s.working row >>= create revision points) in
      let ((revision, points), persisted, h1) =
        >>=-eq-ok (persist_developed s.points u w c g now)
          (λ x. get_working s.working u w >>= remove x.0 x.1) h in
      let (row, found, h2) = >>=-eq-ok (get_working s.working u w) (remove revision points) h1 in
      let (working, removed, h3) =
        >>=-eq-ok (remove_working s.working row) (create revision points) h2 in
      let ((made, after), ensured, h4) =
        >>=-eq-ok
          (ensure_current_working config (record s { points = points; working = working }) u now)
          (finish revision) h3 in
      let (keyed', gone) =
        remove_working-removed s.working u w.start row working keyed
          (get_working-found s.working u w row found) removed in
      subst (IsProjected s u w c g now) (ok-inj _ p h4) (
        closed-IsProjected revision points working made after ended seven
          (persist_developed-IsDeveloped s.points u w c g now revision points history persisted).0
          gone
          (ensure_current_working-Kept config (record s { points = points; working = working }) u
            now made after keyed' ensured))

  project_current-IsProjected :
      (p : Projected)
      → now < w.end
      → project_current s u w c g now ≡ ok p
      → IsProjected s u w c g now p
  unfolding project_current
  project_current-IsProjected p before h =
      let r : WorkingProjectionRecord = working_of u w c g now in
      let finish = λ (t : WorkingTable). ok (record {
        appended_revision = none;
        created_current_working = false;
        session = record s { working = t };
      }) in
      let (row, _, h1) =
        >>=-eq-ok (get_working s.working u w)
          (λ row.
            same_version row c.calculation_version >> (replace_working s.working r >>= finish))
          h in
      let (t, e, h2) =
        >>=-eq-ok (replace_working s.working r) finish
          (>>-eq-ok (same_version row c.calculation_version) _ h1) in
      subst (IsProjected s u w c g now) (ok-inj _ p h2) (record {
        only_projections = refl;
        keyed = replace_working-IsKeyed s.working r t keyed e;
        history = history;
        week_done = inr (
          before,
          record {
            none_appended = refl;
            points_same = refl;
            written = λ j.
                rw (replace_working-put s.working r t e).1
                  (Dict.get-put (u, w.start) j r s.working);
          },
        );
      })

  pub project-IsProjected :
      (p : Projected)
      → w.end ≡ w.start + week
      → project config s u w c g now ≡ ok p
      → IsProjected s u w c g now p
  unfolding project
  project-IsProjected p seven h = elim (Bool-cases (leb w.end now)) [
    | inl e ↦ project_closed-IsProjected p (ground arith) seven (rw e at h)
    | inr e ↦ project_current-IsProjected p (ground arith) (rw e at h)
  ]
