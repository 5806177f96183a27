-- ===== src/Stats/Baseline/Stepped.antt =====
-- One step of the baseline from its checkpoint to the next.
use backend_exercise.Prelude.{
  ℕ, ◌+◌, ◌≤◌, ◌≡◌, ◌∙◌, refl, ap, not, Bool, true, false, Option, none, some, map, String, ok,
  arith, ltb, All, take, length,
}
use backend_exercise.Clock.{utc, normalize_utc-utc}
use backend_exercise.Sorting.Slices.{take-take, more_iff, take-map, length-map, All-take}
use backend_exercise.Stats.Projection.Candidates.Pages.{
  IsDated, IsGroup, candidate_of, groups, groups-IsGroup,
}
use backend_exercise.Stats.Projection.Lifecycle.{StateRow, activated_at, start_or_resume}
use backend_exercise.Stats.Projection.Lifecycle.Running.{
  IsCheckpoint, running_row, running_answer, start-running, start-absent, activate-running,
}
use backend_exercise.Stats.Processor.{Session, Config}
use backend_exercise.Stats.Baseline.{
  activated, page_step, run_page, step_in, run_step, ProjectionBaselineResult, committed_or_not,
}
use backend_exercise.Stats.Baseline.Calculated.{IsCalculator}
use backend_exercise.Stats.Baseline.Persist.{IsSeeded, Covered}
use backend_exercise.Stats.Baseline.Steps.{Groups, persist_page-ok}
use backend_exercise.Stats.Baseline.Pages.{
  candidate_at, Reaches, IsAdvanced-ok, surviving-ok, checkpoint_of-ok,
}

-- The candidates after a checkpoint.
abbrev pub remaining : Session → Option (ℕ × ℕ) → Groups
remaining s c = groups s.bookmarks.bookmarks (candidate_at c)

abbrev pub state_after : Bool → ℕ → StateRow → Option StateRow
state_after true t row = some (activated_at t row)
state_after false t row = some row

pub record IsStep (version : String) (n : ℕ) (s : Session) (c : Option (ℕ × ℕ)) (t : ℕ)
    (result : ProjectionBaselineResult) (after : Session) : Type 0 where
  pub seeded : IsSeeded version after
  pub bookmarks_same : after.bookmarks ≡ s.bookmarks
  pub covered : All (λ r. Covered after r.0.0 r.0.1) (take n (remaining s c))
  pub keeps : (u w : ℕ) → Covered s u w → Covered after u w
  pub done : result.is_active ≡ not (ltb n (length (remaining s c)))
  pub checkpoint : Option (ℕ × ℕ)
  pub reaches : Reaches c (take n (remaining s c)) checkpoint
  pub valid_there : IsCheckpoint checkpoint
  pub from : ℕ
  pub updated : ℕ
  pub from_before : from ≤ t
  pub state_left :
      after.state ≡ state_after result.is_active t (running_row version checkpoint from updated)

-- Where a baseline can start, or go on from a checkpoint.
pub data CanRun (version : String) (t : ℕ) (s : Session) (c : Option (ℕ × ℕ)) : Type 0 where
  absent : c ≡ none → s.state ≡ none → CanRun version t s c
  resumed :
      (from u : ℕ)
      → from ≤ t
      → IsCheckpoint c
      → s.state ≡ some (running_row version c from u)
      → CanRun version t s c

IsSeeded-state :
    (version : String) (s : Session) (state : Option StateRow)
    → IsSeeded version s
    → IsSeeded version (record s { state = state })
IsSeeded-state version s state h = record {
  history = h.history;
  points_version = h.points_version;
  keyed = h.keyed;
  rows = h.rows;
}

module _ (config : Config) (version : String) (first n t : ℕ) (k : IsCalculator config version)
    (small : n ≤ 100) (later : first ≤ t) where
  activated-ok :
      (has_more : Bool) (c : Option (ℕ × ℕ)) (from u : ℕ)
      → IsCheckpoint c
      → from ≤ t
      → activated (some (running_row version c from u)) has_more t
        ≡ ok (state_after (not has_more) t (running_row version c from u))
  activated-ok true c from u h l = refl
  activated-ok false c from u h l =
      rw (activate-running version k.version_valid c from u t h l) refl

  run_page-ok :
      (s : Session) (c : Option (ℕ × ℕ)) (from u : ℕ)
      → IsSeeded version s
      → All (IsDated first) s.bookmarks.bookmarks
      → IsCheckpoint c
      → from ≤ t
      → s.state ≡ some (running_row version c from u)
      → (result : ProjectionBaselineResult) × (after : Session) × (run_page config n s t
            (map candidate_of (take (n + 1) (remaining s c)))
          ≡ ok (result, after))
        × IsStep version n s c t result after
  unfolding run_page
  run_page-ok s c from u seeded dated h l state =
      let rows : Groups = remaining s c in
      let page : Groups = take n rows in
      let same_page : take n (map candidate_of (take (n + 1) rows)) ≡ map candidate_of page =
        take-map candidate_of n (take (n + 1) rows) ∙ ap (map candidate_of) (take-take n rows) in
      let more : ltb n (length (map candidate_of (take (n + 1) rows))) ≡ ltb n (length rows) =
        ap (ltb n) (length-map candidate_of (take (n + 1) rows)) ∙ more_iff n rows in
      let g : All (IsGroup first) page =
        All-take (IsGroup first) n rows
          (groups-IsGroup first s.bookmarks.bookmarks (candidate_at c) dated) in
      let (written, made, paged) = persist_page-ok config version first t k later s page seeded g in
      let state' : written.state ≡ some (running_row version c from u) =
        ap (λ (x : Session). x.state) paged.only_projections ∙ state in
      let a = IsAdvanced-ok version k.version_valid first c from u t page h g in
      let final : Option StateRow =
        state_after (not (ltb n (length rows))) t
          (running_row version a.checkpoint from a.updated) in
      (
        record {
          processed_candidate_count = length (map candidate_of page);
          has_more = ltb n (length rows);
          is_active = not (ltb n (length rows));
        },
        record written { state = final },
        rw same_page (
            rw more (
              rw (made, page_step)
                (rw (state', page_step)
                  (rw (a.left, page_step)
                    (rw
                      (activated-ok (ltb n (length rows)) a.checkpoint from a.updated a.valid_there
                        l)
                      refl))))),
        record {
          seeded = IsSeeded-state version written final paged.seeded;
          bookmarks_same = ap (λ (x : Session). x.bookmarks) paged.only_projections;
          covered = paged.covered;
          keeps = paged.keeps;
          done = refl;
          checkpoint = a.checkpoint;
          reaches = a.reaches;
          valid_there = a.valid_there;
          from = from;
          updated = a.updated;
          from_before = l;
          state_left = refl;
        },
      )

  record Started (s : Session) (c : Option (ℕ × ℕ)) : Type 0 where
    pub from : ℕ
    pub updated : ℕ
    pub from_before : from ≤ t
    pub valid_here : IsCheckpoint c
    pub answered :
        start_or_resume s.state version (utc t)
        ≡ running_answer version k.version_valid c from updated

  Started-ok : (s : Session) (c : Option (ℕ × ℕ)) → CanRun version t s c → Started s c
  Started-ok s c (absent e state) = record {
    from = t;
    updated = t;
    from_before = omega arith;
    valid_here = rw e tt;
    answered = rw e (rw state (start-absent version k.version_valid t));
  }
  Started-ok s c (resumed from u l h state) = record {
    from = from;
    updated = u;
    from_before = l;
    valid_here = h;
    answered = rw state (start-running version k.version_valid c from u t h);
  }

  -- From the state that `start_or_resume` leaves.
  stepped_from :
      (s : Session) (c : Option (ℕ × ℕ)) (x : Started s c) (result : ProjectionBaselineResult)
      (after : Session)
      → All (IsDated first) s.bookmarks.bookmarks
      → run_page config n
          (record s { state = some (running_row version c x.from x.updated) })
          t
          (map candidate_of (take (n + 1) (remaining s c)))
        ≡ ok (result, after)
      → step_in config n s (utc t) ≡ ok (result, after)
  unfolding step_in
  stepped_from s c x result after dated ran =
      rw (normalize_utc-utc t, step_in)
        (rw (k.version_of, step_in)
          (rw (x.answered, step_in)
            (rw (checkpoint_of-ok c, step_in)
              (rw (surviving-ok first n s.bookmarks.bookmarks c small dated x.valid_here, step_in)
                ran))))

  pub IsStep-ok :
      (s : Session) (c : Option (ℕ × ℕ))
      → IsSeeded version s
      → All (IsDated first) s.bookmarks.bookmarks
      → CanRun version t s c
      → (result : ProjectionBaselineResult) × (after : Session) × (run_step config n s (utc t)
          ≡ (ok result, after))
        × IsStep version n s c t result after
  unfolding run_step
  IsStep-ok s c seeded dated can =
      let x = Started-ok s c can in
      let row : StateRow = running_row version c x.from x.updated in
      let s' : Session = record s { state = some row } in
      let (result, after, ran, step) =
        run_page-ok s' c x.from x.updated (IsSeeded-state version s (some row) seeded) dated
          x.valid_here x.from_before refl in
      (
        result,
        after,
        ap (committed_or_not s) (stepped_from s c x result after dated ran),
        record {
          seeded = step.seeded;
          bookmarks_same = step.bookmarks_same;
          covered = step.covered;
          keeps = step.keeps;
          done = step.done;
          checkpoint = step.checkpoint;
          reaches = step.reaches;
          valid_there = step.valid_there;
          from = step.from;
          updated = step.updated;
          from_before = step.from_before;
          state_left = step.state_left;
        },
      )
