-- ===== src/Stats/Baseline/Terminates.antt =====
-- The baseline ends: one step after another, each in its own transaction.
use backend_exercise.Prelude.{
  ℕ, zero, suc, ◌-◌, ◌*◌, ◌≤◌, ◌<◌, ◌≡◌, ◌∙◌, refl, ap, not, Bool, true, false, Option, some, List,
  [], ◌∷◌, String, Result, ok, raise, arith, ltb, All, take, drop, length, length-drop,
  take-append-drop, if◌then◌else◌, Bool-cases, inl, inr,
}
use backend_exercise.Clock.{utc}
use backend_exercise.Sorting.Slices.{take_all, All-append}
use backend_exercise.Stats.Projection.{active}
use backend_exercise.Stats.Projection.Candidates.Pages.{IsDated, groups-after}
use backend_exercise.Stats.Projection.Lifecycle.{StateRow, activated_at}
use backend_exercise.Stats.Projection.Lifecycle.Running.{running_row}
use backend_exercise.Stats.Processor.{Session, Config}
use backend_exercise.Stats.Baseline.{run_step, ProjectionBaselineResult}
use backend_exercise.Stats.Baseline.Calculated.{IsCalculator}
use backend_exercise.Stats.Baseline.Persist.{IsSeeded, Covered}
use backend_exercise.Stats.Baseline.Steps.{Groups}
use backend_exercise.Stats.Baseline.Pages.{candidate_at, Reaches}
use backend_exercise.Stats.Baseline.Stepped.{
  remaining, state_after, IsStep, CanRun, absent, resumed, IsStep-ok,
}

-- The refresher runs one step in each of its cycles until the baseline is active. Here the cycles come
-- at the given times, and an exception ends the run.
abbrev or_next :
    Result ProjectionBaselineResult × Session
    → (Session → Result Bool × Session)
    → Result Bool × Session
or_next (raise error, s) next = (raise error, s)
or_next (ok result, s) next = if result.is_active then (ok true, s) else next s

unfoldable pub run_steps :
    Config → (batch_size : ℕ) → Session → (times : List ℕ) → Result Bool × Session
run_steps config n s [] = (ok false, s)
run_steps config n s (t ∷ times) =
    or_next (run_step config n s (utc t)) (λ after. run_steps config n after times)

abbrev pub Ascending : ℕ → List ℕ → Type 0
Ascending from [] = Unit
Ascending from (t ∷ times) = (from ≤ t) × Ascending t times

pub record IsActive (version : String) (s after : Session) (c : Option (ℕ × ℕ)) : Type 0 where
  pub seeded : IsSeeded version after
  pub bookmarks_same : after.bookmarks ≡ s.bookmarks
  pub row : StateRow
  pub state_is : after.state ≡ some row
  pub active_now : row.status ≡ active
  pub covered : All (λ r. Covered after r.0.0 r.0.1) (remaining s c)
  pub keeps : (u w : ℕ) → Covered s u w → Covered after u w

-- The step that is the last one.
last_step :
    (version : String) (n : ℕ) (s : Session) (c : Option (ℕ × ℕ)) (t : ℕ)
    (result : ProjectionBaselineResult) (after : Session)
    → IsStep version n s c t result after
    → result.is_active ≡ true
    → length (remaining s c) ≤ n
    → IsActive version s after c
last_step version n s c t result after step e few = record {
  seeded = step.seeded;
  bookmarks_same = step.bookmarks_same;
  row = activated_at t (running_row version step.checkpoint step.from step.updated);
  state_is =
      step.state_left
      ∙ ap (λ b. state_after b t (running_row version step.checkpoint step.from step.updated)) e;
  active_now = refl;
  covered = rw (take_all n (remaining s c) few) at step.covered;
  keeps = step.keeps;
}

page_nonempty : (m : ℕ) (l : Groups) → suc m < length l → take (suc m) l ≡ [] → ⊥
page_nonempty m [] h e = absurd (omega arith)
page_nonempty m (r ∷ l) h e = cc

reached :
    (m : ℕ) (s after : Session) (c c' : Option (ℕ × ℕ))
    → after.bookmarks ≡ s.bookmarks
    → suc m < length (remaining s c)
    → Reaches c (take (suc m) (remaining s c)) c'
    → remaining after c' ≡ drop (suc m) (remaining s c)
reached m s after c c' same more (inl (empty, e)) =
    absurd (page_nonempty m (remaining s c) more empty)
reached m s after c c' same more (inr (r, last, e)) =
    rw e (rw same (groups-after s.bookmarks.bookmarks (candidate_at c) m r last))

-- A page that is not the last one leaves the candidates behind it.
remaining-after :
    (version : String) (m : ℕ) (s : Session) (c : Option (ℕ × ℕ)) (t : ℕ)
    (result : ProjectionBaselineResult) (after : Session)
    (step : IsStep version (suc m) s c t result after)
    → suc m < length (remaining s c)
    → remaining after step.checkpoint ≡ drop (suc m) (remaining s c)
remaining-after version m s c t result after step more =
    reached m s after c step.checkpoint step.bookmarks_same more step.reaches

all_kept :
    (before after : Session) (rows : Groups)
    → ((u w : ℕ) → Covered before u w → Covered after u w)
    → All (λ r. Covered before r.0.0 r.0.1) rows
    → All (λ r. Covered after r.0.0 r.0.1) rows
all_kept before after [] h c = tt
all_kept before after (r ∷ rows) h c = (h r.0.0 r.0.1 c.0, all_kept before after rows h c.1)

can_later :
    (version : String) (bound t : ℕ) (s : Session) (c : Option (ℕ × ℕ))
    → bound ≤ t
    → CanRun version bound s c
    → CanRun version t s c
can_later version bound t s c h (absent e state) = absent e state
can_later version bound t s c h (resumed from u l there state) =
    resumed from u (omega arith) there state

enough_left : (n k l : ℕ) → l ≤ n * suc k → n < l → (1 ≤ k) × (l - n ≤ n * k)
enough_left n zero l h more = absurd (grind arith)
enough_left n (suc k) l h more = (omega arith, grind arith)

module _ (config : Config) (version : String) (first m : ℕ) (k : IsCalculator config version)
    (small : suc m ≤ 100) where
  abbrev Outcome : Session → Option (ℕ × ℕ) → List ℕ → Type 0
  Outcome s c times =
      (after : Session) × (run_steps config (suc m) s times ≡ (ok true, after))
      × IsActive version s after c

  -- After a page that is not the last one, by what the rest of the run does.
  next_step :
      (s : Session) (c : Option (ℕ × ℕ)) (t : ℕ) (times : List ℕ)
      (result : ProjectionBaselineResult) (middle : Session)
      → run_step config (suc m) s (utc t) ≡ (ok result, middle)
      → (step : IsStep version (suc m) s c t result middle) → result.is_active ≡ false
      → suc m < length (remaining s c)
      → Outcome middle step.checkpoint times
      → Outcome s c (t ∷ times)
  unfolding run_steps
  next_step s c t times result middle ran step e more (after, rest, is) =
      let behind = remaining-after version m s c t result middle step more in
      (
        after,
        rw (ran, run_steps) (rw e rest),
        record {
          seeded = is.seeded;
          bookmarks_same = is.bookmarks_same ∙ step.bookmarks_same;
          row = is.row;
          state_is = is.state_is;
          active_now = is.active_now;
          covered = rw (← take-append-drop (suc m) (remaining s c)) (
              All-append (λ r. Covered after r.0.0 r.0.1) (take (suc m) (remaining s c))
                (drop (suc m) (remaining s c))
                (all_kept middle after (take (suc m) (remaining s c)) is.keeps step.covered)
                (rw behind at is.covered));
          keeps = λ u w h. is.keeps u w (step.keeps u w h);
        },
      )

  pub run_steps-active :
      (times : List ℕ) (bound : ℕ) (s : Session) (c : Option (ℕ × ℕ))
      → IsSeeded version s
      → All (IsDated first) s.bookmarks.bookmarks
      → CanRun version bound s c
      → first ≤ bound
      → Ascending bound times
      → 1 ≤ length times
      → length (remaining s c) ≤ suc m * length times
      → Outcome s c times
  unfolding run_steps
  run_steps-active [] bound s c seeded dated can f up some_time enough = absurd (omega arith)
  run_steps-active (t ∷ times) bound s c seeded dated can f up some_time enough =
      let (result, middle, ran, step) =
        IsStep-ok config version first (suc m) t k small (omega arith) s c seeded dated
          (can_later version bound t s c up.0 can) in
      elim (Bool-cases (ltb (suc m) (length (remaining s c)))) [
        | inl e ↦
            let more : suc m < length (remaining s c) = ground arith in
            let (again, left) =
              enough_left (suc m) (length times) (length (remaining s c)) enough more in
            let inactive : result.is_active ≡ false = step.done ∙ ap not e in
            let behind = remaining-after version m s c t result middle step more in
            next_step s c t times result middle ran step inactive more (
              run_steps-active times t middle step.checkpoint step.seeded
                (rw step.bookmarks_same dated)
                (resumed step.from step.updated step.from_before step.valid_there (
                  step.state_left
                  ∙ ap
                      (λ b.
                        state_after b t
                          (running_row version step.checkpoint step.from step.updated))
                      inactive))
                (omega (arith, up.0)) up.1 again
                (rw behind (omega (arith, left, length-drop (suc m) (remaining s c)))))
        | inr e ↦ (
          middle,
          rw (ran, run_steps) (rw step.done (rw e refl)),
          last_step version (suc m) s c t result middle step (step.done ∙ ap not e) (ground arith),
        )
      ]
