-- ===== src/Stats/Processor/Process/Applied.antt =====
-- What a projection of one week writes, and what it leaves alone.
use backend_exercise.Prelude.{
  ℕ, ◌+◌, ◌≤◌, ◌<◌, ◌≡◌, ◌⊎◌, ◌∙◌, refl, sym, ap, subst, Bool, true, false, Option, none, some,
  String, ok, arith, eqb, require, projection_state_error, pair_eq, nat_eq, ◌==◌, ◌>>=◌, >>=-eq-ok,
  >>-eq-ok, ok-inj, Bool-cases, inl, inr, if◌then◌else◌,
}
use backend_exercise.Clock.{utc, normalize_utc-utc}
use backend_exercise.Dict
use backend_exercise.Weekly.{WeeklyWindow, week, from_datetime}
use backend_exercise.Weekly.Windows.{from_datetime_iff}
use backend_exercise.Stats.Dirty.{Table, positive}
use backend_exercise.Stats.Projection.Lifecycle.{StateRow}
use backend_exercise.Stats.Queries.{is_member}
use backend_exercise.Stats.Calculation.{WeeklyCalculation}
use backend_exercise.Stats.Projection.{WorkingProjectionRecord}
use backend_exercise.Stats.Projection.Points.History.{IsHistory}
use backend_exercise.Stats.Projection.Working.{
  WorkingTable, key_of, get_working, replace_working, delete_working,
}
use backend_exercise.Stats.Projection.Working.Rows.{
  IsKeyed, replace_working-put, replace_working-IsKeyed, delete_working-deleted,
}
use backend_exercise.Stats.Processor.{Session, Config, reader_version, calculation}
use backend_exercise.Stats.Processor.Developed.{IsDeveloped}
use backend_exercise.Stats.Processor.Process.{
  working_of, same_version, ensured_current, ensure_current_working, deleted_row, remove_working,
  Projected,
}

-- Only the developing rows may differ, and of those only one of the user's whose week goes on.
pub record Kept (before : Session) (user_id now : ℕ) (after : Session) : Type 0 where
  pub only_working : after ≡ record before { working = after.working }
  pub keyed : IsKeyed after.working
  pub start : ℕ
  pub recent : now < start + week
  pub rows_same :
      (j : ℕ × ℕ)
      → ((user_id, start) == j) ≡ false
      → Dict.get j after.working ≡ Dict.get j before.working

Kept-same : (s : Session) (u now : ℕ) → IsKeyed s.working → Kept s u now s
Kept-same s u now k = record {
  only_working = refl;
  keyed = k;
  start = now;
  recent = omega arith;
  rows_same = λ j n. refl;
}

-- The window of the current time ends later.
from_datetime-recent :
    (now : ℕ) (w : WeeklyWindow) → from_datetime (utc now) ≡ ok w → now < w.start + week
from_datetime-recent now w h =
    let (is_week, contains) = (from_datetime_iff (utc now) now w (normalize_utc-utc now)).0 h in
    omega (arith, is_week.seven_days, contains.1)

pub Kept-put :
    (s : Session) (u now : ℕ) (w : WeeklyWindow) (r : WorkingProjectionRecord)
    (working : WorkingTable)
    → IsKeyed s.working
    → key_of r ≡ (u, w.start)
    → now < w.start + week
    → replace_working s.working r ≡ ok working
    → Kept s u now (record s { working = working })
Kept-put s u now w r working k key recent h = record {
  only_working = refl;
  keyed = replace_working-IsKeyed s.working r working k h;
  start = w.start;
  recent = recent;
  rows_same = λ j n.
      rw (replace_working-put s.working r working h).1
        (rw key (rw (Dict.get-put (u, w.start) j r s.working) (rw n refl)));
}

ensured_current-Kept :
    (config : Config) (s : Session) (u : ℕ) (w : WeeklyWindow) (version : String) (now : ℕ)
    (o : Option WorkingProjectionRecord) (made : Bool) (after : Session)
    → IsKeyed s.working
    → now < w.start + week
    → ensured_current config s u w version now o ≡ ok (made, after)
    → Kept s u now after
ensured_current-Kept config s u w version now (some row) made after k recent h =
    let e = ok-inj (false, s) (made, after) (>>-eq-ok (same_version (some row) version) _ h) in
    subst (λ (x : Bool × Session). Kept s u now x.1) e (Kept-same s u now k)
ensured_current-Kept config s u w version now none made after k recent h =
    let written = λ (t : WorkingTable). ok (true, record s { working = t }) in
    let (c, _, h1) =
      >>=-eq-ok (calculation config s.bookmarks u w)
        (λ c. replace_working s.working (working_of u w c 0 now) >>= written) h in
    let (t, e, h2) = >>=-eq-ok (replace_working s.working (working_of u w c 0 now)) written h1 in
    subst (λ (x : Bool × Session). Kept s u now x.1) (ok-inj _ _ h2)
      (Kept-put s u now w (working_of u w c 0 now) t k refl recent e)

pub ensure_current_working-Kept :
    (config : Config) (s : Session) (u now : ℕ) (made : Bool) (after : Session)
    → IsKeyed s.working
    → ensure_current_working config s u now ≡ ok (made, after)
    → Kept s u now after
unfolding ensure_current_working
ensure_current_working-Kept config s u now made after k h =
    elim (Bool-cases (is_member u s.users)) [
      | inl e ↦
          let read = λ (w : WeeklyWindow). λ (row : Option WorkingProjectionRecord).
            (reader_version config >>= λ version. ensured_current config s u w version now row) in
          let (w, f, h1) =
            >>=-eq-ok (from_datetime (utc now)) (λ w. get_working s.working u w >>= read w)
              (rw e at (>>-eq-ok (positive u) _ h)) in
          let (row, _, h2) = >>=-eq-ok (get_working s.working u w) (read w) h1 in
          let (version, _, h3) =
            >>=-eq-ok (reader_version config)
              (λ version. ensured_current config s u w version now row) h2 in
          ensured_current-Kept config s u w version now row made after k
            (from_datetime-recent now w f) h3
      | inr e ↦
          let same = ok-inj (false, s) (made, after) (rw e at (>>-eq-ok (positive u) _ h)) in
          subst (λ (x : Bool × Session). Kept s u now x.1) same (Kept-same s u now k)
    ]

-- A week that has ended: its developed history is up to date and its developing row is gone.
pub record ClosedWeek (before : Session) (user_id : ℕ) (window : WeeklyWindow)
    (c : WeeklyCalculation) (p : Projected) : Type 0 where
  pub developed : IsDeveloped before.points user_id window c p.appended_revision p.session.points
  pub removed : Dict.get (user_id, window.start) p.session.working ≡ none
  pub other_users :
      (v x : ℕ)
      → eqb user_id v ≡ false
      → Dict.get (v, x) p.session.working ≡ Dict.get (v, x) before.working

-- The current week: its developing row is the calculation, and no history is written.
pub record CurrentWeek (before : Session) (user_id : ℕ) (window : WeeklyWindow)
    (c : WeeklyCalculation) (generation now : ℕ) (p : Projected) : Type 0 where
  pub none_appended : p.appended_revision ≡ none
  pub points_same : p.session.points ≡ before.points
  pub written :
      (j : ℕ × ℕ)
      → Dict.get j p.session.working ≡ (
          if (user_id, window.start) == j
          then some (working_of user_id window c generation now)
          else Dict.get j before.working)

pub record IsProjected (before : Session) (user_id : ℕ) (window : WeeklyWindow)
    (c : WeeklyCalculation) (generation now : ℕ) (p : Projected) : Type 0 where
  pub only_projections :
      p.session ≡ record before { points = p.session.points; working = p.session.working }
  pub keyed : IsKeyed p.session.working
  pub history : IsHistory p.session.points
  pub week_done :
      ((window.end ≤ now) × ClosedWeek before user_id window c p)
      ⊎ ((now < window.end) × CurrentWeek before user_id window c generation now p)

-- The projection's part of a session: markers and state as they were.
abbrev pub projections : (before after : Session) → Session
projections before after = record after { dirty = before.dirty; state = before.state }

pub IsProjected-projections :
    (before : Session) (user_id : ℕ) (w : WeeklyWindow) (c : WeeklyCalculation) (generation now : ℕ)
    (p : Projected)
    → IsProjected before user_id w c generation now p
    → IsProjected before user_id w c generation now
        (record p { session = projections before p.session })
IsProjected-projections before u w c g now p is =
    subst
      (λ (x : Table).
        IsProjected before u w c g now
          (record p { session = record p.session { dirty = x; state = before.state } }))
      (ap (λ (x : Session). x.dirty) is.only_projections)
      (subst
        (λ (x : Option StateRow).
          IsProjected before u w c g now (record p { session = record p.session { state = x } }))
        (ap (λ (x : Session). x.state) is.only_projections) is)

get-absent :
    (t : WorkingTable) (k : ℕ × ℕ)
    → Dict.get k t ≡ none
    → (j : ℕ × ℕ) → Dict.get j t ≡ (if k == j then none else Dict.get j t)
get-absent t k f j = elim (Bool-cases (k == j)) [
  | inl e ↦ rw e (ap (λ x. Dict.get x t) (sym ((pair_eq.beq_iff k j).0 e)) ∙ f)
  | inr e ↦ rw e refl
]

deleted_found :
    (found : Bool) (table deleted t after : WorkingTable)
    → table ≡ (if found then deleted else t)
    → deleted_row (found, table) ≡ ok after
    → table ≡ deleted
deleted_found true table deleted t after e h = e
deleted_found false table deleted t after e h = cc

pub remove_working-removed :
    (t : WorkingTable) (u start : ℕ) (o : Option WorkingProjectionRecord) (after : WorkingTable)
    → IsKeyed t
    → Dict.get (u, start) t ≡ o
    → remove_working t o ≡ ok after
    → IsKeyed after
      × ((j : ℕ × ℕ) → Dict.get j after ≡ (if (u, start) == j then none else Dict.get j t))
remove_working-removed t u start none after k f h =
    let same : t ≡ after = ok-inj t after h in
    subst
      (λ (x : WorkingTable).
        IsKeyed x × ((j : ℕ × ℕ) → Dict.get j x ≡ (if (u, start) == j then none else Dict.get j t)))
      same (k, get-absent t (u, start) f)
remove_working-removed t u start (some row) after k f h =
    let ((found, table), d, h1) = >>=-eq-ok (delete_working t row) deleted_row h in
    let written : table ≡ Dict.delete (key_of row) t =
      deleted_found found table (Dict.delete (key_of row) t) t after
        (delete_working-deleted t row found table d) h1 in
    let same : table ≡ after =
      ok-inj table after (>>-eq-ok (require found projection_state_error) (ok table) h1) in
    let key : key_of row ≡ (u, start) =
      Dict.All-get_entry (λ e. key_of e.1 ≡ e.0) (u, start) row t k f in
    let deleted : after ≡ Dict.delete (u, start) t =
      sym same ∙ (written ∙ ap (λ x. Dict.delete x t) key) in
    rw deleted (
      Dict.All-delete_entry (λ e. key_of e.1 ≡ e.0) (u, start) t k,
      λ j. Dict.get-delete (u, start) j t,
    )
