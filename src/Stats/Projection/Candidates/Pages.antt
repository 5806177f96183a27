-- ===== src/Stats/Projection/Candidates/Pages.antt =====
-- The candidates after a checkpoint, of bookmarks whose weeks lie within the calendar.
use backend_exercise.Prelude.{
  ℕ, suc, ◌+◌, ◌≤◌, ◌<◌, ◌≡◌, ◌∙◌, refl, sym, min, Bool, true, false, Option, none, some, List, [],
  ◌∷◌, map, ok, arith, take, drop, keep, All, pair_eq, nat_eq, ◌==◌, Bool-cases, inl, inr,
}
use backend_exercise.Clock.{utc, end_of_time, normalize_utc-utc}
use backend_exercise.Dict
use backend_exercise.Dict.{Dict, Distinct}
use backend_exercise.Sorting.{
  Sorted, IsOrder, order_by, insert_by, All-insert_by, All-order_by, All-keep,
}
use backend_exercise.Sorting.Keyset.{IsStrict, last_of, last-All, keep-after_last}
use backend_exercise.Sorting.Slices.{keep-keep, All-test, Sorted-keep}
use backend_exercise.Weekly.{WeeklyWindow, week, monday, from_datetime, from_bounds}
use backend_exercise.Weekly.Windows.{IsWeek, from_datetime_iff, from_bounds_iff}
use backend_exercise.Bookmarks.Models.{Bookmark}
use backend_exercise.Stats.Projection.{SurvivingWindowCandidate, canonical, validate_candidate}
use backend_exercise.Stats.Projection.Points.History.{positive-tt}
use backend_exercise.Stats.Projection.Candidates.{
  earliest, week_key, group_weeks, is_after, key_order, read_group, read_groups,
}

-- A bookmark whose week a timestamp can hold and has begun.
pub record IsDated (now : ℕ) (b : Bookmark) : Type 0 where
  pub user_positive : 1 ≤ b.user_id
  pub in_calendar : monday b.created_at + week < end_of_time
  pub begun : monday b.created_at ≤ now

pub record IsGroup (now : ℕ) (row : (ℕ × ℕ) × ℕ) : Type 0 where
  pub user_positive : 1 ≤ row.0.0
  pub week_of : monday row.1 ≡ row.0.1
  pub in_calendar : row.0.1 + week < end_of_time
  pub begun : row.0.1 ≤ now

monday-min : (s t : ℕ) → monday s ≡ monday t → monday (min s t) ≡ monday t
monday-min s t h = omega arith

earliest-week :
    (o : Option ℕ) (t : ℕ)
    → ((s : ℕ) → o ≡ some s → monday s ≡ monday t)
    → monday (earliest o t) ≡ monday t
earliest-week none t h = refl
earliest-week (some s) t h = monday-min s t (h s refl)

group_weeks-IsGroup :
    (now : ℕ) (l : List Bookmark) → All (IsDated now) l → All (IsGroup now) (group_weeks l)
unfolding group_weeks
group_weeks-IsGroup now [] h = tt
group_weeks-IsGroup now (b ∷ l) h =
    let rest = group_weeks-IsGroup now l h.1 in
    let first : ℕ = earliest (Dict.get (week_key b) (group_weeks l)) b.created_at in
    Dict.All-put_entry (IsGroup now) (week_key b) first (group_weeks l)
      (record {
        user_positive = h.0.user_positive;
        week_of = earliest-week (Dict.get (week_key b) (group_weeks l)) b.created_at (λ s e.
            (Dict.All-get_entry (IsGroup now) (week_key b) s (group_weeks l) rest e).week_of);
        in_calendar = h.0.in_calendar;
        begun = h.0.begun;
      })
      rest

group_weeks-Distinct : (l : List Bookmark) → Distinct (group_weeks l)
unfolding group_weeks
group_weeks-Distinct [] = tt
group_weeks-Distinct (b ∷ l) =
    Dict.put-Distinct (week_key b) (earliest (Dict.get (week_key b) (group_weeks l)) b.created_at)
      (group_weeks l) (group_weeks-Distinct l)

abbrev pub window_at : ℕ → WeeklyWindow
window_at start = record { start = start; end = start + week }

abbrev pub candidate_of : (ℕ × ℕ) × ℕ → SurvivingWindowCandidate
candidate_of ((u, w), t) = record { user_id = u; window = window_at w }

pub canonical-week : (w : WeeklyWindow) → IsWeek w → canonical w ≡ ok tt
unfolding canonical
canonical-week w h =
    let e : from_bounds (utc w.start) (utc w.end) ≡ ok w =
      (from_bounds_iff (utc w.start) (utc w.end) w.start w.end w (normalize_utc-utc w.start)
          (normalize_utc-utc w.end)).1
        (h, refl, refl) in
    rw e refl

pub group-IsWeek : (now : ℕ) (row : (ℕ × ℕ) × ℕ) → IsGroup now row → IsWeek (window_at row.0.1)
group-IsWeek now row h = record {
  on_monday = omega (arith, h.week_of);
  seven_days = refl;
  in_calendar = h.in_calendar;
}

read_group-ok :
    (now : ℕ) (row : (ℕ × ℕ) × ℕ) → IsGroup now row → read_group row ≡ ok (candidate_of row)
unfolding read_group validate_candidate
read_group-ok now ((u, w), t) h =
    let is_week = group-IsWeek now ((u, w), t) h in
    let e : from_datetime (utc t) ≡ ok (window_at w) =
      (from_datetime_iff (utc t) t (window_at w) (normalize_utc-utc t)).1
        (is_week, (omega (arith, h.week_of), omega (arith, h.week_of))) in
    rw (e, read_group)
      (ground (arith, positive-tt u h.user_positive, canonical-week (window_at w) is_week))

pub read_groups-ok :
    (now : ℕ) (rows : List ((ℕ × ℕ) × ℕ))
    → All (IsGroup now) rows
    → read_groups rows ≡ ok (map candidate_of rows)
unfolding read_groups
read_groups-ok now [] h = refl
read_groups-ok now (row ∷ rows) h = rw (read_group-ok now row h.0, read_groups-ok now rows h.1) refl

pub key_order-IsOrder : IsOrder key_order
key_order-IsOrder = record { total = λ a b h. ground arith; trans = λ a b c h k. ground arith }

-- A row of a later key.
abbrev pub earlier_key : (ℕ × ℕ) × ℕ → (ℕ × ℕ) × ℕ → Bool
earlier_key row next = is_after (some (candidate_of row)) next

pub earlier_key-IsStrict : IsStrict earlier_key
earlier_key-IsStrict = record { irrefl = λ a. ground arith; asym = λ a b h. ground arith }

earlier_key-All :
    (a b : (ℕ × ℕ) × ℕ) (l : List ((ℕ × ℕ) × ℕ))
    → earlier_key a b ≡ true
    → All (λ c. earlier_key b c ≡ true) l
    → All (λ c. earlier_key a c ≡ true) l
earlier_key-All a b [] h r = tt
earlier_key-All a b (c ∷ l) h r = (ground arith, earlier_key-All a b l h r.1)

abbrev Apart : (ℕ × ℕ) × ℕ → (ℕ × ℕ) × ℕ → Type 0
Apart a b = (b.0 == a.0) ≡ false

insert-strict :
    (a : (ℕ × ℕ) × ℕ) (l : List ((ℕ × ℕ) × ℕ))
    → All (Apart a) l
    → Sorted earlier_key l
    → Sorted earlier_key (insert_by key_order a l)
unfolding insert_by
insert-strict a [] d s = (tt, tt)
insert-strict a (b ∷ l) d s = elim (Bool-cases (key_order a b)) [
  | inl h ↦
      let first : earlier_key a b ≡ true = ground arith in
      rw h ((first, earlier_key-All a b l first s.0), s)
  | inr h ↦
      let first : earlier_key b a ≡ true = ground arith in
      rw h (
        All-insert_by (λ c. earlier_key b c ≡ true) key_order a l first s.0,
        insert-strict a l d.1 s.1,
      )
]

absent-Apart : (k : ℕ × ℕ) (v : ℕ) (l : Dict (ℕ × ℕ) ℕ) → Dict.get k l ≡ none → All (Apart (k, v)) l
unfolding Dict.get
absent-Apart k v [] h = tt
absent-Apart k v ((j, w) ∷ l) h = elim (Bool-cases (j == k)) [
  | inl e ↦ absurd (ground arith)
  | inr e ↦ (e, absent-Apart k v l (ground arith))
]

ordered-Sorted : (l : Dict (ℕ × ℕ) ℕ) → Distinct l → Sorted earlier_key (order_by key_order l)
unfolding order_by
ordered-Sorted [] d = tt
ordered-Sorted ((k, v) ∷ l) d =
    insert-strict (k, v) (order_by key_order l)
      (All-order_by (Apart (k, v)) key_order l (absent-Apart k v l d.0)) (ordered-Sorted l d.1)

-- The groups after a checkpoint, in order.
abbrev pub groups : List Bookmark → Option SurvivingWindowCandidate → List ((ℕ × ℕ) × ℕ)
groups bookmarks checkpoint =
    keep (is_after checkpoint) (order_by key_order (group_weeks bookmarks))

pub groups-IsGroup :
    (now : ℕ) (l : List Bookmark) (checkpoint : Option SurvivingWindowCandidate)
    → All (IsDated now) l
    → All (IsGroup now) (groups l checkpoint)
groups-IsGroup now l checkpoint h =
    All-keep (IsGroup now) (is_after checkpoint) (order_by key_order (group_weeks l))
      (All-order_by (IsGroup now) key_order (group_weeks l) (group_weeks-IsGroup now l h))

pub groups-Sorted :
    (l : List Bookmark) (checkpoint : Option SurvivingWindowCandidate)
    → Sorted earlier_key (groups l checkpoint)
groups-Sorted l checkpoint =
    Sorted-keep earlier_key (is_after checkpoint) (order_by key_order (group_weeks l))
      (ordered-Sorted (group_weeks l) (group_weeks-Distinct l))

is_after-later :
    (checkpoint : Option SurvivingWindowCandidate) (r a : (ℕ × ℕ) × ℕ)
    → is_after checkpoint r ≡ true
    → earlier_key r a ≡ true
    → is_after checkpoint a ≡ true
is_after-later none r a h k = refl
is_after-later (some c) r a h k = ground arith

-- After the last candidate of a page come exactly the groups that the page left.
pub groups-after :
    (l : List Bookmark) (checkpoint : Option SurvivingWindowCandidate) (n : ℕ) (r : (ℕ × ℕ) × ℕ)
    → last_of (take (suc n) (groups l checkpoint)) ≡ some r
    → groups l (some (candidate_of r)) ≡ drop (suc n) (groups l checkpoint)
groups-after l checkpoint n r h =
    let inside : is_after checkpoint r ≡ true =
      last-All (λ b. is_after checkpoint b ≡ true) (suc n) (groups l checkpoint) r
        (All-test (is_after checkpoint) (order_by key_order (group_weeks l))) h in
    sym (
      keep-keep (earlier_key r) (is_after checkpoint) (order_by key_order (group_weeks l))
        (λ a q. is_after-later checkpoint r a inside q))
    ∙ keep-after_last earlier_key earlier_key-IsStrict n (groups l checkpoint) r
        (groups-Sorted l checkpoint) h
