-- ===== src/Stats/Baseline/Pages.antt =====
-- One step of the baseline, which cannot fail on a database of its own version.
use backend_exercise.Prelude.{
  ℕ, suc, ◌+◌, ◌≤◌, ◌≡◌, ◌⊎◌, refl, ◌&&◌, true, Option, none, some, List, [], ◌∷◌, map, String,
  Result, ok, arith, leb, All, take, length, inl, inr,
}
use backend_exercise.Sorting.{keep-order_by}
use backend_exercise.Sorting.Keyset.{last_of, last-All}
use backend_exercise.Sorting.Slices.{last_of-map, All-take, take_all}
use backend_exercise.Weekly.Windows.{IsWeek}
use backend_exercise.Bookmarks.Models.{Bookmark}
use backend_exercise.Stats.Projection.{SurvivingWindowCandidate, validate_candidate, valid_version}
use backend_exercise.Stats.Projection.Points.History.{positive-tt}
use backend_exercise.Stats.Projection.Candidates.{
  is_after, key_order, group_weeks, valid_checkpoint, surviving_candidates_after,
}
use backend_exercise.Stats.Projection.Candidates.Pages.{
  IsDated, IsGroup, candidate_of, canonical-week, group-IsWeek, window_at, groups, groups-IsGroup,
  read_groups-ok, key_order-IsOrder,
}
use backend_exercise.Stats.Projection.Lifecycle.{StateRow}
use backend_exercise.Stats.Projection.Lifecycle.Running.{
  IsCheckpoint, user_of, window_of, running_row, advance-running,
}
use backend_exercise.Stats.Baseline.{checkpoint_of, advanced_past}
use backend_exercise.Stats.Baseline.Steps.{Groups}

abbrev pub candidate_at : Option (ℕ × ℕ) → Option SurvivingWindowCandidate
candidate_at none = none
candidate_at (some (u, w)) = some (record { user_id = u; window = window_at w })

pub checkpoint_of-ok :
    (c : Option (ℕ × ℕ)) → checkpoint_of (user_of c) (window_of c) ≡ ok (candidate_at c)
checkpoint_of-ok none = refl
checkpoint_of-ok (some (u, w)) = refl

valid_checkpoint-ok :
    (c : Option (ℕ × ℕ)) → IsCheckpoint c → valid_checkpoint (candidate_at c) ≡ ok tt
unfolding validate_candidate
valid_checkpoint-ok none h = refl
valid_checkpoint-ok (some (u, w)) (pos, is_week) =
    rw (positive-tt u pos) (canonical-week (window_at w) is_week)

pub surviving-ok :
    (first n : ℕ) (bookmarks : List Bookmark) (c : Option (ℕ × ℕ))
    → n ≤ 100
    → All (IsDated first) bookmarks
    → IsCheckpoint c
    → surviving_candidates_after bookmarks (candidate_at c) (n + 1)
      ≡ ok (map candidate_of (take (n + 1) (groups bookmarks (candidate_at c))))
unfolding surviving_candidates_after
surviving-ok first n bookmarks c small dated h =
    let page : leb 1 (n + 1) && leb (n + 1) 101 ≡ true = ground arith in
    rw page (
      rw (valid_checkpoint-ok c h) (
        rw
          (← keep-order_by key_order key_order-IsOrder (is_after (candidate_at c))
            (group_weeks bookmarks))
          (read_groups-ok first (take (n + 1) (groups bookmarks (candidate_at c))) (
            All-take (IsGroup first) (n + 1) (groups bookmarks (candidate_at c))
              (groups-IsGroup first bookmarks (candidate_at c) dated)))))

-- The checkpoint that a page leaves.
abbrev pub Reaches : Option (ℕ × ℕ) → Groups → Option (ℕ × ℕ) → Type 0
Reaches c page c' =
    ((page ≡ []) × (c' ≡ c)) ⊎ ((r : (ℕ × ℕ) × ℕ) × (last_of page ≡ some r) × (c' ≡ some r.0))

last_exists : (r : (ℕ × ℕ) × ℕ) (page : Groups) → (q : (ℕ × ℕ) × ℕ) × (last_of (r ∷ page) ≡ some q)
last_exists r [] = (r, refl)
last_exists r (q ∷ page) = last_exists q page

take_self :
    (l : Groups) (r : (ℕ × ℕ) × ℕ) → last_of l ≡ some r → last_of (take (length l) l) ≡ some r
take_self l r h = rw (take_all (length l) l (omega arith)) h

pub record IsAdvanced (version : String) (c : Option (ℕ × ℕ)) (page : Groups) (from : ℕ)
    (row : Result (Option StateRow)) : Type 0 where
  pub checkpoint : Option (ℕ × ℕ)
  pub updated : ℕ
  pub left : row ≡ ok (some (running_row version checkpoint from updated))
  pub valid_there : IsCheckpoint checkpoint
  pub reaches : Reaches c page checkpoint

module _ (version : String) (valid : valid_version version ≡ ok tt) where
  pub IsAdvanced-ok :
      (first : ℕ) (c : Option (ℕ × ℕ)) (from u now : ℕ) (page : Groups)
      → IsCheckpoint c
      → All (IsGroup first) page
      → IsAdvanced version c page from (
          advanced_past (some (running_row version c from u)) (last_of (map candidate_of page)) now)
  IsAdvanced-ok first c from u now [] h g = record {
    checkpoint = c;
    updated = u;
    left = refl;
    valid_there = h;
    reaches = inl (refl, refl);
  }
  IsAdvanced-ok first c from u now (p ∷ page) h g =
      let (r, e) = last_exists p page in
      let q : IsGroup first r =
        last-All (IsGroup first) (suc (length page)) (p ∷ page) r g (take_self (p ∷ page) r e) in
      let is_week : IsWeek (window_at r.0.1) = group-IsWeek first r q in
      record {
        checkpoint = some r.0;
        updated = now;
        left = rw (last_of-map candidate_of (p ∷ page) r e) (
            rw (advance-running version valid c from u now r.0.0 r.0.1 q.user_positive is_week)
              refl);
        valid_there = (q.user_positive, is_week);
        reaches = inr (r, e, refl);
      }
