-- ===== src/Stats/Projection/Candidates.antt =====
-- `surviving_candidates_after` of `WeeklyProjectionRepository`: the weeks in which a user has
-- bookmarks, in pages after a checkpoint.
pub mod Pages
use backend_exercise.Prelude.{
  ℕ, ◌&&◌, ◌||◌, min, Bool, true, false, Option, none, some, List, [], ◌∷◌, Result, ok, raise,
  value_error, candidate_error, eqb, leb, ltb, take, keep, require, if◌then◌else◌, pair_eq, nat_eq,
  ◌>>=◌, ◌>>◌,
}
use backend_exercise.Clock.{utc}
use backend_exercise.Dict
use backend_exercise.Dict.{Dict}
use backend_exercise.Sorting.{order_by}
use backend_exercise.Weekly.{WeeklyWindow, monday, from_datetime}
use backend_exercise.Bookmarks.Models.{Bookmark}
use backend_exercise.Stats.Projection.{SurvivingWindowCandidate, canonical, validate_candidate}

-- The week's start and `min(b.created_at)`.
abbrev pub earliest : Option ℕ → ℕ → ℕ
earliest none created_at = created_at
earliest (some first) created_at = min first created_at

abbrev pub week_key : Bookmark → ℕ × ℕ
week_key b = (b.user_id, monday b.created_at)

-- GROUP BY b.user_id, window_start
unfoldable pub group_weeks : List Bookmark → Dict (ℕ × ℕ) ℕ
group_weeks [] = []
group_weeks (b ∷ bookmarks) =
    let rest = group_weeks bookmarks in
    Dict.put (week_key b) (earliest (Dict.get (week_key b) rest) b.created_at) rest

-- WHERE: after the checkpoint, if there is one
abbrev pub is_after : Option SurvivingWindowCandidate → (ℕ × ℕ) × ℕ → Bool
is_after none ((u, w), created_at) = true
is_after (some c) ((u, w), created_at) =
    ltb c.user_id u || (eqb u c.user_id && ltb c.window.start w)

-- ORDER BY user_id ASC, window_start ASC
abbrev pub key_order : (ℕ × ℕ) × ℕ → (ℕ × ℕ) × ℕ → Bool
key_order ((u, w), s) ((v, x), t) = ltb u v || (eqb u v && leb w x)

-- `_candidate`
unfoldable pub read_group : (ℕ × ℕ) × ℕ → Result SurvivingWindowCandidate
unfolding from_datetime validate_candidate
read_group ((user_id, start), representative) = do
  window ← from_datetime (utc representative)
  require (eqb window.start start) candidate_error
  let candidate : SurvivingWindowCandidate = record { user_id = user_id; window = window }
  validate_candidate candidate
  ok candidate

abbrev pub consed_candidate :
    Result SurvivingWindowCandidate
    → Result (List SurvivingWindowCandidate)
    → Result (List SurvivingWindowCandidate)
consed_candidate first rest = do c ← first; cs ← rest; ok (c ∷ cs)

unfoldable pub read_groups : List ((ℕ × ℕ) × ℕ) → Result (List SurvivingWindowCandidate)
unfolding read_group
read_groups [] = ok []
read_groups (row ∷ rows) = consed_candidate (read_group row) (read_groups rows)

abbrev pub valid_checkpoint : Option SurvivingWindowCandidate → Result (Unit {0})
valid_checkpoint none = ok tt
valid_checkpoint (some c) = validate_candidate c

unfoldable pub surviving_candidates_after :
    List Bookmark
    → Option SurvivingWindowCandidate
    → (limit : ℕ) → Result (List SurvivingWindowCandidate)
unfolding read_groups order_by group_weeks
surviving_candidates_after bookmarks checkpoint limit = do
  require (leb 1 limit && leb limit 101) value_error
  valid_checkpoint checkpoint
  read_groups (take limit (order_by key_order (keep (is_after checkpoint) (group_weeks bookmarks))))
