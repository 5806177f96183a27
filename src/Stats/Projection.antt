-- ===== src/Stats/Projection.antt =====
-- app/bookmarks/stats/projection_repository.py: the rows of the weekly projections and what the
-- repository checks of them when it writes and when it reads. A stored time is the instant that it
-- encodes and a payload the text that its bytes encode, so that decoding cannot fail; types of
-- arguments and negative numbers, which the guards also refuse, have no counterpart.
pub mod Texts
pub mod Points
pub mod Working
pub mod Lifecycle
pub mod Readiness
pub mod Candidates
use backend_exercise.Prelude.{
  ℕ, ◌&&◌, ◌||◌, ◌≡◌, not, Bool, true, false, Option, none, some, Result, ok, raise, value_error,
  transition_error, candidate_error, eqb, leb, ltb, require, if◌then◌else◌, ◌>>=◌, ◌>>◌, string_eq,
  ◌==◌,
}
use Prim.Native.String.{String, [], ◌∷◌, count}
use Prim.Native.Char.{Char, code}
use backend_exercise.Clock.{utc}
use backend_exercise.Weekly.{WeeklyWindow, from_bounds, from_datetime}
use backend_exercise.Stats.Dirty.{positive}

pub data CorrectionReason : Type 0 where
  late_recalculation calculation_upgrade : CorrectionReason

pub data ProjectionStateStatus : Type 0 where
  pending running active failed : ProjectionStateStatus

pub record WorkingProjectionRecord : Type 0 where
  pub user_id : ℕ
  pub window : WeeklyWindow
  pub payload : String
  pub calculated_at : ℕ
  pub source_generation : ℕ
  pub calculation_version : String
  pub content_hash : String

pub record NewProjectionPoint : Type 0 where
  pub user_id : ℕ
  pub window : WeeklyWindow
  pub revision : ℕ
  pub supersedes_id : Option ℕ
  pub payload : String
  pub calculated_at : ℕ
  pub developed_at : ℕ
  pub correction_reason : Option CorrectionReason
  pub source_generation : ℕ
  pub calculation_version : String
  pub content_hash : String

pub record ProjectionPointRecord : Type 0 where
  pub point : NewProjectionPoint
  pub open point use *
  pub id : ℕ

pub record SurvivingWindowCandidate : Type 0 where
  pub user_id : ℕ
  pub window : WeeklyWindow

pub record ProjectionStateRecord : Type 0 where
  pub status : ProjectionStateStatus
  pub calculation_version : String
  pub checkpoint_user_id : Option ℕ
  pub checkpoint_window : Option WeeklyWindow
  pub baseline_started_at : Option ℕ
  pub baseline_completed_at : Option ℕ
  pub updated_at : ℕ
  pub last_projection_success_at : Option ℕ
  pub failure_code : Option String

-- `character in "…"`, and `any(character not in "…" for character in value)` negated
unfoldable pub is_in : String → Char → Bool
is_in [] c = false
is_in (d ∷ s) c = eqb (code d) (code c) || is_in s c

unfoldable pub all_in : String → String → Bool
unfolding is_in
all_in alphabet [] = true
all_in alphabet (c ∷ s) = is_in alphabet c && all_in alphabet s

-- Python's white space, which `strip` removes.
abbrev is_space : ℕ → Bool
is_space c =
    (leb 0x9 c && leb c 0xd)
    || (leb 0x1c c && leb c 0x20)
    || eqb c 0x85
    || eqb c 0xa0
    || eqb c 0x1680
    || (leb 0x2000 c && leb c 0x200a)
    || eqb c 0x2028
    || eqb c 0x2029
    || eqb c 0x202f
    || eqb c 0x205f
    || eqb c 0x3000

-- `not value.strip()`
unfoldable pub is_blank : String → Bool
is_blank [] = true
is_blank (c ∷ s) = is_space (code c) && is_blank s

-- `_hash`
unfoldable pub valid_hash : String → Result (Unit {0})
unfolding all_in
valid_hash value = require (eqb (count value) 64 && all_in "0123456789abcdef" value) value_error

-- `_version`
unfoldable pub valid_version : String → Result (Unit {0})
unfolding is_blank
valid_version value = require (not (is_blank value) && leb (count value) 128) value_error

-- `_payload`
abbrev pub valid_payload : String → Result (Unit {0})
valid_payload value = require (not (eqb (count value) 0)) value_error

-- `_failure_code`
unfoldable pub valid_failure_code : String → Result (Unit {0})
unfolding all_in
valid_failure_code value =
    require
      (not (eqb (count value) 0)
        && leb (count value) 64
        && all_in "abcdefghijklmnopqrstuvwxyz0123456789_" value)
      value_error

-- `WeeklyWindow.from_bounds(window.start, window.end)` for its check
unfoldable pub canonical : WeeklyWindow → Result (Unit {0})
unfolding from_bounds
canonical window = do window' ← from_bounds (utc window.start) (utc window.end); ok tt

unfoldable pub validate_working : WorkingProjectionRecord → Result (Unit {0})
validate_working r = do
  positive r.user_id
  canonical r.window
  valid_payload r.payload
  valid_version r.calculation_version
  valid_hash r.content_hash

abbrev positive_if_some : Option ℕ → Result (Unit {0})
positive_if_some none = ok tt
positive_if_some (some n) = positive n

abbrev pub has {ℓ} : {A : Type ℓ} → Option A → Bool
has none = false
has (some a) = true

-- The last part of `_validate_point`: revision 1 is a root, any other a correction.
abbrev pub root_or_correction :
    (revision : ℕ) (supersedes_id : Option ℕ) → Option CorrectionReason → Result (Unit {0})
root_or_correction revision supersedes_id reason =
    if eqb revision 1
    then require (not (has supersedes_id || has reason)) value_error
    else require (has supersedes_id && has reason) value_error

unfoldable pub validate_point : NewProjectionPoint → Result (Unit {0})
validate_point p = do
  positive p.user_id
  canonical p.window
  positive p.revision
  positive_if_some p.supersedes_id
  valid_payload p.payload
  require (not (ltb p.developed_at p.calculated_at)) value_error
  valid_version p.calculation_version
  valid_hash p.content_hash
  root_or_correction p.revision p.supersedes_id p.correction_reason

-- `_validate_candidate`
unfoldable pub validate_candidate : SurvivingWindowCandidate → Result (Unit {0})
validate_candidate c = do positive c.user_id; canonical c.window

-- `_working`: a row that is read
unfoldable pub read_working : WorkingProjectionRecord → Result WorkingProjectionRecord
unfolding validate_working
read_working r = do canonical r.window; valid_payload r.payload; validate_working r; ok r

-- `_point`
unfoldable pub read_point : ProjectionPointRecord → Result ProjectionPointRecord
unfolding validate_point
read_point r = do
  canonical r.window
  valid_payload r.payload
  positive r.id
  validate_point r.point
  ok r
