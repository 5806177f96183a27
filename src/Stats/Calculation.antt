-- ===== src/Stats/Calculation.antt =====
-- The calculation of app/bookmarks/stats/weekly.py: the payload of a week's statistics, its version
-- and its content hash, and the comparison of two of them. JSON, the digits of a number and SHA-256
-- are parameters.
use backend_exercise.Prelude.{
  ℕ, not, Result, ok, value_error, eqb, require, if◌then◌else◌, string_eq, ◌==◌, ◌>>=◌, ◌>>◌,
}
use Prim.Native.String.{String, [], ◌∷◌, ◌++◌, count}
use Prim.Native.Char.{nul}
use backend_exercise.Stats.Schemas.{BookmarkStats}
use backend_exercise.Stats.Queries.{valid_limit}

-- `canonical_json` is `json.dumps` of the schema version with the statistics; `hexdigest` is SHA-256
-- of the text's bytes.
pub record CalculationLibrary : Type 0 where
  pub digits : ℕ → String
  pub canonical_json : (schema_version : ℕ) → BookmarkStats → String
  pub hexdigest : String → String

pub record WeeklyCalculation : Type 0 where
  pub calculation_version : String
  pub payload : String
  pub content_hash : String

abbrev payload_schema_version : ℕ
payload_schema_version = 1

unfoldable pub calculation_version : CalculationLibrary → (top_tags_limit : ℕ) → Result String
calculation_version library limit = do
  valid_limit limit
  ok (
      "weekly-v1;payload-schema="
      ++ (library.digits payload_schema_version ++ (";top-tags-limit=" ++ library.digits limit)))

unfoldable pub canonical_payload_bytes : CalculationLibrary → BookmarkStats → String
canonical_payload_bytes library stats = library.canonical_json payload_schema_version stats

abbrev pub hash_domain : String
hash_domain = "bookmark-stats-window" ++ (nul ∷ [])

unfoldable pub content_hash : CalculationLibrary → (version payload : String) → Result String
content_hash library version payload = do
  require (not (eqb (count version) 0)) value_error
  require (not (eqb (count payload) 0)) value_error
  ok (library.hexdigest (hash_domain ++ (version ++ (nul ∷ payload))))

unfoldable pub calculate_weekly_payload :
    CalculationLibrary → BookmarkStats → (top_tags_limit : ℕ) → Result WeeklyCalculation
unfolding calculation_version canonical_payload_bytes content_hash
calculate_weekly_payload library stats limit = do
  version ← calculation_version library limit
  let payload = canonical_payload_bytes library stats
  hash ← content_hash library version payload
  ok (record { calculation_version = version; payload = payload; content_hash = hash })

pub data HashComparison : Type 0 where
  same changed version_mismatch : HashComparison

unfoldable pub compare_content_hashes :
    (stored_version stored_hash candidate_version candidate_hash : String) → HashComparison
compare_content_hashes stored_version stored_hash candidate_version candidate_hash =
    if stored_version == candidate_version
    then if stored_hash == candidate_hash then same else changed
    else version_mismatch
