-- ===== src/Stats/Baseline/Calculated.antt =====
-- When a calculation cannot fail.
use backend_exercise.Prelude.{ℕ, ◌≤◌, ◌≡◌, refl, ok, arith, keep, string_eq}
use Prim.Native.String.{String, ◌++◌, ◌∷◌}
use Prim.Native.Char.{nul}
use backend_exercise.Weekly.{WeeklyWindow}
use backend_exercise.Bookmarks.Models.{Database}
use backend_exercise.Stats.Schemas.{BookmarkStats}
use backend_exercise.Stats.Queries.{read_week, aggregate, in_window}
use backend_exercise.Stats.Calculation.{
  WeeklyCalculation, calculate_weekly_payload, content_hash, canonical_payload_bytes, hash_domain,
}
use backend_exercise.Stats.Projection.{canonical, valid_version, valid_hash, valid_payload}
use backend_exercise.Stats.Projection.Texts.{valid_version-nonempty}
use backend_exercise.Stats.Projection.Points.History.{positive-tt}
use backend_exercise.Stats.Processor.{Config, reader_version, calculation}

-- The version of the configuration is valid, SHA-256 is written in lower-case hexadecimal, and JSON
-- is not empty.
pub record IsCalculator (config : Config) (version : String) : Type 0 where
  pub version_of : reader_version config ≡ ok version
  pub version_valid : valid_version version ≡ ok tt
  pub hash_hex : (s : String) → valid_hash (config.library.hexdigest s) ≡ ok tt
  pub json_nonempty :
      (n : ℕ) (stats : BookmarkStats)
      → valid_payload (config.library.canonical_json n stats) ≡ ok tt

pub record IsCalculation (version : String) (c : WeeklyCalculation) : Type 0 where
  pub version_same : c.calculation_version ≡ version
  pub payload_valid : valid_payload c.payload ≡ ok tt
  pub hash_valid : valid_hash c.content_hash ≡ ok tt

read_week-ok :
    (config : Config) (db : Database) (u : ℕ) (w : WeeklyWindow)
    → 1 ≤ u
    → canonical w ≡ ok tt
    → (stats : BookmarkStats) × (read_week config.month_of config.top_tags_limit db u w ≡ ok stats)
unfolding read_week
read_week-ok config db u w pos can = (
  aggregate config.month_of config.top_tags_limit db (keep (in_window u w) db.bookmarks),
  rw (positive-tt u pos) (rw can refl),
)

calculate-ok :
    (config : Config) (version : String) (stats : BookmarkStats)
    → IsCalculator config version
    → (c : WeeklyCalculation) × (calculate_weekly_payload config.library stats config.top_tags_limit
        ≡ ok c)
      × IsCalculation version c
unfolding calculate_weekly_payload content_hash canonical_payload_bytes
calculate-ok config version stats k = (
  record {
    calculation_version = version;
    payload = canonical_payload_bytes config.library stats;
    content_hash =
        config.library.hexdigest
          (hash_domain ++ (version ++ (nul ∷ canonical_payload_bytes config.library stats)));
  },
  rw (k.version_of, calculate_weekly_payload)
      (ground (arith, valid_version-nonempty version k.version_valid, k.json_nonempty 1 stats)),
  record {
    version_same = refl;
    payload_valid = k.json_nonempty 1 stats;
    hash_valid = k.hash_hex _;
  },
)

pub calculation-ok :
    (config : Config) (version : String) (db : Database) (u : ℕ) (w : WeeklyWindow)
    → IsCalculator config version
    → 1 ≤ u
    → canonical w ≡ ok tt
    → (c : WeeklyCalculation) × (calculation config db u w ≡ ok c) × IsCalculation version c
unfolding calculation
calculation-ok config version db u w k pos can =
    let (stats, read) = read_week-ok config db u w pos can in
    let (c, made, is) = calculate-ok config version stats k in
    (
      c,
      rw (read, calculation)
          (rw made
            (rw k.version_of (ground (arith, is.version_same, string_eq.beq_iff version version)))),
      is,
    )
