-- ===== src/RateLimit/Decisions.antt =====
-- Which requests the token bucket allows.
use backend_exercise.Prelude.{ℕ, ◌≤◌, ◌≡◌, ◌⊎◌, true, false, none, String, string_eq, leb, length}
use backend_exercise.Dict
use backend_exercise.Dict.{Dict}
use backend_exercise.RateLimit.{Policy, BucketEntry, RateLimitDecision}

-- A decision on a caller that owns so much credit, over the table that is left after eviction.
abbrev pub Decides : Policy → String → ℕ → Dict String BucketEntry → RateLimitDecision → Type 0
Decides p key owned entries d =
    ((d.capacity_exhausted ≡ false) × (d.allowed ≡ leb p.floats.one owned))
    ⊎ ((d.capacity_exhausted ≡ true)
        × (d.allowed ≡ false)
        × (Dict.get key entries ≡ none)
        × (p.max_keys ≤ length entries))
