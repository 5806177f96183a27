-- ===== src/RateLimit/Examples.antt =====
-- Runs of the token bucket and of the limiter, and the theorems about them at concrete inputs.
use backend_exercise.Prelude.{
  ℕ, zero, suc, ◌+◌, ◌*◌, ◌/◌, ◌≤◌, ◌≡◌, refl, subst, Bool, true, false, none, some, String,
  if◌then◌else◌, List, [], ◌∷◌, raise, value_error, runtime_error, eqb, arith,
}
use native.Mathlib.Nat.{le-div_iff_mul-le, div-mul-le_self}
use backend_exercise.Dict
use backend_exercise.RateLimit.{
  Policy, TokenBucket, RateLimitDecision, Reading, finite, nonfinite, Floats, new_bucket, consume,
  serve, spend, saturated, refill, evict_idle_entries, evict_loop, retry_after, minimum_retry_after,
  event_due,
}
use backend_exercise.RateLimit.Entries.{IsValid, new_bucket-IsValid, consume-IsValid}
use backend_exercise.RateLimit.Credit.{credit, granted, share, consume-credit}
use backend_exercise.RateLimit.Rounding.{IsFloats}
use backend_exercise.RateLimit.Limiter.{RateLimiter, Traffic, auth, bookmark}

-- What a run unfolds.
program : Unit {0}
unfolding new_bucket consume serve spend saturated refill evict_idle_entries evict_loop retry_after
    minimum_retry_after event_due Dict.get Dict.put Dict.delete
program = tt

-- Fixed-point numbers: nanoseconds, rounded down.
abbrev ticks : ℕ
ticks = 1_000_000_000

abbrev fixed : Floats
fixed = record { one = ticks; round = λ n d. n / d }

div-monotone : (n m d : ℕ) → n ≤ m → n / d ≤ m / d
div-monotone n m zero h = omega arith
div-monotone n m (suc d) h =
    (le-div_iff_mul-le (omega arith)).1 (omega (arith, div-mul-le_self n (suc d)))

fixed-IsFloats : IsFloats fixed
fixed-IsFloats = record {
  one_pos = omega arith;
  monotone = div-monotone;
  stable = λ n d. omega arith;
  whole = λ k h. omega arith;
  take_one = λ x f h b. omega arith;
}

abbrev one_per_second : Policy
one_per_second = record {
  capacity = 1;
  window_seconds = 1;
  max_keys = 1;
  idle_ttl_seconds = 2;
  floats = fixed;
}

abbrev fresh : TokenBucket
fresh = record {
  policy = one_per_second;
  entries = [];
  last_observed_at = none;
  last_capacity_rejection_event_at = none;
}

fresh-IsValid : IsValid fresh
unfolding program
fresh-IsValid = new_bucket-IsValid one_per_second fresh fixed-IsFloats (omega arith) refl

-- The bucket after one request of "a" at second 5.
abbrev spent : TokenBucket
spent = record fresh {
  entries =
      (
        "a",
        record {
          tokens = 0;
          refilled_at = 5 * ticks;
          last_seen = 5 * ticks;
          last_rejection_event_at = none;
        },
      )
      ∷ [];
  last_observed_at = some (5 * ticks);
}

first_request : (consume fresh "a" (finite (5 * ticks))).1 ≡ spent
unfolding program
first_request = refl

spent-IsValid : IsValid spent
spent-IsValid =
    subst IsValid first_request (consume-IsValid fresh "a" (finite (5 * ticks)) fresh-IsValid)

bad_policies :
    (new_bucket (record one_per_second { capacity = 0 }) ≡ raise value_error)
    × (new_bucket (record one_per_second { window_seconds = 3 }) ≡ raise value_error)
unfolding program
bad_policies = (refl, refl)

clock_faults :
    ((consume spent "a" nonfinite).0 ≡ raise runtime_error)
    × ((consume spent "a" (finite 1)).0 ≡ raise runtime_error)
unfolding program
clock_faults = (refl, refl)

-- Half a second later "a" is refused for a second, and "b" finds the table full.
abbrev refusal : Bool → RateLimitDecision
refusal full = record {
  allowed = false;
  retry_after = some 1;
  emit_rejection_event = true;
  capacity_exhausted = full;
}

consume-IsValid_example : IsValid (consume spent "b" (finite (6 * ticks))).1
consume-IsValid_example = consume-IsValid spent "b" (finite (6 * ticks)) spent-IsValid

consume-credit_example :
    credit (consume spent "a" (finite (6 * ticks))).1 "a" (6 * ticks)
      + share one_per_second "a" "a" (granted (consume spent "a" (finite (6 * ticks))).0)
    ≡ credit spent "a" (6 * ticks)
consume-credit_example = consume-credit spent "a" "a" (6 * ticks) spent-IsValid refl

abbrev plain_key : String → String → String
plain_key policy identity = identity

abbrev two_names : ℕ → String
two_names n = if eqb n 1 then "a" else "b"

abbrev limiter : RateLimiter
limiter = record { enabled = true; auth = fresh; bookmarks = spent }

abbrev traffic : List (Traffic × Reading)
traffic =
    (bookmark 1, finite (6 * ticks))
    ∷ (auth "host", finite 0)
    ∷ (bookmark 1, finite (6 * ticks))
    ∷ []
