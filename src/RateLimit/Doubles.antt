-- ===== src/RateLimit/Doubles.antt =====
-- Runs of the token bucket in the binary floats of Python, rounded to nearest and to even. A grain is
-- the smallest positive float.
use backend_exercise.Prelude.{
  ℕ, zero, suc, ◌+◌, ◌*◌, ◌/◌, ◌%◌, ◌^◌, ◌-◌, ◌≡◌, refl, none, some, List, [], ◌∷◌, ◌++◌, ltb, eqb,
  ◌&&◌, ◌||◌, if◌then◌else◌, Result, ok, raise, Option,
}
use backend_exercise.Dict
use backend_exercise.RateLimit.{
  TokenBucket, RateLimitDecision, finite, Floats, consume, serve, spend, saturated, refill,
  evict_idle_entries, evict_loop, retry_after, minimum_retry_after, event_due,
}

-- The integer nearest to a fraction, the even one of two.
abbrev nearest : ℕ → ℕ → ℕ
nearest n d =
    let rest = n % d * 2 in
    if ltb d rest || (eqb d rest && eqb (n / d % 2) 1) then n / d + 1 else n / d

-- A fraction at 53 significant bits; the fuel is the number of bits that may be dropped.
abbrev scaled : ℕ → ℕ → ℕ → ℕ → ℕ
scaled zero n d scale = nearest n d * scale
scaled (suc fuel) n d scale =
    let more = scaled fuel n (d * 2) (scale * 2) in
    if ltb (n / d) (2 ^ 53) then nearest n d * scale else more

abbrev double : Floats
double = record { one = 2 ^ 1074; round = λ n d. scaled 1200 n d 1 }

program : Unit {0}
unfolding consume serve spend saturated refill evict_idle_entries evict_loop retry_after
    minimum_retry_after event_due Dict.get Dict.put Dict.delete
program = tt

abbrev bucket : (capacity window_seconds : ℕ) → TokenBucket
bucket capacity window_seconds = record {
  policy = record {
    capacity = capacity;
    window_seconds = window_seconds;
    max_keys = 10;
    idle_ttl_seconds = window_seconds;
    floats = double;
  };
  entries = [];
  last_observed_at = none;
  last_capacity_rejection_event_at = none;
}

-- What calls at whole seconds are answered: 0 if they are allowed, or the wait of the refusal.
abbrev wait : Result RateLimitDecision → Option ℕ
wait (ok d) = if d.allowed then some 0 else d.retry_after
wait (raise e) = none

abbrev waits : TokenBucket → List ℕ → List (Option ℕ)
waits b [] = []
waits b (second ∷ seconds) =
    let (d, after) = consume b "a" (finite (second * double.one)) in wait d ∷ waits after seconds

-- 2 / 3 and the error of a third of a second, as Python computes them.
rounded : double.round (2 * double.one) 3 ≡ 6004799503160661 * 2 ^ (1074 - 53)
rounded = refl

abbrev burst : List ℕ
burst = 0 ∷ 0 ∷ 0 ∷ 0 ∷ 0 ∷ 0 ∷ 0 ∷ 0 ∷ 0 ∷ 0 ∷ []

abbrev allowed : List (Option ℕ)
allowed =
    some 0 ∷ some 0 ∷ some 0 ∷ some 0 ∷ some 0 ∷ some 0 ∷ some 0 ∷ some 0 ∷ some 0 ∷ some 0 ∷ []

-- The wait of the shortest refusal is rounded up from a quotient that is a little over 49.
forty_nine : minimum_retry_after (bucket 1 49).policy ≡ 50
unfolding program
forty_nine = refl

-- Ten requests in a minute: after a burst, a caller that asks each second is refused at the sixth,
-- for want of the last bit of a token.
each_second :
    waits (bucket 10 60) (burst ++ (1 ∷ 2 ∷ 3 ∷ 4 ∷ 5 ∷ 6 ∷ []))
    ≡ allowed ++ (some 6 ∷ some 5 ∷ some 3 ∷ some 3 ∷ some 2 ∷ some 1 ∷ [])
unfolding program
each_second = refl

-- One that does not ask at the fifth second is allowed then, before the wait that the fourth named
-- is over.
four_seconds :
    waits (bucket 10 60) (burst ++ (1 ∷ 2 ∷ 3 ∷ 4 ∷ 6 ∷ []))
    ≡ allowed ++ (some 6 ∷ some 5 ∷ some 3 ∷ some 3 ∷ some 0 ∷ [])
unfolding program
four_seconds = refl
