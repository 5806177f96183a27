-- ===== src/RateLimit/Rounding.antt =====
-- What is relied on of Python's floats, all of it facts of IEEE 754 arithmetic rounded to nearest.
use backend_exercise.Prelude.{ℕ, ◌+◌, ◌-◌, ◌*◌, ◌^◌, ◌≤◌, ◌≡◌}
use backend_exercise.RateLimit.{Floats, Policy, full, refilled}

-- Rounding is monotone and keeps what is a float; integers up to 2 ^ 53 are floats; and taking 1 from
-- a float of that range that is at least 1 leaves a float.
pub record IsFloats (f : Floats) : Type 0 where
  pub one_pos : 1 ≤ f.one
  pub monotone : (n m d : ℕ) → n ≤ m → f.round n d ≤ f.round m d
  pub stable : (n d : ℕ) → f.round (f.round n d) 1 ≡ f.round n d
  pub whole : (k : ℕ) → k ≤ 2 ^ 53 → f.round (k * f.one) 1 ≡ k * f.one
  pub take_one :
      (x : ℕ) → f.round x 1 ≡ x → f.one ≤ x → x ≤ 2 ^ 53 * f.one → f.round (x - f.one) 1 ≡ x - f.one

-- Rounding gains little: a refill exceeds the exact number of tokens by at most `error`, and an idle
-- time that is rounded up to the limit falls short of it by no more than earns `error`. Tokens and
-- the error are counted in fractions, `window_seconds` of them to a grain, so that a grain of time
-- earns `capacity` exactly.
pub record IsNear (p : Policy) (error : ℕ) : Type 0 where
  pub refill_gain :
      (tokens elapsed : ℕ)
      → tokens ≤ full p
      → refilled p tokens (p.floats.round elapsed 1) * p.window_seconds
        ≤ tokens * p.window_seconds + elapsed * p.capacity + error
  pub idle_gain :
      (elapsed : ℕ)
      → p.window_seconds * p.floats.one ≤ p.floats.round elapsed 1
      → p.capacity * p.floats.one * p.window_seconds ≤ elapsed * p.capacity + error
