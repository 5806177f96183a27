-- ===== src/RateLimit/Rate.antt =====
-- How many requests a caller gets through over a run of the bucket.
use backend_exercise.Prelude.{
  ℕ, ◌+◌, ◌-◌, ◌*◌, ◌≤◌, ◌≡◌, ◌∙◌, ap, refl, Bool, false, some, arith, String, string_eq, ◌==◌,
  if◌then◌else◌, Bool-cases, inl, inr, List, [], ◌∷◌, length,
}
use backend_exercise.Dict
use backend_exercise.RateLimit.{
  Policy, TokenBucket, Reading, finite, nonfinite, consume, moved_backwards,
}
use backend_exercise.RateLimit.Rounding.{IsNear}
use backend_exercise.RateLimit.Entries.{
  IsValid, clock, clock-le-now, consume-accepted, consume-refused, consume-nonfinite, observed,
  consume-IsValid,
}
use backend_exercise.RateLimit.Credit.{granted, share, serve_frame}
use backend_exercise.RateLimit.Ideal.{ideal, ideal-later, ideal-le-brim, consume-ideal}

-- Requests in the order in which the lock admits them.
unfoldable pub run : TokenBucket → List (String × Reading) → TokenBucket
run b [] = b
run b ((key, r) ∷ calls) = run (consume b key r).1 calls

unfoldable pub admitted : String → TokenBucket → List (String × Reading) → ℕ
admitted other b [] = 0
admitted other b ((key, r) ∷ calls) =
    (if key == other then (if granted (consume b key r).0 then 1 else 0) else 0)
    + admitted other (consume b key r).1 calls

-- What holds between a bucket and the bucket after it, where a key has been charged, and rounding
-- may have gained so much.
record Balanced (b after : TokenBucket) (other : String) (paid gained : ℕ) : Type 0 where
  same_policy : after.policy ≡ b.policy
  forwards : clock b.last_observed_at ≤ clock after.last_observed_at
  balance :
      ideal b.policy (clock after.last_observed_at) (Dict.get other after.entries)
        + paid * b.window_seconds
      ≤ ideal b.policy (clock b.last_observed_at) (Dict.get other b.entries)
        + (clock after.last_observed_at - clock b.last_observed_at) * b.capacity
        + gained

unchanged :
    (b : TokenBucket) (key other : String) (error : ℕ)
    → Balanced b b other (share b.policy key other false) error
unchanged b key other error = record {
  same_policy = refl;
  forwards = omega arith;
  balance = ground arith;
}

accepted :
    (b : TokenBucket) (key other : String) (now error : ℕ)
    → IsValid b
    → IsNear b.policy error
    → moved_backwards b.last_observed_at now ≡ false
    → Balanced b
        (consume b key (finite now)).1
        other
        (share b.policy key other (granted (consume b key (finite now)).0))
        error
accepted b key other now error v near h = record {
  same_policy = rw (consume-accepted b key now h) (serve_frame (observed b now) key now).0;
  forwards = rw seen_at past;
  balance = rw seen_at (
      omega (
        arith,
        consume-ideal b key other now error v near h,
        ideal-later b.policy (clock b.last_observed_at) now (Dict.get other b.entries) past,
      ));
}
  where
    past : clock b.last_observed_at ≤ now
    past = clock-le-now b.last_observed_at now h

    seen_at : (consume b key (finite now)).1.last_observed_at ≡ some now
    seen_at = rw (consume-accepted b key now h) (serve_frame (observed b now) key now).1

mul_spans : (a b c k : ℕ) → a ≤ b → b ≤ c → (c - b) * k + (b - a) * k ≡ (c - a) * k
mul_spans a b c k h g =
    let e : (c - b) + (b - a) ≡ c - a = omega arith in omega (arith, ap (λ (t : ℕ). t * k) e)

step_balance :
    (b : TokenBucket) (key other : String) (r : Reading) (error : ℕ)
    → IsValid b
    → IsNear b.policy error
    → Balanced b
        (consume b key r).1
        other
        (share b.policy key other (granted (consume b key r).0))
        error
step_balance b key other nonfinite error v near = rw consume-nonfinite (unchanged b key other error)
step_balance b key other (finite now) error v near =
    elim (Bool-cases (moved_backwards b.last_observed_at now)) [
      | inl h ↦ rw (consume-refused b key now h) (unchanged b key other error)
      | inr h ↦ accepted b key other now error v near h
    ]

Balanced-trans :
    (a b c : TokenBucket) (other : String) (paid paid' gained gained' : ℕ)
    → Balanced a b other paid gained
    → Balanced b c other paid' gained'
    → Balanced a c other (paid + paid') (gained + gained')
Balanced-trans a b c other paid paid' gained gained' p q = record {
  same_policy = q.same_policy ∙ p.same_policy;
  forwards = omega (arith, p.forwards, q.forwards);
  balance = omega (
    arith,
    p.balance,
    rw p.same_policy at q.balance,
    mul_spans (clock a.last_observed_at) (clock b.last_observed_at) (clock c.last_observed_at)
        a.capacity p.forwards q.forwards,
  );
}

charged :
    (p : Policy) (key other : String) (g : Bool) (n : ℕ)
    → share p key other g + n * p.floats.one
      ≡ ((if key == other then (if g then 1 else 0) else 0) + n) * p.floats.one
charged p key other g n = ground arith

run_balance :
    (b : TokenBucket) (other : String) (calls : List (String × Reading)) (error : ℕ)
    → IsValid b
    → IsNear b.policy error
    → Balanced b
        (run b calls)
        other
        (admitted other b calls * b.policy.floats.one)
        (length calls * error)
unfolding run admitted
run_balance b other [] error v near = record {
  same_policy = refl;
  forwards = omega arith;
  balance = omega arith;
}
run_balance b other ((key, r) ∷ calls) error v near =
    let s = step_balance b key other r error v near in
    let after = (consume b key r).1 in
    let rest =
      run_balance after other calls error (consume-IsValid b key r v) (rw s.same_policy near) in
    let g = granted (consume b key r).0 in
    let total = Balanced-trans b after (run after calls) other _ _ _ _ s rest in
    let paid = charged b.policy key other g (admitted other after calls) in
    record {
      same_policy = total.same_policy;
      forwards = total.forwards;
      balance =
          omega
            (arith, rw s.same_policy at total.balance, ap (λ (x : ℕ). x * b.window_seconds) paid);
    }

-- The limit. Over any sequence of calls to a valid bucket, for any keys and at any readings of the
-- clock, one key gets at most a full bucket and `capacity` more requests for each window of time
-- that passes, and what rounding may gain in each call: admitted * window <= capacity * (window +
-- elapsed) + calls * error, in grains. Evicting idle entries gives nobody more.
pub admitted-le :
    (b : TokenBucket) (other : String) (calls : List (String × Reading)) (error : ℕ)
    → IsValid b
    → IsNear b.policy error
    → let elapsed = clock (run b calls).last_observed_at - clock b.last_observed_at in
      admitted other b calls * (b.window_seconds * b.policy.floats.one)
      ≤ b.capacity * (b.window_seconds * b.policy.floats.one + elapsed) + length calls * error
admitted-le b other calls error v near = omega (
  arith,
  (run_balance b other calls error v near).balance,
  ideal-le-brim b.policy (clock b.last_observed_at) (Dict.get other b.entries),
)
