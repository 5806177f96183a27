-- ===== src/RateLimit/Limiter.antt =====
-- `RateLimiter` of app/api/rate_limit.py: two buckets, one for authentication by peer address and
-- one for bookmark traffic by user. The key that HMAC-SHA-256 derives from a policy's name and an
-- identity, and Python's `str` of an identifier, are parameters; nothing is assumed of them.
use backend_exercise.Prelude.{
  ℕ, ◌+◌, Bool, String, if◌then◌else◌, List, [], ◌∷◌, Result, ok, ◌>>=◌, eqb,
}
use backend_exercise.RateLimit.{
  Floats, TokenBucket, RateLimitDecision, Reading, consume, new_bucket, allowance,
}
use backend_exercise.RateLimit.Credit.{granted}

pub record RateLimiter : Type 0 where
  pub enabled : Bool
  pub auth : TokenBucket
  pub bookmarks : TokenBucket

-- `RateLimiter.__init__`: both buckets share `max_keys` and `idle_ttl_seconds`.
unfoldable new_limiter :
    Floats → Bool → (auth bookmark : ℕ × ℕ) → (max_keys idle_ttl_seconds : ℕ) → Result RateLimiter
new_limiter floats enabled (auth_requests, auth_window) (bookmark_requests, bookmark_window)
      max_keys ttl =
    do
      auth ← new_bucket (record {
        capacity = auth_requests;
        window_seconds = auth_window;
        max_keys = max_keys;
        idle_ttl_seconds = ttl;
        floats = floats;
      })
      bookmarks ← new_bucket (record {
        capacity = bookmark_requests;
        window_seconds = bookmark_window;
        max_keys = max_keys;
        idle_ttl_seconds = ttl;
        floats = floats;
      })
      ok (record { enabled = enabled; auth = auth; bookmarks = bookmarks })

pub data Traffic : Type 0 where
  auth : String → Traffic
  bookmark : ℕ → Traffic

module _ (opaque_key : String → String → String) (str : ℕ → String) where
  unfoldable consume_auth : RateLimiter → String → Reading → Result RateLimitDecision × RateLimiter
  consume_auth l peer_ip r =
      if l.enabled
      then (let (d, b) = consume l.auth (opaque_key "auth" peer_ip) r in (d, record l { auth = b }))
      else (ok allowance, l)

  unfoldable consume_bookmark : RateLimiter → ℕ → Reading → Result RateLimitDecision × RateLimiter
  consume_bookmark l user_id r =
      if l.enabled
      then (let (d, b) = consume l.bookmarks (opaque_key "bookmark" (str user_id)) r in
          (d, record l { bookmarks = b }))
      else (ok allowance, l)

  handle : RateLimiter → Traffic → Reading → Result RateLimitDecision × RateLimiter
  handle l (auth peer_ip) r = consume_auth l peer_ip r
  handle l (bookmark user_id) r = consume_bookmark l user_id r

  pub after : RateLimiter → List (Traffic × Reading) → RateLimiter
  after l [] = l
  after l ((t, r) ∷ ts) = after (handle l t r).1 ts

  -- The requests of one user that the limiter lets through.
  pub passed : ℕ → RateLimiter → List (Traffic × Reading) → ℕ
  passed user l [] = 0
  passed user l ((auth peer_ip, r) ∷ ts) = passed user (handle l (auth peer_ip) r).1 ts
  passed user l ((bookmark user_id, r) ∷ ts) =
      (if eqb user_id user then (if granted (handle l (bookmark user_id) r).0 then 1 else 0) else 0)
      + passed user (handle l (bookmark user_id) r).1 ts

  -- What the bucket for bookmarks is asked.
  bookmark_calls : List (Traffic × Reading) → List (String × Reading)
  bookmark_calls [] = []
  bookmark_calls ((auth peer_ip, r) ∷ ts) = bookmark_calls ts
  bookmark_calls ((bookmark user_id, r) ∷ ts) =
      (opaque_key "bookmark" (str user_id), r) ∷ bookmark_calls ts
