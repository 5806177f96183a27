-- ===== src/RateLimit/Branches.antt =====
-- `consume` after eviction, on each of its three branches.
use backend_exercise.Prelude.{
  ℕ, ◌≤◌, ◌<◌, ◌≡◌, true, false, none, some, arith, String, string_eq, length, leb, Bool-cases, inl,
  inr, Option-cases,
}
use backend_exercise.Dict
use backend_exercise.Dict.{Dict, Distinct}
use backend_exercise.RateLimit.{
  RateLimitDecision, BucketEntry, TokenBucket, refill, spend, saturated, serve, new_entry,
}

-- `serve` on each of its three branches.
module _ (b : TokenBucket) (key : String) (now : ℕ) where
  -- The old entry brought up to date.
  abbrev pub seen : BucketEntry → BucketEntry
  seen old = record (refill b.policy old now) { last_seen = now }

  pub serve-saturated :
      Dict.get key b.entries ≡ none
      → leb b.max_keys (length b.entries) ≡ true
      → serve b key now ≡ saturated b now
  unfolding serve
  serve-saturated e s = rw (e, serve) (rw s)

  pub serve-new :
      Dict.get key b.entries ≡ none
      → leb b.max_keys (length b.entries) ≡ false
      → serve b key now ≡ (
        (spend b.policy (new_entry b.policy now) now).0,
        record b {
          entries = Dict.put key (spend b.policy (new_entry b.policy now) now).1 b.entries;
        },
      )
  unfolding serve
  serve-new e s = rw (e, serve) (rw s)

  pub serve-known :
      (old : BucketEntry)
      → Dict.get key b.entries ≡ some old
      → serve b key now ≡ (
        (spend b.policy (seen old) now).0,
        record b {
          entries = Dict.put key (spend b.policy (seen old) now).1 (Dict.delete key b.entries);
        },
      )
  unfolding serve
  serve-known old e = rw (e, serve)

  -- A statement about `serve` follows from its three branches.
  pub serve_cases {ℓ} :
      (P : RateLimitDecision × TokenBucket → Type ℓ)
      → (Dict.get key b.entries ≡ none → b.max_keys ≤ length b.entries → P (saturated b now))
      → (Dict.get key b.entries ≡ none
          → length b.entries < b.max_keys
          → P (
            (spend b.policy (new_entry b.policy now) now).0,
            record b {
              entries = Dict.put key (spend b.policy (new_entry b.policy now) now).1 b.entries;
            },
          ))
      → ((old : BucketEntry)
          → Dict.get key b.entries ≡ some old
          → P (
            (spend b.policy (seen old) now).0,
            record b {
              entries = Dict.put key (spend b.policy (seen old) now).1 (Dict.delete key b.entries);
            },
          ))
      → P (serve b key now)
  serve_cases P full_case new_case known_case = elim (Option-cases (Dict.get key b.entries)) [
    | inl e ↦ elim (Bool-cases (leb b.max_keys (length b.entries))) [
      | inl s ↦ rw (serve-saturated e s) (full_case e (ground arith))
      | inr s ↦ rw (serve-new e s) (new_case e (ground arith))
    ]
    | inr (old, e) ↦ rw (serve-known old e) (known_case old e)
  ]
