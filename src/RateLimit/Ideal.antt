-- ===== src/RateLimit/Ideal.antt =====
-- The tokens of a key in exact arithmetic, in fractions: `window_seconds` of them to a grain of a
-- token, so that a grain of time refills exactly `capacity`. What the floats of the code add to it in
-- a call is bounded by what rounding gains.
use backend_exercise.Prelude.{
  ℕ, ◌+◌, ◌-◌, ◌*◌, ◌≤◌, ◌≡◌, refl, ap, subst, true, false, Option, none, some, arith, String,
  string_eq, ◌==◌, Bool-cases, inl, inr, min, leb,
}
use native.Mathlib.Nat.{mul-le-mul_right}
use backend_exercise.Dict
use backend_exercise.Dict.{Dict}
use backend_exercise.RateLimit.{
  Policy, BucketEntry, TokenBucket, finite, full, is_idle, saturated, serve, consume,
  moved_backwards, new_entry, refilled,
}
use backend_exercise.RateLimit.Rounding.{IsNear}
use backend_exercise.RateLimit.Entries.{
  IsSound, IsValidPolicy, IsTable, IsValid, clock, observed, clock-le-now, consume-accepted,
  observed-IsTable, full-eq,
}
use backend_exercise.RateLimit.Branches.{serve_cases, seen}
use backend_exercise.RateLimit.Evictions.{unless_idle, get-evict_idle_entries}
use backend_exercise.RateLimit.Credit.{
  entry_credit, topped_up, credit, granted, share, get-move_to_end, refill-now, consume-credit,
  serve_frame, spend-times,
}

abbrev pub brim : Policy → ℕ
brim p = p.capacity * p.floats.one * p.window_seconds

unfoldable pub ideal : Policy → ℕ → Option BucketEntry → ℕ
ideal p t none = brim p
ideal p t (some e) = min (brim p) (e.tokens * p.window_seconds + (t - e.refilled_at) * p.capacity)

pub ideal-le-brim : (p : Policy) (t : ℕ) (o : Option BucketEntry) → ideal p t o ≤ brim p
unfolding ideal
ideal-le-brim p t none = omega arith
ideal-le-brim p t (some e) = omega arith

mul_le_parts : (a x y c : ℕ) → a ≤ x + y → a * c ≤ x * c + y * c
mul_le_parts a x y c h = omega (arith, mul-le-mul_right c h)

refilled-le : (t r now c : ℕ) → t ≤ now → (now - r) * c ≤ (t - r) * c + (now - t) * c
refilled-le t r now c h = mul_le_parts (now - r) (t - r) (now - t) c (omega arith)

-- Time earns `capacity` fractions a grain, and never more than a full bucket.
pub ideal-later :
    (p : Policy) (t now : ℕ) (o : Option BucketEntry)
    → t ≤ now
    → ideal p now o ≤ ideal p t o + (now - t) * p.capacity
unfolding ideal
ideal-later p t now none h = omega arith
ideal-later p t now (some e) h = omega (arith, refilled-le t e.refilled_at now p.capacity h)

full-brim : (p : Policy) → IsValidPolicy p → full p * p.window_seconds ≡ brim p
full-brim p v = rw (full-eq p v) refl

-- An idle bucket is full but for the error.
idle-full :
    (p : Policy) (now error : ℕ) (e : BucketEntry)
    → IsValidPolicy p
    → IsNear p error
    → e.refilled_at ≤ e.last_seen
    → is_idle p now e ≡ true
    → brim p ≤ ideal p now (some e) + error
unfolding ideal
idle-full p now error e v near h i =
    let covers = mul-le-mul_right p.floats.one v.ttl_covers_window in
    let gain = near.idle_gain (now - e.last_seen) (ground (arith, covers)) in
    let since : now - e.last_seen ≤ now - e.refilled_at = omega arith in
    omega (arith, gain, mul-le-mul_right p.capacity since)

abbrev Sound : Policy → ℕ → Option BucketEntry → Type 0
Sound p now o = (e : BucketEntry) → o ≡ some e → IsSound p now e

refill-near :
    (p : Policy) (now error : ℕ) (e : BucketEntry)
    → IsValidPolicy p
    → IsNear p error
    → IsSound p now e
    → topped_up p now e * p.window_seconds ≤ ideal p now (some e) + error
unfolding ideal
refill-near p now error e v near s = elim (Bool-cases (leb now e.refilled_at)) [
  | inl h ↦ rw h (omega (arith, mul-le-mul_right p.window_seconds s.within, full-brim p v))
  | inr h ↦
      let t = refilled p e.tokens (p.floats.round (now - e.refilled_at) 1) in
      let clamp : t ≤ full p = omega arith in
      rw h (
        omega (
          arith,
          near.refill_gain e.tokens (now - e.refilled_at) s.within,
          mul-le-mul_right p.window_seconds clamp,
          full-brim p v,
        ))
]

credit-near :
    (p : Policy) (now error : ℕ) (o : Option BucketEntry)
    → IsValidPolicy p
    → IsNear p error
    → Sound p now o
    → entry_credit p now o * p.window_seconds ≤ ideal p now o + error
unfolding entry_credit ideal
credit-near p now error none v near s = omega (arith, full-brim p v)
credit-near p now error (some e) v near s = elim (Bool-cases (is_idle p now e)) [
  | inl i ↦ rw i (omega (arith, full-brim p v, idle-full p now error e v near (s e refl).ordered i))
  | inr i ↦ rw i (refill-near p now error e v near (s e refl))
]

-- A bucket that was brought up to date at a time holds no more than the code finds then.
ideal-now :
    (p : Policy) (now : ℕ) (o : Option BucketEntry)
    → IsValidPolicy p
    → ((e : BucketEntry) → o ≡ some e → e.refilled_at ≡ now)
    → ideal p now o ≤ entry_credit p now o * p.window_seconds
unfolding ideal entry_credit
ideal-now p now none v r = omega (arith, full-brim p v)
ideal-now p now (some e) v r = elim (Bool-cases (is_idle p now e)) [
  | inl i ↦ rw i (omega (arith, full-brim p v))
  | inr i ↦
      let same = r e refl in
      let none_passed : now - e.refilled_at ≡ 0 = omega arith in
      let current : leb now e.refilled_at ≡ true = ground arith in
      rw i (rw current (rw none_passed (omega arith)))
]

ideal-evict :
    (p : Policy) (now error : ℕ) (o : Option BucketEntry)
    → IsValidPolicy p
    → IsNear p error
    → Sound p now o
    → ideal p now (unless_idle p now o o) ≤ ideal p now o + error
unfolding ideal
ideal-evict p now error none v near s = omega arith
ideal-evict p now error (some e) v near s = elim (Bool-cases (is_idle p now e)) [
  | inl i ↦ rw i (idle-full p now error e v near (s e refl).ordered i)
  | inr i ↦ rw i (omega arith)
]

serve-refilled :
    (b : TokenBucket) (key : String) (now : ℕ) (e : BucketEntry)
    → IsTable b.policy now b.entries
    → Dict.get key (serve b key now).1.entries ≡ some e
    → e.refilled_at ≡ now
unfolding saturated
serve-refilled b key now e t =
    let same = (string_eq.beq_iff key key).1 refl in
    serve_cases b key now (λ r. Dict.get key r.1.entries ≡ some e → e.refilled_at ≡ now)
      (λ g s h. absurd (ground (arith, g, h)))
      (λ g s h.
        let times = spend-times b.policy now (new_entry b.policy now) in
        let found = rw (Dict.get-put, same) at h in ground (arith, found, times))
      (λ old g h.
        let sound = Dict.All-get (IsSound b.policy now) key old b.entries t.sound g in
        let times = spend-times b.policy now (seen b key now old) in
        let found = rw (get-move_to_end, same) at h in
        ground (arith, found, times, refill-now b.policy now old sound))

serve-others :
    (b : TokenBucket) (key other : String) (now : ℕ)
    → (key == other) ≡ false
    → Dict.get other (serve b key now).1.entries ≡ Dict.get other b.entries
unfolding saturated
serve-others b key other now d =
    serve_cases b key now (λ r. Dict.get other r.1.entries ≡ Dict.get other b.entries) (λ g s. refl)
      (λ g s. rw (Dict.get-put, d) refl) (λ old g. rw (get-move_to_end, d) refl)

entries-Sound :
    (b : TokenBucket) (key : String) (now : ℕ)
    → IsValid b
    → clock b.last_observed_at ≤ now
    → Sound b.policy now (Dict.get key b.entries)
entries-Sound b key now v past e g =
    let s =
      Dict.All-get (IsSound b.policy (clock b.last_observed_at)) key e b.entries v.table.sound g in
    record {
      within = s.within;
      is_float = s.is_float;
      ordered = s.ordered;
      past = omega (arith, s.past, past);
    }

-- One accepted call in exact arithmetic: a key pays for its request and gains at most the error.
module _ (b : TokenBucket) (key other : String) (now error : ℕ) (v : IsValid b)
    (near : IsNear b.policy error) (h : moved_backwards b.last_observed_at now ≡ false) where
  past : clock b.last_observed_at ≤ now
  past = clock-le-now b.last_observed_at now h

  caller-ideal :
      (key == other) ≡ true
      → ideal b.policy now (Dict.get other (consume b key (finite now)).1.entries)
          + share b.policy key other (granted (consume b key (finite now)).0) * b.window_seconds
        ≤ ideal b.policy now (Dict.get other b.entries) + error
  unfolding credit
  caller-ideal q =
      let fresh : (e : BucketEntry)
          → Dict.get key (consume b key (finite now)).1.entries ≡ some e
          → e.refilled_at ≡ now =
        λ e.
          rw (consume-accepted b key now h)
            (serve-refilled (observed b now) key now e (observed-IsTable b now past v)) in
      let same : (consume b key (finite now)).1.policy ≡ b.policy =
        rw (consume-accepted b key now h) (serve_frame (observed b now) key now).0 in
      let now_ideal =
        ideal-now b.policy now (Dict.get other (consume b key (finite now)).1.entries)
          v.policy_valid
          (subst
            (λ (k : String).
              (e : BucketEntry)
              → Dict.get k (consume b key (finite now)).1.entries ≡ some e
              → e.refilled_at ≡ now)
            ((string_eq.beq_iff key other).0 q) fresh) in
      let paid = rw same at (consume-credit b key other now v h) in
      omega (
        arith,
        now_ideal,
        ap (λ (x : ℕ). x * b.window_seconds) paid,
        credit-near b.policy now error (Dict.get other b.entries) v.policy_valid near
            (entries-Sound b other now v past),
      )

  others-ideal :
      (key == other) ≡ false
      → ideal b.policy now (Dict.get other (consume b key (finite now)).1.entries)
          + share b.policy key other (granted (consume b key (finite now)).0) * b.window_seconds
        ≤ ideal b.policy now (Dict.get other b.entries) + error
  others-ideal q =
      rw (consume-accepted b key now h, serve-others (observed b now) key other now q, q)
        (rw (get-evict_idle_entries b.policy now b.entries other v.table.distinct) (
          omega (
            arith,
            ideal-evict b.policy now error (Dict.get other b.entries) v.policy_valid near
                (entries-Sound b other now v past),
          )))

  pub consume-ideal :
      ideal b.policy now (Dict.get other (consume b key (finite now)).1.entries)
        + share b.policy key other (granted (consume b key (finite now)).0) * b.window_seconds
      ≤ ideal b.policy now (Dict.get other b.entries) + error
  consume-ideal = elim (Bool-cases (key == other)) [
    | inl q ↦ caller-ideal q
    | inr q ↦ others-ideal q
  ]
