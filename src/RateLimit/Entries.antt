-- ===== src/RateLimit/Entries.antt =====
-- The table of a token bucket: what eviction does to it, and the invariant of `consume`.
use backend_exercise.Prelude.{
  ℕ, ◌+◌, ◌-◌, ◌*◌, ◌^◌, leb, min, ◌≤◌, ◌<◌, [], ◌≡◌, refl, true, false, Option, none, some, arith,
  String, string_eq, length, All, Bool-cases, ok, raise, runtime_error, inl, inr,
}
use backend_exercise.Dict
use backend_exercise.Dict.{Dict, Distinct}
use backend_exercise.RateLimit.{
  RateLimitDecision, Policy, BucketEntry, TokenBucket, Reading, finite, nonfinite, full,
  evict_idle_entries, refill, spend, saturated, new_bucket, serve, consume, new_entry,
  moved_backwards, sub, mul, refilled, refill_rate,
}
use native.Mathlib.Nat.{mul-le-mul_right}
use backend_exercise.RateLimit.Rounding.{IsFloats}
use backend_exercise.RateLimit.Evictions.{evict_loop_keeps}
use backend_exercise.RateLimit.Branches.{serve_cases}

-- An entry is sound up to a time: it holds a float that is at most a full bucket, and was refilled no
-- later than it was seen, and not after that time.
pub record IsSound (p : Policy) (upto : ℕ) (e : BucketEntry) : Type 0 where
  pub within : e.tokens ≤ full p
  pub is_float : p.floats.round e.tokens 1 ≡ e.tokens
  pub ordered : e.refilled_at ≤ e.last_seen
  pub past : e.last_seen ≤ upto

abbrev pub clock : Option ℕ → ℕ
clock none = 0
clock (some t) = t

pub record IsValidPolicy (p : Policy) : Type 0 where
  pub capacity_pos : 1 ≤ p.capacity
  pub window_pos : 1 ≤ p.window_seconds
  pub max_keys_pos : 1 ≤ p.max_keys
  pub ttl_covers_window : p.window_seconds ≤ p.idle_ttl_seconds
  pub capacity_small : p.capacity ≤ 2 ^ 53
  pub floats : IsFloats p.floats

pub record IsTable (p : Policy) (upto : ℕ) (d : Dict String BucketEntry) : Type 0 where
  pub distinct : Distinct d
  pub bounded : length d ≤ p.max_keys
  pub sound : All (λ e. IsSound p upto e.1) d

pub record IsValid (b : TokenBucket) : Type 0 where
  pub policy_valid : IsValidPolicy b.policy
  pub table : IsTable b.policy (clock b.last_observed_at) b.entries

min_cases {ℓ} : (P : ℕ → Type ℓ) (a b : ℕ) → P a → P b → P (min a b)
min_cases P a b x y = elim (Bool-cases (leb a b)) [
  | inl h ↦ let same : min a b ≡ a = ground arith in rw same x
  | inr h ↦ let same : min a b ≡ b = ground arith in rw same y
]

delete-IsTable :
    (p : Policy) (upto : ℕ) (k : String) (d : Dict String BucketEntry)
    → IsTable p upto d
    → IsTable p upto (Dict.delete k d)
delete-IsTable p upto k d t = record {
  distinct = Dict.delete-Distinct k d t.distinct;
  bounded = omega (arith, t.bounded, Dict.length-delete k d);
  sound = Dict.All-delete (IsSound p upto) k d t.sound;
}

evict-IsTable :
    (p : Policy) (upto now : ℕ) (d : Dict String BucketEntry)
    → IsTable p upto d
    → IsTable p upto (evict_idle_entries p now d)
unfolding evict_idle_entries
evict-IsTable p upto now d = evict_loop_keeps (IsTable p upto) (delete-IsTable p upto) p now d d

later-IsTable :
    (p : Policy) (upto now : ℕ) (d : Dict String BucketEntry)
    → upto ≤ now
    → IsTable p upto d
    → IsTable p now d
later-IsTable p upto now d h t = record {
  distinct = t.distinct;
  bounded = t.bounded;
  sound =
      Dict.All-mono (IsSound p upto) (IsSound p now) d
        (λ e s. record {
          within = s.within;
          is_float = s.is_float;
          ordered = s.ordered;
          past = omega (arith, s.past);
        })
        t.sound;
}

pub full-eq : (p : Policy) → IsValidPolicy p → full p ≡ p.capacity * p.floats.one
full-eq p v = v.floats.whole p.capacity v.capacity_small

refilled-float :
    (p : Policy) (tokens elapsed : ℕ)
    → IsValidPolicy p
    → p.floats.round (refilled p tokens elapsed) 1 ≡ refilled p tokens elapsed
refilled-float p tokens elapsed v =
    let x = tokens + mul p.floats elapsed (refill_rate p) in
    min_cases (λ m. p.floats.round m 1 ≡ m) (full p) (p.floats.round x 1)
      (v.floats.stable (p.capacity * p.floats.one) 1) (v.floats.stable x 1)

pub refill-IsSound :
    (p : Policy) (now : ℕ) (e : BucketEntry)
    → IsValidPolicy p
    → IsSound p now e
    → IsSound p now (record (refill p e now) { last_seen = now })
unfolding refill
refill-IsSound p now e v s = elim (Bool-cases (leb now e.refilled_at)) [
  | inl h ↦ rw h (record {
    within = s.within;
    is_float = s.is_float;
    ordered = omega (arith, s.ordered, s.past);
    past = omega arith;
  })
  | inr h ↦ rw h (record {
    within = omega arith;
    is_float = refilled-float p e.tokens (sub p.floats now e.refilled_at) v;
    ordered = omega arith;
    past = omega arith;
  })
]

pub taken-eq :
    (p : Policy) (now : ℕ) (e : BucketEntry)
    → IsValidPolicy p
    → IsSound p now e
    → p.floats.one ≤ e.tokens
    → sub p.floats e.tokens p.floats.one ≡ e.tokens - p.floats.one
taken-eq p now e v s h =
    v.floats.take_one e.tokens s.is_float h
      (omega (arith, s.within, full-eq p v, mul-le-mul_right p.floats.one v.capacity_small))

spend-IsSound :
    (p : Policy) (now : ℕ) (e : BucketEntry)
    → IsValidPolicy p
    → IsSound p now e
    → IsSound p now (spend p e now).1
unfolding spend
spend-IsSound p now e v s = elim (Bool-cases (leb p.floats.one e.tokens)) [
  | inl h ↦
      let taken = taken-eq p now e v s (ground arith) in
      rw h (record {
        within = omega (arith, s.within, taken);
        is_float = v.floats.stable (e.tokens - p.floats.one) 1;
        ordered = s.ordered;
        past = s.past;
      })
  | inr h ↦
      rw h (record { within = s.within; is_float = s.is_float; ordered = s.ordered; past = s.past })
]

put_new-IsTable :
    (p : Policy) (upto : ℕ) (k : String) (e : BucketEntry) (d : Dict String BucketEntry)
    → Dict.get k d ≡ none
    → length d < p.max_keys
    → IsSound p upto e
    → IsTable p upto d
    → IsTable p upto (Dict.put k e d)
put_new-IsTable p upto k e d g h s t = record {
  distinct = Dict.put-Distinct k e d t.distinct;
  bounded = omega (arith, h, Dict.length-put_new k e d g);
  sound = Dict.All-put (IsSound p upto) k e d s t.sound;
}

-- `move_to_end` and the write to the entry.
put_moved-IsTable :
    (p : Policy) (upto : ℕ) (k : String) (old e : BucketEntry) (d : Dict String BucketEntry)
    → Dict.get k d ≡ some old
    → IsSound p upto e
    → IsTable p upto d
    → IsTable p upto (Dict.put k e (Dict.delete k d))
put_moved-IsTable p upto k old e d g s t =
    put_new-IsTable p upto k e (Dict.delete k d)
      (rw Dict.get-delete (rw ((string_eq.beq_iff k k).1 refl)))
      (omega (arith, t.bounded, Dict.length-delete_found k old d g)) s (delete-IsTable p upto k d t)

pub new_entry-IsSound : (p : Policy) (now : ℕ) → IsValidPolicy p → IsSound p now (new_entry p now)
new_entry-IsSound p now v = record {
  within = omega arith;
  is_float = v.floats.stable (p.capacity * p.floats.one) 1;
  ordered = omega arith;
  past = omega arith;
}

serve-IsValid :
    (b : TokenBucket) (key : String) (now : ℕ)
    → IsValidPolicy b.policy
    → b.last_observed_at ≡ some now
    → IsTable b.policy now b.entries
    → IsValid (serve b key now).1
unfolding saturated
serve-IsValid b key now v o t =
    serve_cases b key now (λ r. IsValid r.1) (λ e s. record { policy_valid = v; table = rw o t })
      (λ e s. record {
        policy_valid = v;
        table = rw o (
            put_new-IsTable b.policy now key _ b.entries e s
              (spend-IsSound b.policy now _ v (new_entry-IsSound b.policy now v)) t);
      })
      (λ old e. record {
        policy_valid = v;
        table = rw o (
            put_moved-IsTable b.policy now key old _ b.entries e
              (spend-IsSound b.policy now _ v (
                refill-IsSound b.policy now old v
                  (Dict.All-get (IsSound b.policy now) key old b.entries t.sound e)))
              t);
      })

-- The table that `consume` hands to `serve` at an accepted reading.
abbrev pub observed : TokenBucket → ℕ → TokenBucket
observed b now = record b {
  entries = evict_idle_entries b.policy now b.entries;
  last_observed_at = some now;
}

pub observed-IsTable :
    (b : TokenBucket) (now : ℕ)
    → clock b.last_observed_at ≤ now
    → IsValid b
    → IsTable b.policy now (evict_idle_entries b.policy now b.entries)
observed-IsTable b now h v =
    evict-IsTable b.policy now now b.entries
      (later-IsTable b.policy (clock b.last_observed_at) now b.entries h v.table)

pub clock-le-now : (o : Option ℕ) (now : ℕ) → moved_backwards o now ≡ false → clock o ≤ now
clock-le-now none now h = omega arith
clock-le-now (some t) now h = ground arith

pub consume-accepted :
    (b : TokenBucket) (key : String) (now : ℕ)
    → moved_backwards b.last_observed_at now ≡ false
    → consume b key (finite now)
      ≡ (ok (serve (observed b now) key now).0, (serve (observed b now) key now).1)
unfolding consume
consume-accepted b key now h = rw h

pub consume-refused :
    (b : TokenBucket) (key : String) (now : ℕ)
    → moved_backwards b.last_observed_at now ≡ true
    → consume b key (finite now) ≡ (raise runtime_error, b)
unfolding consume
consume-refused b key now h = rw h

-- A call that returns was accepted, and returns what `serve` decides.
pub consume-eq-ok :
    (b : TokenBucket) (key : String) (now : ℕ) (d : RateLimitDecision)
    → (consume b key (finite now)).0 ≡ ok d
    → (moved_backwards b.last_observed_at now ≡ false) × (d ≡ (serve (observed b now) key now).0)
unfolding consume
consume-eq-ok b key now d h = elim (Bool-cases (moved_backwards b.last_observed_at now)) [
  | inl e ↦ ground arith
  | inr e ↦ (e, ground arith)
]

pub consume-nonfinite :
    (b : TokenBucket) (key : String) → consume b key nonfinite ≡ (raise runtime_error, b)
unfolding consume
consume-nonfinite b key = refl

-- Every call of `consume`, refused ones included, keeps the table of a limiter valid: distinct
-- keys, no more of them than `max_keys`, and no entry above a full bucket, ahead of the clock or with
-- tokens that are not a float.
pub consume-IsValid :
    (b : TokenBucket) (key : String) (r : Reading) → IsValid b → IsValid (consume b key r).1
unfolding consume
consume-IsValid b key nonfinite v = v
consume-IsValid b key (finite now) v = elim (Bool-cases (moved_backwards b.last_observed_at now)) [
  | inl e ↦ rw e v
  | inr e ↦ rw e (
      serve-IsValid (observed b now) key now v.policy_valid refl
        (observed-IsTable b now (clock-le-now b.last_observed_at now e) v))
]

-- Whatever `TokenBucket.__init__` accepts is valid, on floats and with a capacity that is one.
pub new_bucket-IsValid :
    (p : Policy) (b : TokenBucket)
    → IsFloats p.floats
    → p.capacity ≤ 2 ^ 53
    → new_bucket p ≡ ok b
    → IsValid b
unfolding new_bucket
new_bucket-IsValid p b f c h =
    let same : b ≡ record {
      policy = p;
      entries = [];
      last_observed_at = none;
      last_capacity_rejection_event_at = none;
    } =
      ground arith in
    rw same (record {
      policy_valid = record {
        capacity_pos = ground arith;
        window_pos = ground arith;
        max_keys_pos = ground arith;
        ttl_covers_window = ground arith;
        capacity_small = c;
        floats = f;
      };
      table = record { distinct = tt; bounded = omega arith; sound = tt };
    })
