-- ===== src/RateLimit.antt =====
-- app/api/rate_limit.py: the token bucket and the limiter over two of them.
--
-- The code counts tokens and seconds in floats, and so does the model: a float is a whole number of
-- grains, `floats.one` of them to a token and to a second (for the binary floats of Python a grain is
-- the smallest positive one), and each sum, difference, product and quotient of the code is the exact
-- one rounded by `floats.round`. Both are parameters; Rounding names what the theorems rely on of
-- them. A reading of the clock that is not finite is `nonfinite`; no other number overflows.
pub mod Evictions
pub mod Branches
pub mod Entries
pub mod Credit
pub mod Ideal
pub mod Rate
pub mod Rounding
pub mod Decisions
pub mod Limiter
mod Examples
mod Doubles
use backend_exercise.Prelude.{
  ℕ, ◌+◌, ◌-◌, ◌*◌, ◌/◌, max, min, Bool, true, false, not, ◌&&◌, Option, none, some, [], ◌∷◌, ltb,
  leb, if◌then◌else◌, length, String, string_eq, Result, ok, raise, value_error, runtime_error,
  require, ◌>>=◌, ◌>>◌,
}
use backend_exercise.Dict
use backend_exercise.Dict.{Dict}

-- Python's floats: the grains of the number 1, and the float nearest to a fraction of grains.
pub record Floats : Type 0 where
  pub one : ℕ
  pub round : (numerator denominator : ℕ) → ℕ

-- The float operations on numbers of grains: `+`, `-`, `*`, `/` and the conversion of an integer.
module _ (f : Floats) where
  abbrev pub add : ℕ → ℕ → ℕ
  add x y = f.round (x + y) 1

  abbrev pub sub : ℕ → ℕ → ℕ
  sub x y = f.round (x - y) 1

  abbrev pub mul : ℕ → ℕ → ℕ
  mul x y = f.round (x * y) f.one

  abbrev pub div : ℕ → ℕ → ℕ
  div x y = f.round (x * f.one) y

  abbrev pub float : ℕ → ℕ
  float n = f.round (n * f.one) 1

pub record RateLimitDecision : Type 0 where
  pub allowed : Bool
  pub retry_after : Option ℕ
  pub emit_rejection_event : Bool
  pub capacity_exhausted : Bool

pub record BucketEntry : Type 0 where
  pub tokens : ℕ
  pub refilled_at : ℕ
  pub last_seen : ℕ
  pub last_rejection_event_at : Option ℕ

pub record Policy : Type 0 where
  pub capacity : ℕ
  pub window_seconds : ℕ
  pub max_keys : ℕ
  pub idle_ttl_seconds : ℕ
  pub floats : Floats

pub record TokenBucket : Type 0 where
  pub policy : Policy
  pub open policy use *
  pub entries : Dict String BucketEntry
  pub last_observed_at : Option ℕ
  pub last_capacity_rejection_event_at : Option ℕ

pub data Reading : Type 0 where
  finite : ℕ → Reading
  nonfinite : Reading

-- `TokenBucket.__init__`
unfoldable pub new_bucket : Policy → Result TokenBucket
new_bucket p = do
  require (not (ltb p.capacity 1)) value_error
  require (not (ltb p.window_seconds 1)) value_error
  require (not (ltb p.max_keys 1)) value_error
  require (not (ltb p.idle_ttl_seconds p.window_seconds)) value_error
  ok (record {
    policy = p;
    entries = [];
    last_observed_at = none;
    last_capacity_rejection_event_at = none;
  })

-- `float(self._capacity)`
abbrev pub full : Policy → ℕ
full p = float p.floats p.capacity

-- `self._refill_rate`: the quotient of two integers, rounded once.
abbrev pub refill_rate : Policy → ℕ
refill_rate p = p.floats.round (p.capacity * p.floats.one) p.window_seconds

-- `math.ceil` of a number of grains.
abbrev pub ceil_div : ℕ → ℕ → ℕ
ceil_div a b = (a + (b - 1)) / b

-- `_evict_idle_entries`: the loop walks a copy of the items, so that each is tested and deleted
-- on its own.
abbrev pub is_idle : Policy → ℕ → BucketEntry → Bool
is_idle p now entry =
    leb entry.last_seen now
    && leb (p.idle_ttl_seconds * p.floats.one) (sub p.floats now entry.last_seen)

unfoldable pub evict_loop :
    Policy → ℕ → Dict String BucketEntry → Dict String BucketEntry → Dict String BucketEntry
evict_loop p now [] entries = entries
evict_loop p now ((key, entry) ∷ items) entries =
    evict_loop p now items (if is_idle p now entry then Dict.delete key entries else entries)

unfoldable pub evict_idle_entries : Policy → ℕ → Dict String BucketEntry → Dict String BucketEntry
unfolding evict_loop
evict_idle_entries p now entries = evict_loop p now entries entries

-- The tokens of a bucket with so many of them, some time later.
abbrev pub refilled : Policy → (tokens elapsed : ℕ) → ℕ
refilled p tokens elapsed =
    min (full p) (add p.floats tokens (mul p.floats elapsed (refill_rate p)))

-- `_refill`
unfoldable pub refill : Policy → BucketEntry → ℕ → BucketEntry
refill p entry now = if leb now entry.refilled_at then entry else record entry {
  tokens = refilled p entry.tokens (sub p.floats now entry.refilled_at);
  refilled_at = now;
}

-- `_minimum_retry_after` and `_retry_after`
unfoldable pub minimum_retry_after : Policy → ℕ
minimum_retry_after p = max 1 (ceil_div (div p.floats p.floats.one (refill_rate p)) p.floats.one)

unfoldable pub retry_after : Policy → ℕ → ℕ
retry_after p tokens =
    max 1 (ceil_div (div p.floats (sub p.floats p.floats.one tokens) (refill_rate p)) p.floats.one)

-- The test that `_entry_rejection_event_due` and `_capacity_rejection_event_due` share: an event is
-- due unless the last one lies less than a window back.
unfoldable pub event_due : Policy → Option ℕ → ℕ → Bool
event_due p none now = true
event_due p (some last) now = not (ltb (sub p.floats now last) (p.window_seconds * p.floats.one))

abbrev pub recorded : Bool → Option ℕ → ℕ → Option ℕ
recorded due last now = if due then some now else last

-- The branch of `consume` for a saturated limiter.
unfoldable pub saturated : TokenBucket → ℕ → RateLimitDecision × TokenBucket
saturated b now =
    let due = event_due b.policy b.last_capacity_rejection_event_at now in
    (
      record {
        allowed = false;
        retry_after = some (minimum_retry_after b.policy);
        emit_rejection_event = due;
        capacity_exhausted = true;
      },
      record b {
        last_capacity_rejection_event_at = recorded due b.last_capacity_rejection_event_at now;
      },
    )

abbrev pub allowance : RateLimitDecision
allowance = record {
  allowed = true;
  retry_after = none;
  emit_rejection_event = false;
  capacity_exhausted = false;
}

-- The end of `consume`, on the entry that stands in the table.
unfoldable pub spend : Policy → BucketEntry → ℕ → RateLimitDecision × BucketEntry
spend p entry now =
    if leb p.floats.one entry.tokens
    then (allowance, record entry { tokens = sub p.floats entry.tokens p.floats.one })
    else let due = event_due p entry.last_rejection_event_at now in
      (
        record {
          allowed = false;
          retry_after = some (retry_after p entry.tokens);
          emit_rejection_event = due;
          capacity_exhausted = false;
        },
        record entry { last_rejection_event_at = recorded due entry.last_rejection_event_at now },
      )

abbrev pub new_entry : Policy → ℕ → BucketEntry
new_entry p now = record {
  tokens = full p;
  refilled_at = now;
  last_seen = now;
  last_rejection_event_at = none;
}

-- `consume` after the clock is checked and idle entries are evicted. `move_to_end` is a deletion
-- followed by an insertion at the end.
unfoldable pub serve : TokenBucket → String → ℕ → RateLimitDecision × TokenBucket
serve b key now = elim (Dict.get key b.entries) [
  | none ↦
      if leb b.max_keys (length b.entries)
      then saturated b now
      else let (decision, entry) = spend b.policy (new_entry b.policy now) now in
        (decision, record b { entries = Dict.put key entry b.entries })
  | some old ↦
      let (decision, entry) =
        spend b.policy (record (refill b.policy old now) { last_seen = now }) now in
      (decision, record b { entries = Dict.put key entry (Dict.delete key b.entries) })
]

abbrev pub moved_backwards : Option ℕ → ℕ → Bool
moved_backwards none now = false
moved_backwards (some last) now = ltb now last

-- `consume`: the bucket comes back beside an error too, unchanged.
unfoldable pub consume : TokenBucket → String → Reading → Result RateLimitDecision × TokenBucket
consume b key nonfinite = (raise runtime_error, b)
consume b key (finite now) =
    if moved_backwards b.last_observed_at now
    then (raise runtime_error, b)
    else let (decision, after) =
        serve
          (record b {
            entries = evict_idle_entries b.policy now b.entries;
            last_observed_at = some now;
          })
          key now in
      (ok decision, after)
