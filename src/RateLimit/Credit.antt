-- ===== src/RateLimit/Credit.antt =====
-- What a key may spend: the tokens that a call at a time would find, which are a full bucket if the
-- key has no entry then, or an idle one. The table and its reordering are invisible in it.
use backend_exercise.Prelude.{
  ℕ, ◌+◌, ◌-◌, ◌*◌, ◌≤◌, ◌≡◌, ◌∙◌, refl, sym, subst, Bool, true, false, Option, none, some, arith,
  String, string_eq, ◌==◌, if◌then◌else◌, Bool-cases, inl, inr, ok, raise, Result, leb, min,
}
use backend_exercise.Dict
use backend_exercise.Dict.{Dict}
use backend_exercise.RateLimit.{
  Policy, BucketEntry, TokenBucket, finite, full, is_idle, refill, spend, saturated, serve, consume,
  new_entry, moved_backwards, RateLimitDecision, refill_rate,
}
use backend_exercise.RateLimit.Entries.{
  IsSound, IsValidPolicy, IsTable, IsValid, observed, observed-IsTable, clock-le-now,
  consume-accepted, refill-IsSound, new_entry-IsSound, taken-eq,
}
use backend_exercise.RateLimit.Branches.{serve_cases, seen}
use backend_exercise.RateLimit.Evictions.{unless_idle, get-evict_idle_entries}

-- The tokens of an entry at a time: as they are if it has been refilled since, and otherwise with the
-- product of the time and the rate added, each number rounded, and no more than a full bucket.
abbrev pub topped_up : Policy → (now : ℕ) → BucketEntry → ℕ
topped_up p now e =
    let f = p.floats in
    let earned = f.round (f.round (now - e.refilled_at) 1 * refill_rate p) f.one in
    if leb now e.refilled_at then e.tokens else min (full p) (f.round (e.tokens + earned) 1)

unfoldable pub entry_credit : Policy → ℕ → Option BucketEntry → ℕ
entry_credit p now none = full p
entry_credit p now (some e) = if is_idle p now e then full p else topped_up p now e

unfoldable pub credit : TokenBucket → String → ℕ → ℕ
credit b key now = entry_credit b.policy now (Dict.get key b.entries)

pub evict-credit :
    (p : Policy) (now : ℕ) (o : Option BucketEntry)
    → entry_credit p now (unless_idle p now o o) ≡ entry_credit p now o
unfolding entry_credit
evict-credit p now none = refl
evict-credit p now (some e) = elim (Bool-cases (is_idle p now e)) [
  | inl i ↦ rw i refl
  | inr i ↦ rw i (rw i refl)
]

-- An entry that eviction has left is not idle.
pub left-not_idle :
    (p : Policy) (now : ℕ) (o : Option BucketEntry) (e : BucketEntry)
    → unless_idle p now o o ≡ some e
    → is_idle p now e ≡ false
left-not_idle p now none e h = absurd (ground arith)
left-not_idle p now (some x) e h = elim (Bool-cases (is_idle p now x)) [
  | inl i ↦ absurd (ground arith)
  | inr i ↦ let same : x ≡ e = ground arith in subst (λ y. is_idle p now y ≡ false) same i
]

some_limit : (a b c : ℕ) → 1 ≤ a → a ≤ b → 1 ≤ c → 1 ≤ b * c
some_limit a b c h k l = grind arith

-- A bucket that was brought up to date at a time holds its tokens then.
pub credit-now :
    (p : Policy) (now : ℕ) (e : BucketEntry)
    → IsValidPolicy p
    → e.refilled_at ≡ now
    → e.last_seen ≡ now
    → entry_credit p now (some e) ≡ e.tokens
unfolding entry_credit
credit-now p now e v r l =
    let nothing : 0 * p.floats.one ≡ 0 = omega arith in
    let zero : p.floats.round 0 1 ≡ 0 = rw nothing at (v.floats.whole 0 (omega arith)) in
    let limit =
      some_limit p.window_seconds p.idle_ttl_seconds p.floats.one v.window_pos v.ttl_covers_window
        v.floats.one_pos in
    let none_passed : now - e.last_seen ≡ 0 = omega arith in
    let still : p.floats.round (now - e.last_seen) 1 ≡ 0 = rw none_passed zero in
    let awake : is_idle p now e ≡ false = ground (arith, still, limit) in rw awake (ground arith)

-- What `spend` charges.
abbrev charge : Policy → Bool → ℕ
charge p true = p.floats.one
charge p false = 0

pub spend-times :
    (p : Policy) (now : ℕ) (e : BucketEntry)
    → ((spend p e now).1.refilled_at ≡ e.refilled_at) × ((spend p e now).1.last_seen ≡ e.last_seen)
unfolding spend
spend-times p now e = ground arith

spend-tokens :
    (p : Policy) (now : ℕ) (e : BucketEntry)
    → IsValidPolicy p
    → IsSound p now e
    → (spend p e now).1.tokens + charge p (spend p e now).0.allowed ≡ e.tokens
unfolding spend
spend-tokens p now e v s = elim (Bool-cases (leb p.floats.one e.tokens)) [
  | inl h ↦
      let enough : p.floats.one ≤ e.tokens = ground arith in
      let taken = taken-eq p now e v s enough in rw h (omega (arith, taken))
  | inr h ↦ rw h (omega arith)
]

spend-credit :
    (p : Policy) (now : ℕ) (e : BucketEntry)
    → IsValidPolicy p
    → IsSound p now e
    → e.refilled_at ≡ now
    → e.last_seen ≡ now
    → entry_credit p now (some (spend p e now).1) + charge p (spend p e now).0.allowed ≡ e.tokens
spend-credit p now e v s r l =
    let (same_refilled, same_seen) = spend-times p now e in
    let found = credit-now p now (spend p e now).1 v (same_refilled ∙ r) (same_seen ∙ l) in
    omega (arith, found, spend-tokens p now e v s)

pub refill-now :
    (p : Policy) (now : ℕ) (e : BucketEntry) → IsSound p now e → (refill p e now).refilled_at ≡ now
unfolding refill
refill-now p now e s = ground (arith, s.ordered, s.past)

pub awake-credit :
    (p : Policy) (now : ℕ) (e : BucketEntry)
    → is_idle p now e ≡ false
    → (refill p e now).tokens ≡ entry_credit p now (some e)
unfolding entry_credit refill
awake-credit p now e h = elim (Bool-cases (leb now e.refilled_at)) [
  | inl q ↦ rw h (rw q refl)
  | inr q ↦ rw h (rw q refl)
]

-- The charge falls on the key of the call alone.
abbrev pub share : Policy → String → String → Bool → ℕ
share p key other allowed = if key == other then charge p allowed else 0

-- A write at `key` that accounts for its charge accounts for every key.
settle :
    (p : Policy) (key other : String) (now : ℕ) (e : BucketEntry) (allowed : Bool)
    (d : Dict String BucketEntry)
    → entry_credit p now (some e) + charge p allowed ≡ entry_credit p now (Dict.get key d)
    → entry_credit p now (if key == other then some e else Dict.get other d)
        + share p key other allowed
      ≡ entry_credit p now (Dict.get other d)
settle p key other now e allowed d h = elim (Bool-cases (key == other)) [
  | inl q ↦ rw q (
      subst
        (λ k. entry_credit p now (some e) + charge p allowed ≡ entry_credit p now (Dict.get k d))
        ((string_eq.beq_iff key other).0 q) h)
  | inr q ↦ rw q (omega arith)
]

pub get-move_to_end :
    (key other : String) (e : BucketEntry) (d : Dict String BucketEntry)
    → Dict.get other (Dict.put key e (Dict.delete key d))
      ≡ (if key == other then some e else Dict.get other d)
get-move_to_end key other e d =
    rw (Dict.get-put key other e (Dict.delete key d))
      (rw (Dict.get-delete key other d) (ground arith))

serve-credit :
    (b : TokenBucket) (key other : String) (now : ℕ)
    → IsValidPolicy b.policy
    → IsTable b.policy now b.entries
    → ((e : BucketEntry) → Dict.get key b.entries ≡ some e → is_idle b.policy now e ≡ false)
    → entry_credit b.policy now (Dict.get other (serve b key now).1.entries)
        + share b.policy key other (serve b key now).0.allowed
      ≡ entry_credit b.policy now (Dict.get other b.entries)
unfolding saturated entry_credit
serve-credit b key other now v t awake =
    serve_cases b key now
      (λ r.
        entry_credit b.policy now (Dict.get other r.1.entries)
          + share b.policy key other r.0.allowed
        ≡ entry_credit b.policy now (Dict.get other b.entries))
      (λ e s. elim (Bool-cases (key == other)) [
        | inl q ↦ rw q (omega arith)
        | inr q ↦ rw q (omega arith)
      ])
      (λ e s. rw Dict.get-put (
        settle b.policy key other now _ _ b.entries (
          rw e (
            spend-credit b.policy now (new_entry b.policy now) v (new_entry-IsSound b.policy now v)
              refl refl))))
      (λ old e.
        let s = Dict.All-get (IsSound b.policy now) key old b.entries t.sound e in
        let up = refill-IsSound b.policy now old v s in
        rw get-move_to_end (
          settle b.policy key other now _ _ b.entries (
            rw e (
              spend-credit b.policy now (seen b key now old) v up (refill-now b.policy now old s)
                refl
              ∙ awake-credit b.policy now old (awake old e)))))

-- What else an accepted call fixes.
pub serve_frame :
    (b : TokenBucket) (key : String) (now : ℕ)
    → ((serve b key now).1.policy ≡ b.policy)
      × ((serve b key now).1.last_observed_at ≡ b.last_observed_at)
unfolding saturated
serve_frame b key now =
    serve_cases b key now
      (λ r. (r.1.policy ≡ b.policy) × (r.1.last_observed_at ≡ b.last_observed_at))
      (λ e s. (refl, refl)) (λ e s. (refl, refl)) (λ old e. (refl, refl))

abbrev pub granted : Result RateLimitDecision → Bool
granted (ok decision) = decision.allowed
granted (raise e) = false

-- One accepted call: the caller's key pays one token if the request is allowed and nothing if it
-- is not, and the credit of every other key is what it was, although idle entries were evicted and
-- the table reordered.
pub consume-credit :
    (b : TokenBucket) (key other : String) (now : ℕ)
    → IsValid b
    → moved_backwards b.last_observed_at now ≡ false
    → credit (consume b key (finite now)).1 other now
        + share b.policy key other (granted (consume b key (finite now)).0)
      ≡ credit b other now
unfolding credit
consume-credit b key other now v h =
    let past = clock-le-now b.last_observed_at now h in
    let evicted =
      λ (k : String). get-evict_idle_entries b.policy now b.entries k v.table.distinct in
    rw (consume-accepted b key now h, (serve_frame (observed b now) key now).0)
      (serve-credit (observed b now) key other now v.policy_valid (observed-IsTable b now past v)
          (λ e g. left-not_idle b.policy now (Dict.get key b.entries) e (sym (evicted key) ∙ g))
        ∙ rw (evicted other) (evict-credit b.policy now (Dict.get other b.entries)))
