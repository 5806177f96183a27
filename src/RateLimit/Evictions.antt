-- ===== src/RateLimit/Evictions.antt =====
-- What `_evict_idle_entries` does to a table with distinct keys.
use backend_exercise.Prelude.{
  ℕ, ◌≡◌, refl, Option, none, some, [], ◌∷◌, arith, String, string_eq, if◌then◌else◌, Bool-cases,
  inl, inr,
}
use backend_exercise.Dict
use backend_exercise.Dict.{Dict, Distinct}
use backend_exercise.RateLimit.{Policy, BucketEntry, is_idle, evict_loop, evict_idle_entries}

abbrev pub unless_idle : Policy → ℕ → Option BucketEntry → Option BucketEntry → Option BucketEntry
unless_idle p now none rest = rest
unless_idle p now (some entry) rest = if is_idle p now entry then none else rest

pub get-evict_loop :
    (p : Policy) (now : ℕ) (items d : Dict String BucketEntry) (k : String)
    → Distinct items
    → Dict.get k (evict_loop p now items d) ≡ unless_idle p now (Dict.get k items) (Dict.get k d)
unfolding evict_loop Dict.get
get-evict_loop p now [] d k h = refl
get-evict_loop p now ((j, e) ∷ items) d k h = ground (
  arith,
  string_eq.beq_iff j k,
  Dict.get-delete j k d,
  get-evict_loop p now items (if is_idle p now e then Dict.delete j d else d) k h.1,
)

-- Of a table with distinct keys, eviction takes away the idle entries and nothing else.
pub get-evict_idle_entries :
    (p : Policy) (now : ℕ) (d : Dict String BucketEntry) (k : String)
    → Distinct d
    → Dict.get k (evict_idle_entries p now d) ≡ unless_idle p now (Dict.get k d) (Dict.get k d)
unfolding evict_idle_entries
get-evict_idle_entries p now d k h = get-evict_loop p now d d k h

-- What every deletion keeps, the loop keeps.
pub evict_loop_keeps :
    (Q : Dict String BucketEntry → Type 0)
    → ((k : String) (d : Dict String BucketEntry) → Q d → Q (Dict.delete k d))
    → (p : Policy) (now : ℕ) (items d : Dict String BucketEntry) → Q d
    → Q (evict_loop p now items d)
unfolding evict_loop
evict_loop_keeps Q step p now [] d q = q
evict_loop_keeps Q step p now ((j, e) ∷ items) d q = elim (Bool-cases (is_idle p now e)) [
  | inl b ↦ rw b (evict_loop_keeps Q step p now items (Dict.delete j d) (step j d q))
  | inr b ↦ rw b (evict_loop_keeps Q step p now items d q)
]
