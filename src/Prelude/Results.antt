-- ===== src/Prelude/Results.antt =====
-- Python's exceptions as values. An exception is named by its class; the program never reads the
-- text of a message to decide anything.
use mathlib.Core.Path.{◌≡◌, refl, ap}
use mathlib.Core.Bool.{Bool, true, false}

pub data Error : Type 0 where
  value_error type_error runtime_error overflow_error : Error
  authentication_error identity_conflict_error not_found_error : Error
  invalid_cursor_error rate_limit_error index_error : Error
  projection_state_error version_mismatch_error transition_error candidate_error : Error

pub data Result {ℓ} (T : Type ℓ) : Type ℓ where
  ok : T → Result T
  raise : Error → Result T

infixl 5 ◌>>=◌ ◌>>◌
abbrev pub ◌>>=◌ {ℓ κ} : {T : Type ℓ} {U : Type κ} → Result T → (T → Result U) → Result U
ok t >>= next = next t
raise error >>= next = raise error

abbrev pub ◌>>◌ {ℓ} : {T : Type ℓ} → Result (Unit {0}) → Result T → Result T
m >> next = m >>= λ unit. next

-- `if not b: raise e`
abbrev pub require : Bool → Error → Result (Unit {0})
require true error = ok tt
require false error = raise error

-- Inversion of a successful bind.
pub >>=-eq-ok {ℓ κ} :
    {T : Type ℓ} {U : Type κ} (first : Result T) (next : T → Result U) {result : U}
    → (first >>= next) ≡ ok result
    → (t : T) × (first ≡ ok t) × (next t ≡ ok result)
>>=-eq-ok (ok t) next h = (t, refl, h)
>>=-eq-ok (raise error) next h = cc

pub >>-eq-ok {ℓ} :
    {U : Type ℓ} (first : Result (Unit {0})) (next : Result U) {result : U}
    → (first >> next) ≡ ok result
    → next ≡ ok result
>>-eq-ok (ok t) next h = h
>>-eq-ok (raise error) next h = cc

abbrev known {ℓ} : {T : Type ℓ} → T → Result T → T
known t (ok u) = u
known t (raise error) = t

pub ok-inj {ℓ} : {T : Type ℓ} (t u : T) → ◌≡◌ {A = Result T} (ok t) (ok u) → t ≡ u
ok-inj t u h = ap (known t) h
