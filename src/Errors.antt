-- ===== src/Errors.antt =====
-- fastapi_backend/app/core/exceptions.py: the domain exceptions, and Python's `raise` as a value.
-- The free-text `detail` fields, which only reach logs and messages, are left out.
pub mod Http
use api_gateways.Base.{ℕ, String, Bool, true, false, Option, List, ◌≡◌, refl, ap, arith}
use api_gateways.Policy.Schema.{EvaluationResult}

pub data DomainError : Type 0 where
  -- intent name, taxonomy version
  intent_not_found : String → String → DomainError
  service_not_found : String → DomainError
  -- tenant, service
  tenant_not_authorized : String → String → DomainError
  provider_error : String → DomainError
  tenant_id_missing : DomainError
  mapping_already_exists : String → DomainError
  mapping_not_found : String → DomainError
  -- policy, description, results, count and types of the personal data found
  policy_violation :
      String → String → List EvaluationResult → Option ℕ → Option (List String) → DomainError
  policy_sync_error : String → DomainError
  policy_evaluation_error : String → DomainError
  quota_exceeded : String → DomainError
  -- prompt hash, matched patterns, score, count and types of the personal data found
  security_violation : String → List String → ℕ → Option ℕ → Option (List String) → DomainError

-- Any other exception carries its message.
pub data Exception : Type 0 where
  domain : DomainError → Exception
  other : String → Exception

pub data Result {ℓ} (A : Type ℓ) : Type ℓ where
  ok : A → Result A
  err : Exception → Result A

infixl 5 ◌>>=◌
abbrev pub ◌>>=◌ {ℓ κ} : {A : Type ℓ} {B : Type κ} → Result A → (A → Result B) → Result B
ok a >>= f = f a
err e >>= f = err e

abbrev pub raise {ℓ} : {A : Type ℓ} → DomainError → Result A
raise e = err (domain e)

abbrev value_or {ℓ} : {A : Type ℓ} → A → Result A → A
value_or a (ok b) = b
value_or a (err e) = a

pub ok-inj {ℓ} : {A : Type ℓ} {a b : A} → ok a ≡ ok b → a ≡ b
ok-inj {a = a} e = ap (value_or a) e

pub err≢ok {ℓ} : {A : Type ℓ} {a : A} {x : Exception} → err x ≡ ok a → ⊥
err≢ok e = ground (arith, e)

-- A result of a chain is that of its last call.
pub last_call {ℓ κ} :
    {A : Type ℓ} {B : Type κ} {b : B} (f : A → Result B) (first : Result A)
    → (first >>= f) ≡ ok b
    → (a : A) × (f a ≡ ok b)
last_call f (ok a) chained = (a, chained)
last_call f (err e) chained = absurd (err≢ok chained)
