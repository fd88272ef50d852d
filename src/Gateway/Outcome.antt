-- ===== src/Gateway/Outcome.antt =====
-- What an endpoint of fastapi_backend/app/api comes to.
use api_gateways.Base.{ℕ, String, ◌≡◌, refl, ap, arith}

-- A response, an `HTTPException` with its status, or another exception, which the server answers with 500.
pub data Outcome {ℓ} (A : Type ℓ) : Type ℓ where
  done : A → Outcome A
  http : ℕ → Outcome A
  raised : String → Outcome A

infixl 5 ◌>>=◌
abbrev pub ◌>>=◌ {ℓ κ} : {A : Type ℓ} {B : Type κ} → Outcome A → (A → Outcome B) → Outcome B
done a >>= f = f a
http status >>= f = http status
raised e >>= f = raised e

abbrev response_or {ℓ} : {A : Type ℓ} → A → Outcome A → A
response_or a (done b) = b
response_or a (http status) = a
response_or a (raised e) = a

pub done-inj {ℓ} : {A : Type ℓ} {a b : A} → done a ≡ done b → a ≡ b
done-inj {a = a} e = ap (response_or a) e

-- A chain that gives a response went through its first call.
pub >>=-eq-done {ℓ κ} :
    {A : Type ℓ} {B : Type κ} (m : Outcome A) (f : A → Outcome B) {b : B}
    → (m >>= f) ≡ done b
    → (a : A) × (m ≡ done a) × (f a ≡ done b)
>>=-eq-done (done a) f h = (a, refl, h)
>>=-eq-done (http status) f h = absurd (ground (arith, h))
>>=-eq-done (raised e) f h = absurd (ground (arith, h))
