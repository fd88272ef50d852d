-- ===== src/Gateway/Kong.antt =====
-- Kong's Admin API as fastapi_backend/app/api/admin/gateway_plugins.py reads it, and `_kong_request`.
use api_gateways.Base.{ℕ, Bool, ◌&&◌, Option, none, some, List, [], Text, ◌==◌, leb, if◌then◌else◌}
use api_gateways.Gateway.Outcome.{Outcome, done, http, raised}
use api_gateways.Gateway.Nested.{Entries}

-- A member of a JSON object.
pub data Field {ℓ} (A : Type ℓ) : Type ℓ where
  absent null : Field A
  given : A → Field A

pub record KongRoute : Type 0 where
  pub id : Text
  pub name : Field Text
  pub paths : Field (List Text)

-- The objects `route` and `service` of a plugin have an `id`, or none.
pub record KongPlugin : Type 0 where
  pub id : Text
  pub name : Text
  pub enabled : Bool
  pub route : Field (Option Text)
  pub service : Field (Option Text)
  pub config : Field Entries
  pub created_at : Option ℕ

pub record KongService : Type 0 where
  pub id : Text
  pub name : Field Text

-- No answer, or a status with a body, none where it is no JSON.
pub data Reply (A : Type 0) : Type 0 where
  unreachable : Reply A
  answered : ℕ → Option A → Reply A

abbrev body_of : {A : Type 0} → Option A → Outcome (Option A)
body_of none = raised "JSONDecodeError"
body_of (some a) = done (some a)

-- `_kong_request`; none stands for the answer to 204
unfoldable pub kong_request : {A : Type 0} → Reply A → Outcome (Option A)
kong_request unreachable = http 502
kong_request (answered status body) =
    if leb 200 status && leb status 299
    then (if status == 204 then done none else body_of body)
    else http status

-- `resp.get("data", [])`
abbrev pub data_of : {A : Type 0} → Option (List A) → List A
data_of none = []
data_of (some xs) = xs
