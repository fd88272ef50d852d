-- ===== src/Gateway/Tokens.antt =====
-- fastapi_backend/app/core/security.py: the token of a request and the keys of Keycloak, which the process keeps. The
-- reading of a token's header and its verification against a key are arguments, and so is the answer of Keycloak.
pub mod Laws
use api_gateways.Base.{
  ℕ, String, Bool, true, false, Option, none, some, List, [], ◌∷◌, Text, codes, text_eq, text_in,
  if◌then◌else◌,
}
use api_gateways.Gateway.Outcome.{Outcome, done, http, raised, ◌>>=◌}
use api_gateways.Gateway.Kong.{Field, absent, null, given}

-- A key of the key set, by its `kid` and its numbers.
pub record RsaKey : Type 0 where
  pub kid : Option Text
  pub n : Text
  pub e : Text

-- The claims that are read: `realm_access` with its `roles`.
pub record User : Type 0 where
  pub sub : Text
  pub realm_access : Field (Option (List Text))

abbrev pub same_kid : Option Text → Option Text → Bool
same_kid none none = true
same_kid (some k) (some j) = text_eq k j
same_kid none (some j) = false
same_kid (some k) none = false

-- The loop over the keys: the first with the token's `kid`.
unfoldable pub find_key : Option Text → List RsaKey → Option RsaKey
find_key kid [] = none
find_key kid (key ∷ keys) = if same_kid key.kid kid then some key else find_key kid keys

abbrev pub Jwks : Type 0
Jwks = Option (List RsaKey)

-- `get_jwks`: what is kept, and the keys
unfoldable pub get_jwks : Outcome (List RsaKey) → Jwks → Jwks × Outcome (List RsaKey)
get_jwks fetched (some keys) = (some keys, done keys)
get_jwks (done keys) none = (some keys, done keys)
get_jwks (http status) none = (none, http status)
get_jwks (raised e) none = (none, raised e)

module _ (unverified_kid : Text → Outcome (Option Text))
    (decode : Text → RsaKey → Outcome User) where
  abbrev pub decode_with : Text → Option RsaKey → Outcome User
  decode_with token none = raised "JWTError"
  decode_with token (some key) = decode token key

  -- The body of the `try`, once the keys are there.
  unfoldable pub verify_token : Text → List RsaKey → Outcome User
  unfolding find_key
  verify_token token keys = unverified_kid token >>= (λ kid. decode_with token (find_key kid keys))

  -- Any exception empties what is kept and answers 401.
  abbrev pub or_unauthorized : Jwks → Outcome User → Jwks × Outcome User
  or_unauthorized kept (done user) = (kept, done user)
  or_unauthorized kept (http status) = (none, http 401)
  or_unauthorized kept (raised e) = (none, http 401)

  -- `get_current_user`
  unfoldable pub get_current_user : Outcome (List RsaKey) → Text → Jwks → Jwks × Outcome User
  unfolding get_jwks verify_token
  get_current_user fetched token kept =
      let (now, keys) = get_jwks fetched kept in
      or_unauthorized now (keys >>= (λ ks. verify_token token ks))

abbrev pub roles_of : Field (Option (List Text)) → Outcome (List Text)
roles_of absent = done []
roles_of null = raised "AttributeError"
roles_of (given none) = done []
roles_of (given (some roles)) = done roles

-- `require_admin`
unfoldable pub require_admin : User → Outcome User
require_admin user =
    roles_of user.realm_access
    >>= (λ roles. if text_in (codes "admin") roles then done user else http 403)
