-- ===== src/Gateway/Admission.antt =====
-- fastapi_backend/app/core/middleware.py and core/gateway_signature.py: what lets a request in, the headers that every
-- response gets, and the signature that Kong and the backend share. HMAC-SHA256 with base64 is an argument.
pub mod Laws
use api_gateways.Base.{
  ℕ, String, Bool, true, false, not, ◌&&◌, ◌||◌, Option, none, some, List, [], ◌∷◌, ◌++◌, all, Text,
  codes, text_eq, str_eq, ltb, if◌then◌else◌, Dict, insert, insert_all,
}
use api_gateways.Gateway.Outcome.{Outcome, done, http, raised, ◌>>=◌}

abbrev pub forbidden {ℓ} : {A : Type ℓ} → Outcome A
forbidden = http 403

-- The value of a header against `settings.kong_header_value`.
abbrev pub check_value : Option Text → Text → Outcome {0} Unit
check_value none v = done tt
check_value (some expected) v =
    if not (text_eq expected (codes "true")) && not (text_eq v expected) then forbidden else done tt

abbrev pub check_header : Option Text → Option Text → Outcome {0} Unit
check_header expected none = forbidden
check_header expected (some v) = check_value expected v

-- `verify_kong_header`: the setting, the method, and the header `kong-header`
unfoldable pub verify_kong_header : Option Text → Text → Option Text → Outcome {0} Unit
verify_kong_header setting method header =
    if text_eq method (codes "OPTIONS") then done tt else check_header setting header

-- A response by its headers, whose names are in lower case as they are compared.
pub record Response : Type 0 where
  pub status_code : ℕ
  pub headers : Dict Text

abbrev pub or_new : Option Text → Text → Text
or_new none new_id = new_id
or_new (some []) new_id = new_id
or_new (some (c ∷ s)) new_id = c ∷ s

-- `CorrelationIdMiddleware.dispatch`: the request's header, a new UUID, and the rest of the application, which sees the id
unfoldable pub correlation_dispatch :
    Option Text → Text → (Text → Outcome Response) → Outcome Response
correlation_dispatch header new_id call_next =
    let cid : Text = or_new header new_id in
    call_next cid >>= (λ response.
      done (record response { headers = insert "x-correlation-id" cid response.headers }))

-- `SECURITY_HEADERS`
abbrev pub security_headers : Dict Text
security_headers =
    ("x-content-type-options", codes "nosniff")
    ∷ ("x-frame-options", codes "DENY")
    ∷ ("x-xss-protection", codes "1; mode=block")
    ∷ ("strict-transport-security", codes "max-age=31536000; includeSubDomains")
    ∷ ("referrer-policy", codes "strict-origin-when-cross-origin")
    ∷ ("permissions-policy", codes "camera=(), microphone=(), geolocation=()")
    ∷ []

-- `SecurityHeadersMiddleware.dispatch`
unfoldable pub security_dispatch : Outcome Response → Outcome Response
unfolding insert_all
security_dispatch call_next = call_next >>= (λ response.
    done (record response { headers = insert_all security_headers response.headers }))

-- The two middlewares around the application, as main.py adds them.
unfoldable pub middleware_stack : Option Text → Text → (Text → Outcome Response) → Outcome Response
unfolding correlation_dispatch security_dispatch
middleware_stack header new_id app =
    correlation_dispatch header new_id (λ cid. security_dispatch (app cid))

pub record Signed : Type 0 where
  pub method : Text
  pub path : Text
  pub timestamp : Text
  pub nonce : Text

abbrev pub bar : Text
bar = codes "|"

-- `gateway_canonical_string`
unfoldable pub gateway_canonical_string : Signed → Text
gateway_canonical_string r =
    r.method ++ (bar ++ (r.path ++ (bar ++ (r.timestamp ++ (bar ++ r.nonce)))))

-- What a caller hands in as the signature.
pub data Provided : Type 0 where
  no_text : Provided
  text : Text → Provided

abbrev pub is_ascii : Text → Bool
is_ascii = all (λ c. ltb c 128)

module _ (mac : Text → Text → Text) where
  -- `gateway_compute_signature`
  unfoldable pub gateway_compute_signature : Text → Signed → Text
  unfolding gateway_canonical_string
  gateway_compute_signature secret r = mac secret (gateway_canonical_string r)

  -- `gateway_verify_signature`
  unfoldable pub gateway_verify_signature : Text → Signed → Provided → Outcome Bool
  unfolding gateway_compute_signature
  gateway_verify_signature secret r no_text = done false
  gateway_verify_signature secret r (text provided) =
      if is_ascii provided
      then done (text_eq (gateway_compute_signature secret r) provided)
      else raised "UnicodeEncodeError"
