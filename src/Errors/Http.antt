-- ===== src/Errors/Http.antt =====
-- fastapi_backend/app/core/error_handlers.py and the `except` clauses of fastapi_backend/app/api/ai.py:
-- the HTTP answer to each domain exception. Message texts and time stamps are left out.
use api_gateways.Base.{
  ℕ, String, Bool, true, false, Option, none, some, List, [], ◌∷◌, ◌≡◌, refl, ◌≤◌, if◌then◌else◌,
  arith,
}
use api_gateways.Errors.{
  DomainError, intent_not_found, service_not_found, tenant_not_authorized, provider_error,
  tenant_id_missing, mapping_already_exists, mapping_not_found, policy_violation, policy_sync_error,
  policy_evaluation_error, quota_exceeded, security_violation,
}

-- `_EXCEPTION_MAP`
unfoldable pub exception_map : DomainError → ℕ × String
exception_map (intent_not_found name version) = (404, "INTENT_NOT_FOUND")
exception_map (service_not_found id) = (404, "SERVICE_NOT_FOUND")
exception_map (tenant_not_authorized t s) = (403, "TENANT_NOT_AUTHORIZED")
exception_map (provider_error m) = (502, "PROVIDER_ERROR")
exception_map tenant_id_missing = (401, "TENANT_ID_MISSING")
exception_map (mapping_already_exists name) = (409, "INTENT_ALREADY_EXISTS")
exception_map (mapping_not_found id) = (404, "MAPPING_NOT_FOUND")
exception_map (policy_violation id d rs n ts) = (403, "POLICY_VIOLATION")
exception_map (policy_sync_error r) = (503, "POLICY_SYNC_ERROR")
exception_map (policy_evaluation_error r) = (503, "POLICY_EVALUATION_ERROR")
exception_map (quota_exceeded t) = (429, "QUOTA_EXCEEDED")
exception_map (security_violation h ps s n ts) = (400, "SECURITY_VIOLATION")

-- The entries of `extra`.
pub record Extra : Type 0 where
  pub description : Option String
  pub detected_pii_types : Option (List String)
  pub pii_count : Option ℕ
  pub matched_patterns : Option (List String)
  pub score : Option ℕ

abbrev no_extra : Extra
no_extra = record {
  description = none;
  detected_pii_types = none;
  pii_count = none;
  matched_patterns = none;
  score = none;
}

abbrev with_pii : Extra → Option ℕ → Option (List String) → Extra
with_pii e n none = e
with_pii e n (some []) = e
with_pii e n (some (t ∷ ts)) = record e { detected_pii_types = some (t ∷ ts); pii_count = n }

abbrev extra_of : DomainError → Extra
extra_of (policy_violation id d rs n ts) = with_pii (record no_extra { description = some d }) n ts
extra_of (security_violation h ps s n ts) = record no_extra {
  matched_patterns = some ps;
  score = some s;
}
extra_of e = no_extra

pub record ErrorResponse : Type 0 where
  pub status_code : ℕ
  pub code : String
  pub extra : Extra

-- `domain_exception_handler`
unfoldable pub domain_exception_handler : DomainError → ErrorResponse
unfolding exception_map
domain_exception_handler e =
    let (status, code) = exception_map e in
    record { status_code = status; code = code; extra = extra_of e }

-- The `except` clauses of `submit_ai_request`: the status of the `HTTPException`, or none where the exception is not caught.
unfoldable pub caught_status : DomainError → Option ℕ
caught_status (intent_not_found name version) = some 422
caught_status (service_not_found id) = some 404
caught_status tenant_id_missing = some 401
caught_status (tenant_not_authorized t s) = some 403
caught_status (policy_violation id d rs n ts) = some 403
caught_status (security_violation h ps s n ts) = some 403
caught_status (quota_exceeded t) = some 429
caught_status (provider_error m) = some 502
caught_status e = none

abbrev or_handler : ErrorResponse → Option ℕ → ℕ
or_handler r none = r.status_code
or_handler r (some status) = status

-- The status that a client of `POST /ai/request` receives.
unfoldable pub ai_request_status : DomainError → ℕ
unfolding caught_status domain_exception_handler
ai_request_status e = or_handler (domain_exception_handler e) (caught_status e)

abbrev pub is_violation : DomainError → Bool
is_violation (security_violation h ps s n ts) = true
is_violation e = false

abbrev pub is_unknown_intent : DomainError → Bool
is_unknown_intent (intent_not_found name version) = true
is_unknown_intent e = false

-- Every domain exception of an AI request answers with a client or server error, the one of the global handler, but for two: an unknown intent answers 422 where the handler has 404, and a blocked prompt 403 where the handler has 400.
pub ai_request_status_lem :
    (e : DomainError)
    → (400 ≤ ai_request_status e)
      × (ai_request_status e ≤ 599)
      × (ai_request_status e ≡ (
          if is_violation e
          then 403
          else if is_unknown_intent e
          then 422
          else (domain_exception_handler e).status_code))
unfolding ai_request_status
ai_request_status_lem (intent_not_found name version) = (omega arith, omega arith, refl)
ai_request_status_lem (service_not_found id) = (omega arith, omega arith, refl)
ai_request_status_lem (tenant_not_authorized t s) = (omega arith, omega arith, refl)
ai_request_status_lem (provider_error m) = (omega arith, omega arith, refl)
ai_request_status_lem tenant_id_missing = (omega arith, omega arith, refl)
ai_request_status_lem (mapping_already_exists name) = (omega arith, omega arith, refl)
ai_request_status_lem (mapping_not_found id) = (omega arith, omega arith, refl)
ai_request_status_lem (policy_violation id d rs n ts) = (omega arith, omega arith, refl)
ai_request_status_lem (policy_sync_error r) = (omega arith, omega arith, refl)
ai_request_status_lem (policy_evaluation_error r) = (omega arith, omega arith, refl)
ai_request_status_lem (quota_exceeded t) = (omega arith, omega arith, refl)
ai_request_status_lem (security_violation h ps s n ts) = (omega arith, omega arith, refl)
