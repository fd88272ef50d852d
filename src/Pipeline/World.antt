-- ===== src/Pipeline/World.antt =====
-- The tables that a request reads and writes, fastapi_backend/app/repositories/*.py, and Redis.
-- Time stamps that the database sets, row numbers and the cost estimate (a `float`) are left out.
use api_gateways.Base.{
  ℕ, String, Bool, false, Option, none, some, List, [], ◌∷◌, ◌++◌, ◌+◌, ◌&&◌, filter, any, str_eq,
  if◌then◌else◌,
}
use api_gateways.Policy.Schema.{PolicyEffect, Decision, EvaluationResult}
use api_gateways.Quota.{Redis}

-- `TenantServicePermission`
pub record Permission : Type 0 where
  pub tenant_id : String
  pub service_id : String
  pub allowed : Option Bool

-- `PermissionAuditLog`
pub record PermissionAudit : Type 0 where
  pub tenant_id : String
  pub service_id : String
  pub action : String
  pub performed_by : String
  pub reason : String
  pub intent : Option String

-- `AIService`
pub record AiService : Type 0 where
  pub service_id : String
  pub model_name : String
  pub provider_url : String
  pub provider_type : Option String
  pub service_type : Option String

-- `AIRequestRecord`
pub record RequestRow : Type 0 where
  pub request_id : String
  pub tenant_id : String
  pub intent : String
  pub resolved_service_id : String
  pub sensitivity : String
  pub resolved_sensitivity : Option String
  pub environment : String
  pub status : String
  pub started_at : ℕ
  pub completed_at : Option ℕ
  pub error_detail : Option String

-- The `context` of an audit row.
pub record AuditContext : Type 0 where
  pub sensitivity : String
  pub tenant : String
  pub service_type : Option String

-- `PolicyEvaluationAuditLog`
pub record PolicyAudit : Type 0 where
  pub request_id : String
  pub policy_id : String
  pub effect : PolicyEffect
  pub decision : Decision
  pub context : AuditContext

-- `SecurityEvent`
pub record SecurityEvent : Type 0 where
  pub event_type : String
  pub tenant_id : String
  pub request_id : String
  pub prompt_hash : Option String
  pub matched_patterns : Option (List String)
  pub score : Option ℕ
  pub decision : String
  pub redacted_types : Option (List String)
  pub redaction_count : ℕ

-- `UsageTokenLog`
pub record UsageRow : Type 0 where
  pub request_id : String
  pub tenant_id : String
  pub service_id : String
  pub model_name : String
  pub input_tokens : ℕ
  pub output_tokens : ℕ
  pub total_tokens : ℕ

pub record World : Type 0 where
  pub permissions : List Permission
  pub services : List AiService
  pub permission_audit : List PermissionAudit
  pub requests : List RequestRow
  pub policy_audit : List PolicyAudit
  pub security_events : List SecurityEvent
  pub usage : List UsageRow
  pub redis : Redis

abbrev first {ℓ} : {A : Type ℓ} → List A → Option A
first [] = none
first (x ∷ xs) = some x

abbrev pub allows : Option Permission → Bool
allows none = false
allows (some p) = elim p.allowed [ none ↦ false | some b ↦ b ]

-- The row of `tenant_service_permissions` for the pair.
unfoldable pub find_permission : String → String → World → Option Permission
find_permission tenant_id service_id w =
    first
      (filter (λ p. str_eq p.tenant_id tenant_id && str_eq p.service_id service_id) w.permissions)

unfoldable pub is_permitted : String → String → World → Bool
unfolding find_permission
is_permitted tenant_id service_id w = allows (find_permission tenant_id service_id w)

-- The audit row of `check_tenant_service_permission_and_audit`; what it returns is `is_permitted`.
unfoldable pub audit_permission : String → String → String → Bool → World → World
audit_permission tenant_id service_id intent is_allowed w =
    let row : PermissionAudit = record {
      tenant_id = tenant_id;
      service_id = service_id;
      action = if is_allowed then "ALLOW" else "DENY";
      performed_by = "system";
      reason = if is_allowed then "Policy check passed" else "Policy check failed";
      intent = some intent;
    } in
    record w { permission_audit = w.permission_audit ++ row ∷ [] }

-- `get_ai_service_by_id`
unfoldable pub get_ai_service_by_id : String → World → Option AiService
get_ai_service_by_id service_id w = first (filter (λ s. str_eq s.service_id service_id) w.services)

-- The primary key of `ai_requests`
unfoldable pub has_request : String → World → Bool
has_request request_id w = any (λ r. str_eq r.request_id request_id) w.requests

-- `create_ai_request`, when the key is free
unfoldable pub create_ai_request : RequestRow → World → World
create_ai_request row w = record w { requests = w.requests ++ row ∷ [] }

-- An `UPDATE … WHERE request_id = …`
unfoldable pub update_request :
    String → (RequestRow → RequestRow) → List RequestRow → List RequestRow
update_request request_id f [] = []
update_request request_id f (r ∷ rs) =
    (if str_eq r.request_id request_id then f r else r) ∷ update_request request_id f rs

abbrev or_keep {ℓ} : {A : Type ℓ} → Option A → Option A → Option A
or_keep none old = old
or_keep (some a) old = some a

-- `update_ai_request_status`
unfoldable pub update_ai_request_status : String → String → Option ℕ → Option String → World → World
unfolding update_request
update_ai_request_status request_id status completed_at error_detail w = record w {
  requests =
      update_request request_id
        (λ r. record r {
          status = status;
          completed_at = or_keep completed_at r.completed_at;
          error_detail = or_keep error_detail r.error_detail;
        })
        w.requests;
}

-- `update_resolved_sensitivity`
unfoldable pub update_resolved_sensitivity : String → String → World → World
unfolding update_request
update_resolved_sensitivity request_id level w = record w {
  requests =
      update_request request_id (λ r. record r { resolved_sensitivity = some level }) w.requests;
}

abbrev pub policy_audit_row : String → AuditContext → EvaluationResult → PolicyAudit
policy_audit_row request_id context res = record {
  request_id = request_id;
  policy_id = res.policy_id;
  effect = res.effect;
  decision = res.decision;
  context = context;
}

-- `create_policy_audit_log`
unfoldable pub create_policy_audit_log : String → AuditContext → EvaluationResult → World → World
create_policy_audit_log request_id context res w = record w {
  policy_audit = w.policy_audit ++ policy_audit_row request_id context res ∷ [];
}

-- `create_security_event`
unfoldable pub create_security_event : SecurityEvent → World → World
create_security_event event w = record w { security_events = w.security_events ++ event ∷ [] }

-- `create_usage_log`
unfoldable pub create_usage_log : String → String → String → String → ℕ → ℕ → World → World
create_usage_log request_id tenant_id service_id model_name input_tokens output_tokens w =
    let row : UsageRow = record {
      request_id = request_id;
      tenant_id = tenant_id;
      service_id = service_id;
      model_name = model_name;
      input_tokens = input_tokens;
      output_tokens = output_tokens;
      total_tokens = input_tokens + output_tokens;
    } in
    record w { usage = w.usage ++ row ∷ [] }
