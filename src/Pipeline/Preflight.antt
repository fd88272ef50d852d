-- ===== src/Pipeline/Preflight.antt =====
-- fastapi_backend/app/services/ai_request_service.py: `_run_pre_flight`, part by part.
pub mod Gate
pub mod Trail
use api_gateways.Base.{
  ℕ, String, Bool, true, false, Option, none, some, List, [], ◌∷◌, str_eq, if◌then◌else◌, Text,
  codes,
}
use api_gateways.Errors.{
  DomainError, tenant_not_authorized, quota_exceeded, service_not_found, provider_error,
  policy_violation, Exception, domain, other, Result, ok, err,
}
use api_gateways.Request.Schema.{Message, Environment, dev, prod, AiRequest}
use api_gateways.Policy.Schema.{
  SensitivityLevel, level_value, EvaluationResult, SensitivityValue, level, Context,
}
use api_gateways.Policy.Opa.{evaluate_async}
use api_gateways.Inspector.{Inspection, inspect_content}
use api_gateways.Quota.{check_quota}
use api_gateways.Intent.Service.{resolve_intent}
use api_gateways.Pipeline.World.{
  World, AiService, RequestRow, AuditContext, is_permitted, audit_permission, get_ai_service_by_id,
  has_request, create_ai_request, update_resolved_sensitivity, create_policy_audit_log,
}
use api_gateways.Pipeline.Outside.{Services, Outside}
use api_gateways.Pipeline.Exec.{Exec, pure, throw, commit, gets, lift, guard, ◌>>=◌, ◌>>◌}
use api_gateways.Pipeline.Intent.{ChosenIntent, choose_intent}
use api_gateways.Pipeline.Shield.{run_prompt_security_scan}

-- The claims of the caller's token that are read.
pub record User : Type 0 where
  pub tenant_id : Option String

abbrev pub environment_value : Environment → String
environment_value dev = "dev"
environment_value prod = "prod"

-- `current_user.get("tenant_id") or "tenant-a"`
abbrev pub tenant_of : User → String
tenant_of user = elim user.tenant_id [
  | none ↦ "tenant-a"
  | some t ↦ if str_eq t "" then "tenant-a" else t
]

-- `_PreFlightResult`
pub record PreFlightResult : Type 0 where
  pub request_id : String
  pub tenant_id : String
  pub provided_intent : String
  pub chosen : ChosenIntent
  pub resolved_service_id : String
  pub service : AiService
  pub final_sensitivity : SensitivityLevel
  pub detected_pii_types : List String
  pub pii_count : ℕ
  pub messages : List Message

module _ (svc : Services) (out : Outside) where
  -- The call that checks a permission and writes the audit row.
  unfoldable pub check_permission : String → String → String → Exec Bool
  unfolding is_permitted audit_permission
  check_permission tenant_id service_id intent w =
      let is_allowed = is_permitted tenant_id service_id w in
      (audit_permission tenant_id service_id intent is_allowed w, ok is_allowed)

  abbrev pub found_service : String → Option AiService → Exec AiService
  found_service service_id none = throw (domain (service_not_found service_id))
  found_service service_id (some s) = pure s

  -- Permission, quota and service lookup.
  unfoldable pub admit : String → String → String → Exec AiService
  unfolding check_permission check_quota get_ai_service_by_id
  admit tenant_id service_id intent = do
    is_allowed ← check_permission tenant_id service_id intent
    guard is_allowed (tenant_not_authorized tenant_id service_id)
    has_quota ← gets (λ w. check_quota out.date_of svc.quota out.now tenant_id w.redis)
    guard has_quota (quota_exceeded tenant_id)
    service ← gets (get_ai_service_by_id service_id)
    found_service service_id service

  abbrev pub new_row : AiRequest → String → String → String → RequestRow
  new_row body tenant_id intent service_id = record {
    request_id = out.request_id;
    tenant_id = tenant_id;
    intent = intent;
    resolved_service_id = service_id;
    sensitivity = level_value body.sensitivity;
    resolved_sensitivity = none;
    environment = environment_value body.environment;
    status = "received";
    started_at = out.now;
    completed_at = none;
    error_detail = none;
  }

  abbrev pub insert_unless : Bool → RequestRow → Exec {0} Unit
  insert_unless true row = throw (domain (provider_error "Failed to persist request record"))
  insert_unless false row = commit (create_ai_request row)

  -- "Persist tracking record"; the insert fails when the id is taken.
  unfoldable pub persist : RequestRow → Exec {0} Unit
  unfolding has_request create_ai_request
  persist row = do taken ← gets (has_request row.request_id); insert_unless taken row

  abbrev pub policy_context : String → AiService → Inspection → Context
  policy_context tenant_id service r = record {
    sensitivity = some (level r.resolved);
    tenant = some tenant_id;
    service_type = text_of_type service.service_type;
  }
    where
      text_of_type : Option String → Option Text
      text_of_type none = none
      text_of_type (some s) = some (codes s)

  abbrev pub audit_context : String → AiService → Inspection → AuditContext
  audit_context tenant_id service r = record {
    sensitivity = level_value r.resolved;
    tenant = tenant_id;
    service_type = service.service_type;
  }

  -- The loops over `create_policy_audit_log`.
  unfoldable pub audit_results : AuditContext → List EvaluationResult → Exec {0} Unit
  unfolding create_policy_audit_log
  audit_results context [] = pure tt
  audit_results context (res ∷ rs) = do
    commit (create_policy_audit_log out.request_id context res)
    audit_results context rs

  abbrev pub audited :
      String → AiService → Inspection → Result (List EvaluationResult) → Exec {0} Unit
  audited tenant_id service r (ok results) =
      audit_results (audit_context tenant_id service r) results
  audited tenant_id service r (err (domain (policy_violation id description results n types))) =
      audit_results (audit_context tenant_id service r) results
      >> throw (
          domain
            (policy_violation id description results (some r.total_count) (some r.detected_types)))
  audited tenant_id service r (err e) = throw e

  -- "Policy evaluation"
  unfoldable pub check_policies : String → AiService → Inspection → Exec {0} Unit
  unfolding evaluate_async audit_results
  check_policies tenant_id service r = audited tenant_id service r (
      evaluate_async out.render svc.settings svc.policy (policy_context tenant_id service r)
        out.opa_reply)

  -- From the tracking record to the input shield.
  unfoldable pub screen : AiRequest → String → String → String → AiService → Exec Inspection
  unfolding persist inspect_content update_resolved_sensitivity check_policies
      run_prompt_security_scan
  screen body tenant_id intent service_id service =
      let r = inspect_content out.nlp out.low_signal_intents body in
      do
        persist (new_row body tenant_id intent service_id)
        commit (update_resolved_sensitivity out.request_id (level_value r.resolved))
        check_policies tenant_id service r
        run_prompt_security_scan svc out tenant_id body.messages r.total_count r.detected_types
        pure r

  abbrev pub result_of :
      AiRequest → String → ChosenIntent → String → AiService → Inspection → PreFlightResult
  result_of body tenant_id chosen service_id service r = record {
    request_id = out.request_id;
    tenant_id = tenant_id;
    provided_intent = body.intent;
    chosen = chosen;
    resolved_service_id = service_id;
    service = service;
    final_sensitivity = r.resolved;
    detected_pii_types = r.detected_types;
    pii_count = r.total_count;
    messages = body.messages;
  }

  -- `_run_pre_flight`
  unfoldable pub run_pre_flight : User → AiRequest → Exec PreFlightResult
  unfolding choose_intent resolve_intent admit screen
  run_pre_flight user body = do
    chosen ← lift (choose_intent svc out body)
    service_id ← lift (resolve_intent svc.intent_cache chosen.intent_name)
    service ← admit (tenant_of user) service_id chosen.intent_name
    r ← screen body (tenant_of user) chosen.intent_name service_id service
    pure (result_of body (tenant_of user) chosen service_id service r)
