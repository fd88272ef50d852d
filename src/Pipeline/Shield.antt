-- ===== src/Pipeline/Shield.antt =====
-- fastapi_backend/app/services/ai_request_service.py: `_run_prompt_security_scan`.
use api_gateways.Base.{ℕ, String, Option, none, some, List, [], ◌∷◌, if◌then◌else◌}
use Prim.Native.String.{◌++◌ as concat}
use api_gateways.Errors.{security_violation, domain}
use api_gateways.Request.Schema.{Message}
use api_gateways.Prompt.{ScanResult, scan_messages}
use api_gateways.Pipeline.World.{SecurityEvent, create_security_event, update_ai_request_status}
use api_gateways.Pipeline.Outside.{Services, Outside}
use api_gateways.Pipeline.Exec.{Exec, pure, throw, commit, ◌>>◌}

abbrev some_if_any : List String → Option (List String)
some_if_any [] = none
some_if_any (s ∷ ss) = some (s ∷ ss)

-- The event of a scan.
abbrev pub injection_event : Outside → String → ScanResult → String → SecurityEvent
injection_event out tenant_id r decision = record {
  event_type = "prompt_injection";
  tenant_id = tenant_id;
  request_id = out.request_id;
  prompt_hash = some r.prompt_hash;
  matched_patterns = some_if_any r.matched_patterns;
  score = some r.total_score;
  decision = decision;
  redacted_types = none;
  redaction_count = 0;
}

-- `_update_status_in_new_session`
unfoldable pub set_status : Outside → String → Option ℕ → Option String → Exec {0} Unit
unfolding update_ai_request_status
set_status out status completed_at error_detail =
    commit (update_ai_request_status out.request_id status completed_at error_detail)

abbrev pub refuse : Outside → String → ℕ → List String → ScanResult → Exec {0} Unit
refuse out tenant_id pii_count types r = do
  commit (create_security_event (injection_event out tenant_id r "blocked"))
  set_status out "blocked" (some out.now)
      (some (concat "Prompt injection detected: " (out.render_names r.matched_patterns)))
  throw (
      domain (
        security_violation r.prompt_hash r.matched_patterns r.total_score (some pii_count)
          (some types)))

abbrev pub note : Outside → String → ScanResult → List String → Exec {0} Unit
note out tenant_id r [] = pure tt
note out tenant_id r (p ∷ ps) =
    commit (create_security_event (injection_event out tenant_id r "allowed"))

abbrev pub act_on : Outside → String → ℕ → List String → ScanResult → Exec {0} Unit
act_on out tenant_id pii_count types r =
    if r.is_blocked
    then refuse out tenant_id pii_count types r
    else note out tenant_id r r.matched_patterns

-- `_run_prompt_security_scan`
unfoldable pub run_prompt_security_scan :
    Services → Outside → String → List Message → ℕ → List String → Exec {0} Unit
unfolding scan_messages set_status create_security_event
run_prompt_security_scan svc out tenant_id messages pii_count types =
    act_on out tenant_id pii_count types
      (scan_messages out.add out.sha256 svc.prompt_security messages)
