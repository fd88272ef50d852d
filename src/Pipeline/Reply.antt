-- ===== src/Pipeline/Reply.antt =====
-- fastapi_backend/app/services/ai_request_service.py: `submit_json` after the pre-flight checks, and the part
-- of infrastructure/ai_provider/ollama_client.py `chat` for `stream=False`.
pub mod Laws
use api_gateways.Base.{
  arith, ℕ, String, Bool, true, false, Option, none, some, List, [], ◌∷◌, ◌++◌, ◌+◌, ltb,
  if◌then◌else◌, Text, ◌≡◌, ◌≢◌, refl,
}
use Prim.Native.String.{◌++◌ as concat}
use api_gateways.Base.Json.{Json}
use api_gateways.Errors.{DomainError, provider_error, Exception, domain, other, Result, ok, err}
use api_gateways.Request.Schema.{AiRequest}
use api_gateways.Guard.{Redaction, redact}
use api_gateways.Quota.{increment_usage}
use api_gateways.Pipeline.World.{
  World, UsageRow, create_security_event, create_usage_log, update_ai_request_status,
}
use api_gateways.Pipeline.Outside.{Services, Outside}
use api_gateways.Pipeline.Exec.{Exec, pure, throw, commit, lift, ◌>>=◌, ◌>>◌, bind-ok}
use api_gateways.Pipeline.Preflight.{User, PreFlightResult, run_pre_flight}
use api_gateways.Pipeline.Provider.{Usage}
use api_gateways.Pipeline.Stream.{redaction_event}

-- `provider_data`: the content of its `message`, its `usage` and its `response`, where it has them.
pub record ProviderData : Type 0 where
  pub message : Option Text
  pub usage : Option Usage
  pub response : Option Json

-- What `chat` returns for `stream=False`: the body stands under `response`.
unfoldable pub ollama_data : Json → Usage → ProviderData
ollama_data body usage = record { message = none; usage = some usage; response = some body }

-- What `_call_gemini_json` returns: its `usage` is empty.
unfoldable pub gemini_data : Text → ProviderData
gemini_data s = record { message = some s; usage = none; response = none }

abbrev pub prompt_tokens : Option Usage → ℕ
prompt_tokens none = 0
prompt_tokens (some u) = u.prompt_eval_count

abbrev pub eval_tokens : Option Usage → ℕ
eval_tokens none = 0
eval_tokens (some u) = u.eval_count

abbrev pub str_of : Exception → String
str_of (other m) = m
str_of (domain (provider_error m)) = m
str_of (domain e) = ""

module _ (out : Outside) (pf : PreFlightResult) where
  -- The handler around the provider call: the row fails, and so does the request.
  unfoldable pub provider_failed : Exception → Exec ProviderData
  unfolding update_ai_request_status
  provider_failed e = do
    commit (update_ai_request_status pf.request_id "failed" (some out.now) (some (str_of e)))
    throw (domain (provider_error (concat "Failed to connect to AI provider: " (str_of e))))

  -- The usage row, then the quota counter.
  unfoldable pub charge : Option Usage → World → World
  unfolding create_usage_log increment_usage
  charge u w =
      let w1 =
        create_usage_log pf.request_id pf.tenant_id pf.resolved_service_id pf.service.model_name
          (prompt_tokens u) (eval_tokens u) w in
      record w1 {
        redis =
            increment_usage out.date_of out.now pf.tenant_id (prompt_tokens u + eval_tokens u)
              w1.redis;
      }

  abbrev pub redact_found : ProviderData → Redaction → Exec ProviderData
  redact_found d r =
      if ltb 0 r.redaction_count
      then (do
        commit (create_security_event (redaction_event pf r))
        pure (record d { message = some r.result_text }))
      else pure d

  -- "Full PII redaction on JSON response"
  unfoldable pub guard_output : ProviderData → Option Text → Exec ProviderData
  unfolding redact create_security_event
  guard_output d none = pure d
  guard_output d (some []) = pure d
  guard_output d (some (c ∷ cs)) = redact_found d (redact (c ∷ cs))

  -- From the usage to the response, whose headers name a variable that is not defined.
  unfoldable pub answer : ProviderData → Exec ProviderData
  unfolding charge guard_output update_ai_request_status
  answer d = do
    commit (charge d.usage)
    commit (update_ai_request_status pf.request_id "completed" (some out.now) none)
    guarded ← guard_output d d.message
    throw (other "name 'elapsed_ms' is not defined")

  -- After the provider call.
  unfoldable pub finish : Result ProviderData → Exec ProviderData
  unfolding provider_failed answer
  finish (ok d) = answer d
  finish (err e) = provider_failed e

-- `submit_json`, with the provider's answer
unfoldable pub submit_json :
    Services
    → Outside
    → (PreFlightResult → Result ProviderData)
    → User
    → AiRequest
    → Exec ProviderData
unfolding run_pre_flight finish
submit_json svc out provider user body = do
  pf ← run_pre_flight svc out user body
  finish out pf (provider pf)
