-- ===== src/Pipeline/Outside.antt =====
-- What a request meets: the services that `AIRequestService.__init__` receives, and, as arguments of
-- everything here, the code and the answers that the repository does not hold.
use api_gateways.Base.{ℕ, String, Bool, List, Text}
use api_gateways.Base.Json.{Json}
use api_gateways.Errors.{Result}
use api_gateways.Intent.Client.{ClassifierClient, ClassifierReply, IntentTaxonomy}
use api_gateways.Intent.Service.{IntentCache}
use api_gateways.Policy.Service.{Settings, PolicyService}
use api_gateways.Policy.Opa.{OpaReply}
use api_gateways.Prompt.{PromptSecurity}
use api_gateways.Quota.{QuotaService}

pub record Services : Type 0 where
  pub intent_cache : IntentCache
  pub policy : PolicyService
  pub quota : QuotaService
  pub prompt_security : PromptSecurity
  pub intent_classifier : ClassifierClient
  pub settings : Settings
  -- `settings.intent_auto_token` and `settings.intent_classifier_shadow`
  pub intent_auto_token : String
  pub intent_classifier_shadow : Bool

-- spaCy's entity labels, the environment variable of the low-signal intents, `float` addition, SHA-256,
-- the date of a time, `str` of a JSON value, of a list and `float`; then the answers of the classifier,
-- of the taxonomy file and of OPA, the new request id and the time.
pub record Outside : Type 0 where
  pub nlp : Text → List String
  pub low_signal_intents : Text
  pub add : ℕ → ℕ → ℕ
  pub sha256 : Text → String
  pub date_of : ℕ → String
  pub render : Json → String
  pub render_names : List String → String
  pub to_float : Json → Result ℕ
  pub classifier_reply : ClassifierReply
  pub taxonomy : Result IntentTaxonomy
  pub opa_reply : OpaReply
  pub request_id : String
  pub now : ℕ
