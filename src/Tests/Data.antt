-- ===== src/Tests/Data.antt =====
-- The concrete request, services and tables that the runs of the request's code start from.
use api_gateways.Base.{String, [], ◌∷◌, ◌+◌, none, some, true, false, codes}
use api_gateways.Errors.{ok, err, other}
use api_gateways.Request.Schema.{AiRequest, dev}
use api_gateways.Policy.Schema.{low, high, Policy, deny_cloud}
use api_gateways.Policy.Service.{Settings, PolicyService}
use api_gateways.Policy.Opa.{response}
use api_gateways.Prompt.{init, default_block_threshold}
use api_gateways.Intent.Client.{failed}
use api_gateways.Pipeline.World.{World, AiService}
use api_gateways.Pipeline.Outside.{Services, Outside}
use api_gateways.Pipeline.Preflight.{User, PreFlightResult, result_of}
use api_gateways.Pipeline.Intent.{as_provided}

abbrev pub settings : Settings
settings = record {
  opa_enabled = false;
  opa_strict_sync = false;
  opa_allow_local_fallback = true;
  opa_fail_closed = false;
}

abbrev pub no_cloud : Policy
no_cloud = record {
  id = "no-cloud";
  description = some "Confidential data stays here";
  condition = record { sensitivity = some high; tenant = none };
  effect = deny_cloud;
}

abbrev pub policies : PolicyService
policies = record {
  policies = no_cloud ∷ [];
  version = "1";
  local_hash = none;
  last_pushed_hash = none;
  last_pushed_version = none;
  last_sync_ok = none;
  last_sync_at = none;
  last_sync_error = none;
}

abbrev pub services : Services
services = record {
  intent_cache = record { cache = ("chat", "llama") ∷ []; version = "1.0.0" };
  policy = policies;
  quota = record {
    quotas =
        ("acme", record { max_tokens = some 1000; reset_period = none; is_active = none }) ∷ [];
    default_quota = record { max_tokens = some 0; reset_period = none; is_active = none };
  };
  prompt_security = init default_block_threshold;
  intent_classifier = record { base = ""; enabled = true };
  settings = settings;
  intent_auto_token = "auto";
  intent_classifier_shadow = false;
}

abbrev pub outside : Outside
outside = record {
  nlp = λ s. [];
  low_signal_intents = [];
  add = λ a b. a + b;
  sha256 = λ s. "digest";
  date_of = λ n. "2026-05-12";
  render = λ j. "";
  render_names = λ ns. "[]";
  to_float = λ j. ok 0;
  classifier_reply = failed;
  taxonomy = err (other "Intent taxonomy not found");
  opa_reply = response 500 none;
  request_id = "r-1";
  now = 5;
}

abbrev pub llama : AiService
llama = record {
  service_id = "llama";
  model_name = "llama3";
  provider_url = "http://ollama";
  provider_type = some "ollama";
  service_type = some "cloud";
}

abbrev pub world : World
world = record {
  permissions = record { tenant_id = "acme"; service_id = "llama"; allowed = some true } ∷ [];
  services = llama ∷ [];
  permission_audit = [];
  requests = [];
  policy_audit = [];
  security_events = [];
  usage = [];
  redis = [];
}

abbrev pub user : User
user = record { tenant_id = some "acme" }

abbrev pub asking : String → AiRequest
asking s = record {
  intent = "chat";
  messages = record { role = "user"; content = codes s } ∷ [];
  sensitivity = low;
  environment = dev;
}

abbrev pub checked : PreFlightResult
checked =
    result_of services outside (asking "hi") "acme" (as_provided (asking "hi")) "llama" llama
      (record { resolved = low; detected_types = []; total_count = 0 })
