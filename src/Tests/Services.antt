-- ===== src/Tests/Services.antt =====
-- Quotas, intents, prompts and error answers on concrete inputs.
use api_gateways.Base.{
  arith, ℕ, String, Bool, true, false, Option, none, some, List, [], ◌∷◌, ◌++◌, ◌+◌, ◌-◌, ◌≡◌, ◌≤◌,
  ◌<◌, ◌↔◌, refl, codes, Text, length, ◌⊎◌, inl, inr, lookup, str_eq, if◌then◌else◌,
}
use api_gateways.Base.Json.{Json, bool, obj, field, str, end}
use api_gateways.Errors.{intent_not_found, Result, ok}
use api_gateways.Errors.Http.{ai_request_status, ai_request_status_lem}
use api_gateways.Request.Schema.{AiRequest}
use api_gateways.Prompt.{PatternRow}
use api_gateways.Quota.{QuotaService, get_quota_status, check_quota, max_tokens}
use api_gateways.Quota.Laws.{Increment, run, tokens_of, day_total}
use api_gateways.Intent.{
  get_intent_mapping_by_id, IntentRouting, IntentDb, CreateMapping, is_active,
}
use api_gateways.Intent.Service.{create_mapping, force_reload, resolve_intent}
use api_gateways.Intent.Laws.{create_mapping-resolves}
use api_gateways.Intent.Client.{ClassifierClient, ClassifierDecision, IntentTaxonomy, answered}
use api_gateways.Pipeline.Outside.{Services, Outside}
use api_gateways.Pipeline.Intent.{ChosenIntent, choose_intent}
use api_gateways.Tests.Data.{services, outside, asking}

abbrev digest : Text → String
digest s = "digest"

abbrev rows : List PatternRow
rows =
    record { name = "broken"; pattern = "("; weight = 0; description = none; is_active = true }
    ∷ record { name = "off"; pattern = "x"; weight = 0; description = none; is_active = false }
    ∷ []

abbrev quotas : QuotaService
quotas = record {
  quotas = ("acme", record { max_tokens = some 100; reset_period = none; is_active = none }) ∷ [];
  default_quota = record { max_tokens = some 10; reset_period = none; is_active = none };
}

abbrev increments : List Increment
increments =
    record { time = 10; tenant = "acme"; tokens = 30 }
    ∷ record { time = 20; tenant = "globex"; tokens = 5 }
    ∷ record { time = 20; tenant = "acme"; tokens = 40 }
    ∷ []

abbrev one_day : ℕ → String
one_day n = "2026-05-12"

day_total_example :
    ((get_quota_status one_day quotas 50 "acme" (run one_day increments [])).used_tokens ≡ 70)
    × ((check_quota one_day quotas 50 "acme" (run one_day increments []) ≡ true)
        ↔ (tokens_of "acme" increments < max_tokens quotas "acme"))
    × ((get_quota_status one_day quotas 50 "acme" (run one_day increments [])).remaining_tokens
        ≡ max_tokens quotas "acme" - 70)
day_total_example = day_total one_day quotas 50 increments "acme" (
  (omega arith, omega arith, refl),
  ((omega arith, omega arith, refl), ((omega arith, omega arith, refl), tt)),
)

abbrev mapping_db : IntentDb
mapping_db = record { mappings = []; audit = []; services = "llama" ∷ [] }

abbrev chat_mapping : CreateMapping
chat_mapping = record { intent_name = "chat"; service_id = "llama"; taxonomy_version = "1.0.0" }

abbrev chat_row : IntentRouting
chat_row = record {
  id = "m-1";
  intent_name = "chat";
  service_id = "llama";
  is_active = some true;
  taxonomy_version = "1.0.0";
  created_by = "admin";
}

abbrev created_row : IntentDb × IntentRouting
created_row = (
  record mapping_db {
    mappings = chat_row ∷ [];
    audit =
        record {
          action = "MAPPING_CREATED";
          performed_by = "admin";
          entity_id = "m-1";
          new_value = some (
              obj (
                field "intent_name" (str "chat") (
                  field "service_id" (str "llama")
                    (field "taxonomy_version" (str "1.0.0") (field "is_active" (bool true) end)))));
          old_value = none;
        }
        ∷ [];
  },
  chat_row,
)

chat_created : create_mapping "m-1" chat_mapping "admin" mapping_db ≡ ok created_row
unfolding create_mapping api_gateways.Intent.get_intent_mapping_by_intent_name
    api_gateways.Intent.create_intent_mapping
chat_created = refl

create_mapping-resolves_example :
    (resolve_intent (force_reload created_row.0) "chat" ≡ ok "llama")
    × (lookup "code" (force_reload created_row.0).cache ≡ (
        if str_eq "chat" "code"
        then some "llama"
        else lookup "code" (force_reload mapping_db).cache))
create_mapping-resolves_example =
    create_mapping-resolves "m-1" "admin" chat_mapping mapping_db created_row "code" chat_created
      refl

abbrev taxonomy : IntentTaxonomy
taxonomy = record { version = "1"; confidence_threshold = 0; candidate_labels = "chat" ∷ [] }

abbrev render : Json → String
render (str s) = s
render j = ""

abbrev zero_float : Json → Result ℕ
zero_float j = ok 0

abbrev classifier : ClassifierClient
classifier = record { base = "http://intent-classifier:3010"; enabled = true }

abbrev strange : Json
strange = obj (field "intent_label" (str "attack") end)

abbrev fallen_back : ClassifierDecision
fallen_back = record {
  intent_label = "unclassified";
  confidence = 0;
  source = "fallback";
  taxonomy_version = none;
}

abbrev asked : Services
asked = record services { intent_classifier = classifier; intent_classifier_shadow = true }

abbrev outside_asked : Outside
outside_asked = record outside {
  render = render;
  to_float = zero_float;
  taxonomy = ok taxonomy;
  classifier_reply = answered strange;
}

abbrev automatic : AiRequest
automatic = record (asking "hi") { intent = "auto" }

abbrev chosen_auto : ChosenIntent
chosen_auto = record {
  intent_name = "unclassified";
  intent_mode = "auto";
  intent_confidence = some 0;
  intent_source = some "fallback";
  intent_taxonomy_version = none;
}

auto_chosen : choose_intent asked outside_asked automatic ≡ ok chosen_auto
unfolding choose_intent api_gateways.Base.strip
auto_chosen = refl

abbrev chosen_shadow : ChosenIntent
chosen_shadow = record chosen_auto { intent_name = "chat"; intent_mode = "shadow" }

shadow_chosen : choose_intent asked outside_asked (asking "hi") ≡ ok chosen_shadow
unfolding choose_intent api_gateways.Base.strip
shadow_chosen = refl

ai_request_status_lem_example :
    (400 ≤ ai_request_status (intent_not_found "chat" "1"))
    × (ai_request_status (intent_not_found "chat" "1") ≤ 599)
    × (ai_request_status (intent_not_found "chat" "1") ≡ 422)
ai_request_status_lem_example = ai_request_status_lem (intent_not_found "chat" "1")

chat_found : get_intent_mapping_by_id created_row.0 "m-1" ≡ some chat_row
unfolding get_intent_mapping_by_id
chat_found = refl

abbrev deleted_row : IntentDb × IntentRouting
deleted_row = (
  record mapping_db {
    mappings = record chat_row { is_active = some false } ∷ [];
    audit =
        created_row.0.audit
        ++ record {
          action = "MAPPING_DEACTIVATED";
          performed_by = "admin";
          entity_id = "m-1";
          new_value = some (obj (field "is_active" (bool false) end));
          old_value = some (obj (field "is_active" (bool true) end));
        }
          ∷ [];
  },
  record chat_row { is_active = some false },
)
