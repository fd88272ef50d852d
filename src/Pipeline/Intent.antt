-- ===== src/Pipeline/Intent.antt =====
-- fastapi_backend/app/services/ai_request_service.py: which intent a request is served under.
pub mod Laws
use api_gateways.Base.{
  ℕ, String, Bool, true, false, not, Option, none, some, List, [], ◌∷◌, ◌++◌, ◌&&◌, str_eq,
  if◌then◌else◌, Text, codes, strip,
}
use api_gateways.Errors.{Result, ok, ◌>>=◌}
use api_gateways.Request.Schema.{Message, AiRequest}
use api_gateways.Intent.Client.{
  unclassified_label, ClassifierDecision, ClassifierClient, is_configured, classify,
}
use api_gateways.Pipeline.Outside.{Services, Outside}

-- `f"{role}: {content}"` of the messages that say something
abbrev parts : List Message → List Text
parts [] = []
parts (m ∷ ms) = add_part (strip m.content) (parts ms)
  where
    add_part : Text → List Text → List Text
    add_part [] rest = rest
    add_part (c ∷ cs) rest = (codes m.role ++ codes ": " ++ c ∷ cs) ∷ rest

-- `"\n".join(parts)`
abbrev join_lines : List Text → Text
join_lines [] = []
join_lines (p ∷ []) = p
join_lines (p ∷ q ∷ ps) = p ++ 10 ∷ join_lines (q ∷ ps)

-- `_messages_to_classify_text`
unfoldable pub messages_to_classify_text : AiRequest → Text
messages_to_classify_text body = strip (join_lines (parts body.messages))

abbrev pub is_empty : Text → Bool
is_empty [] = true
is_empty (c ∷ cs) = false

-- The local variables that the classification sets.
pub record ChosenIntent : Type 0 where
  pub intent_name : String
  pub intent_mode : String
  pub intent_confidence : Option ℕ
  pub intent_source : Option String
  pub intent_taxonomy_version : Option String

abbrev pub as_provided : AiRequest → ChosenIntent
as_provided body = record {
  intent_name = body.intent;
  intent_mode = "manual";
  intent_confidence = none;
  intent_source = none;
  intent_taxonomy_version = none;
}

abbrev pub with_decision : ChosenIntent → String → ClassifierDecision → ChosenIntent
with_decision c mode d = record c {
  intent_mode = mode;
  intent_confidence = some d.confidence;
  intent_source = some d.source;
  intent_taxonomy_version = d.taxonomy_version;
}

abbrev pub ask : Services → Outside → Result ClassifierDecision
ask svc out =
    classify out.render out.to_float svc.intent_classifier out.taxonomy out.classifier_reply

-- The branches, by what they test: the automatic token, the shadow mode, and whether there is a text and a classifier to ask.
abbrev pub choose_by : Services → Outside → AiRequest → Bool → Bool → Bool → Result ChosenIntent
choose_by svc out body is_auto shadow can_ask =
    if is_auto
    then (if can_ask
        then ask svc out >>= (λ d.
          ok (with_decision (record (as_provided body) { intent_name = d.intent_label }) "auto" d))
        else ok (record (as_provided body) {
          intent_name = unclassified_label;
          intent_mode = "fallback";
        }))
    else if shadow && can_ask
    then ask svc out >>= (λ d. ok (with_decision (as_provided body) "shadow" d))
    else ok (as_provided body)

-- The part "Intent classification (auto) or shadow logging" of `_run_pre_flight`.
unfoldable pub choose_intent : Services → Outside → AiRequest → Result ChosenIntent
unfolding messages_to_classify_text is_configured classify
choose_intent svc out body =
    choose_by svc out body (str_eq body.intent svc.intent_auto_token) svc.intent_classifier_shadow
      (not (is_empty (messages_to_classify_text body)) && is_configured svc.intent_classifier)
