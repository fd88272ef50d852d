-- ===== src/Intent/Client.antt =====
-- fastapi_backend/app/infrastructure/intent_classifier/client.py and intent_classification/contract.py:
-- the call of the classifier service and what becomes of its answer. The HTTP call, `str` and `float` are arguments.
use api_gateways.Base.{
  ℕ, String, Bool, not, Option, none, some, List, [], ◌∷◌, ◌++◌, ◌&&◌, contains, str_eq,
  if◌then◌else◌,
}
use api_gateways.Base.Json.{Json, str, obj, Fields, get, num, null}
use api_gateways.Errors.{other, Result, ok, err, ◌>>=◌}

abbrev pub unclassified_label : String
unclassified_label = "unclassified"

-- `IntentTaxonomyV1`; the threshold is a `float` given by its bits.
pub record IntentTaxonomy : Type 0 where
  pub version : String
  pub confidence_threshold : ℕ
  pub candidate_labels : List String

-- `label in taxonomy.routable_labels`
unfoldable pub is_routable_intent : String → IntentTaxonomy → Bool
is_routable_intent intent taxonomy =
    contains intent (taxonomy.candidate_labels ++ unclassified_label ∷ [])

pub record ClassifierDecision : Type 0 where
  pub intent_label : String
  pub confidence : ℕ
  pub source : String
  pub taxonomy_version : Option String

-- The attributes of `IntentClassifierClient`.
pub record ClassifierClient : Type 0 where
  pub base : String
  pub enabled : Bool

-- `is_configured`
unfoldable pub is_configured : ClassifierClient → Bool
is_configured c = not (str_eq c.base "") && c.enabled

-- The HTTP call fails, or gives a JSON body.
pub data ClassifierReply : Type 0 where
  failed : ClassifierReply
  answered : Json → ClassifierReply

abbrev pub fallback_decision : ClassifierDecision
fallback_decision = record {
  intent_label = unclassified_label;
  confidence = 0;
  source = "fallback";
  taxonomy_version = none;
}

abbrev pub or_default : Json → Option Json → Json
or_default d none = d
or_default d (some v) = v

-- The answer's label, or the fallback for one that cannot be routed.
abbrev pub checked : IntentTaxonomy → ClassifierDecision → ClassifierDecision
checked taxonomy d =
    if is_routable_intent d.intent_label taxonomy
    then d
    else record d { intent_label = unclassified_label; source = "fallback" }

module _ (render : Json → String) (to_float : Json → Result ℕ) where
  abbrev pub version_of : Option Json → Option String
  version_of none = none
  version_of (some null) = none
  version_of (some v) = some (render v)

  abbrev pub read_decision : Fields → ℕ → ClassifierDecision
  read_decision body conf = record {
    intent_label = render (or_default (str unclassified_label) (get "intent_label" body));
    confidence = conf;
    source = render (or_default (str "model") (get "source" body));
    taxonomy_version = version_of (get "taxonomy_version" body);
  }

  abbrev pub read_confidence : Fields → Result ℕ
  read_confidence body = to_float (or_default (num 0) (get "confidence" body))

  abbrev pub read_fields : IntentTaxonomy → Fields → Result ClassifierDecision
  read_fields taxonomy body =
      read_confidence body >>= (λ conf. ok (checked taxonomy (read_decision body conf)))

  -- A body that is no object has no `get`.
  abbrev pub read_reply : IntentTaxonomy → ClassifierReply → Result ClassifierDecision
  read_reply taxonomy failed = ok fallback_decision
  read_reply taxonomy (answered (obj body)) = read_fields taxonomy body
  read_reply taxonomy (answered v) = err (other "AttributeError")

  -- `classify`
  unfoldable pub classify :
      ClassifierClient → Result IntentTaxonomy → ClassifierReply → Result ClassifierDecision
  unfolding is_configured is_routable_intent
  classify c taxonomy reply =
      if not (is_configured c)
      then ok fallback_decision
      else taxonomy >>= (λ tx. read_reply tx reply)
