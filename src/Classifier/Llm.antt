-- ===== src/Classifier/Llm.antt =====
-- `LLMClassifier.classify` of intent_classifier_service/app/llm_classifier.py: two attempts at the model's server,
-- and what becomes of its answer. The prompts that are sent are left out.
pub mod Laws
use api_gateways.Base.{
  ℕ, zero, suc, ◌+◌, Bool, true, false, not, ◌&&◌, Option, none, some, List, [], ◌∷◌, ◌++◌, Text,
  codes, strip, text_eq, text_in, if◌then◌else◌,
}
use api_gateways.Base.Json.{
  Json, null, bool, num, str, arr, obj, Items, nil, cons, Fields, end, get, truthy,
}
use api_gateways.Errors.{other, Result, ok, err, ◌>>=◌}
use api_gateways.Classifier.Outside.{ToFloat, invalid, overflow, number, Outside}

abbrev pub unclassified : Text
unclassified = codes "unclassified"

-- What an attempt at the server comes to: a time-out or an `HTTPError`, another exception, or a body, none where
-- it is no JSON.
pub data Post : Type 0 where
  transient unexpected : Post
  answered : Option Json → Post

-- The `for` loop, with the rounds left and the attempt: how many requests went out, and the response.
unfoldable pub request : ℕ → ℕ → (ℕ → Post) → ℕ × Option (Option Json)
request zero attempt posts = (attempt, none)
request (suc left) attempt posts = elim (posts attempt) [
  | answered body ↦ (suc attempt, some body)
  | unexpected ↦ (suc attempt, none)
  | transient ↦ request left (suc attempt) posts
]

pub record LlmResult (F : Type 0) : Type 0 where
  pub intent : Text
  pub confidence : F
  pub reasoning : Text
  pub multi_intent : List Text

abbrev pub or_else : Json → Option Json → Json
or_else d none = d
or_else d (some v) = v

-- `self._labels`
abbrev pub all_labels : List Text → List Text
all_labels candidate_labels = candidate_labels ++ unclassified ∷ []

abbrev or_not_applicable : Text → Text
or_not_applicable [] = codes "n/a"
or_not_applicable (c ∷ s) = c ∷ s

module _ (o : Outside) where
  open o use {Float, lt, zero_float, one_float, to_float, render, loads}

  -- `_FALLBACK_RESULT`
  unfoldable pub fallback_result : LlmResult Float
  fallback_result = record {
    intent = unclassified;
    confidence = zero_float;
    reasoning = codes "llm_error";
    multi_intent = [];
  }

  -- `max(0.0, min(1.0, c))`, where Python takes the first argument unless the second is smaller, or greater
  unfoldable pub clamp : Float → Float
  clamp c =
      let m : Float = if lt c one_float then c else one_float in
      if lt zero_float m then m else zero_float

  abbrev text_or_empty : Option Json → Text
  text_or_empty none = []
  text_or_empty (some v) = if truthy v then render v else []

  -- `str((outer.get("message") or {}).get("content") or "")`
  abbrev message_content : Option Json → Result Text
  message_content none = ok []
  message_content (some (obj fs)) = ok (text_or_empty (get "content" fs))
  message_content (some v) = if truthy v then err (other "AttributeError") else ok []

  abbrev outer_content : Json → Result Text
  outer_content (obj fs) = message_content (get "message" fs)
  outer_content v = err (other "AttributeError")

  abbrev load_content : Text → Option Json
  load_content [] = loads (codes "{}")
  load_content (c ∷ s) = loads (c ∷ s)

  -- The payload, none where a `ValueError` gives the fallback.
  unfoldable pub read_payload : Option Json → Result (Option Json)
  read_payload none = ok none
  read_payload (some outer) = outer_content outer >>= (λ content. ok (load_content content))

  abbrev float_or_zero : ToFloat Float → Result Float
  float_or_zero invalid = ok zero_float
  float_or_zero overflow = err (other "OverflowError")
  float_or_zero (number c) = ok c

  abbrev pub read_confidence : Option Json → Result Float
  read_confidence none = ok zero_float
  read_confidence (some v) = float_or_zero (to_float v)

  -- The list of `multi_intent`
  unfoldable pub other_labels : List Text → Text → Items → List Text
  other_labels labels intent nil = []
  other_labels labels intent (cons v vs) =
      let rest = other_labels labels intent vs in
      if text_in (render v) labels && not (text_eq (render v) intent) then render v ∷ rest else rest

  abbrev pub read_multi : List Text → Text → Option Json → List Text
  read_multi labels intent (some (arr vs)) = other_labels labels intent vs
  read_multi labels intent v = []

  -- `payload["intent"]`, if it is a label
  unfoldable pub read_intent : List Text → Fields → Text
  read_intent labels fs =
      let intent : Text = render (or_else (str "unclassified") (get "intent" fs)) in
      if text_in intent labels then intent else unclassified

  -- The returned dictionary.
  abbrev pub result_of : List Text → Fields → Float → LlmResult Float
  result_of labels fs confidence = record {
    intent = read_intent labels fs;
    confidence = clamp confidence;
    reasoning = or_not_applicable (strip (render (or_else (str "") (get "reasoning" fs))));
    multi_intent = read_multi labels (read_intent labels fs) (get "multi_intent" fs);
  }

  unfoldable pub read_fields : List Text → Fields → Result (LlmResult Float)
  unfolding read_intent clamp other_labels
  read_fields labels fs =
      read_confidence (get "confidence" fs) >>= (λ c. ok (result_of labels fs c))

  abbrev pub read_json : List Text → Option Json → Result (LlmResult Float)
  read_json labels none = ok fallback_result
  read_json labels (some (obj fs)) = read_fields labels fs
  read_json labels (some v) = err (other "AttributeError")

  abbrev pub read_response : List Text → Option (Option Json) → Result (LlmResult Float)
  read_response labels none = ok fallback_result
  read_response labels (some body) = read_payload body >>= (λ payload. read_json labels payload)

  -- `classify`: the number of requests, and the result
  unfoldable pub classify : List Text → (ℕ → Post) → ℕ × Result (LlmResult Float)
  unfolding request read_payload read_fields
  classify candidate_labels posts =
      let (requests, response) = request 2 0 posts in
      (requests, read_response (all_labels candidate_labels) response)
