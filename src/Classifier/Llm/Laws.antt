-- ===== src/Classifier/Llm/Laws.antt =====
-- What `LLMClassifier.classify` of intent_classifier_service/app/llm_classifier.py makes of the model's answers.
use api_gateways.Base.{
  ℕ, ◌≤◌, true, false, Option, none, some, List, [], ◌∷◌, Text, text_eq, text_in, ◌≡◌, arith, All,
  text_eq_refl, ◌↔◌, subst,
}
use api_gateways.Base.Json.{Json, arr, obj, Items, nil, cons, Fields, get}
use api_gateways.Errors.{ok, ok-inj, err≢ok, last_call}
use api_gateways.Classifier.Outside.{Outside, IsOrdered}
use api_gateways.Classifier.Llm.{
  unclassified, Post, transient, request, LlmResult, all_labels, fallback_result, clamp,
  read_payload, read_confidence, read_intent, other_labels, read_multi, read_fields, read_json,
  result_of, read_response, classify,
}

pub text_in-unclassified : (labels : List Text) → text_in unclassified (all_labels labels) ≡ true
text_in-unclassified [] = rw text_eq_refl
text_in-unclassified (l ∷ ls) = ground (arith, text_in-unclassified ls)

-- The model's server is asked once or twice, and twice exactly if the first attempt failed in passing.
pub classify-requests :
    (o : Outside) (labels : List Text) (posts : ℕ → Post)
    → (1 ≤ (classify o labels posts).0)
      × ((classify o labels posts).0 ≤ 2)
      × (((classify o labels posts).0 ≡ 2) ↔ (posts 0 ≡ transient))
unfolding classify request
classify-requests o labels posts = ground arith

module _ (o : Outside) where
  abbrev pub InRange : o.Float → Type 0
  InRange c = (o.le o.zero_float c ≡ true) × (o.le c o.one_float ≡ true)

  -- A result within the taxonomy.
  abbrev pub IsAnswer : List Text → LlmResult o.Float → Type 0
  IsAnswer labels r =
      (text_in r.intent (all_labels labels) ≡ true)
      × InRange r.confidence
      × All (λ l. (text_in l (all_labels labels) ≡ true) × (text_eq l r.intent ≡ false))
          r.multi_intent

  other_labels-All :
      (labels : List Text) (intent : Text) (vs : Items)
      → All
          (λ l. (text_in l labels ≡ true) × (text_eq l intent ≡ false))
          (other_labels o labels intent vs)
  unfolding other_labels
  other_labels-All labels intent nil = tt
  other_labels-All labels intent (cons v vs) = ground (arith, other_labels-All labels intent vs)

  module _ (ordered : IsOrdered o) where
    pub zero_InRange : InRange o.zero_float
    zero_InRange = (ordered.zero_le, ordered.lt_le o.zero_float o.one_float ordered.zero_lt_one)

    clamp-InRange : (c : o.Float) → InRange (clamp o c)
    unfolding clamp
    clamp-InRange c = ground (
      arith,
      ordered.zero_le,
      ordered.one_le,
      ordered.zero_lt_one,
      ordered.lt_le o.zero_float o.one_float,
      ordered.lt_le o.zero_float c,
      ordered.lt_le c o.one_float,
    )

    read_multi-All :
        (labels : List Text) (intent : Text) (v : Option Json)
        → All
            (λ l. (text_in l labels ≡ true) × (text_eq l intent ≡ false))
            (read_multi o labels intent v)
    read_multi-All labels intent (some (arr vs)) = other_labels-All labels intent vs
    read_multi-All labels intent v = tt

    result_of-IsAnswer :
        (labels : List Text) (fs : Fields) (c : o.Float)
        → IsAnswer labels (result_of o (all_labels labels) fs c)
    unfolding read_intent
    result_of-IsAnswer labels fs c = (
      ground (arith, text_in-unclassified labels),
      clamp-InRange c,
      read_multi-All (all_labels labels) (read_intent o (all_labels labels) fs)
          (get "multi_intent" fs),
    )

    read_fields-IsAnswer :
        (labels : List Text) (fs : Fields) (r : LlmResult o.Float)
        → read_fields o (all_labels labels) fs ≡ ok r
        → IsAnswer labels r
    unfolding read_fields
    read_fields-IsAnswer labels fs r h =
        let (c, e) =
          last_call (λ c. ok (result_of o (all_labels labels) fs c))
            (read_confidence o (get "confidence" fs)) h in
        subst (IsAnswer labels) (ok-inj e) (result_of-IsAnswer labels fs c)

    fallback-IsAnswer : (labels : List Text) → IsAnswer labels (fallback_result o)
    unfolding fallback_result
    fallback-IsAnswer labels = (text_in-unclassified labels, zero_InRange, tt)

    read_json-IsAnswer :
        (labels : List Text) (payload : Option Json) (r : LlmResult o.Float)
        → read_json o (all_labels labels) payload ≡ ok r
        → IsAnswer labels r
    read_json-IsAnswer labels none r h =
        subst (IsAnswer labels) (ok-inj h) (fallback-IsAnswer labels)
    read_json-IsAnswer labels (some (obj fs)) r h = read_fields-IsAnswer labels fs r h
    read_json-IsAnswer labels (some v) r h = absurd (err≢ok h)

    read_response-IsAnswer :
        (labels : List Text) (response : Option (Option Json)) (r : LlmResult o.Float)
        → read_response o (all_labels labels) response ≡ ok r
        → IsAnswer labels r
    read_response-IsAnswer labels none r h =
        subst (IsAnswer labels) (ok-inj h) (fallback-IsAnswer labels)
    read_response-IsAnswer labels (some body) r h =
        let (payload, e) =
          last_call (λ payload. read_json o (all_labels labels) payload) (read_payload o body) h in
        read_json-IsAnswer labels payload r e

    -- Whatever the model answers, a result has a label of the taxonomy or `unclassified`, a confidence from 0 to 1, and
    -- as further labels only those of the taxonomy that differ from it.
    pub classify-IsAnswer :
        (labels : List Text) (posts : ℕ → Post) (r : LlmResult o.Float)
        → (classify o labels posts).1 ≡ ok r
        → IsAnswer labels r
    unfolding classify
    classify-IsAnswer labels posts r h = read_response-IsAnswer labels (request 2 0 posts).1 r h
