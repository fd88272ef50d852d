-- ===== src/Classifier/Handler.antt =====
-- `POST /classify` of intent_classifier_service/app/main.py, for a body that validated.
pub mod Laws
pub mod Outage
use api_gateways.Base.{
  ℕ, Bool, true, false, not, ◌&&◌, ◌||◌, Option, none, some, List, [], ◌∷◌, map, any, length, Text,
  codes, strip, is_space, to_lower, ltb, ◌==◌, text_in, if◌then◌else◌,
}
use api_gateways.Errors.{other, Result, ok, err}
use api_gateways.Regex.{Regex, chr, ends}
use api_gateways.Regex.Classes.{literal, char, opt, plus, seqs}
use api_gateways.Classifier.Outside.{model, fallback, ClassifyResponse, Outside}
use api_gateways.Classifier.Cache
use api_gateways.Classifier.Cache.{ClassificationCache}
use api_gateways.Classifier.Llm
use api_gateways.Classifier.Llm.{unclassified, Post, LlmResult, all_labels}

-- `_ws_re.sub(" ", t)`; the flag says that the character before was white space
unfoldable pub collapse : Bool → Text → Text
collapse spaced [] = []
collapse spaced (c ∷ s) =
    let rest = collapse (is_space c) s in
    if is_space c then (if spaced then rest else b' ' ∷ rest) else c ∷ rest

-- `normalize_text`
unfoldable pub normalize_text : Text → Text
unfolding collapse
normalize_text text = collapse false (map to_lower (strip text))

-- `_url_only_re`
abbrev pub url_only : Regex
url_only =
    seqs
      (literal "http" ∷ opt (char b's') ∷ literal "://" ∷ plus (chr (λ c. not (is_space c))) ∷ [])

-- `pattern.fullmatch(text)`, as a test
unfoldable pub fullmatch : Regex → Text → Bool
unfolding ends
fullmatch r t = any (λ n. n == length t) (ends r none t)

-- The texts that the model is not asked about.
unfoldable pub is_degenerate : Text → Bool
unfolding fullmatch
is_degenerate text_raw = ltb (length text_raw) 3 || fullmatch url_only text_raw

-- The taxonomy and the settings.
pub record App : Type 0 where
  pub candidate_labels : List Text
  pub taxonomy_version : Text
  pub llm_model : Text

pub record ClassifyRequest : Type 0 where
  pub text : Text
  pub tenant_id : Option Text

module _ (o : Outside) where
  open o use {Float, le, zero_float, one_float, Store}

  -- What the service keeps: its cache and Redis.
  pub record State : Type 0 where
    pub cache : ClassificationCache Float
    pub store : Store

  -- `_fallback_response`
  unfoldable pub fallback_response : App → ClassifyResponse Float
  fallback_response app = record {
    intent_label = unclassified;
    confidence = zero_float;
    source = fallback;
    taxonomy_version = app.taxonomy_version;
    model_id = app.llm_model;
  }

  -- The response of a result; its confidence is validated.
  unfoldable pub model_response : App → LlmResult Float → Result (ClassifyResponse Float)
  model_response app r =
      let response : ClassifyResponse Float = record {
        intent_label =
            if text_in r.intent (all_labels app.candidate_labels) then r.intent else unclassified;
        confidence = r.confidence;
        source = model;
        taxonomy_version = app.taxonomy_version;
        model_id = app.llm_model;
      } in
      if le zero_float r.confidence && le r.confidence one_float
      then ok response
      else err (other "ValidationError")

  abbrev pub store_response :
      ClassifyRequest
      → State
      → Result (ClassifyResponse Float)
      → State × Result (ClassifyResponse Float)
  store_response body s (err e) = (s, err e)
  store_response body s (ok r) =
      let (c, store) = Cache.set o s.cache s.store (normalize_text body.text) r body.tenant_id in
      (record { cache = c; store = store }, ok r)

  abbrev pub after_model :
      App
      → ClassifyRequest
      → State
      → Result (LlmResult Float)
      → State × Result (ClassifyResponse Float)
  after_model app body s (err e) = (s, ok (fallback_response app))
  after_model app body s (ok r) = store_response body s (model_response app r)

  abbrev pub after_cache :
      App
      → ClassifyRequest
      → (ℕ → Post)
      → State
      → Option (ClassifyResponse Float)
      → State × Result (ClassifyResponse Float)
  after_cache app body posts s (some cached) = (s, ok cached)
  after_cache app body posts s none =
      after_model app body s (Llm.classify o app.candidate_labels posts).1

  -- `classify`
  unfoldable pub classify :
      App → ClassifyRequest → (ℕ → Post) → State → State × Result (ClassifyResponse Float)
  unfolding is_degenerate normalize_text fallback_response model_response
  classify app body posts s =
      let (c, cached) = Cache.get o s.cache s.store (normalize_text body.text) body.tenant_id in
      if is_degenerate (strip body.text)
      then (s, ok (fallback_response app))
      else after_cache app body posts (record s { cache = c }) cached
