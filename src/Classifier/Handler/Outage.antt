-- ===== src/Classifier/Handler/Outage.antt =====
-- `POST /classify` of intent_classifier_service/app/main.py while the model's server is out of reach.
use api_gateways.Base.{ℕ, ◌≤◌, false, none, some, strip, ◌≡◌, refl, ap, arith, ◌∙◌}
use api_gateways.Errors.{ok}
use api_gateways.Classifier.Outside.{model, ClassifyResponse, Outside, IsOrdered}
use api_gateways.Classifier.Lru.{find}
use api_gateways.Classifier.Lru.Entries.{Distinct, find-lru_set_self}
use api_gateways.Classifier.Lru.Recent.{lru_get_miss}
use api_gateways.Classifier.Cache
use api_gateways.Classifier.Cache.{Text-discrete, ClassificationCache, cache_key, as_cached}
use api_gateways.Classifier.Cache.Laws.{get_hit}
use api_gateways.Classifier.Llm
use api_gateways.Classifier.Llm.{unclassified, Post, transient, fallback_result}
use api_gateways.Classifier.Llm.Laws.{text_in-unclassified, zero_InRange}
use api_gateways.Classifier.Handler.{
  App, ClassifyRequest, State, normalize_text, is_degenerate, model_response, after_model,
  store_response, classify,
}

module _ (o : Outside) (app : App) (body : ClassifyRequest) where
  -- The answer that stands for the model's.
  abbrev pub outage_response : ClassifyResponse o.Float
  outage_response = record {
    intent_label = unclassified;
    confidence = o.zero_float;
    source = model;
    taxonomy_version = app.taxonomy_version;
    model_id = app.llm_model;
  }

  get_absent :
      (s : State o)
      → find Text-discrete
          (cache_key o s.cache (normalize_text body.text) body.tenant_id)
          s.cache.lru
        ≡ none
      → o.fetch (cache_key o s.cache (normalize_text body.text) body.tenant_id) s.store ≡ ok none
      → Cache.get o s.cache s.store (normalize_text body.text) body.tenant_id ≡ (s.cache, none)
  unfolding Cache.get
  get_absent s h f = ground (
    arith,
    lru_get_miss Text-discrete 1 (cache_key o s.cache (normalize_text body.text) body.tenant_id)
        s.cache.lru h,
  )

  outage_result :
      (posts : ℕ → Post)
      → posts 0 ≡ transient
      → posts 1 ≡ transient
      → (Llm.classify o app.candidate_labels posts).1 ≡ ok (fallback_result o)
  unfolding Llm.classify Llm.request
  outage_result posts p q = ground arith

  outage_model_response :
      (ordered : IsOrdered o) → model_response o app (fallback_result o) ≡ ok outage_response
  unfolding model_response fallback_result
  outage_model_response ordered =
      rw (text_in-unclassified, (zero_InRange o ordered).0, (zero_InRange o ordered).1)

  served_model :
      (s : State o) (posts : ℕ → Post)
      → is_degenerate (strip body.text) ≡ false
      → Cache.get o s.cache s.store (normalize_text body.text) body.tenant_id ≡ (s.cache, none)
      → classify o app body posts s
        ≡ after_model o app body s (Llm.classify o app.candidate_labels posts).1
  unfolding classify
  served_model s posts d g = rw (d, g)

  served_cached :
      (s : State o) (posts : ℕ → Post) (r : ClassifyResponse o.Float)
      → is_degenerate (strip body.text) ≡ false
      → (Cache.get o s.cache s.store (normalize_text body.text) body.tenant_id).1 ≡ some r
      → (classify o app body posts s).1 ≡ ok r
  unfolding classify
  served_cached s posts r d e = rw (d, e)

  stored : State o → State o
  unfolding Cache.set
  stored s =
      let (c, store) =
        Cache.set o s.cache s.store (normalize_text body.text) outage_response body.tenant_id in
      record { cache = c; store = store }

  first_answer :
      (ordered : IsOrdered o) (posts : ℕ → Post) (s : State o)
      → is_degenerate (strip body.text) ≡ false
      → Cache.get o s.cache s.store (normalize_text body.text) body.tenant_id ≡ (s.cache, none)
      → posts 0 ≡ transient
      → posts 1 ≡ transient
      → classify o app body posts s ≡ (stored s, ok outage_response)
  unfolding stored
  first_answer ordered posts s d g p q =
      served_model s posts d g
      ∙ ap (λ m. after_model o app body s m) (outage_result posts p q)
      ∙ ap (λ r. store_response o body s r) (outage_model_response ordered)

  stored_hit :
      (s : State o)
      → 1 ≤ s.cache.lru_max
      → Distinct Text-discrete s.cache.lru
      → (Cache.get o (stored s).cache (stored s).store (normalize_text body.text) body.tenant_id).1
        ≡ some (as_cached o outage_response)
  unfolding stored Cache.set Cache.cache_key
  stored_hit s bound distinct =
      get_hit o (stored s).cache (stored s).store (normalize_text body.text) body.tenant_id
        outage_response
        (find-lru_set_self Text-discrete s.cache.lru_max
          (cache_key o s.cache (normalize_text body.text) body.tenant_id) outage_response
          s.cache.lru bound distinct)

  -- While the model's server is out of reach, a text that is neither degenerate nor cached gets `unclassified` with confidence 0 as
  -- an answer of the model, and this answer is kept: the same tenant's next request for the text gets it from the cache, also
  -- when the model is back.
  pub outage_kept :
      (ordered : IsOrdered o) (posts posts' : ℕ → Post) (s : State o)
      → is_degenerate (strip body.text) ≡ false
      → find Text-discrete
          (cache_key o s.cache (normalize_text body.text) body.tenant_id)
          s.cache.lru
        ≡ none
      → o.fetch (cache_key o s.cache (normalize_text body.text) body.tenant_id) s.store ≡ ok none
      → 1 ≤ s.cache.lru_max
      → Distinct Text-discrete s.cache.lru
      → posts 0 ≡ transient
      → posts 1 ≡ transient
      → ((classify o app body posts s).1 ≡ ok outage_response)
        × ((classify o app body posts' (classify o app body posts s).0).1
            ≡ ok (as_cached o outage_response))
  outage_kept ordered posts posts' s d h f bound distinct p q =
      rw (first_answer ordered posts s d (get_absent s h f) p q) (
        refl,
        served_cached (stored s) posts' (as_cached o outage_response) d
            (stored_hit s bound distinct),
      )
