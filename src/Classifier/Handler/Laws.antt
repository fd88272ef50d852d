-- ===== src/Classifier/Handler/Laws.antt =====
-- Every answer of `POST /classify`, intent_classifier_service/app/main.py, with and without its cache.
use api_gateways.Base.{
  ℕ, Bool, true, false, Option, none, some, List, [], ◌∷◌, Text, strip, text_in, if◌then◌else◌, ◌≡◌,
  refl, subst, inl, inr,
}
use api_gateways.Errors.{Result, ok, err}
use api_gateways.Classifier.Outside.{ClassifyResponse, Outside, IsOrdered, IsStore}
use api_gateways.Classifier.Lru.{lru_get}
use api_gateways.Classifier.Lru.Members.{Values, Given, Values-lru_set, Values-lru_get}
use api_gateways.Classifier.Cache
use api_gateways.Classifier.Cache.{Text-discrete, ClassificationCache, cache_key}
use api_gateways.Classifier.Llm
use api_gateways.Classifier.Llm.{unclassified, Post, LlmResult, all_labels}
use api_gateways.Classifier.Llm.Laws.{
  text_in-unclassified, InRange, IsAnswer, classify-IsAnswer, zero_InRange,
}
use api_gateways.Classifier.Handler.{
  App, ClassifyRequest, State, normalize_text, is_degenerate, fallback_response, model_response,
  store_response, after_model, after_cache, classify,
}

-- Both branches of a test satisfy a predicate.
if_either {ℓ κ} :
    {A : Type ℓ} (P : A → Type κ) (b : Bool) (x y : A) → P x → P y → P (if b then x else y)
if_either P true x y p q = p
if_either P false x y p q = q

module _ (o : Outside) (labels : List Text) where
  -- A response that the gateway can route.
  abbrev pub IsValid : ClassifyResponse o.Float → Type 0
  IsValid r = (text_in r.intent_label (all_labels labels) ≡ true) × InRange o r.confidence

  abbrev ValidRaw : Result (Option Text) → Type 0
  ValidRaw (err e) = Unit
  ValidRaw (ok none) = Unit
  ValidRaw (ok (some raw)) = Given IsValid (o.validate raw)

  -- What the process and Redis hold are such responses.
  abbrev pub IsSound : ClassificationCache o.Float → o.Store → Type 0
  IsSound c s = Values IsValid c.lru × ((k : Text) → ValidRaw (o.fetch k s))

  accept-IsSound :
      (c : ClassificationCache o.Float) (s : o.Store) (k : Text)
      (v : Option (ClassifyResponse o.Float))
      → IsSound c s
      → Given IsValid v
      → IsSound (Cache.accept o c k v).0 s × Given IsValid (Cache.accept o c k v).1
  accept-IsSound c s k none h g = (h, tt)
  accept-IsSound c s k (some r) h g =
      ((Values-lru_set Text-discrete IsValid c.lru_max k r c.lru g h.0, h.1), g)

  read_raw-IsSound :
      (c : ClassificationCache o.Float) (s : o.Store) (k : Text) (raw : Result (Option Text))
      → IsSound c s
      → ValidRaw raw
      → IsSound (Cache.read_raw o c k raw).0 s × Given IsValid (Cache.read_raw o c k raw).1
  read_raw-IsSound c s k (err e) h g = (h, tt)
  read_raw-IsSound c s k (ok none) h g = (h, tt)
  read_raw-IsSound c s k (ok (some [])) h g = (h, tt)
  read_raw-IsSound c s k (ok (some (b ∷ raw))) h g = accept-IsSound c s k (o.validate (b ∷ raw)) h g

  after_lru-IsSound :
      (c : ClassificationCache o.Float) (s : o.Store) (k : Text)
      (entries : List (Text × ClassifyResponse o.Float)) (v : Option (ClassifyResponse o.Float))
      → IsSound c s
      → Values IsValid entries
      → Given IsValid v
      → IsSound (Cache.after_lru o c k s (entries, v)).0 s
        × Given IsValid (Cache.after_lru o c k s (entries, v)).1
  after_lru-IsSound c s k entries (some r) h es g = ((es, h.1), g)
  after_lru-IsSound c s k entries none h es g =
      if_either (λ p. IsSound p.0 s × Given IsValid p.1) c.connected
        (Cache.read_raw o c k (o.fetch k s)) (c, none)
        (read_raw-IsSound c s k (o.fetch k s) h (h.1 k)) (h, tt)

  get-IsSound :
      (c : ClassificationCache o.Float) (s : o.Store) (x : Text) (t : Option Text)
      → IsSound c s
      → IsSound (Cache.get o c s x t).0 s × Given IsValid (Cache.get o c s x t).1
  unfolding Cache.get
  get-IsSound c s x t h =
      let k = cache_key o c x t in
      let (es, g) = Values-lru_get Text-discrete IsValid k c.lru h.0 in
      after_lru-IsSound c s k (lru_get Text-discrete k c.lru).0 (lru_get Text-discrete k c.lru).1 h
        es g

  module _ (store : IsStore o) where
    ValidRaw-setex :
        (k : Text) (ttl : ℕ) (r : ClassifyResponse o.Float) (s : o.Store) (j : Text)
        (raw : Result (Option Text))
        → o.fetch j (o.setex k ttl (o.dump r) s) ≡ raw
        → IsValid r
        → ValidRaw (o.fetch j s)
        → ValidRaw raw
    ValidRaw-setex k ttl r s j (err e) p v h = tt
    ValidRaw-setex k ttl r s j (ok none) p v h = tt
    ValidRaw-setex k ttl r s j (ok (some raw)) p v h =
        elim (store.fetch_setex k j ttl (o.dump r) raw s p) [
          | inl new ↦ rw (new, store.validate_dump r v.1) v
          | inr old ↦ subst ValidRaw old h
        ]

    set-IsSound :
        (c : ClassificationCache o.Float) (s : o.Store) (x : Text) (r : ClassifyResponse o.Float)
        (t : Option Text)
        → IsValid r
        → IsSound c s
        → IsSound (Cache.set o c s x r t).0 (Cache.set o c s x r t).1
    unfolding Cache.set
    set-IsSound c s x r t v h =
        let k = cache_key o c x t in
        (
          Values-lru_set Text-discrete IsValid c.lru_max k r c.lru v h.0,
          λ j.
              if_either (λ t. ValidRaw (o.fetch j t)) c.connected (o.setex k c.ttl (o.dump r) s) s
                (ValidRaw-setex k c.ttl r s j (o.fetch j (o.setex k c.ttl (o.dump r) s)) refl v
                  (h.1 j))
                (h.1 j),
        )

module _ (o : Outside) (ordered : IsOrdered o) (store : IsStore o) (app : App) where
  module _ (body : ClassifyRequest) (posts : ℕ → Post) where
    -- A sound state, and an answer that can be routed.
    abbrev pub IsServed : State o × Result (ClassifyResponse o.Float) → Type 0
    IsServed (s, err e) = ⊥
    IsServed (s, ok r) =
        IsSound o app.candidate_labels s.cache s.store × IsValid o app.candidate_labels r

    fallback-IsServed :
        (s : State o)
        → IsSound o app.candidate_labels s.cache s.store
        → IsServed (s, ok (fallback_response o app))
    unfolding fallback_response
    fallback-IsServed s h = (h, (text_in-unclassified app.candidate_labels, zero_InRange o ordered))

    store_response-IsServed :
        (s : State o) (r : LlmResult o.Float)
        → IsSound o app.candidate_labels s.cache s.store
        → IsAnswer o app.candidate_labels r
        → IsServed (store_response o body s (model_response o app r))
    unfolding model_response
    store_response-IsServed s r h a =
        rw (a.0, a.1.0, a.1.1)
          (
            set-IsSound o app.candidate_labels store s.cache s.store (normalize_text body.text) _
                body.tenant_id (a.0, a.1) h,
            (a.0, a.1),
          )

    after_model-IsServed :
        (s : State o) (m : Result (LlmResult o.Float))
        → IsSound o app.candidate_labels s.cache s.store
        → (Llm.classify o app.candidate_labels posts).1 ≡ m
        → IsServed (after_model o app body s m)
    after_model-IsServed s (err e) h p = fallback-IsServed s h
    after_model-IsServed s (ok r) h p =
        store_response-IsServed s r h (classify-IsAnswer o ordered app.candidate_labels posts r p)

    after_cache-IsServed :
        (s : State o) (cached : Option (ClassifyResponse o.Float))
        → IsSound o app.candidate_labels s.cache s.store
        → Given (IsValid o app.candidate_labels) cached
        → IsServed (after_cache o app body posts s cached)
    after_cache-IsServed s none h g =
        after_model-IsServed s (Llm.classify o app.candidate_labels posts).1 h refl
    after_cache-IsServed s (some r) h g = (h, g)

    -- If all that the process and Redis hold can be routed, a request is answered without an exception, whatever the model does:
    -- with a label of the taxonomy or `unclassified` and a confidence from 0 to 1; and what is held then can be routed again.
    pub classify-IsServed :
        (s : State o)
        → IsSound o app.candidate_labels s.cache s.store
        → IsServed (classify o app body posts s)
    unfolding classify
    classify-IsServed s h =
        let (h', g) =
          get-IsSound o app.candidate_labels s.cache s.store (normalize_text body.text)
            body.tenant_id h in
        if_either IsServed (is_degenerate (strip body.text)) _ _ (fallback-IsServed s h)
          (after_cache-IsServed _ _ h' g)
