-- ===== src/Classifier/Cache.antt =====
-- `ClassificationCache` of intent_classifier_service/app/cache_layer.py: a bounded dictionary in the process
-- before a Redis that the replicas share. A failing Redis only reaches the log.
pub mod Laws
use native.Mathlib.Decide.{ℕ_discrete}
use api_gateways.Base.{
  ℕ, Bool, true, false, Option, none, some, List, [], ◌∷◌, ◌++◌, Text, codes, strip, if◌then◌else◌,
  leb,
}
use api_gateways.Errors.{Result, ok, err}
use api_gateways.Classifier.Outside.{Source, cache, ClassifyResponse, Outside}
use api_gateways.Classifier.Lru.{lru_get, lru_set}

unfoldable pub Text-discrete : Discrete Text
unfolding ℕ_discrete
Text-discrete = hlevel ℕ_discrete

-- The attributes that change or are read; `connected` says that there is a client.
pub record ClassificationCache (F : Type 0) : Type 0 where
  pub fingerprint_hash : Text
  pub ttl : ℕ
  pub lru : List (Text × ClassifyResponse F)
  pub lru_max : ℕ
  pub connected : Bool

-- `a or b` on texts
abbrev pub or_text : Text → Text → Text
or_text [] b = b
or_text (c ∷ s) b = c ∷ s

abbrev default_tenant : Text
default_tenant = codes "default"

abbrev tenant_or_default : Option Text → Text
tenant_or_default none = default_tenant
tenant_or_default (some t) = or_text t default_tenant

-- The tenant's part of a key.
unfoldable pub key_tenant : Option Text → Text
key_tenant tenant_id = or_text (strip (tenant_or_default tenant_id)) default_tenant

-- `",".join(labels)`
unfoldable pub join_commas : List Text → Text
join_commas [] = []
join_commas (l ∷ []) = l
join_commas (l ∷ m ∷ ls) = l ++ codes "," ++ join_commas (m ∷ ls)

module _ (o : Outside) where
  open o use {Float, Store, fetch, setex, sha256_hex, validate, dump}

  -- `__init__`, then `connect`
  unfoldable pub new_cache : Text → List Text → Text → ℕ → ℕ → ClassificationCache Float
  unfolding join_commas
  new_cache model_id labels_tuple system_instruction_hash ttl_seconds lru_max =
      let labels_hash : Text = sha256_hex (join_commas labels_tuple) in
      record {
        fingerprint_hash =
            sha256_hex
              (model_id ++ (codes ":" ++ (labels_hash ++ (codes ":" ++ system_instruction_hash))));
        ttl = ttl_seconds;
        lru = [];
        lru_max = if leb 1 lru_max then lru_max else 1;
        connected = true;
      }

  -- `_cache_key`
  unfoldable pub cache_key : ClassificationCache Float → Text → Option Text → Text
  unfolding key_tenant
  cache_key c text_norm tenant_id =
      codes "intent:cls:v6:"
      ++ (c.fingerprint_hash
          ++ (codes ":" ++ (key_tenant tenant_id ++ (codes ":" ++ sha256_hex text_norm))))

  abbrev pub as_cached : ClassifyResponse Float → ClassifyResponse Float
  as_cached r = record r { source = cache }

  -- What Redis holds becomes an entry of the process, unless it is empty or does not validate.
  abbrev pub accept :
      ClassificationCache Float
      → Text
      → Option (ClassifyResponse Float)
      → ClassificationCache Float × Option (ClassifyResponse Float)
  accept c key none = (c, none)
  accept c key (some r) =
      (record c { lru = lru_set Text-discrete c.lru_max key r c.lru }, some (as_cached r))

  abbrev pub read_raw :
      ClassificationCache Float
      → Text
      → Result (Option Text)
      → ClassificationCache Float × Option (ClassifyResponse Float)
  read_raw c key (err e) = (c, none)
  read_raw c key (ok none) = (c, none)
  read_raw c key (ok (some [])) = (c, none)
  read_raw c key (ok (some (b ∷ raw))) = accept c key (validate (b ∷ raw))

  abbrev pub after_lru :
      ClassificationCache Float
      → Text
      → Store
      → List (Text × ClassifyResponse Float) × Option (ClassifyResponse Float)
      → ClassificationCache Float × Option (ClassifyResponse Float)
  after_lru c key s (entries, some r) = (record c { lru = entries }, some (as_cached r))
  after_lru c key s (entries, none) =
      if c.connected then read_raw c key (fetch key s) else (c, none)

  -- `get`
  unfoldable pub get :
      ClassificationCache Float
      → Store
      → Text
      → Option Text
      → ClassificationCache Float × Option (ClassifyResponse Float)
  unfolding cache_key
  get c s text_norm tenant_id =
      let key : Text = cache_key c text_norm tenant_id in
      after_lru c key s (lru_get Text-discrete key c.lru)

  -- `set`
  unfoldable pub set :
      ClassificationCache Float
      → Store
      → Text
      → ClassifyResponse Float
      → Option Text
      → ClassificationCache Float × Store
  unfolding cache_key
  set c s text_norm response tenant_id =
      let key : Text = cache_key c text_norm tenant_id in
      (
        record c { lru = lru_set Text-discrete c.lru_max key response c.lru },
        if c.connected then setex key c.ttl (dump response) s else s,
      )
