-- ===== src/Classifier/Cache/Laws.antt =====
-- The keys of the classifier's cache and what a read gives after a write.
use api_gateways.Base.{ℕ, ◌≤◌, true, Option, none, some, ◌∷◌, Text, ◌≡◌}
use api_gateways.Errors.{ok}
use api_gateways.Classifier.Outside.{ClassifyResponse, Outside}
use api_gateways.Classifier.Lru.{find}
use api_gateways.Classifier.Lru.Entries.{Distinct, find-lru_set_self}
use api_gateways.Classifier.Lru.Recent.{lru_get_hit, lru_get_miss}
use api_gateways.Classifier.Cache.{
  Text-discrete, ClassificationCache, cache_key, as_cached, get, set,
}

module _ (o : Outside) where
  pub get_hit :
      (c : ClassificationCache o.Float) (s : o.Store) (x : Text) (t : Option Text)
      (r : ClassifyResponse o.Float)
      → find Text-discrete (cache_key o c x t) c.lru ≡ some r
      → (get o c s x t).1 ≡ some (as_cached o r)
  unfolding get
  get_hit c s x t r h = rw (lru_get_hit Text-discrete 1 (cache_key o c x t) r c.lru h)

  get_miss :
      (c : ClassificationCache o.Float) (s : o.Store) (x : Text) (t : Option Text)
      (r : ClassifyResponse o.Float) (b : ℕ) (raw : Text)
      → c.connected ≡ true
      → find Text-discrete (cache_key o c x t) c.lru ≡ none
      → o.fetch (cache_key o c x t) s ≡ ok (some (b ∷ raw))
      → o.validate (b ∷ raw) ≡ some r
      → (get o c s x t).1 ≡ some (as_cached o r)
  unfolding get
  get_miss c s x t r b raw h p f v =
      rw (lru_get_miss Text-discrete 1 (cache_key o c x t) c.lru p, h, f, v)

  key_of_replica :
      (c d : ClassificationCache o.Float) (x : Text) (t : Option Text)
      → d.fingerprint_hash ≡ c.fingerprint_hash
      → cache_key o d x t ≡ cache_key o c x t
  unfolding cache_key
  key_of_replica c d x t e = rw e

  store_of_set :
      (c : ClassificationCache o.Float) (s : o.Store) (x : Text) (r : ClassifyResponse o.Float)
      (t : Option Text)
      → c.connected ≡ true
      → (set o c s x r t).1 ≡ o.setex (cache_key o c x t) c.ttl (o.dump r) s
  unfolding set
  store_of_set c s x r t e = rw e

  module _ (c d : ClassificationCache o.Float) (s : o.Store) (x : Text)
      (r : ClassifyResponse o.Float) (t : Option Text) where
    -- After a response is set, the cache that set it answers with it, whatever Redis holds by then, if its entries are bounded by at least one and their keys distinct.
    -- So does another replica with the same fingerprint that has no entry of its own, if both are connected and Redis gives back what was written to it.
    -- The answer's source is the cache.
    pub get-set :
        1 ≤ c.lru_max
        → Distinct Text-discrete c.lru
        → c.connected ≡ true
        → d.connected ≡ true
        → d.fingerprint_hash ≡ c.fingerprint_hash
        → find Text-discrete (cache_key o d x t) d.lru ≡ none
        → (b : ℕ) (raw : Text) → o.dump r ≡ b ∷ raw
        → o.validate (o.dump r) ≡ some r
        → o.fetch (cache_key o c x t) (o.setex (cache_key o c x t) c.ttl (o.dump r) s)
          ≡ ok (some (o.dump r))
        → (s' : o.Store)
        → ((get o (set o c s x r t).0 s' x t).1 ≡ some (as_cached o r))
          × ((get o d (set o c s x r t).1 x t).1 ≡ some (as_cached o r))
    unfolding set cache_key
    get-set bound distinct up up' same absent b raw dumped valid kept s' = (
      get_hit (set o c s x r t).0 s' x t r
          (find-lru_set_self Text-discrete c.lru_max (cache_key o c x t) r c.lru bound distinct),
      get_miss d (set o c s x r t).1 x t r b raw up' absent
          (rw (key_of_replica c d x t same, store_of_set c s x r t up, ← dumped) kept)
          (rw (← dumped) valid),
    )
