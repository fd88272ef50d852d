-- ===== src/Classifier/Lru/Recent.antt =====
-- The in-process cache of intent_classifier_service/app/cache_layer.py against an ideal one that forgets nothing.
use api_gateways.Base.{
  ℕ, ◌≤◌, Option, none, some, List, [], ◌∷◌, ◌++◌, length, length-append, ◌≡◌, refl, arith, sym,
  ◌∙◌, inl, inr, Option-cases, if◌then◌else◌, ltb,
}
use api_gateways.Classifier.Lru.{find, remove, move_to_end, lru_get, evict, lru_set}
use api_gateways.Classifier.Lru.Entries.{
  Distinct, touch, move_to_end-assign, Distinct-touch, Distinct-evict, evict_short, length-evict,
  length-evict-le, evict-touch-evict, length-remove, evicted, evicted-append,
}

-- What a caller asks of the cache.
pub data Call {ℓ} (K V : Type ℓ) : Type ℓ where
  get : K → Call K V
  set : K → V → Call K V

module _ {ℓ} {K V : Type ℓ} (dec : Discrete K) (n : ℕ) where
  -- The cache after a list of calls.
  unfoldable pub run : List (K × V) → List (Call K V) → List (K × V)
  run d [] = d
  run d (get k ∷ calls) = run (lru_get dec k d).0 calls
  run d (set k v ∷ calls) = run (lru_set dec n k v d) calls

  abbrev touch_found : K → Option V → List (K × V) → List (K × V)
  touch_found k none h = h
  touch_found k (some v) h = touch dec k v h

  -- Every entry ever set, the least recently used first. A read of one of the last `n` is a use.
  unfoldable pub history : List (K × V) → List (Call K V) → List (K × V)
  history h [] = h
  history h (get k ∷ calls) = history (touch_found k (find dec k (evict n h)) h) calls
  history h (set k v ∷ calls) = history (touch dec k v h) calls

  lru_set-touch :
      (k : K) (v : V) (h : List (K × V))
      → Distinct dec h
      → lru_set dec n k v (evict n h) ≡ evict n (touch dec k v h)
  unfolding lru_set
  lru_set-touch k v h p = rw move_to_end-assign (evict-touch-evict dec n k v h p)

  pub lru_get_hit :
      (k : K) (v : V) (d : List (K × V))
      → find dec k d ≡ some v
      → lru_get dec k d ≡ (touch dec k v d, some v)
  unfolding lru_get move_to_end
  lru_get_hit k v d hit = ground (arith, hit)

  pub lru_get_miss : (k : K) (d : List (K × V)) → find dec k d ≡ none → lru_get dec k d ≡ (d, none)
  unfolding lru_get
  lru_get_miss k d miss = ground (arith, miss)

  touch-evict :
      (k : K) (v : V) (h : List (K × V))
      → Distinct dec h
      → find dec k (evict n h) ≡ some v
      → touch dec k v (evict n h) ≡ evict n (touch dec k v h)
  touch-evict k v h p hit =
      let kept = evict n h in
      let fits : length (touch dec k v kept) ≤ n = omega (
        arith,
        length-remove dec k v kept hit,
        length-append {ℓ} (remove dec k kept) ((k, v) ∷ []),
        length-evict-le n h,
      ) in
      sym (evict_short n (touch dec k v kept) fits) ∙ evict-touch-evict dec n k v h p

  lru_get-touch :
      (k : K) (h : List (K × V))
      → Distinct dec h
      → (lru_get dec k (evict n h)).0 ≡ evict n (touch_found k (find dec k (evict n h)) h)
  lru_get-touch k h p = elim (Option-cases (find dec k (evict n h))) [
    | inl miss ↦ rw (lru_get_miss k (evict n h) miss, miss)
    | inr (v, hit) ↦ rw (lru_get_hit k v (evict n h) hit, hit) (touch-evict k v h p hit)
  ]

  Distinct-touch_found :
      (k : K) (o : Option V) (h : List (K × V)) → Distinct dec h → Distinct dec (touch_found k o h)
  Distinct-touch_found k none h p = p
  Distinct-touch_found k (some v) h p = Distinct-touch dec k v h p

  run-history :
      (calls : List (Call K V)) (h : List (K × V))
      → Distinct dec h
      → (run (evict n h) calls ≡ evict n (history h calls)) × Distinct dec (history h calls)
  unfolding run history
  run-history [] h p = (refl, p)
  run-history (get k ∷ calls) h p =
      rw (lru_get-touch k h p)
        (run-history calls _ (Distinct-touch_found k (find dec k (evict n h)) h p))
  run-history (set k v ∷ calls) h p =
      rw (lru_set-touch k v h p) (run-history calls (touch dec k v h) (Distinct-touch dec k v h p))

  -- After any calls, the cache holds the last entries of the ideal cache, in their order and as many as fit: what
  -- is dropped is used least recently. Each key has one entry.
  pub run_recent :
      (calls : List (Call K V))
      → (old : List (K × V)) × (old ++ run [] calls ≡ history [] calls)
        × Distinct dec (run [] calls)
        × (length (run [] calls)
            ≡ (if ltb n (length (history [] calls)) then n else length (history [] calls)))
  unfolding evict
  run_recent calls =
      let h = history [] calls in
      let (e, p) = run-history calls [] tt in
      (
        evicted n h,
        rw e (evicted-append n h),
        rw e (Distinct-evict dec n h p),
        rw e (length-evict n h),
      )
