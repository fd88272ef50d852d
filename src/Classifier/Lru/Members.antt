-- ===== src/Classifier/Lru/Members.antt =====
-- The in-process cache of intent_classifier_service/app/cache_layer.py holds and returns only what was put into it.
use api_gateways.Base.{ℕ, Option, none, some, List, [], ◌∷◌, ◌++◌, All, All-append, arith}
use api_gateways.Classifier.Lru.{find, assign, remove, move_to_end, lru_get, evict, lru_set}

module _ {ℓ} {K V : Type ℓ} (P : V → Type 0) where
  -- Every stored value satisfies the predicate.
  abbrev pub Values : List (K × V) → Type 0
  Values = All (λ e. P e.1)

-- So does a value that is there.
abbrev pub Given {ℓ} : {V : Type ℓ} → (V → Type 0) → Option V → Type 0
Given P none = Unit
Given P (some v) = P v

module _ {ℓ} {K V : Type ℓ} (dec : Discrete K) (P : V → Type 0) where
  Given-find : (k : K) (d : List (K × V)) → Values P d → Given P (find dec k d)
  unfolding find
  Given-find k [] h = tt
  Given-find k ((j, w) ∷ d) h = ground (arith, Given-find k d h.1)

  Values-remove : (k : K) (d : List (K × V)) → Values P d → Values P (remove dec k d)
  unfolding remove
  Values-remove k [] h = tt
  Values-remove k ((j, w) ∷ d) h = ground (arith, Values-remove k d h.1)

  Values-assign :
      (k : K) (v : V) (d : List (K × V)) → P v → Values P d → Values P (assign dec k v d)
  unfolding assign
  Values-assign k v [] p h = (p, tt)
  Values-assign k v ((j, w) ∷ d) p h = ground (arith, Values-assign k v d p h.1)

  Values-evict : (n : ℕ) (d : List (K × V)) → Values P d → Values P (evict n d)
  unfolding evict
  Values-evict n [] h = tt
  Values-evict n (e ∷ d) h = ground (arith, Values-evict n d h.1)

  moved :
      (k : K) (d : List (K × V)) (o : Option V)
      → Given P o
      → Values P d
      → Values P (elim o [ none ↦ d | some v ↦ remove dec k d ++ (k, v) ∷ [] ])
  moved k d none g h = h
  moved k d (some v) g h =
      All-append (λ (e : K × V). P e.1) (remove dec k d) ((k, v) ∷ []) (Values-remove k d h) (g, tt)

  Values-move_to_end : (k : K) (d : List (K × V)) → Values P d → Values P (move_to_end dec k d)
  unfolding move_to_end
  Values-move_to_end k d h = moved k d (find dec k d) (Given-find k d h) h

  pub Values-lru_set :
      (n : ℕ) (k : K) (v : V) (d : List (K × V)) → P v → Values P d → Values P (lru_set dec n k v d)
  unfolding lru_set
  Values-lru_set n k v d p h =
      Values-evict n _ (Values-move_to_end k (assign dec k v d) (Values-assign k v d p h))

  -- What `lru_get` gives, and what it keeps.
  pub Values-lru_get :
      (k : K) (d : List (K × V))
      → Values P d
      → Values P (lru_get dec k d).0 × Given P (lru_get dec k d).1
  unfolding lru_get
  Values-lru_get k d h = ground (arith, Values-move_to_end k d h, Given-find k d h)
