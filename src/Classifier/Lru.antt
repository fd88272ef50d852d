-- ===== src/Classifier/Lru.antt =====
-- `OrderedDict` and the in-process part of `ClassificationCache`,
-- intent_classifier_service/app/cache_layer.py: entries stand from the least to the most recently used.
pub mod Entries
pub mod Recent
pub mod Members
use api_gateways.Base.{ℕ, Option, none, some, List, [], ◌∷◌, ◌++◌, ltb, length, if◌then◌else◌}
use mathlib.Core.Logic.{ite}

module _ {ℓ} {K V : Type ℓ} (dec : Discrete K) where
  -- `d.get(k)`
  unfoldable pub find : K → List (K × V) → Option V
  find k [] = none
  find k ((j, w) ∷ d) = ite (dec j k) (some w) (find k d)

  -- `d[k] = v`: a known key keeps its place
  unfoldable pub assign : K → V → List (K × V) → List (K × V)
  assign k v [] = (k, v) ∷ []
  assign k v ((j, w) ∷ d) = ite (dec j k) ((j, v) ∷ d) ((j, w) ∷ assign k v d)

  unfoldable pub remove : K → List (K × V) → List (K × V)
  remove k [] = []
  remove k ((j, w) ∷ d) = ite (dec j k) d ((j, w) ∷ remove k d)

  -- `move_to_end`, for a key that is there
  unfoldable pub move_to_end : K → List (K × V) → List (K × V)
  unfolding find remove
  move_to_end k d = elim (find k d) [ none ↦ d | some v ↦ remove k d ++ (k, v) ∷ [] ]

  -- `_lru_get`
  unfoldable pub lru_get : K → List (K × V) → List (K × V) × Option V
  unfolding find move_to_end
  lru_get k d = elim (find k d) [ none ↦ (d, none) | some v ↦ (move_to_end k d, some v) ]

-- `while len(d) > n: d.popitem(last=False)`
unfoldable pub evict {ℓ} : {A : Type ℓ} → ℕ → List A → List A
evict n [] = []
evict n (e ∷ d) = let rest = evict n d in if ltb n (length (e ∷ d)) then rest else e ∷ d

module _ {ℓ} {K V : Type ℓ} (dec : Discrete K) where
  -- `_lru_set`
  unfoldable pub lru_set : ℕ → K → V → List (K × V) → List (K × V)
  unfolding assign move_to_end evict
  lru_set n k v d = evict n (move_to_end dec k (assign dec k v d))
