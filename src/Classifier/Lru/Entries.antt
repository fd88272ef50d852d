-- ===== src/Classifier/Lru/Entries.antt =====
-- The entries of the in-process cache of intent_classifier_service/app/cache_layer.py: one for each key, the last ones kept.
use api_gateways.Base.{
  ℕ, ◌+◌, ◌≤◌, none, some, List, [], ◌∷◌, ◌++◌, length, length-append, ◌≡◌, refl, arith, ltb,
  Bool-cases, if◌then◌else◌, ◌≢◌, inl, inr, ◌∙◌,
}
use api_gateways.Classifier.Lru.{find, assign, remove, move_to_end, evict, lru_set}

module _ {ℓ} {K V : Type ℓ} (dec : Discrete K) where
  -- Each key has one entry.
  abbrev pub Distinct : List (K × V) → Type ℓ
  Distinct [] = Unit
  Distinct ((j, w) ∷ d) = (find dec j d ≡ none) × Distinct d

  find-assign_self : (k : K) (v : V) (d : List (K × V)) → find dec k (assign dec k v d) ≡ some v
  unfolding find assign
  find-assign_self k v [] = ground arith
  find-assign_self k v ((j, w) ∷ d) = ground (arith, find-assign_self k v d)

  remove-assign :
      (k : K) (v : V) (d : List (K × V)) → remove dec k (assign dec k v d) ≡ remove dec k d
  unfolding remove assign
  remove-assign k v [] = ground arith
  remove-assign k v ((j, w) ∷ d) = ground (arith, remove-assign k v d)

  abbrev pub touch : K → V → List (K × V) → List (K × V)
  touch k v d = remove dec k d ++ (k, v) ∷ []

  pub move_to_end-assign :
      (k : K) (v : V) (d : List (K × V)) → move_to_end dec k (assign dec k v d) ≡ touch k v d
  unfolding move_to_end
  move_to_end-assign k v d = ground (arith, find-assign_self k v d, remove-assign k v d)

  find-remove-none :
      (k j : K) (d : List (K × V)) → find dec j d ≡ none → find dec j (remove dec k d) ≡ none
  unfolding find remove
  find-remove-none k j [] h = refl
  find-remove-none k j ((i, w) ∷ d) h = ground (arith, find-remove-none k j d)

  pub find-remove_self :
      (k : K) (d : List (K × V)) → Distinct d → find dec k (remove dec k d) ≡ none
  unfolding find remove
  find-remove_self k [] h = refl
  find-remove_self k ((i, w) ∷ d) h = ground (arith, find-remove_self k d h.1)

  remove_absent : (k : K) (d : List (K × V)) → find dec k d ≡ none → remove dec k d ≡ d
  unfolding find remove
  remove_absent k [] h = refl
  remove_absent k ((i, w) ∷ d) h = ground (arith, remove_absent k d)

  length-remove-le : (k : K) (d : List (K × V)) → length d ≤ length (remove dec k d) + 1
  unfolding remove
  length-remove-le k [] = omega arith
  length-remove-le k ((i, w) ∷ d) = ground (arith, length-remove-le k d)

  find-append_last_self :
      (k : K) (v : V) (d : List (K × V))
      → find dec k d ≡ none
      → find dec k (d ++ (k, v) ∷ []) ≡ some v
  unfolding find
  find-append_last_self k v [] h = ground arith
  find-append_last_self k v ((j, w) ∷ d) h = ground (arith, find-append_last_self k v d)

  find-append_last :
      (k j : K) (v : V) (d : List (K × V))
      → j ≢ k
      → find dec j d ≡ none
      → find dec j (d ++ (k, v) ∷ []) ≡ none
  unfolding find
  find-append_last k j v [] h p = ground arith
  find-append_last k j v ((i, w) ∷ d) h p = ground (arith, find-append_last k j v d)

  Distinct-append_last :
      (k : K) (v : V) (d : List (K × V))
      → find dec k d ≡ none
      → Distinct d
      → Distinct (d ++ (k, v) ∷ [])
  unfolding find
  Distinct-append_last k v [] p h = (refl, tt)
  Distinct-append_last k v ((i, w) ∷ d) p h =
      (ground (arith, find-append_last k i v d), Distinct-append_last k v d (ground arith) h.1)

  Distinct-remove : (k : K) (d : List (K × V)) → Distinct d → Distinct (remove dec k d)
  unfolding remove
  Distinct-remove k [] h = tt
  Distinct-remove k ((i, w) ∷ d) h =
      ground (arith, Distinct-remove k d h.1, find-remove-none k i d h.0)

  pub Distinct-touch : (k : K) (v : V) (d : List (K × V)) → Distinct d → Distinct (touch k v d)
  Distinct-touch k v d h =
      Distinct-append_last k v (remove dec k d) (find-remove_self k d h) (Distinct-remove k d h)

  pub length-remove :
      (k : K) (v : V) (d : List (K × V))
      → find dec k d ≡ some v
      → length (remove dec k d) + 1 ≡ length d
  unfolding find remove
  length-remove k v [] h = absurd (ground arith)
  length-remove k v ((i, w) ∷ d) h = ground (arith, length-remove k v d)

pub evict_short {ℓ} : {A : Type ℓ} (n : ℕ) (d : List A) → length d ≤ n → evict n d ≡ d
unfolding evict
evict_short n [] h = refl
evict_short n (e ∷ d) h = ground arith

pub length-evict-le {ℓ} : {A : Type ℓ} (n : ℕ) (d : List A) → length (evict n d) ≤ n
unfolding evict
length-evict-le n [] = omega arith
length-evict-le n (e ∷ d) = ground (arith, length-evict-le n d)

-- What the loop took off the front.
abbrev pub evicted {ℓ} : {A : Type ℓ} → ℕ → List A → List A
evicted n [] = []
evicted n (e ∷ d) = let rest = evicted n d in if ltb n (length (e ∷ d)) then e ∷ rest else []

pub evicted-append {ℓ} : {A : Type ℓ} (n : ℕ) (d : List A) → evicted n d ++ evict n d ≡ d
unfolding evict
evicted-append n [] = refl
evicted-append n (e ∷ d) = ground (arith, evicted-append n d)

pub length-evict {ℓ} :
    {A : Type ℓ} (n : ℕ) (d : List A)
    → length (evict n d) ≡ (if ltb n (length d) then n else length d)
unfolding evict
length-evict n [] = ground arith
length-evict n (e ∷ d) = ground (arith, length-evict n d)

module _ {ℓ} {K V : Type ℓ} (dec : Discrete K) where
  pub Distinct-evict : (n : ℕ) (d : List (K × V)) → Distinct dec d → Distinct dec (evict n d)
  unfolding evict
  Distinct-evict n [] h = tt
  Distinct-evict n (e ∷ d) h = ground (arith, Distinct-evict n d h.1)

  evict-cons_long :
      (n : ℕ) (e : K × V) (d : List (K × V)) → n ≤ length d → evict n (e ∷ d) ≡ evict n d
  unfolding evict
  evict-cons_long n e d h = ground arith

  evict-touch-cons :
      (n : ℕ) (k : K) (v : V) (j : K) (w : V) (d : List (K × V))
      → n ≤ length d
      → find dec j d ≡ none
      → evict n (touch dec k v d) ≡ evict n (touch dec k v ((j, w) ∷ d))
  unfolding remove
  evict-touch-cons n k v j w d h p = elim (dec j k) [
    | yes e ↦ ground (arith, remove_absent dec k d)
    | no e ↦ ground (
      arith,
      evict-cons_long n (j, w) (touch dec k v d),
      length-append {ℓ} (remove dec k d) ((k, v) ∷ []),
      length-remove-le dec k d,
    )
  ]

  -- To move a key to the end and keep `n` entries, the last `n` entries are all that matter.
  pub evict-touch-evict :
      (n : ℕ) (k : K) (v : V) (d : List (K × V))
      → Distinct dec d
      → evict n (touch dec k v (evict n d)) ≡ evict n (touch dec k v d)
  unfolding evict
  evict-touch-evict n k v [] h = refl
  evict-touch-evict n k v ((j, w) ∷ d) h = elim (Bool-cases (ltb n (length ((j, w) ∷ d)))) [
    | inl long ↦
        rw (evict-cons_long n (j, w) d (ground arith))
          (evict-touch-evict n k v d h.1 ∙ evict-touch-cons n k v j w d (ground arith) h.0)
    | inr short ↦ rw (evict_short n ((j, w) ∷ d) (ground arith)) refl
  ]

  find-evict_last :
      (n : ℕ) (k : K) (v : V) (d : List (K × V))
      → 1 ≤ n
      → find dec k d ≡ none
      → find dec k (evict n (d ++ (k, v) ∷ [])) ≡ some v
  unfolding find evict
  find-evict_last n k v [] p h = ground arith
  find-evict_last n k v ((j, w) ∷ d) p h =
      ground (arith, find-evict_last n k v d, find-append_last_self dec k v d)

  -- What was set last is found.
  pub find-lru_set_self :
      (n : ℕ) (k : K) (v : V) (d : List (K × V))
      → 1 ≤ n
      → Distinct dec d
      → find dec k (lru_set dec n k v d) ≡ some v
  unfolding lru_set
  find-lru_set_self n k v d p h =
      rw move_to_end-assign (find-evict_last n k v (remove dec k d) p (find-remove_self dec k d h))
