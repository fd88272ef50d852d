-- ===== src/Gateway/Nested/Paths.antt =====
-- The paths of a nested configuration of gateway_plugins.py: what its flat form lists.
use api_gateways.Base.{
  false, none, List, [], ◌∷◌, ◌++◌, map, Text, text_eq, text_eq_sound, text_eq_refl, ◌==◌, ◌≡◌, ◌≢◌,
  arith, Bool-cases, inl, inr,
}
use api_gateways.Gateway.Nested.{
  Leaf, Nested, leaf, dict, Entries, end, entry, find, dot, is_empty_value,
}

-- A key without a dot.
abbrev pub Dotless : Text → Type 0
Dotless [] = Unit
Dotless (c ∷ s) = ((c == b'.') ≡ false) × Dotless s

abbrev pub NonEmpty : Entries → Type 0
NonEmpty end = ⊥
NonEmpty (entry k v es) = Unit

-- A configuration that has a flat form: keys without dots and distinct in each dictionary, and no value that the
-- form takes for absent.
abbrev mutual
  pub IsConfig : Entries → Type 0
  IsConfig end = Unit
  IsConfig (entry k v es) = Dotless k × (find k es ≡ none) × IsValue v × IsConfig es

  pub IsValue : Nested → Type 0
  IsValue (leaf v) = is_empty_value (leaf v) ≡ false
  IsValue (dict sub) = NonEmpty sub × IsConfig sub

-- The first key on the way to a value, the others, and the value.
abbrev pub KeyPath : Type 0
KeyPath = Text × List Text × Leaf

abbrev pub under : Text → KeyPath → KeyPath
under k (p, ps, v) = (k, p ∷ ps, v)

unfoldable pub paths : Entries → List KeyPath
paths end = []
paths (entry k (leaf v) es) = (k, [], v) ∷ paths es
paths (entry k (dict sub) es) = map (under k) (paths sub) ++ paths es

abbrev pub join : Text → List Text → Text
join p [] = p
join p (q ∷ qs) = p ++ (dot ++ join q qs)

pub text_ne : (s t : Text) → s ≢ t → text_eq s t ≡ false
text_ne s t h = elim (Bool-cases (text_eq s t)) [
  | inl same ↦ absurd (h (text_eq_sound s t same))
  | inr differs ↦ differs
]

pub text_eq-false_sym : (s t : Text) → text_eq s t ≡ false → text_eq t s ≡ false
text_eq-false_sym s t h = text_ne t s (λ e. ground (arith, text_eq_refl s, e, h))
