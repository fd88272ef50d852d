-- ===== src/Base/Dicts.antt =====
-- Python's `dict` with text keys, in insertion order.
use Prim.Native.String.{String}
use mathlib.Core.Logic.{inl, inr}
use mathlib.Core.Path.{◌≡◌, ◌∙◌, refl, subst}
use mathlib.Core.Option.{Option, none, some}
use mathlib.Core.List.{List, [], ◌∷◌}
use native.Mathlib.Omega.{arith}
use text.Mathlib.TextEquality.{eq_iff}
use api_gateways.Base.Tests.{str_eq, if◌then◌else◌, Bool-cases}

abbrev pub Dict {ℓ} : Type ℓ → Type ℓ
Dict V = List (String × V)

module _ {ℓ} {V : Type ℓ} where
  -- `d.get(k)`
  unfoldable pub lookup : String → Dict V → Option V
  lookup k [] = none
  lookup k ((j, v) ∷ d) = if str_eq j k then some v else lookup k d

  -- `d[k] = v`: a known key keeps its place
  unfoldable pub insert : String → V → Dict V → Dict V
  insert k v [] = (k, v) ∷ []
  insert k v ((j, w) ∷ d) = if str_eq j k then (k, v) ∷ d else (j, w) ∷ insert k v d

  pub lookup-insert :
      (k j : String) (v : V) (d : Dict V)
      → lookup j (insert k v d) ≡ (if str_eq k j then some v else lookup j d)
  unfolding lookup insert
  lookup-insert k j v [] = refl
  lookup-insert k j v ((i, w) ∷ d) =
      ground (arith, eq_iff k j, eq_iff i k, eq_iff i j, lookup-insert k j v d)

  -- Each entry of the first is assigned in the second, in order: `{k: v for …}` and `d.update(…)`.
  unfoldable pub insert_all : Dict V → Dict V → Dict V
  insert_all [] d = d
  insert_all ((k, v) ∷ e) d = insert_all e (insert k v d)

  -- Each key has one entry.
  abbrev pub Distinct : Dict V → Type ℓ
  Distinct [] = Unit
  Distinct ((j, v) ∷ d) = (lookup j d ≡ none) × Distinct d

  abbrev pub or_lookup : Option V → Option V → Option V
  or_lookup (some v) old = some v
  or_lookup none old = old

  pub lookup-insert_all :
      (k : String) (e d : Dict V)
      → Distinct e
      → lookup k (insert_all e d) ≡ or_lookup (lookup k e) (lookup k d)
  unfolding insert_all lookup
  lookup-insert_all k [] d h = refl
  lookup-insert_all k ((j, v) ∷ e) d h = elim (Bool-cases (str_eq j k)) [
    | inl same ↦
        let fresh : lookup k e ≡ none = subst (λ x. lookup x e ≡ none) ((eq_iff j k).0 same) h.0 in
        lookup-insert_all k e (insert j v d) h.1 ∙ rw (lookup-insert j k v d, same, fresh)
    | inr differ ↦ lookup-insert_all k e (insert j v d) h.1 ∙ rw (lookup-insert j k v d, differ)
  ]

  pub Distinct-insert : (k : String) (v : V) (d : Dict V) → Distinct d → Distinct (insert k v d)
  unfolding insert
  Distinct-insert k v [] h = (unfold lookup in refl, tt)
  Distinct-insert k v ((j, w) ∷ d) h = elim (Bool-cases (str_eq j k)) [
    | inl same ↦ rw same (subst (λ x. lookup x d ≡ none) ((eq_iff j k).0 same) h.0, h.1)
    | inr differ ↦
        rw differ
          (ground (arith, lookup-insert k j v d, eq_iff k j, eq_iff j k), Distinct-insert k v d h.1)
  ]
