-- ===== src/Policy/ServiceType/Laws.antt =====
-- The canonical forms of free-form service types, as `canonical_service_type` of policy_service.py gives them.
use mathlib.Core.List.{map-map}
use api_gateways.Base.{
  ℕ, ◌≡◌, refl, true, false, ◌==◌, Option, none, some, List, [], ◌∷◌, map, arith, Text, codes,
  text_eq, text_in, strip, replace, to_lower, is_space, if◌then◌else◌, text_eq_sound, text_eq_refl,
  ◌↔◌, ◌⊎◌, inl, inr, strip-map-strip, All, Bool-cases, ap, fun_ext,
}
use api_gateways.Policy.ServiceType.{
  cloud, on_prem, normalize_service_type, canonical_service_type, classify_service_type,
}

-- The three replacements as one map.
abbrev fold_char : ℕ → ℕ
fold_char c =
    let d = to_lower c in let e = if d == b' ' then b'-' else d in if e == b'_' then b'-' else e

normalize_map : (v : Text) → normalize_service_type v ≡ map fold_char (strip v)
unfolding normalize_service_type replace
normalize_map v = simp map-map

fold_char_keeps : (c : ℕ) → is_space c ≡ false → is_space (fold_char c) ≡ false
fold_char_keeps c h = ground arith

fold_char_idem : (c : ℕ) → fold_char (fold_char c) ≡ fold_char c
fold_char_idem c = ground arith

normalize_idem :
    (v : Text) → normalize_service_type (normalize_service_type v) ≡ normalize_service_type v
normalize_idem v =
    rw (normalize_map v, normalize_map (map fold_char (strip v)))
      (rw (strip-map-strip fold_char fold_char_keeps v)
        (simp map-map (ap (λ f. map f (strip v)) (fun_ext fold_char_idem))))

-- A separator of the source that no normalized text holds.
abbrev IsFolded : ℕ → Type 0
IsFolded c = (c == b' ' ≡ false) × (c == b'_' ≡ false)

map-IsFolded : (s : Text) → All IsFolded (map fold_char s)
map-IsFolded [] = tt
map-IsFolded (c ∷ s) = ground (arith, map-IsFolded s)

-- A name with one of the two separators is no normalized text.
not-IsFolded : (s t : Text) → All IsFolded s → text_eq s t ≡ true → All IsFolded t
not-IsFolded s t h e = rw (← text_eq_sound s t e) h

abbrev pub onprem_names : List Text
onprem_names = codes "on-prem" ∷ codes "onprem" ∷ codes "self-hosted" ∷ [] ∷ []

not_text_eq : (s t : Text) → All IsFolded s → ¬ All IsFolded t → text_eq s t ≡ false
not_text_eq s t h n = elim (Bool-cases (text_eq s t)) [
  | inl e ↦ absurd (n (not-IsFolded s t h e))
  | inr e ↦ e
]

names_cases :
    (s : Text)
    → text_in s onprem_names ≡ true
    → (s ≡ codes "on-prem") ⊎ (s ≡ codes "onprem") ⊎ (s ≡ codes "self-hosted") ⊎ (s ≡ [])
names_cases s h = ground (
  arith,
  text_eq_sound s (codes "on-prem"),
  text_eq_sound s (codes "onprem"),
  text_eq_sound s (codes "self-hosted"),
  text_eq_sound s [],
)

classify_names : (s : Text) → text_in s onprem_names ≡ true → classify_service_type s ≡ on_prem
unfolding classify_service_type text_eq
classify_names s h = elim (names_cases s h) [
  | inl e ↦ rw e
  | inr (inl e) ↦ rw e
  | inr (inr (inl e)) ↦ rw e
  | inr (inr (inr e)) ↦ rw e
]

text_eq_of_eq : (s t : Text) → s ≡ t → text_eq s t ≡ true
text_eq_of_eq s t e = rw e (text_eq_refl t)

on_prem_named :
    (s : Text)
    → text_eq s (codes "on_prem") ≡ false
    → text_eq s (codes "on premises") ≡ false
    → classify_service_type s ≡ on_prem
    → text_in s onprem_names ≡ true
unfolding classify_service_type
on_prem_named s h k e = ground (arith, text_eq_of_eq s on_prem)

normalize-IsFolded : (v : Text) → All IsFolded (normalize_service_type v)
normalize-IsFolded v = rw (normalize_map v) (map-IsFolded (strip v))

-- A service type counts as on-premises exactly when its normalized form is "on-prem", "onprem",
-- "self-hosted" or empty; in particular never as "on premises" or "on_prem", though both are
-- listed as aliases.
pub canonical-on_prem :
    (v : Text)
    → (canonical_service_type (some v) ≡ on_prem)
      ↔ (text_in (normalize_service_type v) onprem_names ≡ true)
unfolding canonical_service_type
canonical-on_prem v =
    let s = normalize_service_type v in
    (
      on_prem_named s (not_text_eq s (codes "on_prem") (normalize-IsFolded v) (λ h. cc h.1.1.0.1))
          (not_text_eq s (codes "on premises") (normalize-IsFolded v) (λ h. cc h.1.1.0.0)),
      classify_names s,
    )

classify_cases :
    (s : Text)
    → (classify_service_type s ≡ cloud)
      ⊎ (classify_service_type s ≡ on_prem)
      ⊎ (classify_service_type s ≡ s)
unfolding classify_service_type
classify_cases s = ground arith

canonical_cloud : canonical_service_type (some cloud) ≡ cloud
unfolding canonical_service_type classify_service_type normalize_service_type strip replace text_eq
canonical_cloud = refl

canonical_on_prem : canonical_service_type (some on_prem) ≡ on_prem
unfolding canonical_service_type classify_service_type normalize_service_type strip replace text_eq
canonical_on_prem = refl

canonical_some :
    (v : Text) → canonical_service_type (some v) ≡ classify_service_type (normalize_service_type v)
unfolding canonical_service_type
canonical_some v = refl

-- The canonical form of a canonical form is itself, so a context may be canonicalized again.
pub canonical_idem :
    (o : Option Text)
    → canonical_service_type (some (canonical_service_type o)) ≡ canonical_service_type o
canonical_idem none = unfold canonical_service_type in canonical_on_prem
canonical_idem (some v) = rw (canonical_some v) (elim (classify_cases (normalize_service_type v)) [
  | inl e ↦ rw e canonical_cloud
  | inr (inl e) ↦ rw e canonical_on_prem
  | inr (inr e) ↦ rw e (rw (canonical_some (normalize_service_type v)) (rw (normalize_idem v) e))
])
