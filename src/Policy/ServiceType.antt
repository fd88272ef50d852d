-- ===== src/Policy/ServiceType.antt =====
-- `canonical_service_type` of policy_service.py: free-form service types in canonical form.
pub mod Laws
use api_gateways.Base.{
  ℕ, ◌≡◌, refl, Bool, true, false, ◌||◌, Option, none, some, List, [], ◌∷◌, map, arith, Text, codes,
  text_eq, text_in, strip, replace, to_lower, if◌then◌else◌, text_eq_sound, text_eq_refl, ◌↔◌, ◌⊎◌,
  inl, inr,
}

abbrev pub cloud : Text
cloud = codes "cloud"

abbrev pub on_prem : Text
on_prem = codes "on-prem"

-- `_CLOUD_ALIASES`
abbrev pub cloud_aliases : List Text
cloud_aliases = codes "cloud" ∷ codes "saas" ∷ codes "managed" ∷ codes "hosted" ∷ []

-- `_ONPREM_ALIASES`
abbrev pub onprem_aliases : List Text
onprem_aliases =
    codes "on-prem"
    ∷ codes "onprem"
    ∷ codes "on_prem"
    ∷ codes "on premises"
    ∷ codes "self-hosted"
    ∷ []

-- `str(value).strip().lower().replace(" ", "-").replace("_", "-")`
unfoldable pub normalize_service_type : Text → Text
normalize_service_type value = replace b'_' b'-' (replace b' ' b'-' (map to_lower (strip value)))

unfoldable pub classify_service_type : Text → Text
classify_service_type raw =
    if text_in raw cloud_aliases || text_eq raw cloud
    then cloud
    else if text_in raw onprem_aliases || text_eq raw on_prem
    then on_prem
    else if text_eq raw []
    then on_prem
    else raw

unfoldable pub canonical_service_type : Option Text → Text
canonical_service_type none = on_prem
canonical_service_type (some value) = classify_service_type (normalize_service_type value)
