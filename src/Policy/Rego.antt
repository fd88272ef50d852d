-- ===== src/Policy/Rego.antt =====
-- The bundle that the service pushes to OPA (`_serialize_policy_bundle` of policy_service.py), and the
-- Rego rules of opa/policies over that bundle and the context of a request.
use api_gateways.Base.{
  String, Bool, true, false, not, ◌&&◌, ◌||◌, Option, none, some, List, [], ◌∷◌, text_eq, str_eq,
  if◌then◌else◌,
}
use api_gateways.Base.Json.{Json, Items, Fields}
use api_gateways.Policy.Schema.{
  SensitivityLevel, level_value, effect_value, Policy, CanonicalContext,
}
use api_gateways.Policy.ServiceType.{cloud, on_prem}
use api_gateways.Policy.Evaluate.{is_value}

pub record BundleItem : Type 0 where
  pub id : String
  pub description : Option String
  pub effect : String
  pub sensitivity : Option String
  pub tenant : Option String

pub record Bundle : Type 0 where
  pub items : List BundleItem
  pub version : String
  pub hash : String

abbrev pub dump_level : Option SensitivityLevel → Option String
dump_level none = none
dump_level (some l) = some (level_value l)

-- `_serialize_policy`
abbrev pub serialize_policy : Policy → BundleItem
serialize_policy p = record {
  id = p.id;
  description = p.description;
  effect = effect_value p.effect;
  sensitivity = dump_level p.condition.sensitivity;
  tenant = p.condition.tenant;
}

-- `sensitivity_ok` and `tenant_ok`: absent, or equal to the value of the context
abbrev condition_ok : Option String → Option String → Bool
condition_ok none v = true
condition_ok (some c) v = is_value v c

-- `policy_matches`
unfoldable pub policy_matches : BundleItem → CanonicalContext → Bool
policy_matches item ctx =
    condition_ok item.sensitivity ctx.sensitivity && condition_ok item.tenant ctx.tenant

-- The three `should_block` rules of the Rego file.
unfoldable pub rule_blocks : BundleItem → CanonicalContext → Bool
rule_blocks item ctx =
    str_eq item.effect "deny_all"
    || str_eq item.effect "deny_cloud" && text_eq ctx.service_type cloud
    || str_eq item.effect "allow_onprem_only" && not (text_eq ctx.service_type on_prem)

-- `block`; OPA prints the set without repetitions, which membership does not see
unfoldable pub block : CanonicalContext → List BundleItem → List String
block ctx [] = []
block ctx (item ∷ items) =
    let rest = block ctx items in
    if policy_matches item ctx && rule_blocks item ctx then item.id ∷ rest else rest

-- `allow`
abbrev pub allowed : List String → Bool
allowed [] = true
allowed (id ∷ ids) = false

abbrev pub id_items : List String → Items
id_items [] = Items.nil
id_items (id ∷ ids) = Items.cons (Json.str id) (id_items ids)

-- The two fields of OPA's decision document that the service reads.
unfoldable pub decision_document : Bundle → CanonicalContext → Json
unfolding block
decision_document bundle ctx =
    let ids = block ctx bundle.items in
    Json.obj (
      Fields.field "result"
        (Json.obj (
          Fields.field "allow" (Json.bool (allowed ids))
            (Fields.field "block" (Json.arr (id_items ids)) Fields.end)))
        Fields.end)
