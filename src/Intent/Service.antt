-- ===== src/Intent/Service.antt =====
-- fastapi_backend/app/services/intent_mappings_service.py and intent_cache_service.py:
-- the guards before each change of a mapping, and the cache that requests resolve their intent with.
use api_gateways.Base.{
  String, Option, none, some, List, [], ◌∷◌, str_eq, if◌then◌else◌, Dict, lookup, insert,
}
use api_gateways.Errors.{
  intent_not_found, mapping_already_exists, mapping_not_found, Result, ok, raise,
}
use api_gateways.Intent.{
  IntentRouting, IntentDb, CreateMapping, UpdateMapping, list_active_intent_mappings,
  get_intent_mapping_by_intent_name, get_intent_mapping_by_id, create_intent_mapping,
  update_intent_mapping, soft_delete_intent_mapping,
}

-- `IntentMappingsService.get_mapping`
unfoldable pub get_mapping : IntentDb → String → Result IntentRouting
get_mapping db mapping_id = found (get_intent_mapping_by_id db mapping_id)
  where
    found : Option IntentRouting → Result IntentRouting
    found none = raise (mapping_not_found mapping_id)
    found (some m) = ok m

-- `IntentMappingsService.create_mapping`
unfoldable pub create_mapping :
    String → CreateMapping → String → IntentDb → Result (IntentDb × IntentRouting)
create_mapping new_id payload created_by db =
    unless_found (get_intent_mapping_by_intent_name db payload.intent_name)
  where
    unless_found : Option IntentRouting → Result (IntentDb × IntentRouting)
    unless_found (some m) = raise (mapping_already_exists payload.intent_name)
    unless_found none = create_intent_mapping new_id payload created_by db

-- `IntentMappingsService.update_mapping`
unfoldable pub update_mapping :
    String → UpdateMapping → String → IntentDb → Result (IntentDb × IntentRouting)
update_mapping mapping_id payload performed_by db =
    if_found (get_intent_mapping_by_id db mapping_id)
  where
    if_found : Option IntentRouting → Result (IntentDb × IntentRouting)
    if_found none = raise (mapping_not_found mapping_id)
    if_found (some m) = update_intent_mapping m payload performed_by db

-- `IntentMappingsService.delete_mapping`
unfoldable pub delete_mapping : String → String → IntentDb → Result (IntentDb × IntentRouting)
delete_mapping mapping_id performed_by db = if_found (get_intent_mapping_by_id db mapping_id)
  where
    if_found : Option IntentRouting → Result (IntentDb × IntentRouting)
    if_found none = raise (mapping_not_found mapping_id)
    if_found (some m) = soft_delete_intent_mapping m performed_by db

-- The attributes of `IntentCacheService` that answer a request.
pub record IntentCache : Type 0 where
  pub cache : Dict String
  pub version : String

-- The cache before its first load.
unfoldable pub empty_cache : IntentCache
empty_cache = record { cache = []; version = "unknown" }

-- The loop of `force_reload`.
unfoldable pub load_mappings : List IntentRouting → IntentCache → IntentCache
load_mappings [] c = c
load_mappings (m ∷ ms) c =
    load_mappings ms
      (record { cache = insert m.intent_name m.service_id c.cache; version = m.taxonomy_version })

-- `force_reload`: the old cache is dropped.
unfoldable pub force_reload : IntentDb → IntentCache
unfolding empty_cache
force_reload db = load_mappings (list_active_intent_mappings db) empty_cache

-- `resolve_intent`: an empty service id counts as none.
unfoldable pub resolve_intent : IntentCache → String → Result String
resolve_intent c intent_name = found (lookup intent_name c.cache)
  where
    found : Option String → Result String
    found none = raise (intent_not_found intent_name c.version)
    found (some s) = if str_eq s "" then raise (intent_not_found intent_name c.version) else ok s
