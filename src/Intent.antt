-- ===== src/Intent.antt =====
-- fastapi_backend/app/repositories/intent_routing_repository.py, services/intent_mappings_service.py and
-- services/intent_cache_service.py: the mappings from intents to services, their audit log and their cache.
-- The database refuses a row without a service it knows (`IntegrityError`), and its new ids are an argument.
pub mod Service
pub mod Client
pub mod Laws
use api_gateways.Base.{
  ℕ, String, Bool, true, false, Option, none, some, List, [], ◌∷◌, ◌++◌, ◌&&◌, filter, contains,
  str_eq, if◌then◌else◌, Dict, lookup, insert,
}
use api_gateways.Base.Json.{Json, null, bool, str, obj, Fields, end, field}
use api_gateways.Errors.{
  DomainError, intent_not_found, mapping_already_exists, mapping_not_found, Exception, other,
  Result, ok, err, raise, ◌>>=◌,
}

-- A row of `intent_routing`; `is_active` may be null.
pub record IntentRouting : Type 0 where
  pub id : String
  pub intent_name : String
  pub service_id : String
  pub is_active : Option Bool
  pub taxonomy_version : String
  pub created_by : String

-- A row of `intent_mapping_audit_log`.
pub record MappingAudit : Type 0 where
  pub action : String
  pub performed_by : String
  pub entity_id : String
  pub new_value : Option Json
  pub old_value : Option Json

-- The tables that the mappings use; of `ai_services` the ids.
pub record IntentDb : Type 0 where
  pub mappings : List IntentRouting
  pub audit : List MappingAudit
  pub services : List String

abbrev is_true : Option Bool → Bool
is_true none = false
is_true (some b) = b

abbrev first : List IntentRouting → Option IntentRouting
first [] = none
first (m ∷ ms) = some m

abbrev pub is_active : IntentRouting → Bool
is_active m = is_true m.is_active

-- `list_active_intent_mappings`
unfoldable pub list_active_intent_mappings : IntentDb → List IntentRouting
list_active_intent_mappings db = filter is_active db.mappings

-- `get_intent_mapping_by_intent_name`
unfoldable pub get_intent_mapping_by_intent_name : IntentDb → String → Option IntentRouting
get_intent_mapping_by_intent_name db name =
    first (filter (λ m. str_eq m.intent_name name) db.mappings)

-- `get_intent_mapping_by_id`
unfoldable pub get_intent_mapping_by_id : IntentDb → String → Option IntentRouting
get_intent_mapping_by_id db mapping_id = first (filter (λ m. str_eq m.id mapping_id) db.mappings)

-- The `UPDATE` of a changed row, by its primary key.
abbrev pub put_row : IntentRouting → List IntentRouting → List IntentRouting
put_row row [] = []
put_row row (m ∷ ms) = (if str_eq m.id row.id then row else m) ∷ put_row row ms

abbrev json_bool : Option Bool → Json
json_bool none = null
json_bool (some b) = bool b

-- The payload of a creation; its `is_active` is not read.
pub record CreateMapping : Type 0 where
  pub intent_name : String
  pub service_id : String
  pub taxonomy_version : String

abbrev integrity_error : Exception
integrity_error = other "IntegrityError"

-- `create_intent_mapping`
unfoldable pub create_intent_mapping :
    String → CreateMapping → String → IntentDb → Result (IntentDb × IntentRouting)
create_intent_mapping new_id payload created_by db =
    let mapping : IntentRouting = record {
      id = new_id;
      intent_name = payload.intent_name;
      service_id = payload.service_id;
      is_active = some true;
      taxonomy_version = payload.taxonomy_version;
      created_by = created_by;
    } in
    let row : MappingAudit = record {
      action = "MAPPING_CREATED";
      performed_by = created_by;
      entity_id = new_id;
      new_value = some (
          obj (
            field "intent_name" (str payload.intent_name) (
              field "service_id" (str payload.service_id) (
                field "taxonomy_version" (str payload.taxonomy_version)
                  (field "is_active" (bool true) end)))));
      old_value = none;
    } in
    if contains payload.service_id db.services
    then ok (
      record db { mappings = db.mappings ++ mapping ∷ []; audit = db.audit ++ row ∷ [] },
      mapping,
    )
    else err integrity_error

-- A field of an update: not sent, sent as null, or sent with a value.
pub data Sent {ℓ} (A : Type ℓ) : Type ℓ where
  unset : Sent A
  to_null : Sent A
  given : A → Sent A

pub record UpdateMapping : Type 0 where
  pub service_id : Sent String
  pub is_active : Sent Bool
  pub taxonomy_version : Sent String

abbrev set_text : Sent String → String → String
set_text (given s) old = s
set_text unset old = old
set_text to_null old = old

abbrev set_flag : Sent Bool → Option Bool → Option Bool
set_flag (given b) old = some b
set_flag unset old = old
set_flag to_null old = none

abbrev not_null : Sent String → Bool
not_null to_null = false
not_null unset = true
not_null (given s) = true

abbrev text_field : String → Sent String → Fields → Fields
text_field k unset fs = fs
text_field k to_null fs = field k null fs
text_field k (given s) fs = field k (str s) fs

abbrev flag_field : String → Sent Bool → Fields → Fields
flag_field k unset fs = fs
flag_field k to_null fs = field k null fs
flag_field k (given b) fs = field k (bool b) fs

-- `update_intent_mapping`; the columns `service_id` and `taxonomy_version` refuse a null.
unfoldable pub update_intent_mapping :
    IntentRouting → UpdateMapping → String → IntentDb → Result (IntentDb × IntentRouting)
update_intent_mapping m payload performed_by db =
    let mapping : IntentRouting = record m {
      service_id = set_text payload.service_id m.service_id;
      is_active = set_flag payload.is_active m.is_active;
      taxonomy_version = set_text payload.taxonomy_version m.taxonomy_version;
    } in
    let row : MappingAudit = record {
      action = "MAPPING_UPDATED";
      performed_by = performed_by;
      entity_id = m.id;
      new_value = some (
          obj (
            text_field "service_id" payload.service_id (
              flag_field "is_active" payload.is_active
                (text_field "taxonomy_version" payload.taxonomy_version end))));
      old_value = some (
          obj (
            field "service_id" (str m.service_id) (
              field "is_active" (json_bool m.is_active)
                (field "taxonomy_version" (str m.taxonomy_version) end))));
    } in
    if not_null payload.service_id
      && not_null payload.taxonomy_version
      && contains mapping.service_id db.services
    then ok (
      record db { mappings = put_row mapping db.mappings; audit = db.audit ++ row ∷ [] },
      mapping,
    )
    else err integrity_error

-- `soft_delete_intent_mapping`
unfoldable pub soft_delete_intent_mapping :
    IntentRouting → String → IntentDb → Result (IntentDb × IntentRouting)
soft_delete_intent_mapping m performed_by db =
    let mapping : IntentRouting = record m { is_active = some false } in
    let row : MappingAudit = record {
      action = "MAPPING_DEACTIVATED";
      performed_by = performed_by;
      entity_id = m.id;
      new_value = some (obj (field "is_active" (bool false) end));
      old_value = some (obj (field "is_active" (json_bool m.is_active) end));
    } in
    ok (record db { mappings = put_row mapping db.mappings; audit = db.audit ++ row ∷ [] }, mapping)
