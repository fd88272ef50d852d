-- ===== src/Admin/Policies.antt =====
-- fastapi_backend/app/api/admin/policies.py and repositories/policy_repository.py: the stored policies, whose every change is
-- followed by a synchronization with OPA. Rows stand with the newest first, as they are listed; a new id is an argument.
pub mod Laws
use api_gateways.Base.{
  String, Bool, true, false, not, ◌&&◌, Option, none, some, List, [], ◌∷◌, filter, any, str_eq,
  if◌then◌else◌,
}
use api_gateways.Base.Json.{Json}
use api_gateways.Errors.{DomainError, policy_sync_error, Exception, domain, other, Result, ok, err}
use api_gateways.Gateway.Outcome.{Outcome, done, http, raised, ◌>>=◌}
use api_gateways.Gateway.Tokens.{User}
use api_gateways.Admin.Access.{guarded}
use api_gateways.Intent.{Sent, unset, to_null, given}
use api_gateways.Policy.Schema.{Policy}
use api_gateways.Policy.Service.{Settings, PolicyService}
use api_gateways.Policy.Rego.{BundleItem}
use api_gateways.Policy.Sync.{PolicyRow, PushReply, SyncStats, sync_from_db}

-- `GovernancePolicyCreate`, with the condition and the effect as they are stored.
pub record PolicyCreate : Type 0 where
  pub description : Option String
  pub condition : Json
  pub effect : Json
  pub is_active : Bool
  pub version : String

-- `GovernancePolicyUpdate`
pub record PolicyUpdate : Type 0 where
  pub description : Sent String
  pub condition : Sent Json
  pub effect : Sent Json
  pub is_active : Sent Bool
  pub version : Sent String

abbrev first : List PolicyRow → Option PolicyRow
first [] = none
first (row ∷ rows) = some row

-- `get_policy`
unfoldable pub get_policy : String → List PolicyRow → Option PolicyRow
get_policy id rows = first (filter (λ row. str_eq row.id id) rows)

-- `create_policy`
unfoldable pub create_policy : String → PolicyCreate → List PolicyRow → List PolicyRow × PolicyRow
create_policy new_id payload rows =
    let row : PolicyRow = record {
      id = new_id;
      description = payload.description;
      condition = payload.condition;
      effect = payload.effect;
      is_active = payload.is_active;
      version = payload.version;
    } in
    (row ∷ rows, row)

abbrev is_unset {ℓ} : {A : Type ℓ} → Sent A → Bool
is_unset unset = true
is_unset to_null = false
is_unset (given a) = false

abbrev not_null {ℓ} : {A : Type ℓ} → Sent A → Bool
not_null unset = true
not_null to_null = false
not_null (given a) = true

abbrev set_column {ℓ} : {A : Type ℓ} → Sent A → A → A
set_column unset old = old
set_column to_null old = old
set_column (given a) old = a

abbrev set_nullable : Sent String → Option String → Option String
set_nullable unset old = old
set_nullable to_null old = none
set_nullable (given s) old = some s

-- `not update_data`
abbrev pub is_empty_update : PolicyUpdate → Bool
is_empty_update u =
    is_unset u.description
    && is_unset u.condition
    && is_unset u.effect
    && is_unset u.is_active
    && is_unset u.version

-- The columns but the description refuse a null.
abbrev pub keeps_columns : PolicyUpdate → Bool
keeps_columns u =
    not_null u.condition && not_null u.effect && not_null u.is_active && not_null u.version

abbrev updated : PolicyUpdate → PolicyRow → PolicyRow
updated u row = record row {
  description = set_nullable u.description row.description;
  condition = set_column u.condition row.condition;
  effect = set_column u.effect row.effect;
  is_active = set_column u.is_active row.is_active;
  version = set_column u.version row.version;
}

-- The `UPDATE … WHERE id = …`
unfoldable pub update_rows : String → PolicyUpdate → List PolicyRow → List PolicyRow
update_rows id u [] = []
update_rows id u (row ∷ rows) =
    (if str_eq row.id id then updated u row else row) ∷ update_rows id u rows

abbrev pub has_id : String → List PolicyRow → Bool
has_id id rows = any (λ row. str_eq row.id id) rows

-- `update_policy`
unfoldable pub update_policy :
    String → PolicyUpdate → List PolicyRow → Outcome (List PolicyRow × Option PolicyRow)
unfolding get_policy update_rows
update_policy id u rows =
    if is_empty_update u
    then done (rows, get_policy id rows)
    else if has_id id rows && not (keeps_columns u)
    then raised "IntegrityError"
    else done (update_rows id u rows, get_policy id (update_rows id u rows))

-- `delete_policy`
unfoldable pub delete_policy : String → List PolicyRow → List PolicyRow × Bool
delete_policy id rows = (filter (λ row. not (str_eq row.id id)) rows, has_id id rows)

-- The table, and the service of the process.
pub record PolicyAdmin : Type 0 where
  pub rows : List PolicyRow
  pub service : PolicyService

-- An exception of the synchronization as the endpoint passes it on.
abbrev pub sync_answer : Result SyncStats → Outcome SyncStats
sync_answer (ok stats) = done stats
sync_answer (err (domain (policy_sync_error reason))) = http 502
sync_answer (err e) = raised "Exception"

module _ (parse : PolicyRow → Option Policy) (digest : String → List BundleItem → String)
    (settings : Settings) where
  -- `_safe_sync`, where OPA gives `reply` to the push
  unfoldable pub safe_sync : String → PushReply → PolicyAdmin → PolicyAdmin × Outcome SyncStats
  safe_sync now reply s =
      let (result, service) = sync_from_db parse digest settings now s.service s.rows reply in
      (record s { service = service }, sync_answer result)

  abbrev after_sync {ℓ} :
      {A : Type ℓ} → A → PolicyAdmin × Outcome SyncStats → PolicyAdmin × Outcome A
  after_sync a (s, result) = (s, result >>= (λ stats. done a))

  module _ (access : Outcome User) (now : String) (reply : PushReply) where
    -- `create_governance_policy`
    unfoldable pub create_governance_policy :
        String → PolicyCreate → PolicyAdmin → PolicyAdmin × Outcome PolicyRow
    unfolding create_policy safe_sync
    create_governance_policy new_id payload s =
        let (rows, row) = create_policy new_id payload s.rows in
        guarded access s (after_sync row (safe_sync now reply (record s { rows = rows })))

    abbrev finish_update :
        PolicyAdmin → Outcome (List PolicyRow × Option PolicyRow) → PolicyAdmin × Outcome PolicyRow
    finish_update s (done (rows, some row)) =
        after_sync row (safe_sync now reply (record s { rows = rows }))
    finish_update s (done (rows, none)) = (record s { rows = rows }, http 404)
    finish_update s (http status) = (s, http status)
    finish_update s (raised e) = (s, raised e)

    -- `update_governance_policy`
    unfoldable pub update_governance_policy :
        String → PolicyUpdate → PolicyAdmin → PolicyAdmin × Outcome PolicyRow
    unfolding update_policy safe_sync
    update_governance_policy policy_id payload s =
        guarded access s (finish_update s (update_policy policy_id payload s.rows))

    -- `delete_governance_policy`
    unfoldable pub delete_governance_policy : String → PolicyAdmin → PolicyAdmin × Outcome {0} Unit
    unfolding delete_policy safe_sync
    delete_governance_policy policy_id s =
        let (rows, success) = delete_policy policy_id s.rows in
        let deleted = after_sync tt (safe_sync now reply (record s { rows = rows })) in
        guarded access s (if success then deleted else (record s { rows = rows }, http 404))

    -- `reload_policies`
    unfoldable pub reload_policies : PolicyAdmin → PolicyAdmin × Outcome SyncStats
    unfolding safe_sync
    reload_policies s = guarded access s (safe_sync now reply s)

abbrev pub found : Option PolicyRow → Outcome PolicyRow
found none = http 404
found (some row) = done row

-- `get_governance_policy`
unfoldable pub get_governance_policy : Outcome User → String → PolicyAdmin → Outcome PolicyRow
unfolding get_policy
get_governance_policy access policy_id s = access >>= (λ user. found (get_policy policy_id s.rows))
