-- ===== src/Policy/Sync.antt =====
-- `sync_from_db` and `_compute_policy_hash` of policy_service.py. The validation of a row, the hash of
-- the canonical JSON text and OPA's answer to the push are arguments.
pub mod Laws
use Prim.Native.Nat.{Ordering}
use Prim.Native.String.{compare}
use api_gateways.Base.{
  ℕ, String, Bool, true, false, ◌&&◌, Option, none, some, List, [], ◌∷◌, map, length, leb, str_eq,
  if◌then◌else◌,
}
use api_gateways.Base.Json.{Json}
use api_gateways.Policy.Schema.{Policy}
use api_gateways.Policy.Service.{
  Settings, PolicyService, PushError, transport_error, http_error, is_true, same_hash,
}
use api_gateways.Policy.Rego.{BundleItem, Bundle, serialize_policy}
use api_gateways.Errors.{Result, ok, err, raise, policy_sync_error}

-- A row of `governance_policies`, with the columns that the schema validates as read.
pub record PolicyRow : Type 0 where
  pub id : String
  pub description : Option String
  pub condition : Json
  pub effect : Json
  pub is_active : Bool
  pub version : String

-- OPA's answer to the PUT.
pub data PushReply : Type 0 where
  unreachable : String → PushReply
  response : ℕ → String → PushReply

-- `_push_policies_to_opa`: none, or the error that it raises
unfoldable pub push_error : PushReply → Option PushError
push_error (unreachable message) = some (transport_error message)
push_error (response status body) = if leb 400 status then some (http_error status body) else none

pub data OpaState : Type 0 where
  disabled synced failed : OpaState

pub record SyncStats : Type 0 where
  pub total_in_db : ℕ
  pub active_synced : ℕ
  pub version : String
  pub hash : Option String
  pub opa : OpaState
  pub in_sync : Bool
  pub error : Option PushError

-- `list.sort(key=lambda item: item["id"])`, which is stable
abbrev str_le : String → String → Bool
str_le s t = elim (compare s t) [ Ordering.gt ↦ false | _ ↦ true ]

unfoldable pub insert_by_id : BundleItem → List BundleItem → List BundleItem
insert_by_id x [] = x ∷ []
insert_by_id x (y ∷ ys) = if str_le x.id y.id then x ∷ y ∷ ys else y ∷ insert_by_id x ys

unfoldable pub sort_by_id : List BundleItem → List BundleItem
unfolding insert_by_id
sort_by_id [] = []
sort_by_id (x ∷ xs) = insert_by_id x (sort_by_id xs)

abbrev pub version_of : List PolicyRow → String → String
version_of [] version = version
version_of (row ∷ rows) version = row.version

abbrev or_compute : Option String → String → String
or_compute none computed = computed
or_compute (some h) computed = if str_eq h "" then computed else h

-- The `try` around the push: the attributes that it sets and the state that it reports.
unfoldable pub record_push : PolicyService → Option PushError → PolicyService × OpaState
record_push svc none = (
  record svc {
    last_pushed_hash = svc.local_hash;
    last_pushed_version = some svc.version;
    last_sync_ok = some true;
    last_sync_error = none;
  },
  synced,
)
record_push svc (some e) =
    (record svc { last_sync_ok = some false; last_sync_error = some e }, failed)

abbrev pushed : Settings → PolicyService → PushReply → PolicyService × OpaState
pushed settings svc reply =
    if settings.opa_enabled then record_push svc (push_error reply) else (svc, disabled)

abbrev reported_error : Settings → PushReply → Option PushError
reported_error settings reply = if settings.opa_enabled then push_error reply else none

abbrev finish : Bool → Option PushError → SyncStats → Result SyncStats
finish strict none stats = ok stats
finish strict (some e) stats =
    if strict then raise (policy_sync_error "opa_push_failed") else ok stats

module _ (parse : PolicyRow → Option Policy) where
  abbrev pub keep_parsed : Option Policy → List Policy → List Policy
  keep_parsed none ps = ps
  keep_parsed (some p) ps = p ∷ ps

  -- The loop over the rows: inactive rows and those that do not validate are skipped.
  unfoldable pub load_policies : List PolicyRow → List Policy
  load_policies [] = []
  load_policies (row ∷ rows) =
      let rest = load_policies rows in if row.is_active then keep_parsed (parse row) rest else rest

module _ (digest : String → List BundleItem → String) where
  -- `_compute_policy_hash`
  unfoldable pub compute_policy_hash : List Policy → String → String
  unfolding sort_by_id
  compute_policy_hash policies version = digest version (sort_by_id (map serialize_policy policies))

  -- `_serialize_policy_bundle`, what the push sends
  unfoldable pub serialize_bundle : PolicyService → Bundle
  unfolding compute_policy_hash
  serialize_bundle svc = record {
    items = map serialize_policy svc.policies;
    version = svc.version;
    hash = or_compute svc.local_hash (compute_policy_hash svc.policies svc.version);
  }

module _ (parse : PolicyRow → Option Policy) (digest : String → List BundleItem → String) where
  -- The cache after the rows are loaded, before the push.
  unfoldable pub refresh : PolicyService → List PolicyRow → PolicyService
  unfolding load_policies compute_policy_hash
  refresh svc rows =
      let policies = load_policies parse rows in
      let version = version_of rows svc.version in
      record svc {
        policies = policies;
        version = version;
        local_hash = some (compute_policy_hash digest policies version);
      }

  -- `sync_from_db`; `now` is the time stamp of the call
  unfoldable pub sync_from_db :
      Settings
      → String
      → PolicyService
      → List PolicyRow
      → PushReply
      → Result SyncStats × PolicyService
  unfolding refresh record_push
  sync_from_db settings now svc rows reply =
      let (after, opa) = pushed settings (refresh svc rows) reply in
      let done = record after { last_sync_at = some now } in
      let e = reported_error settings reply in
      (
        finish settings.opa_strict_sync e (record {
          total_in_db = length rows;
          active_synced = length done.policies;
          version = done.version;
          hash = done.local_hash;
          opa = opa;
          in_sync = is_true done.last_sync_ok && same_hash done.local_hash done.last_pushed_hash;
          error = e;
        }),
        done,
      )
