-- ===== src/Policy/Service.antt =====
-- The state of `PolicyService` in policy_service.py and its status for the administrators.
use api_gateways.Base.{ℕ, length, String, Bool, true, false, ◌&&◌, Option, none, some, List, str_eq}
use api_gateways.Policy.Schema.{Policy}

-- The four switches of core/config.py.
pub record Settings : Type 0 where
  pub opa_enabled : Bool
  pub opa_strict_sync : Bool
  pub opa_allow_local_fallback : Bool
  pub opa_fail_closed : Bool

-- How a push to OPA failed: the two `RuntimeError`s of `_push_policies_to_opa`.
pub data PushError : Type 0 where
  transport_error : String → PushError
  http_error : ℕ → String → PushError

-- The attributes of `PolicyService`; the HTTP client is left out.
pub record PolicyService : Type 0 where
  pub policies : List Policy
  pub version : String
  pub local_hash : Option String
  pub last_pushed_hash : Option String
  pub last_pushed_version : Option String
  pub last_sync_ok : Option Bool
  pub last_sync_at : Option String
  pub last_sync_error : Option PushError

abbrev pub is_true : Option Bool → Bool
is_true (some true) = true
is_true (some false) = false
is_true none = false

-- `a is not None and a == b`
abbrev pub same_hash : Option String → Option String → Bool
same_hash none h = false
same_hash (some a) none = false
same_hash (some a) (some b) = str_eq a b

-- `_is_in_sync`
unfoldable pub is_in_sync : PolicyService → Bool
is_in_sync svc = is_true svc.last_sync_ok && same_hash svc.local_hash svc.last_pushed_hash

pub record Status : Type 0 where
  pub settings : Settings
  pub policy_count : ℕ
  pub version : String
  pub local_hash : Option String
  pub last_pushed_hash : Option String
  pub last_pushed_version : Option String
  pub last_sync_ok : Option Bool
  pub last_sync_at : Option String
  pub last_sync_error : Option PushError
  pub in_sync : Bool

-- `get_status`
unfoldable pub get_status : Settings → PolicyService → Status
get_status settings svc = record {
  settings = settings;
  policy_count = length svc.policies;
  version = svc.version;
  local_hash = svc.local_hash;
  last_pushed_hash = svc.last_pushed_hash;
  last_pushed_version = svc.last_pushed_version;
  last_sync_ok = svc.last_sync_ok;
  last_sync_at = svc.last_sync_at;
  last_sync_error = svc.last_sync_error;
  in_sync = is_true svc.last_sync_ok && same_hash svc.local_hash svc.last_pushed_hash;
}
