-- ===== src/Quota.antt =====
-- fastapi_backend/app/services/quota_service.py: daily token quotas of the tenants, counted in Redis.
-- The YAML reader and the clock's date are arguments; Redis is a dict of counters with the time they expire.
pub mod Laws
use api_gateways.Base.{
  ℕ, String, Bool, true, false, Option, none, some, List, [], ◌∷◌, ◌+◌, ◌-◌, ◌≤◌, ltb, leb,
  if◌then◌else◌, Dict, lookup, insert, insert_all,
}
use Prim.Native.String.{◌++◌ as concat}

-- A tenant's entry of the quota file; `max_tokens` is missing or a number that is not negative.
pub record TenantQuota : Type 0 where
  pub max_tokens : Option ℕ
  pub reset_period : Option String
  pub is_active : Option Bool

-- A Redis counter and the second at which Redis drops it.
pub record Counter : Type 0 where
  pub value : ℕ
  pub expires_at : Option ℕ

abbrev pub Redis : Type 0
Redis = Dict Counter

-- What `yaml.safe_load` reads: the tenants with their `id`, and the defaults.
pub record QuotaFile : Type 0 where
  pub tenants : List (String × TenantQuota)
  pub defaults : Option TenantQuota

-- The attributes of `QuotaService` that the file fills.
pub record QuotaService : Type 0 where
  pub quotas : Dict TenantQuota
  pub default_quota : TenantQuota

abbrev or_ten_thousand : Option TenantQuota → TenantQuota
or_ten_thousand none = record { max_tokens = some 10000; reset_period = none; is_active = none }
or_ten_thousand (some q) = q

-- `_load_quotas`: a file that cannot be read leaves no tenant and no tokens.
unfoldable pub load_quotas : Option QuotaFile → QuotaService
unfolding insert_all
load_quotas none = record {
  quotas = [];
  default_quota = record { max_tokens = some 0; reset_period = none; is_active = none };
}
load_quotas (some file) = record {
  quotas = insert_all file.tenants [];
  default_quota = or_ten_thousand file.defaults;
}

abbrev pub or_else {ℓ} : {A : Type ℓ} → A → Option A → A
or_else a none = a
or_else a (some b) = b

-- `get_tenant_config`
unfoldable pub get_tenant_config : QuotaService → String → TenantQuota
get_tenant_config svc tenant_id = or_else svc.default_quota (lookup tenant_id svc.quotas)

-- `config.get("max_tokens", 0)`
unfoldable pub max_tokens : QuotaService → String → ℕ
unfolding get_tenant_config
max_tokens svc tenant_id = or_else 0 (get_tenant_config svc tenant_id).max_tokens

abbrev live_until : ℕ → ℕ → Option ℕ → Option ℕ
live_until now n none = some n
live_until now n (some at) = if ltb now at then some n else none

abbrev live : ℕ → Counter → Option ℕ
live now c = live_until now c.value c.expires_at

abbrev live? : ℕ → Option Counter → Option ℕ
live? now none = none
live? now (some c) = live now c

-- Redis `GET`
unfoldable pub redis_get : ℕ → String → Redis → Option ℕ
redis_get now key r = live? now (lookup key r)

abbrev pub incremented : ℕ → ℕ → ℕ → Option ℕ → Counter
incremented now n ttl before = record {
  value = or_else 0 before + n;
  expires_at = some (now + ttl);
}

-- Redis `INCRBY`, then `EXPIRE`
unfoldable pub redis_incrby_expire : ℕ → String → ℕ → ℕ → Redis → Redis
unfolding redis_get
redis_incrby_expire now key n ttl r = insert key (incremented now n ttl (redis_get now key r)) r

-- What `get_quota_status` reports; the percentage, a `float`, is left out.
pub record QuotaStatus : Type 0 where
  pub tenant_id : String
  pub max_tokens : ℕ
  pub used_tokens : ℕ
  pub remaining_tokens : ℕ
  pub reset_period : String

abbrev below : ℕ → Option ℕ → Bool
below limit none = true
below limit (some used) = ltb used limit

module _ (date_of : ℕ → String) where
  -- `f"quota:tenant:{tenant_id}:{today}"`
  unfoldable pub quota_key : ℕ → String → String
  quota_key now tenant_id = concat "quota:tenant:" (concat tenant_id (concat ":" (date_of now)))

  -- `check_quota`
  unfoldable pub check_quota : QuotaService → ℕ → String → Redis → Bool
  unfolding max_tokens quota_key redis_get
  check_quota svc now tenant_id r =
      if leb (max_tokens svc tenant_id) 0
      then false
      else below (max_tokens svc tenant_id) (redis_get now (quota_key now tenant_id) r)

  -- `increment_usage`; the counter lives for 25 hours.
  unfoldable pub increment_usage : ℕ → String → ℕ → Redis → Redis
  unfolding quota_key redis_incrby_expire
  increment_usage now tenant_id tokens r =
      redis_incrby_expire now (quota_key now tenant_id) tokens (86400 + 3600) r

  -- `get_quota_status`
  unfoldable pub get_quota_status : QuotaService → ℕ → String → Redis → QuotaStatus
  unfolding get_tenant_config max_tokens quota_key redis_get
  get_quota_status svc now tenant_id r =
      let used = or_else 0 (redis_get now (quota_key now tenant_id) r) in
      record {
        tenant_id = tenant_id;
        max_tokens = max_tokens svc tenant_id;
        used_tokens = used;
        remaining_tokens = max_tokens svc tenant_id - used;
        reset_period = or_else "daily" (get_tenant_config svc tenant_id).reset_period;
      }
