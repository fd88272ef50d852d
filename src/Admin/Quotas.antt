-- ===== src/Admin/Quotas.antt =====
-- fastapi_backend/app/api/admin/quotas_admin.py: the quota file through its endpoints. YAML reads back what it writes, and
-- a write succeeds; the percentage of the listing, a `float`, is left out.
pub mod Laws
use api_gateways.Base.{
  ℕ, String, Bool, true, false, Option, none, some, List, [], ◌∷◌, Dict, lookup, insert,
}
use api_gateways.Gateway.Outcome.{Outcome, done, http}
use api_gateways.Quota.{
  TenantQuota, QuotaFile, QuotaService, Redis, QuotaStatus, load_quotas, or_else, get_quota_status,
}

-- `QuotaUpdateRequest`
pub record QuotaUpdate : Type 0 where
  pub max_tokens : ℕ
  pub reset_period : String
  pub is_active : Bool

-- The file of the service: not there, not to be read as such a file, or read.
pub data QuotaSource : Type 0 where
  missing unreadable : QuotaSource
  stored : QuotaFile → QuotaSource

-- What `_load_quotas` reads.
abbrev pub readable : QuotaSource → Option QuotaFile
readable missing = none
readable unreadable = none
readable (stored file) = some file

abbrev pub entry_of : QuotaUpdate → TenantQuota
entry_of u = record {
  max_tokens = some u.max_tokens;
  reset_period = some u.reset_period;
  is_active = some u.is_active;
}

-- The file and the service of the process.
pub record QuotaAdmin : Type 0 where
  pub source : QuotaSource
  pub service : QuotaService

abbrev pub updated_file : String → QuotaUpdate → QuotaFile → QuotaFile
updated_file tenant_id u file = record file { tenants = insert tenant_id (entry_of u) file.tenants }

abbrev empty_file : QuotaFile
empty_file = record { tenants = []; defaults = none }

abbrev pub write_back : QuotaFile → QuotaAdmin × Outcome {0} Unit
write_back file = (record { source = stored file; service = load_quotas (some file) }, done tt)

-- `update_tenant_quota`: the first entry of the tenant is changed, or one is appended.
unfoldable pub update_tenant_quota :
    String → QuotaUpdate → QuotaAdmin → QuotaAdmin × Outcome {0} Unit
update_tenant_quota tenant_id u s = elim s.source [
  | missing ↦ write_back (updated_file tenant_id u empty_file)
  | unreadable ↦ (s, http 500)
  | stored file ↦ write_back (updated_file tenant_id u file)
]

-- An item of the listing.
pub record QuotaInfo : Type 0 where
  pub id : String
  pub max_tokens : ℕ
  pub reset_period : String
  pub is_active : Bool
  pub used_tokens : ℕ

module _ (date_of : ℕ → String) (now : ℕ) (redis : Redis) where
  abbrev quota_info : QuotaService → String → TenantQuota → QuotaInfo
  quota_info svc id t = record {
    id = id;
    max_tokens = or_else 0 t.max_tokens;
    reset_period = or_else "daily" t.reset_period;
    is_active = or_else true t.is_active;
    used_tokens = (get_quota_status date_of svc now id redis).used_tokens;
  }

  -- The loop over the tenants.
  unfoldable pub enrich : QuotaService → List (String × TenantQuota) → List QuotaInfo
  enrich svc [] = []
  enrich svc ((id, t) ∷ ts) = quota_info svc id t ∷ enrich svc ts

  -- `get_all_quotas`: the tenants and the defaults
  unfoldable pub get_all_quotas : QuotaAdmin → Outcome (List QuotaInfo × Option TenantQuota)
  unfolding enrich
  get_all_quotas s = elim s.source [
    | missing ↦ done ([], none)
    | unreadable ↦ http 500
    | stored file ↦ done (enrich s.service file.tenants, file.defaults)
  ]
