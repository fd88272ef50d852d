-- ===== src/Admin/Quotas/Laws.antt =====
-- What an update through fastapi_backend/app/api/admin/quotas_admin.py changes.
use api_gateways.Base.{
  ℕ, String, true, false, Option, none, some, [], lookup, lookup-insert, lookup-insert_all,
  Distinct, Distinct-insert, or_lookup, sym, or_lookup, sym, str_eq, if◌then◌else◌, ◌≡◌, refl, ap,
  ◌∙◌, Bool-cases, inl, inr,
}
use api_gateways.Quota.{
  QuotaFile, Redis, load_quotas, or_else, get_tenant_config, max_tokens, check_quota,
}
use api_gateways.Admin.Quotas.{
  QuotaUpdate, stored, entry_of, QuotaAdmin, updated_file, update_tenant_quota,
}

or_lookup-none {ℓ} : {A : Type ℓ} (o : Option A) → or_lookup o none ≡ o
or_lookup-none none = refl
or_lookup-none (some a) = refl

load_quotas-config :
    (file : QuotaFile) (j : String)
    → Distinct file.tenants
    → get_tenant_config (load_quotas (some file)) j
      ≡ or_else (load_quotas (some file)).default_quota (lookup j file.tenants)
unfolding load_quotas get_tenant_config lookup
load_quotas-config file j h =
    ap (or_else (load_quotas (some file)).default_quota)
      (lookup-insert_all j file.tenants [] h ∙ or_lookup-none (lookup j file.tenants))

updated_default :
    (file : QuotaFile) (id : String) (u : QuotaUpdate)
    → (load_quotas (some (updated_file id u file))).default_quota
      ≡ (load_quotas (some file)).default_quota
unfolding load_quotas
updated_default file id u = refl

module _ (file : QuotaFile) (distinct : Distinct file.tenants) (tenant_id : String) where
  updated_config :
      (u : QuotaUpdate) (j : String)
      → get_tenant_config (load_quotas (some (updated_file tenant_id u file))) j
        ≡ (if str_eq tenant_id j then entry_of u else get_tenant_config (load_quotas (some file)) j)
  updated_config u j =
      load_quotas-config (updated_file tenant_id u file) j
        (Distinct-insert tenant_id (entry_of u) file.tenants distinct)
      ∙ rw (lookup-insert tenant_id j (entry_of u) file.tenants, updated_default file tenant_id u)
          (elim (Bool-cases (str_eq tenant_id j)) [
            | inl same ↦ rw same
            | inr differ ↦ rw differ (sym (load_quotas-config file j distinct))
          ])

  module _ (s : QuotaAdmin) (read : s.source ≡ stored file) where
    -- After an update the tenant has the limits that were sent, and every other tenant those of the file before; the service counts
    -- with them at once. The entries of the file have distinct ids, before and after.
    pub update_tenant_quota-config :
        (u : QuotaUpdate) (j : String)
        → let after = (update_tenant_quota tenant_id u s).0 in
          (get_tenant_config after.service j ≡ (
            if str_eq tenant_id j
            then entry_of u
            else get_tenant_config (load_quotas (some file)) j))
          × (after.source ≡ stored (updated_file tenant_id u file))
          × Distinct (updated_file tenant_id u file).tenants
    unfolding update_tenant_quota
    update_tenant_quota-config u j =
        rw read
          (updated_config u j, refl, Distinct-insert tenant_id (entry_of u) file.tenants distinct)

    same_tokens :
        (u v : QuotaUpdate) (j : String)
        → u.max_tokens ≡ v.max_tokens
        → max_tokens (load_quotas (some (updated_file tenant_id u file))) j
          ≡ max_tokens (load_quotas (some (updated_file tenant_id v file))) j
    unfolding max_tokens
    same_tokens u v j e =
        rw (updated_config u j, updated_config v j)
          (elim (Bool-cases (str_eq tenant_id j)) [
            | inl same ↦ rw (same, e)
            | inr differ ↦ rw differ
          ])

    -- To deactivate a quota changes nothing for the requests: whatever the usage, the test of the quota comes out as for an active quota with the same tokens.
    pub is_active_ignored :
        (u : QuotaUpdate) (j : String) (date_of : ℕ → String) (now : ℕ) (redis : Redis)
        → check_quota date_of
            (update_tenant_quota tenant_id (record u { is_active = false }) s).0.service
            now
            j
            redis
          ≡ check_quota date_of
              (update_tenant_quota tenant_id (record u { is_active = true }) s).0.service
              now
              j
              redis
    unfolding update_tenant_quota check_quota
    is_active_ignored u j date_of now redis =
        rw (
          read,
          same_tokens (record u { is_active = false }) (record u { is_active = true }) j refl,
        )
