-- ===== src/Admin/Policies/Laws.antt =====
-- What a change of a policy through fastapi_backend/app/api/admin/policies.py does.
use api_gateways.Base.{
  ℕ, ◌<◌, String, true, false, not, Option, none, some, List, [], ◌∷◌, filter, str_eq,
  if◌then◌else◌, ◌≡◌, refl, ap, subst, arith, Text, codes, text_in, Bool-cases, inl, inr, eq_iff,
}
use api_gateways.Base.Json.{Json}
use api_gateways.Errors.{policy_evaluation_error, policy_violation, domain, Result, ok, err, raise}
use api_gateways.Gateway.Outcome.{Outcome, done, http}
use api_gateways.Gateway.Kong.{Field, given}
use api_gateways.Gateway.Tokens.{User}
use api_gateways.Policy.Schema.{EvaluationResult, Policy, Context}
use api_gateways.Policy.Service.{Settings}
use api_gateways.Policy.Rego.{BundleItem, decision_document}
use api_gateways.Policy.Evaluate.{canonicalize_context}
use api_gateways.Policy.Opa.{response, unreachable, OpaReply, evaluate_async}
use api_gateways.Policy.Agreement.{Distinct}
use api_gateways.Policy.Sync.{serialize_bundle, PolicyRow, PushReply, push_error}
use api_gateways.Policy.Sync.Laws.{is_none, sync_outcome, failed_push-refuses}
use api_gateways.Admin.Policies.{
  PolicyCreate, PolicyUpdate, PolicyAdmin, get_policy, create_policy, delete_policy, update_policy,
  update_rows, has_id, safe_sync, create_governance_policy, update_governance_policy,
  delete_governance_policy, get_governance_policy, found,
}

-- What the role check comes to, by the claim `realm_access`.
abbrev HasRole : Field (Option (List Text)) → Type 0
HasRole f = (roles : List Text) × (f ≡ given (some roles)) × (text_in (codes "admin") roles ≡ true)

-- A violation of the policy, or the refusal of a service that is out of sync.
abbrev pub IsRefused : Policy → Result (List EvaluationResult) → Type 0
IsRefused p (ok results) = ⊥
IsRefused p (err (domain (policy_violation id description results n types))) = id ≡ p.id
IsRefused p (err (domain (policy_evaluation_error reason))) = reason ≡ "opa_cache_out_of_sync"
IsRefused p (err e) = ⊥

module _ (parse : PolicyRow → Option Policy) (digest : String → List BundleItem → String)
    (settings : Settings) where
  module _ (user : User) (now : String) (reply : PushReply) (s : PolicyAdmin) (new_id : String)
      (payload : PolicyCreate) where
    abbrev pub created : PolicyAdmin × Outcome PolicyRow
    created = create_governance_policy parse digest settings (done user) now reply new_id payload s

    -- The ways in which a request is decided that see the new policy: the embedded evaluator, where OPA is off or out of reach with the
    -- fallback allowed; OPA, from the bundle that was just pushed; and a service that fails closed after a failed push.
    pub data Decided (context : Context) : OpaReply → Type 0 where
      embedded : (answer : OpaReply) → settings.opa_enabled ≡ false → Decided context answer
      out_of_reach :
          (message : String)
          → settings.opa_enabled ≡ true
          → settings.opa_fail_closed ≡ false
          → settings.opa_allow_local_fallback ≡ true
          → Decided context (unreachable message)
      from_bundle :
          (status : ℕ)
          → settings.opa_enabled ≡ true
          → push_error reply ≡ none
          → Distinct created.0.service.policies
          → status < 400
          → Decided context (
              response status (
                some (
                  decision_document
                    (serialize_bundle digest created.0.service)
                    (canonicalize_context context))))
      fail_closed :
          (answer : OpaReply)
          → settings.opa_enabled ≡ true
          → settings.opa_fail_closed ≡ true
          → is_none (push_error reply) ≡ false
          → Decided context answer

    -- A push that fails in strict mode is answered with 502, but the new policy stays in the table; a service that fails
    -- closed then refuses every context, whatever OPA would answer.
    pub create-push_failed :
        (render : Json → String) (context : Context) (answer : OpaReply)
        → settings.opa_enabled ≡ true
        → settings.opa_strict_sync ≡ true
        → settings.opa_fail_closed ≡ true
        → is_none (push_error reply) ≡ false
        → (created.1 ≡ http 502)
          × (created.0.rows ≡ (create_policy new_id payload s.rows).1 ∷ s.rows)
          × (evaluate_async render settings created.0.service context answer
              ≡ raise (policy_evaluation_error "opa_cache_out_of_sync"))
    unfolding create_governance_policy create_policy safe_sync
    create-push_failed render context answer enabled strict closed failed =
        let rows = (create_policy new_id payload s.rows).0 in
        let outcome = sync_outcome parse digest settings now s.service rows reply enabled in
        (
          rw (outcome.3.1 (strict, failed)),
          refl,
          failed_push-refuses parse digest settings now s.service rows reply render context answer
              enabled closed failed,
        )

  module _ (user : User) (now : String) (reply : PushReply) (s : PolicyAdmin)
      (policy_id : String) where
    abbrev pub deleted : PolicyAdmin × Outcome {0} Unit
    deleted = delete_governance_policy parse digest settings (done user) now reply policy_id s

    filter-none :
        (rows : List PolicyRow) → get_policy policy_id (delete_policy policy_id rows).0 ≡ none
    unfolding get_policy delete_policy
    filter-none [] = refl
    filter-none (row ∷ rows) = ground (arith, filter-none rows)

    filter-other :
        (j : String) (rows : List PolicyRow)
        → str_eq policy_id j ≡ false
        → get_policy j (delete_policy policy_id rows).0 ≡ get_policy j rows
    unfolding get_policy delete_policy
    filter-other j [] h = refl
    filter-other j (row ∷ rows) h =
        ground (
          arith,
          filter-other j rows h,
          eq_iff row.id j,
          eq_iff row.id policy_id,
          eq_iff policy_id j,
        )

    deleted_rows : deleted.0.rows ≡ (delete_policy policy_id s.rows).0
    unfolding delete_governance_policy safe_sync
    deleted_rows = ground arith

    -- After a deletion the policy is not found, and every other is found as before, whatever OPA answers to the push.
    pub delete-missing :
        (j : String)
        → get_governance_policy (done user) j deleted.0
          ≡ (if str_eq policy_id j then http 404 else get_governance_policy (done user) j s)
    unfolding get_governance_policy
    delete-missing j = rw deleted_rows (elim (Bool-cases (str_eq policy_id j)) [
      | inl same ↦ rw same (
          subst (λ k. found (get_policy k (delete_policy policy_id s.rows).0) ≡ http 404)
            ((eq_iff policy_id j).0 same) (ap found (filter-none s.rows)))
      | inr differ ↦ rw differ (ap found (filter-other j s.rows differ))
    ])

    get_policy-absent :
        (rows : List PolicyRow) → has_id policy_id rows ≡ false → get_policy policy_id rows ≡ none
    unfolding get_policy
    get_policy-absent [] h = refl
    get_policy-absent (row ∷ rows) h = ground (arith, get_policy-absent rows)

    kept_rows :
        (rows : List PolicyRow)
        → has_id policy_id rows ≡ false
        → filter (λ row. not (str_eq row.id policy_id)) rows ≡ rows
    kept_rows [] h = refl
    kept_rows (row ∷ rows) h = ground (arith, kept_rows rows)

    update_rows-absent :
        (u : PolicyUpdate) (rows : List PolicyRow)
        → has_id policy_id rows ≡ false
        → update_rows policy_id u rows ≡ rows
    unfolding update_rows
    update_rows-absent u [] h = refl
    update_rows-absent u (row ∷ rows) h = ground (arith, update_rows-absent u rows)

    update_policy-absent :
        (u : PolicyUpdate)
        → has_id policy_id s.rows ≡ false
        → update_policy policy_id u s.rows ≡ done (s.rows, none)
    unfolding update_policy
    update_policy-absent u h = ground (arith, update_rows-absent u s.rows, get_policy-absent s.rows)

    -- An id that no policy has is answered with 404 by every operation, and nothing changes: no synchronization is started.
    pub absent_policy :
        (u : PolicyUpdate)
        → has_id policy_id s.rows ≡ false
        → (get_governance_policy (done user) policy_id s ≡ http 404)
          × (update_governance_policy parse digest settings (done user) now reply policy_id u s
              ≡ (s, http 404))
          × (deleted ≡ (s, http 404))
    unfolding get_governance_policy update_governance_policy delete_governance_policy delete_policy
    absent_policy u h = (
      ap found (get_policy-absent s.rows h),
      rw (update_policy-absent u h),
      rw (h, kept_rows s.rows h),
    )
