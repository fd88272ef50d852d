-- ===== src/Policy/Sync/Laws.antt =====
-- What `sync_from_db` of policy_service.py leaves behind on success and on failure.
use api_gateways.Base.{
  [], ◌∷◌, if◌then◌else◌, ℕ, ◌≡◌, refl, sym, ap, ◌∙◌, String, Bool, true, false, Option, none, some,
  List, subst, arith, eq_iff, ◌<◌, ◌↔◌,
}
use api_gateways.Base.Json.{Json}
use api_gateways.Policy.Schema.{Policy, Context}
use api_gateways.Policy.Service.{Settings, PolicyService, is_in_sync}
use api_gateways.Policy.Rego.{BundleItem, decision_document}
use api_gateways.Policy.Opa.{OpaReply, response, evaluate_async, evaluate}
use api_gateways.Policy.Evaluate.{canonicalize_context}
use api_gateways.Policy.Agreement.{Distinct}
use api_gateways.Policy.SameDecision.{Agree, evaluate_async-Agree}
use api_gateways.Errors.{raise, policy_sync_error, policy_evaluation_error}
use api_gateways.Policy.Sync.{
  PolicyRow, PushReply, push_error, compute_policy_hash, load_policies, keep_parsed, version_of,
  sync_from_db, serialize_bundle,
}

abbrev pub is_none {ℓ} : {A : Type ℓ} → Option A → Bool
is_none none = true
is_none (some a) = false

-- The policies of some rows, in their order: those of the active rows that validate, and no other.
pub data Loaded (parse : PolicyRow → Option Policy) : List PolicyRow → List Policy → Type 0 where
  nothing : Loaded parse [] []
  inactive :
      {row : PolicyRow} {rows : List PolicyRow} {ps : List Policy}
      → row.is_active ≡ false
      → Loaded parse rows ps
      → Loaded parse (row ∷ rows) ps
  invalid :
      {row : PolicyRow} {rows : List PolicyRow} {ps : List Policy}
      → parse row ≡ none
      → Loaded parse rows ps
      → Loaded parse (row ∷ rows) ps
  valid :
      {row : PolicyRow} {rows : List PolicyRow} {p : Policy} {ps : List Policy}
      → row.is_active ≡ true
      → parse row ≡ some p
      → Loaded parse rows ps
      → Loaded parse (row ∷ rows) (p ∷ ps)

keep_parsed-Loaded :
    (parse : PolicyRow → Option Policy) (row : PolicyRow) (rows : List PolicyRow) (ps : List Policy)
    (active : Bool) (parsed : Option Policy)
    → row.is_active ≡ active
    → parse row ≡ parsed
    → Loaded parse rows ps
    → Loaded parse (row ∷ rows) (if active then keep_parsed parse parsed ps else ps)
keep_parsed-Loaded parse row rows ps false parsed a e h = inactive a h
keep_parsed-Loaded parse row rows ps true none a e h = invalid e h
keep_parsed-Loaded parse row rows ps true (some p) a e h = valid a e h

load_policies-Loaded :
    (parse : PolicyRow → Option Policy) (rows : List PolicyRow)
    → Loaded parse rows (load_policies parse rows)
unfolding load_policies
load_policies-Loaded parse [] = nothing
load_policies-Loaded parse (row ∷ rows) =
    keep_parsed-Loaded parse row rows (load_policies parse rows) row.is_active (parse row) refl refl
      (load_policies-Loaded parse rows)

module _ (parse : PolicyRow → Option Policy) (digest : String → List BundleItem → String)
    (settings : Settings) (now : String) (svc : PolicyService) (rows : List PolicyRow)
    (reply : PushReply) where
  abbrev pub after : PolicyService
  after = (sync_from_db parse digest settings now svc rows reply).1

  -- The cache is what the rows load.
  loaded : after.policies ≡ load_policies parse rows
  unfolding sync_from_db
  loaded = ground arith

  in_sync_iff : settings.opa_enabled ≡ true → is_in_sync after ≡ is_none (push_error reply)
  unfolding sync_from_db is_in_sync
  in_sync_iff enabled =
      let h = compute_policy_hash digest (load_policies parse rows) (version_of rows svc.version) in
      ground (arith, eq_iff h h)

  pub sync_outcome :
      settings.opa_enabled ≡ true
      → (is_in_sync after ≡ is_none (push_error reply))
        × Loaded parse rows after.policies
        × (after.local_hash
            ≡ some (compute_policy_hash digest after.policies (version_of rows svc.version)))
        × (((sync_from_db parse digest settings now svc rows reply).0
              ≡ raise (policy_sync_error "opa_push_failed"))
            ↔ ((settings.opa_strict_sync ≡ true) × (is_none (push_error reply) ≡ false)))
  unfolding sync_from_db
  sync_outcome enabled = (
    in_sync_iff enabled,
    subst (Loaded parse rows) (sym loaded) (load_policies-Loaded parse rows),
    ground arith,
    ground arith,
  )

  -- After a push that failed, a service that fails closed refuses every context, whatever OPA would
  -- answer.
  pub failed_push-refuses :
      (render : Json → String) (context : Context) (answer : OpaReply)
      → settings.opa_enabled ≡ true
      → settings.opa_fail_closed ≡ true
      → is_none (push_error reply) ≡ false
      → evaluate_async render settings after context answer
        ≡ raise (policy_evaluation_error "opa_cache_out_of_sync")
  unfolding evaluate_async
  failed_push-refuses render context answer enabled closed failed =
      ground (arith, in_sync_iff enabled)

  -- After a push that OPA accepted, a context that OPA decides from the pushed bundle is decided as
  -- by the embedded evaluator on the rows just loaded, if their ids are distinct.
  pub synced-Agree :
      (render : Json → String) (context : Context) (status : ℕ)
      → settings.opa_enabled ≡ true
      → push_error reply ≡ none
      → Distinct (load_policies parse rows)
      → status < 400
      → Agree
          (evaluate_async render settings after context (
            response status (
              some (
                decision_document (serialize_bundle digest after) (canonicalize_context context)))))
          (evaluate after context)
  synced-Agree render context status enabled accepted distinct fine =
      evaluate_async-Agree render settings after context status (serialize_bundle digest after)
        enabled (in_sync_iff enabled ∙ ap is_none accepted) (subst Distinct (sym loaded) distinct)
        (unfold serialize_bundle in refl) fine
