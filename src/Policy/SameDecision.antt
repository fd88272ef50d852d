-- ===== src/Policy/SameDecision.antt =====
-- The two ways to evaluate a context, end to end: through OPA on the pushed bundle, and embedded.
use api_gateways.Base.{
  ℕ, ◌≡◌, refl, ap, String, Bool, true, false, none, some, List, [], ◌∷◌, map, arith, Bool-cases,
  inl, inr, ◌<◌, leb,
}
use api_gateways.Base.Json.{Json}
use api_gateways.Policy.Schema.{Policy, EvaluationResult, CanonicalContext, Context}
use api_gateways.Policy.Service.{Settings, PolicyService, is_in_sync}
use api_gateways.Policy.Evaluate.{canonicalize_context, evaluate_local}
use api_gateways.Policy.Opa.{
  OpaReply, unreachable, response, apply_block, conclude, evaluate_with_opa, evaluate_async,
  evaluate, parse_opa_result, item_ids, fall_back,
}
use api_gateways.Policy.Rego.{Bundle, serialize_policy, block, allowed, id_items, decision_document}
use api_gateways.Errors.{policy_violation, domain, other, Result, ok, err, raise}
use api_gateways.Policy.Agreement.{
  Distinct, blocked_ids, Follows, blocked_ids-Exact, evaluate_from-Follows,
}

no_block : (ctx : CanonicalContext) (ps : List Policy) → (apply_block [] ctx ps).1 ≡ []
unfolding apply_block
no_block ctx [] = refl
no_block ctx (p ∷ ps) = ground (arith, no_block ctx ps)

-- The same results, or a violation of the same policy with the same description.
abbrev pub Agree : Result (List EvaluationResult) → Result (List EvaluationResult) → Type 0
Agree (ok a) r = r ≡ ok a
Agree (err (domain (policy_violation id description results n types))) r =
    (seen : List EvaluationResult) × (r ≡ raise (policy_violation id description seen none none))
Agree (err e) r = ⊥

conclude-Agree :
    (lists : List EvaluationResult × List EvaluationResult) (allow_flag : Bool)
    (r : Result (List EvaluationResult))
    → (allow_flag ≡ true → lists.1 ≡ [])
    → Follows [] lists r
    → Agree (conclude allow_flag lists) r
conclude-Agree (evaluation, []) true r h f = f
conclude-Agree (evaluation, []) false r h f = f
conclude-Agree (evaluation, first ∷ denied) true r h f = absurd (cc (h refl))
conclude-Agree (evaluation, first ∷ denied) false r h f = f

allowed_denies_none :
    (ctx : CanonicalContext) (ids : List String) (ps : List Policy)
    → allowed ids ≡ true
    → (apply_block ids ctx ps).1 ≡ []
allowed_denies_none ctx [] ps h = no_block ctx ps
allowed_denies_none ctx (id ∷ ids) ps h = cc

module _ (render : Json → String) where
  item_ids-id_items : (ids : List String) → item_ids render (id_items ids) ≡ ids
  item_ids-id_items [] = refl
  item_ids-id_items (id ∷ ids) = ap (λ l. id ∷ l) (item_ids-id_items ids)

  parse-decision_document :
      (bundle : Bundle) (ctx : CanonicalContext)
      → parse_opa_result render (decision_document bundle ctx)
        ≡ ok (allowed (block ctx bundle.items), block ctx bundle.items)
  unfolding parse_opa_result decision_document
  parse-decision_document bundle ctx = rw (item_ids-id_items (block ctx bundle.items))

  opa-Agree :
      (svc : PolicyService) (ctx : CanonicalContext) (status : ℕ) (bundle : Bundle)
      → Distinct svc.policies
      → bundle.items ≡ map serialize_policy svc.policies
      → status < 400
      → Agree
          (evaluate_with_opa render svc ctx (response status (some (decision_document bundle ctx))))
          (evaluate_local svc ctx)
  unfolding evaluate_with_opa evaluate_local
  opa-Agree svc ctx status bundle distinct same fine =
      let quiet : leb 400 status ≡ false = ground arith in
      rw (quiet, parse-decision_document bundle ctx, same)
        (conclude-Agree (apply_block (blocked_ids ctx svc.policies) ctx svc.policies)
          (allowed (blocked_ids ctx svc.policies)) _
          (allowed_denies_none ctx (blocked_ids ctx svc.policies) svc.policies)
          (evaluate_from-Follows ctx (blocked_ids ctx svc.policies) [] svc.policies
            (blocked_ids-Exact ctx svc.policies distinct)))

  fall_back-Agree :
      (settings : Settings) (svc : PolicyService) (ctx : CanonicalContext)
      (r s : Result (List EvaluationResult))
      → Agree r s
      → Agree (fall_back render settings svc ctx r) s
  fall_back-Agree settings svc ctx (ok a) s h = h
  fall_back-Agree settings svc ctx (err (domain e)) s h = h
  fall_back-Agree settings svc ctx (err (other m)) s h = elim h [ ]

  -- While the service is in sync and OPA answers from a bundle of the service's policies, whose ids
  -- are distinct, a context is decided as by the embedded evaluator: the same results when no
  -- policy denies it, else a violation of the same policy, with the same description.
  pub evaluate_async-Agree :
      (settings : Settings) (svc : PolicyService) (context : Context) (status : ℕ) (bundle : Bundle)
      → settings.opa_enabled ≡ true
      → is_in_sync svc ≡ true
      → Distinct svc.policies
      → bundle.items ≡ map serialize_policy svc.policies
      → status < 400
      → Agree
          (evaluate_async render settings svc context
            (response status (some (decision_document bundle (canonicalize_context context)))))
          (evaluate svc context)
  unfolding evaluate_async evaluate
  evaluate_async-Agree settings svc context status bundle enabled synced distinct same fine =
      let ctx = canonicalize_context context in
      rw (enabled, synced)
        (elim (Bool-cases settings.opa_fail_closed) [
          | inl c ↦ rw c (
              fall_back-Agree settings svc ctx _ _
                (opa-Agree svc ctx status bundle distinct same fine))
          | inr c ↦ rw c (
              fall_back-Agree settings svc ctx _ _
                (opa-Agree svc ctx status bundle distinct same fine))
        ])

  -- With OPA off, the embedded evaluator decides.
  pub evaluate_async-disabled :
      (settings : Settings) (svc : PolicyService) (context : Context) (answer : OpaReply)
      → settings.opa_enabled ≡ false
      → evaluate_async render settings svc context answer ≡ evaluate svc context
  unfolding evaluate_async evaluate
  evaluate_async-disabled settings svc context answer off = rw off refl

  -- With OPA out of reach, it decides where the fallback is allowed and the service does not fail closed.
  pub evaluate_async-unreachable :
      (settings : Settings) (svc : PolicyService) (context : Context) (message : String)
      → settings.opa_enabled ≡ true
      → settings.opa_fail_closed ≡ false
      → settings.opa_allow_local_fallback ≡ true
      → evaluate_async render settings svc context (unreachable message) ≡ evaluate svc context
  unfolding evaluate_async evaluate evaluate_with_opa
  evaluate_async-unreachable settings svc context message on lenient fallback =
      rw (on, lenient, fallback) refl
