-- ===== src/Policy/Denial.antt =====
-- The embedded evaluator of policy_service.py: where its loop stops, and with what.
use api_gateways.Base.{
  ◌≡◌, refl, ap, ◌∙◌, true, false, List, [], ◌∷◌, ◌++◌, map, append_assoc, append-nil, All, filter,
  Bool-cases, inl, inr, sym,
}
use api_gateways.Policy.Schema.{Policy, EvaluationResult, CanonicalContext, allow, deny}
use api_gateways.Policy.Service.{PolicyService}
use api_gateways.Policy.Evaluate.{matches, result_of, violation, evaluate_from, evaluate_local}
use api_gateways.Policy.Agreement.{denies}
use api_gateways.Errors.{ok, raise}

-- An ALLOW for each policy that matches, in order.
abbrev pub allows : CanonicalContext → List Policy → List EvaluationResult
allows ctx ps = map (λ p. result_of p allow) (filter (λ p. matches p ctx) ps)

abbrev pub Passes : CanonicalContext → Policy → Type 0
Passes ctx p = denies p ctx ≡ false

evaluate_from-append :
    (ctx : CanonicalContext) (results : List EvaluationResult) (ps qs : List Policy)
    → All (Passes ctx) ps
    → evaluate_from ctx results (ps ++ qs) ≡ evaluate_from ctx (results ++ allows ctx ps) qs
unfolding evaluate_from
evaluate_from-append ctx results [] qs h =
    ap (λ r. evaluate_from ctx r qs) (sym (append-nil results))
evaluate_from-append ctx results (p ∷ ps) qs h = rw h.0 (elim (Bool-cases (matches p ctx)) [
  | inl m ↦ rw m (
      evaluate_from-append ctx (results ++ result_of p allow ∷ []) ps qs h.1
      ∙ ap (λ r. evaluate_from ctx r qs)
          (append_assoc results (result_of p allow ∷ []) (allows ctx ps)))
  | inr m ↦ rw m (evaluate_from-append ctx results ps qs h.1)
])

-- If no policy denies the context, the result is an ALLOW for each policy that matches.
pub evaluate_local-Passes :
    (svc : PolicyService) (ctx : CanonicalContext)
    → All (Passes ctx) svc.policies
    → evaluate_local svc ctx ≡ ok (allows ctx svc.policies)
unfolding evaluate_local
evaluate_local-Passes svc ctx h =
    ap (evaluate_from ctx []) (sym (append-nil svc.policies))
    ∙ evaluate_from-append ctx [] svc.policies [] h
    ∙ (unfold evaluate_from in refl)

-- If `p` is the first policy that denies the context, the call raises a violation of `p` whose
-- results are an ALLOW for each matching policy before it and the DENY of `p`.
pub evaluate_local-denies :
    (svc : PolicyService) (ctx : CanonicalContext) (before after : List Policy) (p : Policy)
    → svc.policies ≡ before ++ p ∷ after
    → All (Passes ctx) before
    → denies p ctx ≡ true
    → evaluate_local svc ctx
      ≡ raise (violation p.id p.description (allows ctx before ++ result_of p deny ∷ []))
unfolding evaluate_local
evaluate_local-denies svc ctx before after p e h d =
    ap (evaluate_from ctx []) e
    ∙ evaluate_from-append ctx [] before (p ∷ after) h
    ∙ (unfold evaluate_from in rw d)
