-- ===== src/Policy/Evaluate.antt =====
-- The embedded Python evaluator of `PolicyService` in policy_service.py.
use api_gateways.Base.{
  String, Bool, true, false, not, ◌&&◌, Option, none, some, List, [], ◌∷◌, ◌++◌, Text, text_eq,
  str_eq, if◌then◌else◌,
}
use api_gateways.Policy.Schema.{
  level_value, PolicyEffect, SensitivityLevel, allow_onprem_only, deny_cloud, allow_all, deny_all,
  Policy, Decision, allow, deny, EvaluationResult, SensitivityValue, level, text, Context,
  CanonicalContext,
}
use api_gateways.Policy.ServiceType.{canonical_service_type, cloud, on_prem}
use api_gateways.Policy.Service.{PolicyService}
use api_gateways.Errors.{DomainError, policy_violation, Result, ok, raise}

-- `_coerce_sensitivity`
abbrev pub coerce_sensitivity : Option SensitivityValue → Option String
coerce_sensitivity none = none
coerce_sensitivity (some (level l)) = some (level_value l)
coerce_sensitivity (some (text s)) = some s

-- `_canonicalize_context`
unfoldable pub canonicalize_context : Context → CanonicalContext
canonicalize_context c = record {
  sensitivity = coerce_sensitivity c.sensitivity;
  tenant = c.tenant;
  service_type = canonical_service_type c.service_type;
}

-- `a == b` where `a` may be `None` and `b` is a text
abbrev pub is_value : Option String → String → Bool
is_value none t = false
is_value (some s) t = str_eq s t

abbrev sensitivity_holds : Option SensitivityLevel → Option String → Bool
sensitivity_holds none s = true
sensitivity_holds (some l) s = is_value s (level_value l)

abbrev tenant_holds : Option String → Option String → Bool
tenant_holds none t = true
tenant_holds (some c) t = is_value t c

-- `_matches`
unfoldable pub matches : Policy → CanonicalContext → Bool
matches p ctx =
    sensitivity_holds p.condition.sensitivity ctx.sensitivity
    && tenant_holds p.condition.tenant ctx.tenant

abbrev blocks_type : PolicyEffect → Text → Bool
blocks_type deny_all t = true
blocks_type deny_cloud t = text_eq t cloud
blocks_type allow_onprem_only t = not (text_eq t on_prem)
blocks_type allow_all t = false

-- `_should_block`
unfoldable pub should_block : Policy → CanonicalContext → Bool
should_block p ctx = blocks_type p.effect ctx.service_type

abbrev pub result_of : Policy → Decision → EvaluationResult
result_of p d = record {
  policy_id = p.id;
  effect = p.effect;
  decision = d;
  description = p.description;
}

-- `description or "No description provided"`
abbrev pub describe : Option String → String
describe none = "No description provided"
describe (some d) = if str_eq d "" then "No description provided" else d

abbrev pub violation : String → Option String → List EvaluationResult → DomainError
violation id description results = policy_violation id (describe description) results none none

-- The loop of `_evaluate_local`, on the results so far.
unfoldable pub evaluate_from :
    CanonicalContext → List EvaluationResult → List Policy → Result (List EvaluationResult)
evaluate_from ctx results [] = ok results
evaluate_from ctx results (p ∷ ps) =
    let rest =
      evaluate_from ctx (if matches p ctx then results ++ result_of p allow ∷ [] else results) ps in
    if matches p ctx && should_block p ctx
    then raise (violation p.id p.description (results ++ result_of p deny ∷ []))
    else rest

-- `_evaluate_local`
unfoldable pub evaluate_local : PolicyService → CanonicalContext → Result (List EvaluationResult)
unfolding evaluate_from
evaluate_local svc ctx = evaluate_from ctx [] svc.policies
