-- ===== src/Policy/Opa.antt =====
-- The evaluation by OPA in policy_service.py: the strict reading of its response, the choice between
-- it and the embedded evaluator, and the public calls. OPA's answer is an argument.
use api_gateways.Base.{
  ℕ, String, Bool, true, false, not, ◌&&◌, Option, none, some, List, [], ◌∷◌, leb, contains,
  if◌then◌else◌,
}
use api_gateways.Base.Json.{Json, Items, Fields, get, truthy}
use api_gateways.Policy.Schema.{Policy, allow, deny, EvaluationResult, Context, CanonicalContext}
use api_gateways.Policy.Service.{Settings, PolicyService, is_in_sync}
use api_gateways.Policy.Evaluate.{
  canonicalize_context, matches, result_of, violation, evaluate_local,
}
use api_gateways.Errors.{policy_evaluation_error, domain, other, Result, ok, err, ◌>>=◌, raise}

-- What the HTTP call to OPA came to: no response, or a status and a body, which may be no JSON.
pub data OpaReply : Type 0 where
  unreachable : String → OpaReply
  response : ℕ → Option Json → OpaReply

-- The `str` of a JSON value that is no text is a parameter.
module _ (render : Json → String) where
  abbrev pub text_of : Json → String
  text_of (Json.str s) = s
  text_of v = render v

  abbrev pub item_ids : Items → List String
  item_ids Items.nil = []
  item_ids (Items.cons x xs) = text_of x ∷ item_ids xs

  abbrev true_keys : Fields → List String
  true_keys Fields.end = []
  true_keys (Fields.field k v fs) = let rest = true_keys fs in if truthy v then k ∷ rest else rest

  -- `_coerce_block_ids`; the set as a list, of which only membership is read
  unfoldable pub coerce_block_ids : Option Json → Result (List String)
  coerce_block_ids none = ok []
  coerce_block_ids (some Json.null) = ok []
  coerce_block_ids (some (Json.obj fs)) = ok (true_keys fs)
  coerce_block_ids (some (Json.arr xs)) = ok (item_ids xs)
  coerce_block_ids (some v) = raise (policy_evaluation_error "opa_result_block_invalid_type")

  abbrev pub parse_allow : Option Json → Result Bool
  parse_allow none = raise (policy_evaluation_error "opa_result_missing_field")
  parse_allow (some (Json.bool b)) = ok b
  parse_allow (some v) = raise (policy_evaluation_error "opa_result_allow_not_bool")

  abbrev pub parse_decision : Option Json → Result (Bool × List String)
  parse_decision none = raise (policy_evaluation_error "opa_response_missing_result")
  parse_decision (some (Json.obj fs)) = do
    allowed ← parse_allow (get "allow" fs)
    block_ids ← coerce_block_ids (get "block" fs)
    ok (allowed, block_ids)
  parse_decision (some v) = raise (policy_evaluation_error "opa_result_not_object")

  -- `_parse_opa_result`
  unfoldable pub parse_opa_result : Json → Result (Bool × List String)
  unfolding coerce_block_ids
  parse_opa_result (Json.obj fs) = parse_decision (get "result" fs)
  parse_opa_result v = raise (policy_evaluation_error "opa_response_not_object")

-- The loop of `_evaluate_with_opa`: every result, and those of the denied policies.
unfoldable pub apply_block :
    List String → CanonicalContext → List Policy → List EvaluationResult × List EvaluationResult
apply_block block_ids ctx [] = ([], [])
apply_block block_ids ctx (p ∷ ps) =
    let (evaluation, denied) = apply_block block_ids ctx ps in
    if contains p.id block_ids
    then (result_of p deny ∷ evaluation, result_of p deny ∷ denied)
    else if matches p ctx
    then (result_of p allow ∷ evaluation, denied)
    else (evaluation, denied)

abbrev pub conclude :
    Bool → List EvaluationResult × List EvaluationResult → Result (List EvaluationResult)
conclude false (evaluation, first ∷ denied) =
    raise (violation first.policy_id first.description evaluation)
conclude false (evaluation, []) = ok evaluation
conclude true (evaluation, denied) = ok evaluation

module _ (render : Json → String) where
  abbrev pub read_body :
      PolicyService → CanonicalContext → Option Json → Result (List EvaluationResult)
  read_body svc ctx none = raise (policy_evaluation_error "opa_invalid_json")
  read_body svc ctx (some payload) = do
    (allowed, block_ids) ← parse_opa_result render payload
    conclude allowed (apply_block block_ids ctx svc.policies)

  -- `_evaluate_with_opa`
  unfoldable pub evaluate_with_opa :
      PolicyService → CanonicalContext → OpaReply → Result (List EvaluationResult)
  unfolding parse_opa_result apply_block
  evaluate_with_opa svc ctx (unreachable message) = err (other message)
  evaluate_with_opa svc ctx (response status body) =
      if leb 400 status then err (other "OPA returned an HTTP error") else read_body svc ctx body

  -- The handlers of `evaluate_async` around the call to OPA.
  abbrev pub fall_back :
      Settings
      → PolicyService
      → CanonicalContext
      → Result (List EvaluationResult)
      → Result (List EvaluationResult)
  fall_back settings svc ctx (ok results) = ok results
  fall_back settings svc ctx (err (domain e)) = err (domain e)
  fall_back settings svc ctx (err (other message)) =
      if settings.opa_allow_local_fallback
      then evaluate_local svc ctx
      else raise (policy_evaluation_error "opa_unreachable_or_invalid")

  -- `evaluate_async`
  unfoldable pub evaluate_async :
      Settings → PolicyService → Context → OpaReply → Result (List EvaluationResult)
  unfolding evaluate_with_opa canonicalize_context
  evaluate_async settings svc context reply =
      let ctx = canonicalize_context context in
      if not settings.opa_enabled
      then evaluate_local svc ctx
      else if settings.opa_fail_closed && not (is_in_sync svc)
      then raise (policy_evaluation_error "opa_cache_out_of_sync")
      else fall_back settings svc ctx (evaluate_with_opa svc ctx reply)

-- `evaluate`, for callers without OPA
unfoldable pub evaluate : PolicyService → Context → Result (List EvaluationResult)
unfolding canonicalize_context
evaluate svc context = evaluate_local svc (canonicalize_context context)
