-- ===== src/Policy/FailClosed.antt =====
-- How strictly the response of OPA is read, and what a refusal without a known policy comes to.
use api_gateways.Base.{
  ℕ, ◌≡◌, refl, ◌<◌, String, Bool, true, false, not, ◌&&◌, List, [], ◌∷◌, arith, All, Bool-cases,
  inl, inr, Option, none, some, leb, contains,
}
use api_gateways.Base.Json.{Json, get}
use api_gateways.Policy.Schema.{Policy, EvaluationResult, Context, CanonicalContext}
use api_gateways.Policy.Service.{Settings, PolicyService, is_in_sync}
use api_gateways.Policy.Evaluate.{canonicalize_context}
use api_gateways.Policy.Opa.{
  response, parse_opa_result, parse_decision, parse_allow, coerce_block_ids, apply_block,
  evaluate_with_opa, evaluate_async, fall_back,
}
use api_gateways.Policy.Denial.{allows}
use api_gateways.Errors.{policy_evaluation_error, domain, other, Result, ok, err, ◌>>=◌}

-- The shape that the response must have: an object with an object `result`, whose `allow` is a
-- Boolean and whose `block` is absent, null, an object or an array.
abbrev is_block : Option Json → Bool
is_block none = true
is_block (some Json.null) = true
is_block (some (Json.obj fs)) = true
is_block (some (Json.arr xs)) = true
is_block (some v) = false

abbrev is_bool : Option Json → Bool
is_bool (some (Json.bool b)) = true
is_bool o = false

abbrev is_result : Option Json → Bool
is_result (some (Json.obj fs)) = is_bool (get "allow" fs) && is_block (get "block" fs)
is_result o = false

abbrev pub is_decision : Json → Bool
is_decision (Json.obj fs) = is_result (get "result" fs)
is_decision v = false

-- The call raised a `PolicyEvaluationError`.
abbrev pub RaisesEvaluation {ℓ} : {A : Type ℓ} → Result A → Type 0
RaisesEvaluation (err (domain (policy_evaluation_error reason))) = Unit
RaisesEvaluation r = ⊥

module _ (render : Json → String) where
  block_raises :
      (o : Option Json) → is_block o ≡ false → RaisesEvaluation (coerce_block_ids render o)
  unfolding coerce_block_ids
  block_raises none h = cc
  block_raises (some Json.null) h = cc
  block_raises (some (Json.obj fs)) h = cc
  block_raises (some (Json.arr xs)) h = cc
  block_raises (some (Json.bool b)) h = tt
  block_raises (some (Json.num n)) h = tt
  block_raises (some (Json.str s)) h = tt

  bind_raises {ℓ κ} :
      {A : Type ℓ} {B : Type κ} (r : Result A) (f : A → Result B)
      → RaisesEvaluation r
      → RaisesEvaluation (r >>= f)
  bind_raises (err (domain (policy_evaluation_error reason))) f h = tt
  bind_raises (ok a) f h = elim h [ ]
  bind_raises r f h = elim h [ ]

  fields_raise :
      (a b : Option Json)
      → (is_bool a && is_block b) ≡ false
      → RaisesEvaluation {A = Bool × List String}
          (parse_allow render a >>= λ x. coerce_block_ids render b >>= λ y. ok (x, y))
  fields_raise none b h = tt
  fields_raise (some (Json.bool x)) b h =
      bind_raises {B = Bool × List String} (coerce_block_ids render b) (λ y. ok (x, y))
        (block_raises b h)
  fields_raise (some v) b h = tt

  result_raises :
      (o : Option Json) → is_result o ≡ false → RaisesEvaluation (parse_decision render o)
  result_raises none h = tt
  result_raises (some (Json.obj fs)) h = fields_raise (get "allow" fs) (get "block" fs) h
  result_raises (some v) h = tt

  parse_raises :
      (payload : Json)
      → is_decision payload ≡ false
      → RaisesEvaluation (parse_opa_result render payload)
  unfolding parse_opa_result
  parse_raises (Json.obj fs) h = result_raises (get "result" fs) h
  parse_raises v h = tt

  fall_back_raises :
      (settings : Settings) (svc : PolicyService) (ctx : CanonicalContext)
      (r : Result (List EvaluationResult))
      → RaisesEvaluation r
      → RaisesEvaluation (fall_back render settings svc ctx r)
  fall_back_raises settings svc ctx (ok a) h = elim h [ ]
  fall_back_raises settings svc ctx (err (domain e)) h = h
  fall_back_raises settings svc ctx (err (other m)) h = elim h [ ]

  -- A response whose body is no decision document of the required shape makes the evaluation raise
  -- a `PolicyEvaluationError`, also where the fallback to the embedded evaluator is allowed.
  pub malformed-raises :
      (settings : Settings) (svc : PolicyService) (context : Context) (status : ℕ) (payload : Json)
      → settings.opa_enabled ≡ true
      → status < 400
      → is_decision payload ≡ false
      → RaisesEvaluation
          (evaluate_async render settings svc context (response status (some payload)))
  unfolding evaluate_async evaluate_with_opa
  malformed-raises settings svc context status payload enabled fine bad =
      let ctx = canonicalize_context context in
      let quiet : leb 400 status ≡ false = ground arith in
      rw (enabled, quiet)
        (elim (Bool-cases (settings.opa_fail_closed && not (is_in_sync svc))) [
          | inl c ↦ rw c tt
          | inr c ↦ rw c (
              fall_back_raises settings svc ctx _
                (bind_raises (parse_opa_result render payload) _ (parse_raises payload bad)))
        ])

-- No policy of the service has an id in the list.
abbrev pub NoneKnown : List String → List Policy → Type 0
NoneKnown ids ps = All (λ p. contains p.id ids ≡ false) ps

apply_block_unknown :
    (ids : List String) (ctx : CanonicalContext) (ps : List Policy)
    → NoneKnown ids ps
    → apply_block ids ctx ps ≡ (allows ctx ps, [])
unfolding apply_block
apply_block_unknown ids ctx [] h = refl
apply_block_unknown ids ctx (p ∷ ps) h = rw (h.0, apply_block_unknown ids ctx ps h.1) (ground arith)

-- A well-formed refusal (`allow` false) that names no policy of the service, such as one without
-- `block`, lets the request pass, with an ALLOW for each policy that matches.
pub refusal_without_policy-passes :
    (render : Json → String) (svc : PolicyService) (ctx : CanonicalContext) (status : ℕ)
    (payload : Json) (ids : List String)
    → status < 400
    → parse_opa_result render payload ≡ ok (false, ids)
    → NoneKnown ids svc.policies
    → evaluate_with_opa render svc ctx (response status (some payload))
      ≡ ok (allows ctx svc.policies)
unfolding evaluate_with_opa
refusal_without_policy-passes render svc ctx status payload ids fine parsed unknown =
    let quiet : leb 400 status ≡ false = ground arith in
    rw (quiet, parsed, apply_block_unknown ids ctx svc.policies unknown)
