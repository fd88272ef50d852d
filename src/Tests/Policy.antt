-- ===== src/Tests/Policy.antt =====
-- Policies, their evaluation here and in OPA, and their synchronization, on concrete inputs.
use api_gateways.Base.{
  arith, ℕ, String, Bool, true, false, Option, none, some, List, [], ◌∷◌, ◌++◌, ◌≡◌, refl, codes,
  Text, map, All, text_in,
}
use api_gateways.Base.Json.{Json, obj, field, bool, null, end}
use api_gateways.Errors.{ok, raise}
use api_gateways.Policy.Schema.{high, level, Policy, allow_all, Context, CanonicalContext, deny}
use api_gateways.Policy.ServiceType.{cloud}
use api_gateways.Policy.Service.{Settings, PolicyService, is_in_sync}
use api_gateways.Policy.Evaluate.{
  canonicalize_context, matches, result_of, violation, evaluate_local,
}
use api_gateways.Policy.Opa.{
  response, parse_opa_result, evaluate_with_opa, evaluate_async, evaluate,
}
use api_gateways.Policy.Rego.{BundleItem, Bundle, serialize_policy, decision_document}
use api_gateways.Policy.Sync.{PolicyRow, PushReply, push_error, load_policies, serialize_bundle}
use api_gateways.Policy.Sync.Laws.{after, synced-Agree}
use api_gateways.Policy.Denial.{allows, evaluate_local-denies}
use api_gateways.Policy.Agreement.{Distinct}
use api_gateways.Policy.SameDecision.{Agree, evaluate_async-Agree}
use api_gateways.Policy.FailClosed.{refusal_without_policy-passes}
use api_gateways.Tests.Data.{no_cloud, policies}

abbrev open_door : Policy
open_door = record {
  id = "open";
  description = none;
  condition = record { sensitivity = none; tenant = none };
  effect = allow_all;
}

abbrev two : PolicyService
two = record policies {
  policies = open_door ∷ no_cloud ∷ [];
  local_hash = some "h";
  last_pushed_hash = some "h";
  last_sync_ok = some true;
}

abbrev secret : CanonicalContext
secret = record { sensitivity = some "HIGH"; tenant = some "acme"; service_type = cloud }

evaluate_local-denies_example :
    evaluate_local two secret
    ≡ raise (
        violation "no-cloud"
          (some "Confidential data stays here")
          (allows secret (open_door ∷ []) ++ result_of no_cloud deny ∷ []))
unfolding matches api_gateways.Policy.Evaluate.should_block api_gateways.Base.text_eq
evaluate_local-denies_example =
    evaluate_local-denies two secret (open_door ∷ []) [] no_cloud refl (refl, tt) refl

abbrev with_opa : Settings
with_opa = record {
  opa_enabled = true;
  opa_strict_sync = true;
  opa_allow_local_fallback = true;
  opa_fail_closed = true;
}

abbrev context : Context
context = record {
  sensitivity = some (level high);
  tenant = some "acme";
  service_type = some (codes "cloud");
}

abbrev render : Json → String
render j = ""

abbrev bundle : Bundle
bundle = record { items = map serialize_policy two.policies; version = "1"; hash = "h" }

two_synced : is_in_sync two ≡ true
unfolding is_in_sync
two_synced = refl

evaluate_async-Agree_example :
    Agree
      (evaluate_async render with_opa two context
        (response 200 (some (decision_document bundle (canonicalize_context context)))))
      (evaluate two context)
evaluate_async-Agree_example =
    evaluate_async-Agree render with_opa two context 200 bundle refl two_synced
      ((refl, tt), (tt, tt)) refl (omega arith)

abbrev bare_refusal : Json
bare_refusal = obj (field "result" (obj (field "allow" (bool false) end)) end)

bare_parsed : parse_opa_result render bare_refusal ≡ ok (false, [])
unfolding parse_opa_result
bare_parsed = refl

refusal_without_policy-passes_example :
    evaluate_with_opa render two secret (response 200 (some bare_refusal))
    ≡ ok (allows secret two.policies)
refusal_without_policy-passes_example =
    refusal_without_policy-passes render two secret 200 bare_refusal [] (omega arith) bare_parsed
      (refl, (refl, tt))

abbrev row : PolicyRow
row = record {
  id = "no-cloud";
  description = some "Confidential data stays here";
  condition = null;
  effect = null;
  is_active = true;
  version = "2";
}

abbrev parse : PolicyRow → Option Policy
parse r = some no_cloud

abbrev digest : String → List BundleItem → String
digest v items = v

abbrev refused : PushReply
refused = PushReply.response 500 "down"

abbrev accepted : PushReply
accepted = PushReply.response 204 ""

accepted_fine : push_error accepted ≡ none
unfolding push_error
accepted_fine = refl

one_Distinct : Distinct (load_policies parse (row ∷ []))
unfolding load_policies
one_Distinct = (tt, tt)

synced-Agree_example :
    Agree
      (evaluate_async render with_opa
        (after parse digest with_opa "now" policies (row ∷ []) accepted)
        context
        (response 200 (
          some (
            decision_document
              (serialize_bundle digest
                (after parse digest with_opa "now" policies (row ∷ []) accepted))
              (canonicalize_context context)))))
      (evaluate (after parse digest with_opa "now" policies (row ∷ []) accepted) context)
synced-Agree_example =
    synced-Agree parse digest with_opa "now" policies (row ∷ []) accepted render context 200 refl
      accepted_fine one_Distinct (omega arith)
