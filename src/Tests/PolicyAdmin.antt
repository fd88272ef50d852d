-- ===== src/Tests/PolicyAdmin.antt =====
-- Changes of a policy by an administrator, and their theorems at concrete inputs.
use api_gateways.Base.{String, true, false, Option, none, some, List, [], ◌∷◌, codes, ◌≡◌, refl}
use api_gateways.Base.Json.{null}
use api_gateways.Errors.{raise, policy_evaluation_error}
use api_gateways.Gateway.Outcome.{done, http}
use api_gateways.Gateway.Kong.{Field}
use api_gateways.Gateway.Admission.{verify_kong_header}
use api_gateways.Gateway.Tokens.{User, require_admin}
use api_gateways.Policy.Schema.{high, Policy, Context}
use api_gateways.Policy.Schema.{level}
use api_gateways.Policy.Service.{Settings}
use api_gateways.Policy.Rego.{BundleItem, decision_document}
use api_gateways.Policy.Evaluate.{canonicalize_context}
use api_gateways.Policy.Opa.{OpaReply, response, evaluate_async}
use api_gateways.Policy.Sync.{PolicyRow, PushReply, push_error, serialize_bundle}
use api_gateways.Policy.Sync.Laws.{is_none}
use api_gateways.Admin.Access.{admin_access}
use api_gateways.Admin.Policies.{PolicyCreate, PolicyAdmin, create_policy, get_governance_policy}
use api_gateways.Admin.Policies.Laws.{create-push_failed, created, delete-missing, deleted}
use api_gateways.Tests.Data.{policies, no_cloud}

-- An administrator.
abbrev admin : User
admin = record { sub = codes "root"; realm_access = Field.given (some (codes "admin" ∷ [])) }

admitted :
    admin_access (some (codes "gw")) (codes "GET") (some (codes "gw")) (done admin) ≡ done admin
unfolding admin_access verify_kong_header require_admin api_gateways.Base.text_eq
admitted = refl

-- Without the header, or with another value than the one set, the request is refused.
not_by_kong :
    admin_access (some (codes "gw")) (codes "GET") (some (codes "x")) (done admin) ≡ http 403
unfolding admin_access verify_kong_header require_admin api_gateways.Base.text_eq
not_by_kong = refl

-- A value of the row that is read as the policy against the cloud.
abbrev parse : PolicyRow → Option Policy
parse r = some no_cloud

abbrev digest : String → List BundleItem → String
digest v items = v

abbrev with_opa : Settings
with_opa = record {
  opa_enabled = true;
  opa_strict_sync = true;
  opa_allow_local_fallback = false;
  opa_fail_closed = true;
}

abbrev payload : PolicyCreate
payload = record {
  description = some "Closed";
  condition = null;
  effect = null;
  is_active = true;
  version = "1";
}

abbrev stored_row : PolicyRow
stored_row = record {
  id = "old";
  description = none;
  condition = null;
  effect = null;
  is_active = true;
  version = "1";
}

abbrev state : PolicyAdmin
state = record { rows = stored_row ∷ []; service = policies }

abbrev empty : PolicyAdmin
empty = record { rows = []; service = policies }

abbrev accepted : PushReply
accepted = PushReply.response 204 ""

abbrev down : PushReply
down = PushReply.response 500 "down"

down_fails : is_none (push_error down) ≡ false
unfolding push_error
down_fails = refl

abbrev secret : Context
secret = record {
  sensitivity = some (level high);
  tenant = some "acme";
  service_type = some (codes "cloud");
}

-- OPA answers from the bundle that the creation pushed.
abbrev opa_answer : OpaReply
opa_answer = response 200 (
    some (
      decision_document
        (serialize_bundle digest
          (created parse digest with_opa admin "now" accepted empty "new" payload).0.service)
        (canonicalize_context secret)))

abbrev some_context : Context
some_context = record { sensitivity = none; tenant = some "acme"; service_type = none }

create-push_failed_example :
    ((created parse digest with_opa admin "now" down state "new" payload).1 ≡ http 502)
    × ((created parse digest with_opa admin "now" down state "new" payload).0.rows
        ≡ (create_policy "new" payload state.rows).1 ∷ state.rows)
    × (evaluate_async
          (λ j. "")
          with_opa
          (created parse digest with_opa admin "now" down state "new" payload).0.service
          some_context
          (response 200 none)
        ≡ raise (policy_evaluation_error "opa_cache_out_of_sync"))
create-push_failed_example =
    create-push_failed parse digest with_opa admin "now" down state "new" payload (λ j. "")
      some_context (response 200 none) refl refl refl down_fails

delete-missing_example :
    get_governance_policy
      (done admin)
      "old"
      (deleted parse digest with_opa admin "now" down state "old").0
    ≡ http 404
delete-missing_example = delete-missing parse digest with_opa admin "now" down state "old" "old"
