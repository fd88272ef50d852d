-- ===== src/Tests/Pipeline.antt =====
-- A request of a tenant through the code of fastapi_backend/app/services/ai_request_service.py.
use api_gateways.Base.{
  arith, ℕ, String, Bool, true, false, Option, none, some, List, [], ◌∷◌, ◌++◌, ◌+◌, ◌≡◌, ◌≢◌, refl,
  any, Text, codes, length, lookup, insert, sorted, strip, str_eq,
}
use api_gateways.Errors.{ok, err, domain, policy_violation, security_violation}
use api_gateways.Policy.Schema.{deny_cloud, deny}
use api_gateways.Policy.Opa.{evaluate_async}
use api_gateways.Policy.Evaluate.{evaluate_local, canonicalize_context, matches}
use api_gateways.Regex.{finditer, search_in}
use api_gateways.Prompt.{init, scan_messages}
use api_gateways.Prompt.Library.{injection_patterns}
use api_gateways.Inspector.{inspect_content}
use api_gateways.Tests.Data.{services, outside, llama, world, user, asking, checked}
use api_gateways.Pipeline.World.{has_request}
use api_gateways.Pipeline.Preflight.{run_pre_flight, screen}
use api_gateways.Pipeline.Shield.{injection_event}
use api_gateways.Pipeline.Preflight.Trail.{
  screen-blocked, screen-policy_violation, logged, blocked_row,
}
use api_gateways.Pipeline.Preflight.Gate.{
  run_pre_flight-gates, Granted, verdict, inspection, scanned,
}

pub passed : (run_pre_flight services outside user (asking "hi") world).1 ≡ ok checked
unfolding run_pre_flight init injection_patterns lookup strip finditer search_in sorted
    evaluate_local canonicalize_context matches
passed = refl

run_pre_flight-gates_example : Granted services outside user (asking "hi") world checked
run_pre_flight-gates_example =
    run_pre_flight-gates services outside user (asking "hi") world checked passed

jailbreak_allowed :
    verdict services outside "acme" llama (inspection services outside (asking "jailbreak")) ≡ ok []
unfolding evaluate_local finditer evaluate_async inspect_content matches strip
jailbreak_allowed = refl

jailbreak_blocked : (scanned services outside (asking "jailbreak")).is_blocked ≡ true
unfolding scan_messages init injection_patterns search_in
jailbreak_blocked = refl

screen-blocked_example :
    screen services outside (asking "jailbreak") "acme" "chat" "llama" llama world ≡ (
      record (logged services outside (asking "jailbreak") "acme" "chat" "llama" llama [] world) {
        requests = blocked_row services outside (asking "jailbreak") "acme" "chat" "llama" ∷ [];
        security_events =
            injection_event outside "acme" (scanned services outside (asking "jailbreak")) "blocked"
            ∷ [];
      },
      err (
          domain (
            security_violation
              (scanned services outside (asking "jailbreak")).prompt_hash
              (scanned services outside (asking "jailbreak")).matched_patterns
              (scanned services outside (asking "jailbreak")).total_score
              (some (inspection services outside (asking "jailbreak")).total_count)
              (some (inspection services outside (asking "jailbreak")).detected_types))),
    )
screen-blocked_example =
    screen-blocked services outside (asking "jailbreak") "acme" "chat" "llama" llama world []
      (unfold has_request in refl) jailbreak_allowed jailbreak_blocked

mail_refused :
    verdict services outside "acme" llama (inspection services outside (asking "a@b.co"))
    ≡ err (
        domain (
          policy_violation "no-cloud" "Confidential data stays here"
            (record {
              policy_id = "no-cloud";
              effect = deny_cloud;
              decision = deny;
              description = some "Confidential data stays here";
            }
              ∷ [])
            none
            none))
unfolding evaluate_local finditer evaluate_async inspect_content matches strip insert
    api_gateways.Policy.Evaluate.should_block api_gateways.Base.text_eq
    api_gateways.Policy.ServiceType.canonical_service_type
    api_gateways.Policy.ServiceType.classify_service_type
    api_gateways.Policy.ServiceType.normalize_service_type api_gateways.Base.replace
mail_refused = refl

screen-policy_violation_example :
    screen services outside (asking "a@b.co") "acme" "chat" "llama" llama world ≡ (
      logged services outside
          (asking "a@b.co")
          "acme"
          "chat"
          "llama"
          llama
          (record {
            policy_id = "no-cloud";
            effect = deny_cloud;
            decision = deny;
            description = some "Confidential data stays here";
          }
            ∷ [])
          world,
      err (
          domain (
            policy_violation "no-cloud" "Confidential data stays here"
              (record {
                policy_id = "no-cloud";
                effect = deny_cloud;
                decision = deny;
                description = some "Confidential data stays here";
              }
                ∷ [])
              (some (inspection services outside (asking "a@b.co")).total_count)
              (some (inspection services outside (asking "a@b.co")).detected_types))),
    )
screen-policy_violation_example =
    screen-policy_violation services outside (asking "a@b.co") "acme" "chat" "llama" llama world
      "no-cloud" "Confidential data stays here" _ none none (unfold has_request in refl)
      mail_refused
