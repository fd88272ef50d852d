-- ===== src/Pipeline/Lifecycle/Checks.antt =====
-- What the checks of `_run_pre_flight` leave in `ai_requests`.
use api_gateways.Base.{
  ℕ, String, Bool, true, false, Option, none, some, List, [], ◌∷◌, inl, inr, refl, All-append,
  Bool-cases,
}
use api_gateways.Errors.{domain, Result, ok, err, policy_violation}
use api_gateways.Request.Schema.{AiRequest, Message}
use api_gateways.Policy.Schema.{EvaluationResult, level_value}
use api_gateways.Policy.Opa.{evaluate_async}
use api_gateways.Quota.{check_quota}
use api_gateways.Prompt.{ScanResult, scan_messages}
use api_gateways.Inspector.{Inspection, inspect_content}
use api_gateways.Intent.Service.{resolve_intent}
use api_gateways.Pipeline.World.{
  AiService, RequestRow, AuditContext, is_permitted, audit_permission, get_ai_service_by_id,
  has_request, create_ai_request, update_resolved_sensitivity, create_policy_audit_log,
  create_security_event,
}
use api_gateways.Pipeline.Outside.{Services, Outside}
use api_gateways.Pipeline.Exec.{pure, throw, commit, lift, ◌>>◌}
use api_gateways.Pipeline.Intent.{choose_intent}
use api_gateways.Pipeline.Shield.{
  injection_event, run_prompt_security_scan, set_status, refuse, note,
}
use api_gateways.Pipeline.Preflight.{
  User, tenant_of, check_permission, found_service, admit, new_row, audit_context, policy_context,
  insert_unless, persist, audit_results, audited, check_policies, screen, run_pre_flight,
}
use api_gateways.Pipeline.Lifecycle.Keeps.{Keeps, bind-Keeps, then-Keeps, if-Keeps}
use Prim.Native.String.{◌++◌ as concat}
use api_gateways.Pipeline.Lifecycle.Rows.{IsRow, AreRows, update_request-All, closed}

-- `update_resolved_sensitivity` leaves the status.
resolved-Keeps : (id level : String) → Keeps AreRows (commit (update_resolved_sensitivity id level))
unfolding update_resolved_sensitivity
resolved-Keeps id level w h = update_request-All id _ w.requests (λ r k. k) h

module _ (svc : Services) (out : Outside) where
  found_service-Keeps :
      (id : String) (o : Option AiService) → Keeps AreRows (found_service svc out id o)
  found_service-Keeps id none w h = h
  found_service-Keeps id (some s) w h = h

  admit-Keeps : (t s i : String) → Keeps AreRows (admit svc out t s i)
  unfolding admit check_permission audit_permission
  admit-Keeps t s i w h = elim (Bool-cases (is_permitted t s w)) [
    | inr refused ↦ rw refused h
    | inl permitted ↦ elim (Bool-cases (check_quota out.date_of svc.quota out.now t w.redis)) [
      | inr over ↦ rw (permitted, over) h
      | inl within ↦
          rw (permitted, within)
            (found_service-Keeps s (get_ai_service_by_id s w) (audit_permission t s i true w) h)
    ]
  ]

  insert_unless-Keeps :
      (taken : Bool) (row : RequestRow)
      → IsRow row
      → Keeps AreRows (insert_unless svc out taken row)
  unfolding create_ai_request
  insert_unless-Keeps true row r w h = h
  insert_unless-Keeps false row r w h = All-append IsRow w.requests (row ∷ []) h (r, tt)

  persist-Keeps : (row : RequestRow) → IsRow row → Keeps AreRows (persist svc out row)
  unfolding persist
  persist-Keeps row r w h = insert_unless-Keeps (has_request row.request_id w) row r w h

  audit_results-Keeps :
      (c : AuditContext) (rs : List EvaluationResult) → Keeps AreRows (audit_results svc out c rs)
  unfolding audit_results create_policy_audit_log
  audit_results-Keeps c [] w h = h
  audit_results-Keeps c (r ∷ rs) w h =
      audit_results-Keeps c rs (create_policy_audit_log out.request_id c r w) h

  audited-Keeps :
      (t : String) (service : AiService) (r : Inspection) (x : Result (List EvaluationResult))
      → Keeps AreRows (audited svc out t service r x)
  audited-Keeps t service r (ok results) w h =
      audit_results-Keeps (audit_context svc out t service r) results w h
  audited-Keeps t service r (err (domain (policy_violation id d results n types))) w h =
      then-Keeps AreRows (audit_results svc out (audit_context svc out t service r) results)
        (throw _) (audit_results-Keeps (audit_context svc out t service r) results) (λ v k. k) w h
  audited-Keeps t service r (err e) w h = h

  check_policies-Keeps :
      (t : String) (service : AiService) (r : Inspection)
      → Keeps AreRows (check_policies svc out t service r)
  unfolding check_policies
  check_policies-Keeps t service r = audited-Keeps t service r (
      evaluate_async out.render svc.settings svc.policy (policy_context svc out t service r)
        out.opa_reply)

  note-Keeps :
      (t : String) (r : ScanResult) (names : List String) → Keeps AreRows (note out t r names)
  unfolding create_security_event
  note-Keeps t r [] w h = h
  note-Keeps t r (p ∷ ps) w h = h

  run_prompt_security_scan-Keeps :
      (t : String) (ms : List Message) (n : ℕ) (types : List String)
      → Keeps AreRows (run_prompt_security_scan svc out t ms n types)
  unfolding run_prompt_security_scan set_status create_security_event
  run_prompt_security_scan-Keeps t ms n types =
      let r = scan_messages out.add out.sha256 svc.prompt_security ms in
      if-Keeps AreRows r.is_blocked (refuse out t n types r) (note out t r r.matched_patterns)
        (λ w h.
          closed out.request_id "blocked" out.now
            (some (concat "Prompt injection detected: " (out.render_names r.matched_patterns)))
            (create_security_event (injection_event out t r "blocked") w) refl h)
        (note-Keeps t r r.matched_patterns)

  screen-Keeps :
      (body : AiRequest) (t i id : String) (service : AiService)
      → Keeps AreRows (screen svc out body t i id service)
  unfolding screen update_resolved_sensitivity
  screen-Keeps body t i id service =
      let r = inspect_content out.nlp out.low_signal_intents body in
      let resolve = commit (update_resolved_sensitivity out.request_id (level_value r.resolved)) in
      let check = check_policies svc out t service r in
      let shield =
        run_prompt_security_scan svc out t body.messages r.total_count r.detected_types in
      then-Keeps AreRows (persist svc out (new_row svc out body t i id))
        (resolve >> (check >> (shield >> pure r)))
        (persist-Keeps (new_row svc out body t i id) (inl refl))
        (then-Keeps AreRows resolve (check >> (shield >> pure r))
          (resolved-Keeps out.request_id (level_value r.resolved))
          (then-Keeps AreRows check (shield >> pure r) (check_policies-Keeps t service r) (
            then-Keeps AreRows shield (pure r)
              (run_prompt_security_scan-Keeps t body.messages r.total_count r.detected_types)
              (λ w h. h))))

  pub run_pre_flight-Keeps :
      (user : User) (body : AiRequest) → Keeps AreRows (run_pre_flight svc out user body)
  unfolding run_pre_flight
  run_pre_flight-Keeps user body =
      bind-Keeps AreRows (lift (choose_intent svc out body)) _ (λ w h. h)
        (λ chosen.
          bind-Keeps AreRows (lift (resolve_intent svc.intent_cache chosen.intent_name)) _
            (λ w h. h)
            (λ id.
              bind-Keeps AreRows (admit svc out (tenant_of user) id chosen.intent_name) _
                (admit-Keeps (tenant_of user) id chosen.intent_name)
                (λ service.
                  bind-Keeps AreRows
                    (screen svc out body (tenant_of user) chosen.intent_name id service) _
                    (screen-Keeps body (tenant_of user) chosen.intent_name id service)
                    (λ r w h. h))))
