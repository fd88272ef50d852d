-- ===== src/Pipeline/Preflight/Trail.antt =====
-- fastapi_backend/app/services/ai_request_service.py: what a refused request leaves in the tables.
use api_gateways.Base.{
  arith, ℕ, String, true, false, Option, some, List, [], ◌∷◌, ◌++◌, map, append-nil, append_assoc,
  any, str_eq, ◌≡◌, refl, sym, ap, ◌∙◌, inl, inr, eq_iff, Bool-cases,
}
use Prim.Native.String.{◌++◌ as concat}
use api_gateways.Errors.{policy_violation, security_violation, domain, Result, ok, err}
use api_gateways.Request.Schema.{AiRequest}
use api_gateways.Policy.Schema.{level_value, EvaluationResult}
use api_gateways.Inspector.{Inspection}
use api_gateways.Pipeline.World.{
  World, AiService, RequestRow, AuditContext, PolicyAudit, policy_audit_row, has_request,
  create_ai_request, update_request, update_ai_request_status, update_resolved_sensitivity,
  create_policy_audit_log, create_security_event,
}
use api_gateways.Pipeline.Outside.{Services, Outside}
use api_gateways.Pipeline.Exec.{Exec, pure, continue, ◌>>◌}
use api_gateways.Pipeline.Shield.{run_prompt_security_scan, set_status, injection_event}
use api_gateways.Pipeline.Preflight.{
  new_row, audit_context, audit_results, check_policies, persist, screen,
}
use api_gateways.Pipeline.Preflight.Gate.{verdict, inspection, scanned}

-- An update finds the row that was just inserted under a free id, and no other.
pub update-fresh :
    (id : String) (f : RequestRow → RequestRow) (rs : List RequestRow) (row : RequestRow)
    → any (λ r. str_eq r.request_id id) rs ≡ false
    → str_eq row.request_id id ≡ true
    → update_request id f (rs ++ row ∷ []) ≡ rs ++ f row ∷ []
unfolding update_request
update-fresh id f [] row free same = rw same refl
update-fresh id f (r ∷ rs) row free same = elim (Bool-cases (str_eq r.request_id id)) [
  | inl e ↦ absurd (ground arith)
  | inr e ↦ rw e (ap (λ l. r ∷ l) (update-fresh id f rs row (ground arith) same))
]

module _ (svc : Services) (out : Outside) where
  audit_results-run :
      (context : AuditContext) (rs : List EvaluationResult) (w : World)
      → audit_results svc out context rs w ≡ (
        record w {
          policy_audit = w.policy_audit ++ map (policy_audit_row out.request_id context) rs;
        },
        ok tt,
      )
  unfolding audit_results create_policy_audit_log
  audit_results-run context [] w = sym (
      ap {A = List PolicyAudit} {B = World × Result (Unit {0})}
        (λ l. (record w { policy_audit = l }, ok tt)) (append-nil w.policy_audit))
  audit_results-run context (r ∷ rs) w =
      audit_results-run context rs (create_policy_audit_log out.request_id context r w)
      ∙ ap {A = List PolicyAudit} {B = World × Result (Unit {0})}
          (λ l. (record w { policy_audit = l }, ok tt))
          (append_assoc w.policy_audit (policy_audit_row out.request_id context r ∷ [])
            (map (policy_audit_row out.request_id context) rs))

  -- The row of a request once its sensitivity is resolved.
  abbrev pub resolved_row : AiRequest → String → String → String → RequestRow
  resolved_row body t intent id = record (new_row svc out body t intent id) {
    resolved_sensitivity = some (level_value (inspection svc out body).resolved);
  }

  abbrev recorded : AiRequest → String → String → String → World → World
  recorded body t intent id w = record w {
    requests = w.requests ++ resolved_row body t intent id ∷ [];
  }

  persist-resolved :
      (body : AiRequest) (t intent id : String) (w : World)
      → has_request out.request_id w ≡ false
      → persist svc out (new_row svc out body t intent id) w
        ≡ (create_ai_request (new_row svc out body t intent id) w, ok tt)
  unfolding persist
  persist-resolved body t intent id w free = rw free refl

  upgrade-recorded :
      (body : AiRequest) (t intent id : String) (w : World)
      → has_request out.request_id w ≡ false
      → update_resolved_sensitivity out.request_id
          (level_value (inspection svc out body).resolved)
          (create_ai_request (new_row svc out body t intent id) w)
        ≡ recorded body t intent id w
  unfolding has_request create_ai_request update_resolved_sensitivity
  upgrade-recorded body t intent id w free =
      ap {A = List RequestRow} {B = World} (λ l. record w { requests = l })
        (update-fresh out.request_id _ w.requests (new_row svc out body t intent id) free
          ((eq_iff out.request_id out.request_id).1 refl))

  -- What `screen` still does once the row is there.
  abbrev checks : AiRequest → String → AiService → Exec Inspection
  checks body t s = do
    check_policies svc out t s (inspection svc out body)
    run_prompt_security_scan svc out t body.messages (inspection svc out body).total_count
        (inspection svc out body).detected_types
    pure (inspection svc out body)

  screen-recorded :
      (body : AiRequest) (t intent id : String) (s : AiService) (w : World)
      → has_request out.request_id w ≡ false
      → screen svc out body t intent id s w ≡ checks body t s (recorded body t intent id w)
  unfolding screen
  screen-recorded body t intent id s w free =
      rw (persist-resolved body t intent id w free)
        (rw (upgrade-recorded body t intent id w free) refl)

  -- The tables after the results of the policies are logged.
  abbrev pub logged :
      AiRequest → String → String → String → AiService → List EvaluationResult → World → World
  logged body t intent id s results w = record w {
    requests = w.requests ++ resolved_row body t intent id ∷ [];
    policy_audit =
        w.policy_audit
        ++ map
            (policy_audit_row out.request_id (audit_context svc out t s (inspection svc out body)))
            results;
  }

  -- A policy that refuses a request leaves its row as received, with the inspected sensitivity, logs every evaluated policy, writes no security event, and raises the violation with the personal data that was found; the request id is new.
  pub screen-policy_violation :
      (body : AiRequest) (t intent id : String) (s : AiService) (w : World)
      (policy_id description : String) (results : List EvaluationResult) (n : Option ℕ)
      (types : Option (List String))
      → has_request out.request_id w ≡ false
      → verdict svc out t s (inspection svc out body)
        ≡ err (domain (policy_violation policy_id description results n types))
      → screen svc out body t intent id s w ≡ (
        logged body t intent id s results w,
        err (
            domain (
              policy_violation policy_id description results
                (some (inspection svc out body).total_count)
                (some (inspection svc out body).detected_types))),
      )
  unfolding check_policies
  screen-policy_violation body t intent id s w policy_id description results n types free refused =
      screen-recorded body t intent id s w free
      ∙ rw refused (
          rw
            (audit_results-run (audit_context svc out t s (inspection svc out body)) results
              (recorded body t intent id w))
            refl)

  -- The row of a request that the input shield blocked.
  abbrev pub blocked_row : AiRequest → String → String → String → RequestRow
  blocked_row body t intent id = record (resolved_row body t intent id) {
    status = "blocked";
    completed_at = some out.now;
    error_detail = some (
        concat "Prompt injection detected: "
          (out.render_names (scanned svc out body).matched_patterns));
  }

  checks-allowed :
      (body : AiRequest) (t : String) (s : AiService) (w : World) (results : List EvaluationResult)
      → verdict svc out t s (inspection svc out body) ≡ ok results
      → checks body t s w
        ≡ continue
            (run_prompt_security_scan svc out t body.messages
              (inspection svc out body).total_count
              (inspection svc out body).detected_types
              (record w {
                policy_audit =
                    w.policy_audit
                    ++ map
                        (policy_audit_row out.request_id
                          (audit_context svc out t s (inspection svc out body)))
                        results;
              }))
            (λ _. pure (inspection svc out body))
  unfolding check_policies
  checks-allowed body t s w results allowed =
      rw allowed (
        rw (audit_results-run (audit_context svc out t s (inspection svc out body)) results w) refl)

  -- A prompt that the input shield blocks, after the policies let the request through, closes its row as blocked with the time and the matched patterns, logs the policies' results and exactly one blocking event, and raises the security violation; the request id is new.
  pub screen-blocked :
      (body : AiRequest) (t intent id : String) (s : AiService) (w : World)
      (results : List EvaluationResult)
      → has_request out.request_id w ≡ false
      → verdict svc out t s (inspection svc out body) ≡ ok results
      → (scanned svc out body).is_blocked ≡ true
      → screen svc out body t intent id s w ≡ (
        record (logged body t intent id s results w) {
          requests = w.requests ++ blocked_row body t intent id ∷ [];
          security_events =
              w.security_events ++ injection_event out t (scanned svc out body) "blocked" ∷ [];
        },
        err (
            domain (
              security_violation
                (scanned svc out body).prompt_hash
                (scanned svc out body).matched_patterns
                (scanned svc out body).total_score
                (some (inspection svc out body).total_count)
                (some (inspection svc out body).detected_types))),
      )
  unfolding run_prompt_security_scan set_status update_ai_request_status has_request
      create_security_event
  screen-blocked body t intent id s w results free allowed blocked =
      screen-recorded body t intent id s w free
      ∙ checks-allowed body t s (recorded body t intent id w) results allowed
      ∙ rw blocked (
          rw
            (update-fresh out.request_id _ w.requests (resolved_row body t intent id) free
              ((eq_iff out.request_id out.request_id).1 refl))
            refl)
