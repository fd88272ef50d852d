-- ===== src/Pipeline/Preflight/Gate.antt =====
-- fastapi_backend/app/services/ai_request_service.py: what holds of a request that passed the pre-flight checks.
use api_gateways.Base.{
  arith, ℕ, String, true, false, Option, none, some, List, ◌≡◌, refl, sym, subst, inl, inr,
  Bool-cases,
}
use api_gateways.Errors.{
  tenant_not_authorized, quota_exceeded, policy_violation, Exception, domain, other, Result, ok,
  err, ok-inj,
}
use api_gateways.Request.Schema.{AiRequest}
use api_gateways.Policy.Schema.{level_value, EvaluationResult}
use api_gateways.Policy.Opa.{evaluate_async}
use api_gateways.Inspector.{Inspection, inspect_content}
use api_gateways.Prompt.{ScanResult, scan_messages}
use api_gateways.Quota.{check_quota}
use api_gateways.Intent.Service.{resolve_intent}
use api_gateways.Pipeline.Intent.{ChosenIntent, choose_intent}
use api_gateways.Pipeline.World.{
  World, AiService, is_permitted, audit_permission, get_ai_service_by_id,
  update_resolved_sensitivity,
}
use api_gateways.Pipeline.Outside.{Services, Outside}
use api_gateways.Pipeline.Exec.{
  Exec, pure, guard, gets, lift, commit, throw, continue, ◌>>=◌, ◌>>◌, bind-ok, guard-ok,
}
use api_gateways.Pipeline.Shield.{run_prompt_security_scan, act_on, set_status}
use api_gateways.Pipeline.Preflight.{
  User, tenant_of, PreFlightResult, check_permission, admit, found_service, persist, new_row,
  policy_context, audited, audit_context, audit_results, check_policies, screen, result_of,
  run_pre_flight,
}

module _ (svc : Services) (out : Outside) where
  found_service-ok :
      (id : String) (o : Option AiService) (w : World) (s : AiService)
      → (found_service svc out id o w).1 ≡ ok s
      → o ≡ some s
  found_service-ok id none w s e = absurd (ground arith)
  found_service-ok id (some x) w s e = ground arith

  pub admit-ok :
      (tenant_id service_id intent : String) (w : World) (s : AiService)
      → (admit svc out tenant_id service_id intent w).1 ≡ ok s
      → (is_permitted tenant_id service_id w ≡ true)
        × (check_quota out.date_of svc.quota out.now tenant_id w.redis ≡ true)
        × (get_ai_service_by_id service_id w ≡ some s)
  unfolding admit check_permission audit_permission
  admit-ok tenant_id service_id intent w s e =
      let allowed = is_permitted tenant_id service_id w in
      let w1 = audit_permission tenant_id service_id intent allowed w in
      let has_quota = check_quota out.date_of svc.quota out.now tenant_id w.redis in
      let lookup_service : Exec AiService = do
        service ← gets (get_ai_service_by_id service_id)
        found_service svc out service_id service
      in let quota_step : Exec AiService = do
        has_quota ← gets (λ w. check_quota out.date_of svc.quota out.now tenant_id w.redis)
        guard has_quota (quota_exceeded tenant_id)
        lookup_service
        in let p =
            guard-ok allowed (tenant_not_authorized tenant_id service_id) quota_step w1 s e in
          let q = guard-ok has_quota (quota_exceeded tenant_id) lookup_service w1 s p.1 in
          (p.0, q.0, found_service-ok service_id (get_ai_service_by_id service_id w) w1 s q.1)

  act_on-ok :
      (t : String) (n : ℕ) (ts : List String) (r : ScanResult) (w : World) (u : Unit {0})
      → (act_on out t n ts r w).1 ≡ ok u
      → r.is_blocked ≡ false
  unfolding set_status
  act_on-ok t n ts r w u e = elim (Bool-cases r.is_blocked) [
    | inl b ↦ absurd (ground arith)
    | inr b ↦ b
  ]

  then_throw :
      (m : Exec {0} Unit) (x : Exception) (w : World) (u : Unit {0})
      → ((m >> throw x) w).1 ≡ ok u
      → ⊥
  then_throw m x w u e = thrown (m w) e
    where
      thrown : (p : World × Result (Unit {0})) → (continue p (λ _. throw x)).1 ≡ ok u → ⊥
      thrown (v, ok a) e = ground arith
      thrown (v, err y) e = ground arith

  audited-ok :
      (t : String) (s : AiService) (r : Inspection) (o : Result (List EvaluationResult)) (w : World)
      (u : Unit {0})
      → (audited svc out t s r o w).1 ≡ ok u
      → (rs : List EvaluationResult) × (o ≡ ok rs)
  audited-ok t s r (ok rs) w u e = (rs, refl)
  audited-ok t s r (err (domain (policy_violation id d rs n ts))) w u e =
      absurd (then_throw (audit_results svc out (audit_context svc out t s r) rs) _ w u e)
  audited-ok t s r (err (other m)) w u e = absurd (ground arith)
  audited-ok t s r (err x) w u e = absurd (ground arith)

  abbrev pub verdict : String → AiService → Inspection → Result (List EvaluationResult)
  verdict tenant_id service r =
      evaluate_async out.render svc.settings svc.policy (policy_context svc out tenant_id service r)
        out.opa_reply

  abbrev pub inspection : AiRequest → Inspection
  inspection body = inspect_content out.nlp out.low_signal_intents body

  abbrev pub scanned : AiRequest → ScanResult
  scanned body = scan_messages out.add out.sha256 svc.prompt_security body.messages

  screen-ok :
      (body : AiRequest) (t intent id : String) (s : AiService) (w : World) (i : Inspection)
      → (screen svc out body t intent id s w).1 ≡ ok i
      → (i ≡ inspection body)
        × ((rs : List EvaluationResult) × (verdict t s (inspection body) ≡ ok rs))
        × ((scanned body).is_blocked ≡ false)
  unfolding screen check_policies run_prompt_security_scan
  screen-ok body t intent id s w i e =
      let r = inspection body in
      let shield : Exec Inspection =
        run_prompt_security_scan svc out t body.messages r.total_count r.detected_types >> pure r in
      let policies : Exec Inspection = check_policies svc out t s r >> shield in
      let upgrade : Exec Inspection =
        commit (update_resolved_sensitivity out.request_id (level_value r.resolved)) >> policies in
      let a = bind-ok (persist svc out (new_row svc out body t intent id)) (λ _. upgrade) w i e in
      let w2 =
        update_resolved_sensitivity out.request_id (level_value r.resolved)
          (persist svc out (new_row svc out body t intent id) w).0 in
      let b = bind-ok (check_policies svc out t s r) (λ _. shield) w2 i a.2 in
      let w3 = (check_policies svc out t s r w2).0 in
      let c =
        bind-ok (run_prompt_security_scan svc out t body.messages r.total_count r.detected_types)
          (λ _. pure r) w3 i b.2 in
      (
        sym (ok-inj c.2),
        audited-ok t s r (verdict t s r) w2 b.0 b.1,
        act_on-ok t r.total_count r.detected_types (scanned body) w3 c.0 c.1,
      )

  -- What the checks grant, of the values that they passed on.
  abbrev pub Granted : User → AiRequest → World → PreFlightResult → Type 0
  Granted user body w pf =
      (resolve_intent svc.intent_cache pf.chosen.intent_name ≡ ok pf.resolved_service_id)
      × (is_permitted (tenant_of user) pf.resolved_service_id w ≡ true)
      × (check_quota out.date_of svc.quota out.now (tenant_of user) w.redis ≡ true)
      × (get_ai_service_by_id pf.resolved_service_id w ≡ some pf.service)
      × ((rs : List EvaluationResult) × (verdict (tenant_of user) pf.service (inspection body)
            ≡ ok rs))
      × ((scanned body).is_blocked ≡ false)

  -- A request that comes through the pre-flight checks had the permission for the service that its intent resolves to and tokens left in its quota, was let through by the policies on its inspected sensitivity, and its latest user message was not blocked: no check is skipped on any path.
  pub run_pre_flight-gates :
      (user : User) (body : AiRequest) (w : World) (pf : PreFlightResult)
      → (run_pre_flight svc out user body w).1 ≡ ok pf
      → Granted user body w pf
  unfolding run_pre_flight
  run_pre_flight-gates user body w pf e =
      let t = tenant_of user in
      let finish : ChosenIntent → String → AiService → Exec PreFlightResult = λ chosen id s. do
        r ← screen svc out body t chosen.intent_name id s
        pure (result_of svc out body t chosen id s r)
      in let admitting : ChosenIntent → String → Exec PreFlightResult =
          λ chosen id. admit svc out t id chosen.intent_name >>= finish chosen id in
        let resolving : ChosenIntent → Exec PreFlightResult = λ chosen.
          lift (resolve_intent svc.intent_cache chosen.intent_name) >>= admitting chosen in
        let (chosen, chose, after_choice) =
          bind-ok (lift (choose_intent svc out body)) resolving w pf e in
        let (id, resolved, after_id) =
          bind-ok (lift (resolve_intent svc.intent_cache chosen.intent_name)) (admitting chosen) w
            pf after_choice in
        let (s, admitted, after_admission) =
          bind-ok (admit svc out t id chosen.intent_name) (finish chosen id) w pf after_id in
        let w1 = (admit svc out t id chosen.intent_name w).0 in
        let (r, screened, after_screening) =
          bind-ok (screen svc out body t chosen.intent_name id s)
            (λ r. pure (result_of svc out body t chosen id s r)) w1 pf after_admission in
        let (permitted, has_quota, found) = admit-ok t id chosen.intent_name w s admitted in
        let (same, passed, clean) = screen-ok body t chosen.intent_name id s w1 r screened in
        subst (Granted user body w) (ok-inj after_screening)
          (resolved, permitted, has_quota, found, passed, clean)
