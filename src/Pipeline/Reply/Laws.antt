-- ===== src/Pipeline/Reply/Laws.antt =====
-- fastapi_backend/app/services/ai_request_service.py: how `submit_json` comes out.
use api_gateways.Base.{
  arith, Option, none, some, List, [], ◌∷◌, ◌++◌, ◌+◌, Text, ◌≡◌, ◌≢◌, refl, sym, subst, ap, ◌∙◌,
  Bool-cases, inl, inr, ltb,
}
use api_gateways.Errors.{other, Result, ok, err}
use api_gateways.Request.Schema.{AiRequest}
use api_gateways.Guard.{redact}
use api_gateways.Pipeline.World.{
  World, UsageRow, RequestRow, update_ai_request_status, create_usage_log, create_security_event,
}
use api_gateways.Pipeline.Outside.{Services, Outside}
use api_gateways.Pipeline.Exec.{Exec, throw, continue, bind-ok, bind-run}
use api_gateways.Pipeline.Preflight.{User, PreFlightResult, run_pre_flight}
use api_gateways.Pipeline.Provider.{Usage}
use api_gateways.Pipeline.Stream.Laws.{HasStatus, update-HasStatus}
use api_gateways.Pipeline.Reply.{
  ProviderData, charge, guard_output, answer, finish, provider_failed, submit_json, prompt_tokens,
  eval_tokens,
}

module _ (out : Outside) (pf : PreFlightResult) where
  answer-raises : (d b : ProviderData) (w : World) → (answer out pf d w).1 ≢ ok b
  unfolding answer
  answer-raises d b w e =
      let w2 =
        update_ai_request_status pf.request_id "completed" (some out.now) none
          (charge out pf d.usage w) in
      let (a, guarded, raised) =
        bind-ok {A = ProviderData} {B = ProviderData} (guard_output out pf d d.message)
          (λ _. throw (other "name 'elapsed_ms' is not defined")) w2 b e in
      ground (arith, raised)

  finish-raises :
      (p : Result ProviderData) (b : ProviderData) (w : World) → (finish out pf p w).1 ≢ ok b
  unfolding finish provider_failed
  finish-raises (ok d) b w e = answer-raises d b w e
  finish-raises (err x) b w e = ground (arith, e)

  -- What the output guard leaves of the tables that it does not write.
  guard_output-usage :
      (d : ProviderData) (m : Option Text) (w : World)
      → ((guard_output out pf d m w).0.usage ≡ w.usage)
        × ((guard_output out pf d m w).0.requests ≡ w.requests)
        × ((b : ProviderData) × ((guard_output out pf d m w).1 ≡ ok b))
  unfolding guard_output create_security_event
  guard_output-usage d none w = (refl, refl, (d, refl))
  guard_output-usage d (some []) w = (refl, refl, (d, refl))
  guard_output-usage d (some (c ∷ cs)) w =
      elim (Bool-cases (ltb 0 (redact (c ∷ cs)).redaction_count)) [
        | inl e ↦ rw e (refl, refl, (_, refl))
        | inr e ↦ rw e (refl, refl, (d, refl))
      ]

  -- The usage row of an answer.
  abbrev pub charged_row : Option Usage → UsageRow
  charged_row u = record {
    request_id = pf.request_id;
    tenant_id = pf.tenant_id;
    service_id = pf.resolved_service_id;
    model_name = pf.service.model_name;
    input_tokens = prompt_tokens u;
    output_tokens = eval_tokens u;
    total_tokens = prompt_tokens u + eval_tokens u;
  }

  answer-records :
      (d : ProviderData) (w : World)
      → ((answer out pf d w).0.usage ≡ w.usage ++ charged_row d.usage ∷ [])
        × HasStatus pf.request_id "completed" (answer out pf d w).0.requests
        × ((answer out pf d w).1 ≡ err (other "name 'elapsed_ms' is not defined"))
  unfolding answer charge create_usage_log update_ai_request_status
  answer-records d w =
      let w2 =
        update_ai_request_status pf.request_id "completed" (some out.now) none
          (charge out pf d.usage w) in
      let (usage, requests, (b, guarded)) = guard_output-usage d d.message w2 in
      let same = continued (guard_output out pf d d.message w2) b guarded in
      (
        ap {A = World × Result ProviderData} {B = List UsageRow} (λ p. p.0.usage) same ∙ usage,
        subst (HasStatus pf.request_id "completed")
            (sym (
              ap {A = World × Result ProviderData} {B = List RequestRow} (λ p. p.0.requests) same
              ∙ requests))
            (update-HasStatus pf.request_id "completed" _ _ (λ r. refl)),
        ap {A = World × Result ProviderData} {B = Result ProviderData} (λ p. p.1) same,
      )
    where
      raise_name : Exec ProviderData
      raise_name = throw (other "name 'elapsed_ms' is not defined")

      continued :
          (p : World × Result ProviderData) (b : ProviderData)
          → p.1 ≡ ok b
          → continue p (λ _. raise_name) ≡ (p.0, err (other "name 'elapsed_ms' is not defined"))
      continued (v, ok a) b e = refl
      continued (v, err x) b e = absurd (ground arith)

module _ (svc : Services) (out : Outside) (provider : PreFlightResult → Result ProviderData)
    (user : User) (body : AiRequest) (w : World) where
  -- A JSON request never gets its response: whatever the checks and the provider say, the handler raises.
  pub submit_json-raises : (b : ProviderData) → (submit_json svc out provider user body w).1 ≢ ok b
  unfolding submit_json
  submit_json-raises b e =
      let (pf, checked, answered) =
        bind-ok (run_pre_flight svc out user body) (λ pf. finish out pf (provider pf)) w b e in
      finish-raises out pf (provider pf) b (run_pre_flight svc out user body w).0 answered

  -- The outcome `r` of an answered request, whose pre-flight checks left `v`.
  abbrev pub Charged : PreFlightResult → ProviderData → World → World × Result ProviderData → Type 0
  Charged pf d v r =
      (r.0.usage ≡ v.usage ++ charged_row out pf d.usage ∷ [])
      × HasStatus pf.request_id "completed" r.0.requests
      × (r.1 ≡ err (other "name 'elapsed_ms' is not defined"))

  -- A JSON request that passes the checks and is answered by the provider is nevertheless charged: its tokens are logged, its row is completed, and only then the handler raises the name error.
  pub submit_json-charges :
      (pf : PreFlightResult) (d : ProviderData)
      → (run_pre_flight svc out user body w).1 ≡ ok pf
      → provider pf ≡ ok d
      → Charged pf d
          (run_pre_flight svc out user body w).0
          (submit_json svc out provider user body w)
  unfolding submit_json finish
  submit_json-charges pf d passed answered =
      let w1 = (run_pre_flight svc out user body w).0 in
      let same : submit_json svc out provider user body w ≡ answer out pf d w1 =
        bind-run (run_pre_flight svc out user body) (λ pf. finish out pf (provider pf)) w pf passed
        ∙ ap (λ p. finish out pf p w1) answered in
      subst (Charged pf d w1) (sym same) (answer-records out pf d w1)
