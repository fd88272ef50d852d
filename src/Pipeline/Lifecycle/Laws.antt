-- ===== src/Pipeline/Lifecycle/Laws.antt =====
-- The rows of `ai_requests` after any number of requests.
use api_gateways.Base.{
  Bool, true, false, Option, none, some, List, [], ◌∷◌, ◌++◌, if◌then◌else◌, inl, inr, refl,
  Bool-cases, Text, ltb,
}
use api_gateways.Errors.{Result, ok, err}
use api_gateways.Guard.{Redaction, redact}
use api_gateways.Pipeline.World.{
  World, update_ai_request_status, create_security_event, create_usage_log,
}
use api_gateways.Pipeline.Outside.{Services, Outside}
use api_gateways.Pipeline.Preflight.{PreFlightResult, run_pre_flight}
use api_gateways.Pipeline.Provider.{Chunk, StreamEnd, exhausted, broken, Usage}
use api_gateways.Pipeline.Stream.{
  Streaming, on_token, mark_streaming, record_usage, flush, log_redaction, on_done, on_end, consume,
  event_stream, Frame, is_empty,
}
use api_gateways.Pipeline.Submit.{Answers, open_stream, streamed, submit_stream}
use api_gateways.Pipeline.Reply.{
  ProviderData, provider_failed, charge, guard_output, redact_found, str_of, answer, finish,
  submit_json,
}
use api_gateways.Pipeline.Lifecycle.{Step, stream, json, Reach, here, next}
use api_gateways.Pipeline.Lifecycle.Keeps.{Keeps, bind-Keeps}
use api_gateways.Pipeline.Lifecycle.Checks.{run_pre_flight-Keeps}
use api_gateways.Pipeline.Lifecycle.Rows.{AreRows, opened, closed}

-- The streaming handler opens and closes the row of its request.
module _ (svc : Services) (out : Outside) (pf : PreFlightResult) where
  mark_streaming-AreRows :
      (first : Bool) (w : World) → AreRows w → AreRows (mark_streaming svc out pf first w)
  mark_streaming-AreRows false w h = h
  mark_streaming-AreRows true w h = opened pf.request_id "streaming" none w refl h

  on_token-AreRows :
      (st : Streaming) (t : Text) → AreRows st.world → AreRows (on_token svc out pf st t).world
  unfolding on_token
  on_token-AreRows st t h = mark_streaming-AreRows st.first_token st.world h

  record_usage-AreRows :
      (u : Option Usage) (w : World) → AreRows w → AreRows (record_usage svc out pf u w)
  unfolding record_usage create_usage_log
  record_usage-AreRows none w h = h
  record_usage-AreRows (some u) w h = h

  log_redaction-AreRows :
      (r : Redaction) (w : World) → AreRows w → AreRows (log_redaction svc out pf r w)
  unfolding create_security_event
  log_redaction-AreRows r w h = elim (Bool-cases (ltb 0 r.redaction_count)) [
    | inl some_found ↦ rw some_found h
    | inr none_found ↦ rw none_found h
  ]

  flush-AreRows :
      (s : Text) (fs : List Frame) (w : World) → AreRows w → AreRows (flush svc out pf s fs w).1
  unfolding flush
  flush-AreRows [] fs w h = h
  flush-AreRows (c ∷ cs) fs w h = log_redaction-AreRows (redact (c ∷ cs)) w h

  on_done-AreRows :
      (st : Streaming) (c : Chunk) → AreRows st.world → AreRows (on_done svc out pf st c).0
  unfolding on_done
  on_done-AreRows st c h =
      let w1 = record_usage svc out pf c.usage st.world in
      closed pf.request_id "completed" out.now none
        (flush svc out pf (st.carry_buffer ++ c.token) st.frames w1).1 refl
        (flush-AreRows (st.carry_buffer ++ c.token) st.frames w1
          (record_usage-AreRows c.usage st.world h))

  on_end-AreRows :
      (stop : StreamEnd) (st : Streaming) → AreRows st.world → AreRows (on_end svc out pf stop st).0
  unfolding on_end
  on_end-AreRows exhausted st h = h
  on_end-AreRows (broken m) st h = closed pf.request_id "failed" out.now (some m) st.world refl h

  passed-AreRows :
      (empty : Bool) (st : Streaming) (t : Text)
      → AreRows st.world
      → AreRows (if empty then st else on_token svc out pf st t).world
  passed-AreRows true st t h = h
  passed-AreRows false st t h = on_token-AreRows st t h

  consume-AreRows :
      (cs : List Chunk) (stop : StreamEnd) (st : Streaming)
      → AreRows st.world
      → AreRows (consume svc out pf cs stop st).0
  unfolding consume
  consume-AreRows [] stop st h = on_end-AreRows stop st h
  consume-AreRows (c ∷ cs) stop st h = elim (Bool-cases c.done) [
    | inl last ↦ rw last (on_done-AreRows st c h)
    | inr more ↦
        rw more (consume-AreRows cs stop _ (passed-AreRows (is_empty c.token) st c.token h))
  ]

  streamed-Keeps : (answers : Answers) → Keeps AreRows (streamed svc out answers pf)
  unfolding event_stream
  streamed-Keeps answers w h =
      let s = open_stream answers pf.service in consume-AreRows s.chunks s.stop _ h

-- The handler of a whole reply closes the row of its request.
module _ (out : Outside) (pf : PreFlightResult) where
  redact_found-Keeps : (d : ProviderData) (r : Redaction) → Keeps AreRows (redact_found out pf d r)
  unfolding create_security_event
  redact_found-Keeps d r w h = elim (Bool-cases (ltb 0 r.redaction_count)) [
    | inl some_found ↦ rw some_found h
    | inr none_found ↦ rw none_found h
  ]

  guard_output-Keeps :
      (d : ProviderData) (m : Option Text) → Keeps AreRows (guard_output out pf d m)
  unfolding guard_output
  guard_output-Keeps d none w h = h
  guard_output-Keeps d (some []) w h = h
  guard_output-Keeps d (some (c ∷ cs)) w h = redact_found-Keeps d (redact (c ∷ cs)) w h

  completed-AreRows :
      (u : Option Usage) (w : World)
      → AreRows w
      → AreRows (
          update_ai_request_status pf.request_id "completed"
            (some out.now)
            none
            (charge out pf u w))
  unfolding charge create_usage_log
  completed-AreRows u w h = closed pf.request_id "completed" out.now none (charge out pf u w) refl h

  finish-Keeps : (p : Result ProviderData) → Keeps AreRows (finish out pf p)
  unfolding finish answer provider_failed
  finish-Keeps (ok d) w h =
      bind-Keeps AreRows (guard_output out pf d d.message) _ (guard_output-Keeps d d.message)
        (λ g v k. k) _ (completed-AreRows d.usage w h)
  finish-Keeps (err e) w h = closed pf.request_id "failed" out.now (some (str_of e)) w refl h

Step-AreRows : (v w : World) → Step v w → AreRows v → AreRows w
unfolding submit_stream submit_json
Step-AreRows v w (stream _ svc out answers user body) h =
    bind-Keeps AreRows (run_pre_flight svc out user body) (streamed svc out answers)
      (run_pre_flight-Keeps svc out user body) (λ pf. streamed-Keeps svc out pf answers) v h
Step-AreRows v w (json _ svc out provider user body) h =
    bind-Keeps AreRows (run_pre_flight svc out user body) (λ pf. finish out pf (provider pf))
      (run_pre_flight-Keeps svc out user body) (λ pf. finish-Keeps out pf (provider pf)) v h

-- From a table in which every row is open, as "received" or "streaming", or closed, as "blocked", "completed" or "failed" with the time at which it was closed, any number of requests, each served by one of the two handlers with whatever settings, outside answers and outcome, leaves a table of which this holds again. No request is left in another state, and none is closed without its time.
pub Reach-AreRows : (v w : World) → Reach v w → AreRows v → AreRows w
Reach-AreRows v w here h = h
Reach-AreRows v w (next {u} r s) h = Step-AreRows u w s (Reach-AreRows v u r h)
