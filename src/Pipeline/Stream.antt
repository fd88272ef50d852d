-- ===== src/Pipeline/Stream.antt =====
-- fastapi_backend/app/services/ai_request_service.py: `submit_stream` and the events that a client receives
-- when it reads them all. Of the exceptions, only those of the provider are raised here.
pub mod Laws
use api_gateways.Base.{
  ℕ, String, Bool, true, false, not, Option, none, some, List, [], ◌∷◌, ◌++◌, ◌+◌, ◌&&◌, ltb,
  str_eq, if◌then◌else◌, Text,
}
use api_gateways.Guard.{Redaction, redact, redact_stream_chunk}
use api_gateways.Quota.{QuotaStatus, increment_usage, get_quota_status}
use api_gateways.Pipeline.World.{
  World, SecurityEvent, update_ai_request_status, create_security_event, create_usage_log,
}
use api_gateways.Pipeline.Outside.{Services, Outside}
use api_gateways.Pipeline.Preflight.{PreFlightResult}
use api_gateways.Pipeline.Provider.{Usage, Chunk, StreamEnd, exhausted, broken, ProviderStream}

-- An SSE event: text, the last one with what is known of the request, or the error that ended the stream.
pub data Frame : Type 0 where
  token_frame : Text → Frame
  done_frame : PreFlightResult → Option Usage → QuotaStatus → Frame
  error_frame : String → Frame

abbrev pub is_empty : Text → Bool
is_empty [] = true
is_empty (c ∷ cs) = false

-- The local variables of `_event_stream`, the events so far and the tables.
pub record Streaming : Type 0 where
  pub world : World
  pub frames : List Frame
  pub carry_buffer : Text
  pub first_token : Bool

-- The event of a redaction.
abbrev pub redaction_event : PreFlightResult → Redaction → SecurityEvent
redaction_event pf r = record {
  event_type = "pii_redaction";
  tenant_id = pf.tenant_id;
  request_id = pf.request_id;
  prompt_hash = none;
  matched_patterns = none;
  score = none;
  decision = "redacted";
  redacted_types = types_of r.redacted_types;
  redaction_count = r.redaction_count;
}
  where
    types_of : List String → Option (List String)
    types_of [] = none
    types_of (t ∷ ts) = some (t ∷ ts)

module _ (svc : Services) (out : Outside) (pf : PreFlightResult) where
  abbrev pub emit : Frame → List Frame → List Frame
  emit f fs = fs ++ f ∷ []

  abbrev pub emit_text : Text → List Frame → List Frame
  emit_text s fs = if is_empty s then fs else emit (token_frame s) fs

  -- The status of the first token.
  abbrev pub mark_streaming : Bool → World → World
  mark_streaming first w =
      if first then update_ai_request_status pf.request_id "streaming" none none w else w

  -- `if token and not done`
  unfoldable pub on_token : Streaming → Text → Streaming
  unfolding redact_stream_chunk update_ai_request_status
  on_token st token =
      let (safe_text, carry_buffer) = redact_stream_chunk token st.carry_buffer in
      record {
        world = mark_streaming st.first_token st.world;
        frames = emit_text safe_text st.frames;
        carry_buffer = carry_buffer;
        first_token = false;
      }

  -- The usage row and the quota counter.
  unfoldable pub record_usage : Option Usage → World → World
  unfolding create_usage_log increment_usage
  record_usage none w = w
  record_usage (some u) w =
      let w1 =
        create_usage_log pf.request_id pf.tenant_id pf.resolved_service_id pf.service.model_name
          u.prompt_eval_count u.eval_count w in
      record w1 {
        redis =
            increment_usage out.date_of out.now pf.tenant_id (u.prompt_eval_count + u.eval_count)
              w1.redis;
      }

  abbrev pub log_redaction : Redaction → World → World
  log_redaction r w =
      if ltb 0 r.redaction_count then create_security_event (redaction_event pf r) w else w

  -- The carry buffer goes out with the last token, redacted.
  unfoldable pub flush : Text → List Frame → World → List Frame × World
  unfolding redact create_security_event
  flush final_token fs w = if is_empty final_token then (fs, w) else (
    emit (token_frame (redact final_token).result_text) fs,
    log_redaction (redact final_token) w,
  )

  -- `if done`
  unfoldable pub on_done : Streaming → Chunk → World × List Frame
  unfolding record_usage get_quota_status flush update_ai_request_status
  on_done st chunk =
      let w1 = record_usage chunk.usage st.world in
      let quota = get_quota_status out.date_of svc.quota out.now pf.tenant_id w1.redis in
      let (fs, w2) = flush (st.carry_buffer ++ chunk.token) st.frames w1 in
      (
        update_ai_request_status pf.request_id "completed" (some out.now) none w2,
        emit (done_frame pf chunk.usage quota) fs,
      )

  -- The `except` clause: the client gets the error and the row the status.
  unfoldable pub on_end : StreamEnd → Streaming → World × List Frame
  unfolding update_ai_request_status
  on_end exhausted st = (st.world, st.frames)
  on_end (broken m) st = (
    update_ai_request_status pf.request_id "failed" (some out.now) (some m) st.world,
    emit (error_frame m) st.frames,
  )

  -- `async for chunk in stream_iter`
  unfoldable pub consume : List Chunk → StreamEnd → Streaming → World × List Frame
  unfolding on_token on_done on_end
  consume [] stop st = on_end stop st
  consume (c ∷ cs) stop st =
      let rest = consume cs stop (if is_empty c.token then st else on_token st c.token) in
      if c.done then on_done st c else rest

  -- `_event_stream`, after the first, empty event
  unfoldable pub event_stream : ProviderStream → World → World × List Frame
  unfolding consume
  event_stream stream w =
      consume stream.chunks stream.stop
        (record { world = w; frames = token_frame [] ∷ []; carry_buffer = []; first_token = true })
