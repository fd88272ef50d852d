-- ===== src/Pipeline/Stream/Laws.antt =====
-- fastapi_backend/app/services/ai_request_service.py: the text and the end of an event stream.
use api_gateways.Base.{
  arith, String, Bool, true, false, Option, some, List, [], ◌∷◌, ◌++◌, any, get_last?, append_assoc,
  append-nil, ◌≡◌, refl, sym, ap, subst, ◌∙◌, ◌⊎◌, inl, inr, Bool-cases, Text, str_eq,
  if◌then◌else◌,
}
use api_gateways.Guard.{redact, redact_stream_chunk}
use api_gateways.Guard.Chunks.{redact_zero, chunk_split}
use api_gateways.Quota.{QuotaStatus, get_quota_status}
use api_gateways.Pipeline.World.{World, RequestRow, update_request, update_ai_request_status}
use api_gateways.Pipeline.Outside.{Services, Outside}
use api_gateways.Pipeline.Preflight.{PreFlightResult}
use api_gateways.Pipeline.Provider.{Usage, Chunk, StreamEnd, broken, ProviderStream}
use api_gateways.Pipeline.Stream.{
  Frame, token_frame, done_frame, error_frame, is_empty, Streaming, emit, emit_text, on_token,
  flush, on_done, on_end, consume, event_stream, record_usage,
}

-- The text that the events carry, put together.
abbrev pub texts : List Frame → Text
texts [] = []
texts (token_frame s ∷ fs) = s ++ texts fs
texts (done_frame pf u q ∷ fs) = texts fs
texts (error_frame m ∷ fs) = texts fs

-- The provider's text up to the chunk that ends the stream.
abbrev pub until_done : List Chunk → Text
until_done [] = []
until_done (c ∷ cs) = if c.done then c.token else c.token ++ until_done cs

abbrev pub is_done : Chunk → Bool
is_done c = c.done

-- What is held back after a chunk.
abbrev pub carried : Text → Text → Text
carried carry token = if is_empty token then carry else (redact_stream_chunk token carry).1

-- The guard finds nothing in any of the windows that it looks at.
abbrev pub Clean : Text → List Chunk → Type 0
Clean carry [] = Unit
Clean carry (c ∷ cs) =
    ((redact (carry ++ c.token)).redaction_count ≡ 0) × Clean (carried carry c.token) cs

texts-append : (xs ys : List Frame) → texts (xs ++ ys) ≡ texts xs ++ texts ys
texts-append [] ys = refl
texts-append (token_frame s ∷ xs) ys =
    ap (λ r. s ++ r) (texts-append xs ys) ∙ sym (append_assoc s (texts xs) (texts ys))
texts-append (done_frame pf u q ∷ xs) ys = texts-append xs ys
texts-append (error_frame m ∷ xs) ys = texts-append xs ys

-- Every row of the request has the status.
abbrev pub HasStatus : String → String → List RequestRow → Type 0
HasStatus id status [] = Unit
HasStatus id status (r ∷ rs) =
    ((str_eq r.request_id id ≡ false) ⊎ (r.status ≡ status)) × HasStatus id status rs

pub update-HasStatus :
    (id status : String) (f : RequestRow → RequestRow) (rs : List RequestRow)
    → ((r : RequestRow) → (f r).status ≡ status)
    → HasStatus id status (update_request id f rs)
unfolding update_request
update-HasStatus id status f [] sets = tt
update-HasStatus id status f (r ∷ rs) sets = elim (Bool-cases (str_eq r.request_id id)) [
  | inl e ↦ rw e (inr (sets r), update-HasStatus id status f rs sets)
  | inr e ↦ rw e (inl e, update-HasStatus id status f rs sets)
]

module _ (svc : Services) (out : Outside) (pf : PreFlightResult) where
  emit_text-texts : (s : Text) (fs : List Frame) → texts (emit_text svc out pf s fs) ≡ texts fs ++ s
  emit_text-texts [] fs = sym (append-nil (texts fs))
  emit_text-texts (c ∷ cs) fs =
      texts-append fs (token_frame (c ∷ cs) ∷ []) ∙ ap (λ r. texts fs ++ r) (append-nil (c ∷ cs))

  on_token-texts :
      (st : Streaming) (token : Text)
      → (redact (st.carry_buffer ++ token)).redaction_count ≡ 0
      → texts (on_token svc out pf st token).frames ++ (on_token svc out pf st token).carry_buffer
        ≡ texts st.frames ++ st.carry_buffer ++ token
  unfolding on_token
  on_token-texts st token clean =
      let (safe, carry) = redact_stream_chunk token st.carry_buffer in
      ap (λ l. l ++ carry) (emit_text-texts safe st.frames)
      ∙ append_assoc (texts st.frames) safe carry
      ∙ ap (λ l. texts st.frames ++ l)
          ((chunk_split token st.carry_buffer).0 ∙ (redact_zero (st.carry_buffer ++ token) clean).0)
      ∙ sym (append_assoc (texts st.frames) st.carry_buffer token)

  flush-texts :
      (s : Text) (fs : List Frame) (w : World)
      → (redact s).redaction_count ≡ 0
      → texts (flush svc out pf s fs w).0 ≡ texts fs ++ s
  unfolding flush
  flush-texts [] fs w clean = sym (append-nil (texts fs))
  flush-texts (c ∷ cs) fs w clean =
      texts-append fs (token_frame (redact (c ∷ cs)).result_text ∷ [])
      ∙ ap (λ r. texts fs ++ r)
          (append-nil (redact (c ∷ cs)).result_text ∙ (redact_zero (c ∷ cs) clean).0)

  on_done-texts :
      (st : Streaming) (c : Chunk)
      → (redact (st.carry_buffer ++ c.token)).redaction_count ≡ 0
      → texts (on_done svc out pf st c).1 ≡ texts st.frames ++ st.carry_buffer ++ c.token
  unfolding on_done
  on_done-texts st c clean =
      let w1 = record_usage svc out pf c.usage st.world in
      texts-append (flush svc out pf (st.carry_buffer ++ c.token) st.frames w1).0
        (done_frame pf c.usage _ ∷ [])
      ∙ append-nil _
      ∙ flush-texts (st.carry_buffer ++ c.token) st.frames w1 clean
      ∙ sym (append_assoc (texts st.frames) st.carry_buffer c.token)

  abbrev step : Streaming → Text → Streaming
  step st token = if is_empty token then st else on_token svc out pf st token

  step-carry :
      (st : Streaming) (token : Text) → (step st token).carry_buffer ≡ carried st.carry_buffer token
  unfolding on_token
  step-carry st [] = refl
  step-carry st (c ∷ cs) = refl

  step-texts :
      (st : Streaming) (token : Text)
      → (redact (st.carry_buffer ++ token)).redaction_count ≡ 0
      → texts (step st token).frames ++ (step st token).carry_buffer
        ≡ texts st.frames ++ st.carry_buffer ++ token
  step-texts st [] clean = sym (append-nil (texts st.frames ++ st.carry_buffer))
  step-texts st (c ∷ cs) clean = on_token-texts st (c ∷ cs) clean

  consume-texts :
      (cs : List Chunk) (stop : StreamEnd) (st : Streaming)
      → any is_done cs ≡ true
      → Clean st.carry_buffer cs
      → texts (consume svc out pf cs stop st).1
        ≡ texts st.frames ++ st.carry_buffer ++ until_done cs
  unfolding consume
  consume-texts [] stop st finishes clean = absurd (ground arith)
  consume-texts (c ∷ cs) stop st finishes (clean, later) = elim (Bool-cases c.done) [
    | inl e ↦ rw e (on_done-texts st c clean)
    | inr e ↦ rw e (
        consume-texts cs stop (step st c.token) (ground (arith, e, finishes))
          (subst (λ b. Clean b cs) (sym (step-carry st c.token)) later)
        ∙ ap (λ l. l ++ until_done cs) (step-texts st c.token clean)
        ∙ append_assoc (texts st.frames ++ st.carry_buffer) c.token (until_done cs))
  ]

  -- When the guard finds nothing in any window of a stream that comes to its last chunk, the client receives the provider's text unchanged: no token is lost, repeated or moved by the carry buffer, and what follows the last chunk is not sent.
  pub event_stream-texts :
      (stream : ProviderStream) (w : World)
      → any is_done stream.chunks ≡ true
      → Clean [] stream.chunks
      → texts (event_stream svc out pf stream w).1 ≡ until_done stream.chunks
  unfolding event_stream
  event_stream-texts stream w finishes clean =
      consume-texts stream.chunks stream.stop
        (record { world = w; frames = token_frame [] ∷ []; carry_buffer = []; first_token = true })
        finishes clean

  last-emit : (fs : List Frame) (f : Frame) → get_last? (emit svc out pf f fs) ≡ some f
  last-emit [] f = refl
  last-emit (x ∷ []) f = refl
  last-emit (x ∷ y ∷ fs) f = last-emit (y ∷ fs) f

  -- How a stream that the client reads to its end comes out.
  abbrev pub Ending : World × List Frame → String → Frame → Type 0
  Ending r status f = HasStatus pf.request_id status r.0.requests × (get_last? r.1 ≡ some f)

  Completes : World × List Frame → Type 0
  Completes r = (u : Option Usage) × (q : QuotaStatus) × Ending r "completed" (done_frame pf u q)

  on_done-Ending : (st : Streaming) (c : Chunk) → Completes (on_done svc out pf st c)
  unfolding on_done Completes update_ai_request_status
  on_done-Ending st c =
      let w1 = record_usage svc out pf c.usage st.world in
      let quota = get_quota_status out.date_of svc.quota out.now pf.tenant_id w1.redis in
      let fs = (flush svc out pf (st.carry_buffer ++ c.token) st.frames w1).0 in
      (
        c.usage,
        quota,
        (
          update-HasStatus pf.request_id "completed" _ _ (λ r. refl),
          last-emit fs (done_frame pf c.usage quota),
        ),
      )

  consume-done :
      (cs : List Chunk) (stop : StreamEnd) (st : Streaming)
      → any is_done cs ≡ true
      → Completes (consume svc out pf cs stop st)
  unfolding consume
  consume-done [] stop st h = absurd (ground arith)
  consume-done (c ∷ cs) stop st h = elim (Bool-cases c.done) [
    | inl e ↦ rw e (on_done-Ending st c)
    | inr e ↦ rw e (consume-done cs stop (step st c.token) (ground (arith, e, h)))
  ]

  consume-broken :
      (cs : List Chunk) (m : String) (st : Streaming)
      → any is_done cs ≡ false
      → Ending (consume svc out pf cs (broken m) st) "failed" (error_frame m)
  unfolding consume on_end update_ai_request_status
  consume-broken [] m st h =
      (update-HasStatus pf.request_id "failed" _ _ (λ r. refl), last-emit st.frames (error_frame m))
  consume-broken (c ∷ cs) m st h =
      let e : c.done ≡ false = ground (arith, h) in
      rw e (consume-broken cs m (step st c.token) (ground (arith, e, h)))

  -- A stream that comes to a last chunk and that the client reads to its end completes the request: its row is completed and the last event carries the request's data, also if the provider sends more or fails later.
  pub event_stream-completes :
      (stream : ProviderStream) (w : World)
      → any is_done stream.chunks ≡ true
      → (u : Option Usage) × (q : QuotaStatus) × Ending
          (event_stream svc out pf stream w)
          "completed"
          (done_frame pf u q)
  unfolding event_stream Completes
  event_stream-completes stream w finishes = consume-done stream.chunks stream.stop _ finishes

  -- A stream in which the provider fails before a last chunk leaves the request failed, and the last event is the error.
  pub event_stream-fails :
      (stream : ProviderStream) (w : World) (m : String)
      → any is_done stream.chunks ≡ false
      → stream.stop ≡ broken m
      → Ending (event_stream svc out pf stream w) "failed" (error_frame m)
  unfolding event_stream
  event_stream-fails stream w m unfinished stop =
      rw stop (consume-broken stream.chunks m _ unfinished)
