-- ===== src/Pipeline/Provider.antt =====
-- fastapi_backend/app/services/ai_request_service.py `_call_gemini_json` and `_call_gemini_stream`, and
-- infrastructure/ai_provider/ollama_client.py `chat`: what the providers hand to the pipeline.
-- The HTTP exchange and the text found in its body are arguments.
use api_gateways.Base.{
  ℕ, zero, suc, ◌≤◌, String, Bool, true, false, Option, none, some, List, [], ◌∷◌, ◌++◌, ◌≡◌, refl,
  ap, ◌∙◌, Text, take, drop, length, length-drop, take-append-drop, ◌==◌, if◌then◌else◌, arith,
}
use api_gateways.Errors.{provider_error, Exception, domain, other, Result, ok, err}

-- A `usage` dict with an entry; the empty one and `None` are `none`.
pub record Usage : Type 0 where
  pub prompt_eval_count : ℕ
  pub eval_count : ℕ

pub record Chunk : Type 0 where
  pub token : Text
  pub done : Bool
  pub usage : Option Usage

-- How an iterator stops: by itself, or with an exception of this message.
pub data StreamEnd : Type 0 where
  exhausted : StreamEnd
  broken : String → StreamEnd

pub record ProviderStream : Type 0 where
  pub chunks : List Chunk
  pub stop : StreamEnd

-- The answer of the Gemini endpoint: its status and the text found in the body.
pub data GeminiReply : Type 0 where
  no_connection : String → GeminiReply
  responded : ℕ → Text → GeminiReply

-- `_call_gemini_json`: the content of the message
unfoldable pub call_gemini_json : (ℕ → String) → GeminiReply → Result Text
call_gemini_json status_error (no_connection m) = err (other m)
call_gemini_json status_error (responded status body) =
    if status == 200 then non_empty body else err (domain (provider_error (status_error status)))
  where
    non_empty : Text → Result Text
    non_empty [] =
        err (domain (provider_error "Gemini provider returned empty/unsupported response format"))
    non_empty (c ∷ cs) = ok (c ∷ cs)

abbrev pub plain_chunk : Text → Chunk
plain_chunk t = record { token = t; done = false; usage = none }

abbrev pub last_chunk : Chunk
last_chunk = record { token = []; done = true; usage = none }

-- `for i in range(0, len(text), chunk_size)`, on fuel for the number of slices
unfoldable pub slices : ℕ → Text → List Chunk
slices zero s = []
slices (suc fuel) [] = []
slices (suc fuel) (c ∷ cs) = plain_chunk (take 48 (c ∷ cs)) ∷ slices fuel (drop 48 (c ∷ cs))

abbrev message_of : Exception → String
message_of (other m) = m
message_of (domain (provider_error m)) = m
message_of (domain e) = ""

-- `_call_gemini_stream`; a text has at most as many slices as characters.
unfoldable pub call_gemini_stream : (ℕ → String) → GeminiReply → ProviderStream
unfolding call_gemini_json slices
call_gemini_stream status_error reply = stream_of (call_gemini_json status_error reply)
  where
    stream_of : Result Text → ProviderStream
    stream_of (ok s) = record { chunks = slices (length s) s ++ last_chunk ∷ []; stop = exhausted }
    stream_of (err e) = record { chunks = []; stop = broken (message_of e) }

-- A line of the Ollama stream that parses, by the entries that are read.
pub record OllamaLine : Type 0 where
  pub content : Option Text
  pub done : Bool
  pub prompt_eval_count : Option ℕ
  pub eval_count : Option ℕ

abbrev or_zero : Option ℕ → ℕ
or_zero none = 0
or_zero (some n) = n

abbrev or_empty : Option Text → Text
or_empty none = []
or_empty (some s) = s

-- The body of the loop of `_generator`; only the last line carries the usage.
unfoldable pub ollama_chunk : OllamaLine → Chunk
ollama_chunk l = record {
  token = or_empty l.content;
  done = l.done;
  usage =
      if l.done
      then some (record {
        prompt_eval_count = or_zero l.prompt_eval_count;
        eval_count = or_zero l.eval_count;
      })
      else none;
}

-- `_generator`: blank lines and those that do not parse are passed over.
unfoldable pub ollama_stream : List (Option OllamaLine) → StreamEnd → ProviderStream
unfolding ollama_chunk
ollama_stream ls stop = record { chunks = chunks_of ls; stop = stop }
  where
    chunks_of : List (Option OllamaLine) → List Chunk
    chunks_of [] = []
    chunks_of (none ∷ ls) = chunks_of ls
    chunks_of (some l ∷ ls) = ollama_chunk l ∷ chunks_of ls

-- The tokens of some chunks, put together.
abbrev pub tokens : List Chunk → Text
tokens [] = []
tokens (c ∷ cs) = c.token ++ tokens cs

slices-tokens : (fuel : ℕ) (s : Text) → length s ≤ fuel → tokens (slices fuel s) ≡ s
unfolding slices
slices-tokens zero [] h = refl
slices-tokens zero (c ∷ cs) h = absurd (omega arith)
slices-tokens (suc fuel) [] h = refl
slices-tokens (suc fuel) (c ∷ cs) h =
    ap (λ r. take 48 (c ∷ cs) ++ r)
      (slices-tokens fuel (drop 48 (c ∷ cs)) (omega (arith, length-drop 48 (c ∷ cs))))
    ∙ take-append-drop 48 (c ∷ cs)

-- Cutting a Gemini answer into slices loses nothing: the fuel is enough, and the tokens put together are the answer.
pub gemini_stream-tokens :
    (status_error : ℕ → String) (c : ℕ) (cs : Text)
    → tokens (call_gemini_stream status_error (responded 200 (c ∷ cs))).chunks ≡ c ∷ cs
unfolding call_gemini_stream call_gemini_json
gemini_stream-tokens status_error c cs =
    tokens-append (slices (length (c ∷ cs)) (c ∷ cs))
    ∙ slices-tokens (length (c ∷ cs)) (c ∷ cs) (omega arith)
  where
    tokens-append : (xs : List Chunk) → tokens (xs ++ last_chunk ∷ []) ≡ tokens xs
    tokens-append [] = refl
    tokens-append (x ∷ xs) = ap (λ r. x.token ++ r) (tokens-append xs)
