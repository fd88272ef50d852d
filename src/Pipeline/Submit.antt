-- ===== src/Pipeline/Submit.antt =====
-- fastapi_backend/app/services/ai_request_service.py: `submit_stream` as a whole, with the provider that it calls.
use api_gateways.Base.{ℕ, String, Bool, false, Option, none, some, List, ◌≡◌, str_eq, if◌then◌else◌}
use api_gateways.Errors.{ok}
use api_gateways.Request.Schema.{AiRequest}
use api_gateways.Pipeline.World.{World, AiService}
use api_gateways.Pipeline.Outside.{Services, Outside}
use api_gateways.Pipeline.Exec.{Exec, ◌>>=◌, bind-ok}
use api_gateways.Pipeline.Preflight.{User, PreFlightResult, run_pre_flight}
use api_gateways.Pipeline.Preflight.Gate.{Granted, run_pre_flight-gates}
use api_gateways.Pipeline.Provider.{
  StreamEnd, ProviderStream, GeminiReply, OllamaLine, call_gemini_stream, ollama_stream,
}
use api_gateways.Pipeline.Stream.{Frame, event_stream}

-- What the two kinds of providers would answer, and the text of a Gemini status error.
pub record Answers : Type 0 where
  pub status_error : ℕ → String
  pub gemini : GeminiReply
  pub ollama_lines : List (Option OllamaLine)
  pub ollama_end : StreamEnd

abbrev is_gemini : Option String → Bool
is_gemini none = false
is_gemini (some t) = str_eq t "gemini"

-- The iterator that `_event_stream` goes through, by the type of the provider.
unfoldable pub open_stream : Answers → AiService → ProviderStream
unfolding call_gemini_stream ollama_stream
open_stream answers service =
    if is_gemini service.provider_type
    then call_gemini_stream answers.status_error answers.gemini
    else ollama_stream answers.ollama_lines answers.ollama_end

abbrev pub streamed : Services → Outside → Answers → PreFlightResult → Exec (List Frame)
streamed svc out answers pf w =
    let (v, frames) = event_stream svc out pf (open_stream answers pf.service) w in (v, ok frames)

-- `submit_stream`, with the events of a client that reads them all
unfoldable pub submit_stream : Services → Outside → Answers → User → AiRequest → Exec (List Frame)
unfolding run_pre_flight event_stream open_stream
submit_stream svc out answers user body = do
  pf ← run_pre_flight svc out user body
  streamed svc out answers pf

-- A client receives events of a request, and a provider is called for it, only if the request came through every check: the permission, the quota, the service, the policies and the input shield.
pub submit_stream-Granted :
    (svc : Services) (out : Outside) (answers : Answers) (user : User) (body : AiRequest)
    (w : World) (frames : List Frame)
    → (submit_stream svc out answers user body w).1 ≡ ok frames
    → (pf : PreFlightResult) × Granted svc out user body w pf
unfolding submit_stream
submit_stream-Granted svc out answers user body w frames e =
    let (pf, checked, sent) =
      bind-ok (run_pre_flight svc out user body) (streamed svc out answers) w frames e in
    (pf, run_pre_flight-gates svc out user body w pf checked)
