-- ===== src/Tests/Stream.antt =====
-- Answers of a provider, on the concrete request.
use api_gateways.Base.{true, Option, none, some, [], ◌∷◌, ◌≡◌, refl, codes}
use api_gateways.Errors.{Result, ok}
use api_gateways.Guard.{redact}
use api_gateways.Quota.{QuotaStatus}
use api_gateways.Pipeline.Preflight.{PreFlightResult, run_pre_flight}
use api_gateways.Pipeline.Provider.{
  Usage, ProviderStream, exhausted, broken, plain_chunk, last_chunk, no_connection,
}
use api_gateways.Pipeline.Stream.{done_frame, error_frame, event_stream}
use api_gateways.Pipeline.Stream.Laws.{
  texts, Clean, Ending, event_stream-texts, event_stream-completes, event_stream-fails,
}
use api_gateways.Pipeline.Reply.{ProviderData, submit_json}
use api_gateways.Pipeline.Reply.Laws.{Charged, submit_json-charges}
use api_gateways.Base.Json.{null}
use api_gateways.Tests.Data.{services, outside, user, asking, world, checked}
use api_gateways.Pipeline.Submit.{Answers}
use api_gateways.Tests.Pipeline.{passed}

abbrev greeting : ProviderStream
greeting = record {
  chunks =
      plain_chunk (codes "Hello, ")
      ∷ plain_chunk (codes "how can I help you today?")
      ∷ last_chunk
      ∷ [];
  stop = exhausted;
}

greeting-Clean : Clean [] greeting.chunks
unfolding redact api_gateways.Regex.finditer api_gateways.Guard.redact_stream_chunk
greeting-Clean = (refl, (refl, (refl, tt)))

event_stream-texts_example :
    texts (event_stream services outside checked greeting world).1
    ≡ codes "Hello, how can I help you today?"
event_stream-texts_example =
    event_stream-texts services outside checked greeting world refl greeting-Clean

event_stream-completes_example :
    (u : Option Usage) × (q : QuotaStatus) × Ending services outside checked
      (event_stream services outside checked greeting world)
      "completed"
      (done_frame checked u q)
event_stream-completes_example = event_stream-completes services outside checked greeting world refl

abbrev cut_off : ProviderStream
cut_off = record { chunks = plain_chunk (codes "Hel") ∷ []; stop = broken "timeout" }

event_stream-fails_example :
    Ending services outside checked
      (event_stream services outside checked cut_off world)
      "failed"
      (error_frame "timeout")
event_stream-fails_example =
    event_stream-fails services outside checked cut_off world "timeout" refl refl

abbrev answer_data : ProviderData
answer_data = record {
  message = none;
  usage = some (record { prompt_eval_count = 12; eval_count = 30 });
  response = some null;
}

abbrev provider : PreFlightResult → Result ProviderData
provider pf = ok answer_data

submit_json-charges_example :
    Charged services outside provider user
      (asking "hi")
      world
      checked
      answer_data
      (run_pre_flight services outside user (asking "hi") world).0
      (submit_json services outside provider user (asking "hi") world)
submit_json-charges_example =
    submit_json-charges services outside provider user (asking "hi") world checked answer_data
      passed refl

abbrev answers : Answers
answers = record {
  status_error = λ n. "Gemini provider returned HTTP";
  gemini = no_connection "unused";
  ollama_lines =
      some (record {
        content = some (codes "Hi");
        done = true;
        prompt_eval_count = some 3;
        eval_count = some 1;
      })
      ∷ [];
  ollama_end = exhausted;
}
