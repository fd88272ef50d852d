-- ===== src/Pipeline/Lifecycle.antt =====
-- The states of a row of `ai_requests` over the requests that ai_request_service.py serves.
pub mod Keeps
pub mod Rows
pub mod Checks
pub mod Laws
use api_gateways.Request.Schema.{AiRequest}
use api_gateways.Errors.{Result}
use api_gateways.Pipeline.World.{World}
use api_gateways.Pipeline.Outside.{Services, Outside}
use api_gateways.Pipeline.Preflight.{User, PreFlightResult}
use api_gateways.Pipeline.Submit.{Answers, submit_stream}
use api_gateways.Pipeline.Reply.{ProviderData, submit_json}

-- A request is served by one of the two handlers, whatever it meets.
pub data Step : World → World → Type 0 where
  stream :
      (w : World) (svc : Services) (out : Outside) (answers : Answers) (user : User)
      (body : AiRequest)
      → Step w (submit_stream svc out answers user body w).0
  json :
      (w : World) (svc : Services) (out : Outside)
      (provider : PreFlightResult → Result ProviderData) (user : User) (body : AiRequest)
      → Step w (submit_json svc out provider user body w).0

pub data Reach (w : World) : World → Type 0 where
  here : Reach w w
  next : {u v : World} → Reach w u → Step u v → Reach w v
