-- ===== src/Request/Schema.antt =====
-- fastapi_backend/app/schemas/ai_request.py, after validation.
use api_gateways.Base.{String, List, Text}
use api_gateways.Policy.Schema.{SensitivityLevel}

pub record Message : Type 0 where
  pub role : String
  pub content : Text

-- `Literal["dev", "prod"]`
pub data Environment : Type 0 where
  dev prod : Environment

pub record AiRequest : Type 0 where
  pub intent : String
  pub messages : List Message
  pub sensitivity : SensitivityLevel
  pub environment : Environment
