-- ===== src/Policy/Schema.antt =====
-- fastapi_backend/app/schemas/policy.py and the level of schemas/ai_request.py
use api_gateways.Base.{String, Option, Text}

pub data SensitivityLevel : Type 0 where
  low medium high : SensitivityLevel

-- the `str` values of the enumeration
abbrev pub level_value : SensitivityLevel → String
level_value low = "LOW"
level_value medium = "MEDIUM"
level_value high = "HIGH"

pub data PolicyEffect : Type 0 where
  allow_onprem_only deny_cloud allow_all deny_all : PolicyEffect

abbrev pub effect_value : PolicyEffect → String
effect_value allow_onprem_only = "allow_onprem_only"
effect_value deny_cloud = "deny_cloud"
effect_value allow_all = "allow_all"
effect_value deny_all = "deny_all"

pub record PolicyCondition : Type 0 where
  pub sensitivity : Option SensitivityLevel
  pub tenant : Option String

pub record Policy : Type 0 where
  pub id : String
  pub description : Option String
  pub condition : PolicyCondition
  pub effect : PolicyEffect

pub data Decision : Type 0 where
  allow deny : Decision

pub record EvaluationResult : Type 0 where
  pub policy_id : String
  pub effect : PolicyEffect
  pub decision : Decision
  pub description : Option String

-- What a caller passes: a level or a plain text, and the free-form type of the service.
pub data SensitivityValue : Type 0 where
  level : SensitivityLevel → SensitivityValue
  text : String → SensitivityValue

pub record Context : Type 0 where
  pub sensitivity : Option SensitivityValue
  pub tenant : Option String
  pub service_type : Option Text

-- The context after `_canonicalize_context`.
pub record CanonicalContext : Type 0 where
  pub sensitivity : Option String
  pub tenant : Option String
  pub service_type : Text
