-- ===== src/Classifier/Outside.antt =====
-- What intent_classifier_service/app uses and does not implement: floats, SHA-256, Redis, the JSON of
-- pydantic and of the model, and the answers of the model's server.
use api_gateways.Base.{ℕ, Bool, true, Option, some, Text, ◌≡◌, ◌⊎◌}
use api_gateways.Base.Json.{Json}
use api_gateways.Errors.{Result, ok}

-- `SourceKind`
pub data Source : Type 0 where
  cache model fallback heuristic : Source

-- `ClassifyResponse`
pub record ClassifyResponse (F : Type 0) : Type 0 where
  pub intent_label : Text
  pub confidence : F
  pub source : Source
  pub taxonomy_version : Text
  pub model_id : Text

-- `float(v)`: a `TypeError` or `ValueError`, an `OverflowError`, or a number.
pub data ToFloat (F : Type 0) : Type 0 where
  invalid overflow : ToFloat F
  number : F → ToFloat F

pub record Outside : Type 1 where
  -- `float` with its `<` and `<=`, 0.0 and 1.0
  pub Float : Type 0
  pub lt : Float → Float → Bool
  pub le : Float → Float → Bool
  pub zero_float : Float
  pub one_float : Float
  pub to_float : Json → ToFloat Float
  pub sha256_hex : Text → Text
  -- Redis: its contents, a read, which may raise, and a write with a time to live
  pub Store : Type 0
  pub fetch : Text → Store → Result (Option Text)
  pub setex : Text → ℕ → Text → Store → Store
  -- `ClassifyResponse.model_validate(json.loads(raw))` and `model_dump_json`
  pub validate : Text → Option (ClassifyResponse Float)
  pub dump : ClassifyResponse Float → Text
  -- `str(v)` and `json.loads(s)`, none for a `ValueError`
  pub render : Json → Text
  pub loads : Text → Option Json

-- What the order of floats satisfies.
pub record IsOrdered (o : Outside) : Type 0 where
  pub zero_lt_one : o.lt o.zero_float o.one_float ≡ true
  pub zero_le : o.le o.zero_float o.zero_float ≡ true
  pub one_le : o.le o.one_float o.one_float ≡ true
  pub lt_le : (a b : o.Float) → o.lt a b ≡ true → o.le a b ≡ true

-- `Field(ge=0.0, le=1.0)`
abbrev pub IsUnit : (o : Outside) → o.Float → Type 0
IsUnit o c = (o.le o.zero_float c ≡ true) × (o.le c o.one_float ≡ true)

-- The reading of a response checks the range of its confidence; one within the range is read back as it was
-- written; and a read of Redis after a write gives what was written, or what was there before.
pub record IsStore (o : Outside) : Type 0 where
  pub validate-IsUnit :
      (raw : Text) (r : ClassifyResponse o.Float) → o.validate raw ≡ some r → IsUnit o r.confidence
  pub validate_dump :
      (r : ClassifyResponse o.Float) → IsUnit o r.confidence → o.validate (o.dump r) ≡ some r
  pub fetch_setex :
      (k j : Text) (ttl : ℕ) (v raw : Text) (s : o.Store)
      → o.fetch j (o.setex k ttl v s) ≡ ok (some raw)
      → (raw ≡ v) ⊎ (o.fetch j s ≡ ok (some raw))
