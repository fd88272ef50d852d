-- ===== src/Inspector.antt =====
-- fastapi_backend/app/services/content_inspector_service.py: the personal data in the latest message
-- raises the sensitivity of a request. The entity recognizer and the environment variable are
-- arguments.
pub mod Patterns
pub mod Luhn
pub mod Iban
pub mod Laws
use api_gateways.Base.{
  ℕ, zero, suc, ◌+◌, ◌-◌, ◌≤◌, String, Bool, true, false, not, ◌&&◌, ◌||◌, Option, none, some, List,
  [], ◌∷◌, ◌++◌, map, length, take, drop, filter, get_last?, contains, sum, Dict, lookup, insert,
  sorted, Text, codes, text_in, strip, is_digit, leb, ltb, ◌==◌, if◌then◌else◌,
}
use api_gateways.Regex.{Regex, Span, finditer}
use api_gateways.Policy.Schema.{SensitivityLevel, low, medium, high}
use api_gateways.Request.Schema.{Message, Environment, dev, prod, AiRequest}
use Patterns.{
  email_pattern, phone_pattern_us, phone_pattern_e164, ssn_pattern, cc_candidate_pattern,
  iban_pattern, po_box_pattern, street_address_pattern, jwt_pattern, api_key_aws_access_pattern,
  api_key_google_pattern, api_key_github_pattern, api_key_generic_assignment_pattern,
}
use Luhn.{luhn_check}
use Iban.{iban_mod97_check}

-- `m.group(0)`
unfoldable pub group : Text → Span → Text
group s m = take (m.stop - m.start) (drop m.start s)

-- `_count_regex_matches`
unfoldable pub count_regex_matches : Regex → Text → ℕ
count_regex_matches pattern s = length (finditer pattern s)

-- The candidates that pass a test, counted.
unfoldable pub count_valid : (Text → Bool) → Text → List Span → ℕ
unfolding group
count_valid test s [] = 0
count_valid test s (m ∷ ms) =
    let rest = count_valid test s ms in if test (group s m) then suc rest else rest

-- `re.sub(r"\D", "", cand)`, and the length and Luhn tests
unfoldable pub is_credit_card : Text → Bool
is_credit_card cand =
    let digits_only = filter is_digit cand in
    leb 13 (length digits_only) && leb (length digits_only) 19 && luhn_check digits_only

unfoldable pub is_iban : Text → Bool
is_iban m = iban_mod97_check (filter (λ c. not (c == b' ')) m)

abbrev prepend : ℕ → List Text → List Text
prepend c [] = (c ∷ []) ∷ []
prepend c (t ∷ ts) = (c ∷ t) ∷ ts

-- `raw.split(",")`
unfoldable pub split_comma : Text → List Text
split_comma [] = [] ∷ []
split_comma (c ∷ s) = let parts = split_comma s in if c == b',' then [] ∷ parts else prepend c parts

abbrev pub is_empty : Text → Bool
is_empty [] = true
is_empty (c ∷ s) = false

-- `_parse_allowed_low_signal_intents`, of the value of the environment variable
unfoldable pub parse_allowed_low_signal_intents : Text → List Text
unfolding split_comma
parse_allowed_low_signal_intents raw =
    if is_empty (strip raw)
    then []
    else filter (λ part. not (is_empty part)) (map strip (split_comma (strip raw)))

abbrev spacy_high_signal_types : List String
spacy_high_signal_types = "PERSON" ∷ "PHONE" ∷ []

abbrev spacy_low_signal_types : List String
spacy_low_signal_types = "ORG" ∷ "GPE" ∷ "LOC" ∷ []

abbrev is_prod : Environment → Bool
is_prod dev = false
is_prod prod = true

-- `_resolve_spacy_labels_for_upgrade`
unfoldable pub resolve_spacy_labels : Text → String → Environment → List String
unfolding parse_allowed_low_signal_intents
resolve_spacy_labels raw intent environment =
    if is_prod environment && text_in (codes intent) (parse_allowed_low_signal_intents raw)
    then spacy_high_signal_types ++ spacy_low_signal_types
    else spacy_high_signal_types

abbrev pub count_of : Option ℕ → ℕ
count_of none = 0
count_of (some n) = n

-- `_add_detected`
unfoldable pub add_detected : Dict ℕ → String × ℕ → Dict ℕ
add_detected counts (type_name, count) =
    if leb count 0
    then counts
    else insert type_name (count_of (lookup type_name counts) + count) counts

unfoldable pub add_all : Dict ℕ → List (String × ℕ) → Dict ℕ
unfolding add_detected
add_all counts [] = counts
add_all counts (d ∷ ds) = add_all (add_detected counts d) ds

-- The model-independent detectors in their order.
unfoldable pub pattern_detections : Text → List (String × ℕ)
unfolding count_regex_matches count_valid is_credit_card is_iban
pattern_detections s =
    ("EMAIL", count_regex_matches email_pattern s)
    ∷ ("PHONE", count_regex_matches phone_pattern_us s)
    ∷ ("PHONE", count_regex_matches phone_pattern_e164 s)
    ∷ ("SSN", count_regex_matches ssn_pattern s)
    ∷ ("CREDIT_CARD", count_valid is_credit_card s (finditer cc_candidate_pattern s))
    ∷ ("IBAN", count_valid is_iban s (finditer iban_pattern s))
    ∷ ("ADDRESS", count_regex_matches po_box_pattern s)
    ∷ ("ADDRESS", count_regex_matches street_address_pattern s)
    ∷ ("JWT", count_regex_matches jwt_pattern s)
    ∷ ("API_KEY", count_regex_matches api_key_aws_access_pattern s)
    ∷ ("API_KEY", count_regex_matches api_key_google_pattern s)
    ∷ ("API_KEY", count_regex_matches api_key_github_pattern s)
    ∷ ("API_KEY", count_regex_matches api_key_generic_assignment_pattern s)
    ∷ []

-- The entities of the allowed labels, one detection each.
unfoldable pub entity_detections : List String → List String → List (String × ℕ)
entity_detections allowed [] = []
entity_detections allowed (label ∷ labels) =
    let rest = entity_detections allowed labels in
    if contains label allowed then (label, 1) ∷ rest else rest

abbrev pub keys : Dict ℕ → List String
keys = map (λ e. e.0)

abbrev pub values : Dict ℕ → List ℕ
values = map (λ e. e.1)

-- What the inspector returns: the level, the types in order, and the number of findings.
pub record Inspection : Type 0 where
  pub resolved : SensitivityLevel
  pub detected_types : List String
  pub total_count : ℕ

abbrev pub unchanged : SensitivityLevel → Inspection
unchanged l = record { resolved = l; detected_types = []; total_count = 0 }

abbrev pub conclude : SensitivityLevel → Dict ℕ → Inspection
conclude declared [] = unchanged declared
conclude declared (e ∷ es) = record {
  resolved = high;
  detected_types = sorted (keys (e ∷ es));
  total_count = sum (values (e ∷ es));
}

module _ (nlp : Text → List String) (low_signal_intents : Text) where
  unfoldable pub detections : AiRequest → Text → List (String × ℕ)
  unfolding pattern_detections entity_detections resolve_spacy_labels
  detections body s =
      pattern_detections s
      ++ entity_detections (resolve_spacy_labels low_signal_intents body.intent body.environment)
          (nlp s)

  abbrev pub inspect_text : AiRequest → Text → Inspection
  inspect_text body s =
      if is_empty (strip s)
      then unchanged body.sensitivity
      else conclude body.sensitivity (add_all [] (detections body s))

  abbrev pub inspect_last : AiRequest → Option Message → Inspection
  inspect_last body none = unchanged body.sensitivity
  inspect_last body (some last) = inspect_text body last.content

  abbrev pub inspect_declared : AiRequest → SensitivityLevel → Inspection
  inspect_declared body high = unchanged high
  inspect_declared body low = inspect_last body (get_last? body.messages)
  inspect_declared body medium = inspect_last body (get_last? body.messages)

  -- `inspect_content`
  unfoldable pub inspect_content : AiRequest → Inspection
  unfolding add_all detections
  inspect_content body = inspect_declared body body.sensitivity

  -- `resolve_sensitivity`
  unfoldable pub resolve_sensitivity : AiRequest → SensitivityLevel
  unfolding inspect_content
  resolve_sensitivity body = (inspect_content body).resolved
