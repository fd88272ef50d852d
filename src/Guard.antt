-- ===== src/Guard.antt =====
-- fastapi_backend/app/services/output_guard_service.py: personal data in the model's output is replaced
-- by placeholders, in a whole text or chunk by chunk with a carry-over.
pub mod Patterns
pub mod Splice
pub mod Chunks
use api_gateways.Base.{
  ℕ, zero, suc, ◌+◌, ◌-◌, String, Bool, true, false, not, Option, none, some, List, [], ◌∷◌, ◌++◌,
  length, take, drop, filter, contains, sorted, Text, codes, is_digit, ltb, if◌then◌else◌,
}
use mathlib.Core.List.{reverse}
use api_gateways.Regex.{Regex, Span, finditer}
use api_gateways.Inspector.{group}
use api_gateways.Inspector.Luhn.{luhn_check}
use Patterns.{
  email_pattern, phone_us_pattern, phone_intl_pattern, ssn_pattern, cc_pattern, iban_pattern,
  po_box_pattern, street_pattern, formal_name_pattern,
}

-- A rule: pattern, label, validator.
pub record Rule : Type 0 where
  pub pattern : Regex
  pub type_label : String
  pub validator : Option (Text → Bool)

-- A rule without a validator, and the one with the Luhn test.
abbrev plain : Regex → String → Rule
plain r l = record { pattern = r; type_label = l; validator = none }

unfoldable pub passes_luhn : Text → Bool
passes_luhn m = luhn_check (filter is_digit m)

-- `_OUTPUT_PII_RULES`
unfoldable pub output_pii_rules : List Rule
unfolding passes_luhn
output_pii_rules =
    plain ssn_pattern "SSN"
    ∷ plain email_pattern "EMAIL"
    ∷ plain phone_us_pattern "PHONE"
    ∷ plain phone_intl_pattern "PHONE"
    ∷ plain po_box_pattern "ADDRESS"
    ∷ plain street_pattern "ADDRESS"
    ∷ plain formal_name_pattern "NAME"
    ∷ plain iban_pattern "IBAN"
    ∷ record { pattern = cc_pattern; type_label = "CREDIT_CARD"; validator = some passes_luhn }
    ∷ []

-- `f"[REDACTED:{type_label}]"`
abbrev pub placeholder : String → Text
placeholder type_label = codes "[REDACTED:" ++ codes type_label ++ codes "]"

-- The variables of `redact`.
pub record Redaction : Type 0 where
  pub result_text : Text
  pub redaction_count : ℕ
  pub redacted_types : List String

abbrev validates : Option (Text → Bool) → Text → Bool
validates none m = true
validates (some validator) m = validator m

-- One turn of the inner loop, on the match `m` in the text `original` that was searched.
unfoldable pub redact_match : Rule → Text → Redaction → Span → Redaction
unfolding group
redact_match rule original r m =
    if validates rule.validator (group original m)
    then record {
      result_text =
          take m.start r.result_text ++ placeholder rule.type_label ++ drop m.stop r.result_text;
      redaction_count = r.redaction_count + 1;
      redacted_types =
          if contains rule.type_label r.redacted_types
          then r.redacted_types
          else r.redacted_types ++ rule.type_label ∷ [];
    }
    else r

unfoldable pub redact_matches : Rule → Text → Redaction → List Span → Redaction
unfolding redact_match
redact_matches rule original r [] = r
redact_matches rule original r (m ∷ ms) =
    redact_matches rule original (redact_match rule original r m) ms

-- The body of the outer loop: the matches from the last to the first.
unfoldable pub apply_rule : Redaction → Rule → Redaction
unfolding redact_matches
apply_rule r rule =
    redact_matches rule r.result_text r (reverse (finditer rule.pattern r.result_text))

unfoldable pub apply_rules : Redaction → List Rule → Redaction
unfolding apply_rule
apply_rules r [] = r
apply_rules r (rule ∷ rules) = apply_rules (apply_rule r rule) rules

-- `redact`
unfoldable pub redact : Text → Redaction
unfolding apply_rules output_pii_rules
redact s =
    let r =
      apply_rules (record { result_text = s; redaction_count = 0; redacted_types = [] })
        output_pii_rules in
    record r { redacted_types = sorted r.redacted_types }

abbrev pub carry_size : ℕ
carry_size = 30

-- `redacted[:-CARRY_SIZE]` and `redacted[-CARRY_SIZE:]`, if the text is longer than that
unfoldable pub split_carry : Text → Text × Text
split_carry redacted =
    if ltb carry_size (length redacted)
    then (
      take (length redacted - carry_size) redacted,
      drop (length redacted - carry_size) redacted,
    )
    else ([], redacted)

-- `redact_stream_chunk`: what is safe to send, and the new carry-over
unfoldable pub redact_stream_chunk : Text → Text → Text × Text
unfolding redact split_carry
redact_stream_chunk chunk carry_buffer = split_carry (redact (carry_buffer ++ chunk)).result_text
