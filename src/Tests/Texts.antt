-- ===== src/Tests/Texts.antt =====
-- The detectors of personal data and the output guard on concrete texts.
use api_gateways.Base.{
  arith, String, true, false, none, some, List, [], ◌∷◌, ◌++◌, ◌%◌, ◌≡◌, ◌≤◌, ◌↔◌, ◌⊎◌, refl, codes,
  Text, length, any, contains, sum, take, drop, if◌then◌else◌, ◌==◌, ◌≢◌, strip,
}
use api_gateways.Regex.{finditer}
use api_gateways.Policy.Schema.{low, high}
use api_gateways.Inspector.{is_empty, inspect_content, detections}
use api_gateways.Inspector.Laws.{found, counts, inspect_report}
use api_gateways.Inspector.Luhn.{luhn_check, luhn_detects_digit}
use api_gateways.Inspector.Iban.{int, convert_all, normalize_iban, iban_mod97_check, iban_check_iff}
use api_gateways.Guard.{
  Rule, Redaction, placeholder, apply_rule, redact, redact_stream_chunk, carry_size,
}
use api_gateways.Guard.Patterns.{email_pattern}
use api_gateways.Guard.Splice.{splice, valid_matches, apply_rule-splice}
use api_gateways.Guard.Chunks.{chunk_split}
use api_gateways.Tests.Data.{asking}

abbrev no_entities : Text → List String
no_entities s = []

low_below : low ≢ high
low_below e = ground (arith, e)

filled : is_empty (strip (codes "a@b.co")) ≡ false
unfolding strip
filled = refl

inspect_report_example :
    ((inspect_content no_entities [] (asking "a@b.co")).total_count
      ≡ sum (counts (detections no_entities [] (asking "a@b.co") (codes "a@b.co"))))
    × ((inspect_content no_entities [] (asking "a@b.co")).resolved ≡ (
        if sum (counts (detections no_entities [] (asking "a@b.co") (codes "a@b.co"))) == 0
        then low
        else high))
    × ((t : String)
        → contains t (inspect_content no_entities [] (asking "a@b.co")).detected_types
          ≡ any (found t) (detections no_entities [] (asking "a@b.co") (codes "a@b.co")))
inspect_report_example =
    inspect_report no_entities [] (asking "a@b.co")
      (record { role = "user"; content = codes "a@b.co" }) low_below refl filled

valid_card : luhn_check (codes "7992739" ++ 56 ∷ codes "713") ≡ true
unfolding luhn_check
valid_card = refl

luhn_detects_digit_example : luhn_check (codes "7992739" ++ 57 ∷ codes "713") ≡ false
luhn_detects_digit_example =
    luhn_detects_digit (codes "7992739") (codes "713") 56 57 refl refl
      (λ e. absurd (omega (arith, e))) valid_card

abbrev iban : Text
iban = codes "GB82WEST12345698765432"

abbrev iban_digits : Text
iban_digits = codes "3214282912345698765432161182"

iban_converts :
    convert_all (drop 4 (normalize_iban iban) ++ take 4 (normalize_iban iban)) ≡ some iban_digits
unfolding convert_all normalize_iban
iban_converts = refl

iban_long : 15 ≤ length (normalize_iban iban)
unfolding normalize_iban
iban_long = omega arith

iban_short : length (normalize_iban iban) ≤ 34
unfolding normalize_iban
iban_short = omega arith

iban_check_iff_example : (iban_mod97_check iban ≡ true) ↔ (int iban_digits % 97 ≡ 1)
iban_check_iff_example = iban_check_iff iban iban_digits iban_long iban_short iban_converts

abbrev mail : Text
mail = codes "ask bob@x.org or eve@y.org"

abbrev email_rule : Rule
email_rule = record { pattern = email_pattern; type_label = "EMAIL"; validator = none }

abbrev untouched : Redaction
untouched = record { result_text = mail; redaction_count = 0; redacted_types = [] }

apply_rule-splice_example :
    (apply_rule untouched email_rule).result_text
    ≡ splice
        (placeholder "EMAIL")
        0
        mail
        (valid_matches email_rule mail (finditer email_pattern mail))
apply_rule-splice_example = apply_rule-splice untouched email_rule

hello_clean : (redact (codes "hello")).redaction_count ≡ 0
unfolding redact finditer
hello_clean = refl

chunk_split_example :
    ((redact_stream_chunk (codes "bob@x.org") (codes "ask ")).0
        ++ (redact_stream_chunk (codes "bob@x.org") (codes "ask ")).1
      ≡ (redact (codes "ask " ++ codes "bob@x.org")).result_text)
    × (length (redact_stream_chunk (codes "bob@x.org") (codes "ask ")).1 ≤ carry_size)
    × ((length (redact_stream_chunk (codes "bob@x.org") (codes "ask ")).0 ≡ 0)
        ⊎ (length (redact_stream_chunk (codes "bob@x.org") (codes "ask ")).1 ≡ carry_size))
chunk_split_example = chunk_split (codes "bob@x.org") (codes "ask ")
