-- ===== src/Guard/Patterns.antt =====
-- The output patterns of fastapi_backend/app/services/output_guard_service.py. All but three repeat those
-- of content_inspector_service.py, character for character.
use api_gateways.Base.{◌||◌, [], ◌∷◌, is_word, is_upper, is_lower, ◌==◌}
use api_gateways.Regex.{Regex, chr, seq, rep, star}
use api_gateways.Regex.Classes.{space, word, char, literal, plus, seqs, alts, isolated}
use api_gateways.Inspector.Patterns

-- `[\w.\-+]+@[\w.\-]+\.\w{2,}`
abbrev pub email_pattern : Regex
email_pattern =
    let part = chr (λ c. is_word c || c == b'.' || c == b'-') in
    let local = chr (λ c. is_word c || c == b'.' || c == b'-' || c == b'+') in
    seqs (plus local ∷ char b'@' ∷ plus part ∷ char b'.' ∷ word ∷ word ∷ star word ∷ [])

abbrev pub phone_us_pattern : Regex
phone_us_pattern = Patterns.phone_pattern_us

abbrev pub phone_intl_pattern : Regex
phone_intl_pattern = Patterns.phone_pattern_e164

abbrev pub ssn_pattern : Regex
ssn_pattern = Patterns.ssn_pattern

abbrev pub cc_pattern : Regex
cc_pattern = Patterns.cc_candidate_pattern

abbrev pub iban_pattern : Regex
iban_pattern = Patterns.iban_pattern

abbrev pub po_box_pattern : Regex
po_box_pattern = Patterns.po_box_pattern

abbrev pub street_pattern : Regex
street_pattern = Patterns.street_address_pattern

-- `[A-Z][a-z]+`
abbrev name_word : Regex
name_word = seq (chr is_upper) (plus (chr is_lower))

-- `(?:Mr\.|Mrs\.|Ms\.|Dr\.|Prof\.)\s+[A-Z][a-z]+(?:\s+[A-Z][a-z]+){1,2}`, isolated
abbrev pub formal_name_pattern : Regex
formal_name_pattern = isolated (
    seqs (
      alts (literal "Mr." ∷ literal "Mrs." ∷ literal "Ms." ∷ literal "Dr." ∷ literal "Prof." ∷ [])
      ∷ plus space
      ∷ name_word
      ∷ rep 1 1 (seq (plus space) name_word)
      ∷ []))
