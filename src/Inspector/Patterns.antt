-- ===== src/Inspector/Patterns.antt =====
-- The detector patterns of fastapi_backend/app/services/content_inspector_service.py.
use api_gateways.Base.{
  ℕ, ◌&&◌, ◌||◌, List, [], ◌∷◌, String, is_word, is_digit, is_upper, is_lower, leb, ◌==◌,
}
use api_gateways.Regex.{Regex, chr, seq, alt, rep, star, lazy}
use api_gateways.Regex.Classes.{
  digit, space, word, char, char_ci, one_of, literal, literal_ci, opt, plus, exactly, seqs, alts,
  isolated, is_alnum,
}

-- `[\w\.\-]+@[\w\.\-]+\.\w+`
abbrev pub email_pattern : Regex
email_pattern =
    let part = chr (λ c. is_word c || c == b'.' || c == b'-') in
    seqs (plus part ∷ char b'@' ∷ plus part ∷ char b'.' ∷ plus word ∷ [])

-- `[-.\s]?`
abbrev separator : Regex
separator = opt (alt (one_of "-.") space)

-- `(?:\+?1[-.\s]?)?(?:\(\d{3}\)|\d{3})[-.\s]?\d{3}[-.\s]?\d{4}`, isolated
abbrev pub phone_pattern_us : Regex
phone_pattern_us = isolated (
    seqs (
      opt (seqs (opt (char b'+') ∷ char b'1' ∷ separator ∷ []))
      ∷ alt (seqs (char b'(' ∷ exactly 3 digit ∷ char b')' ∷ [])) (exactly 3 digit)
      ∷ separator
      ∷ exactly 3 digit
      ∷ separator
      ∷ exactly 4 digit
      ∷ []))

-- `\+[1-9]\d{6,14}`, isolated
abbrev pub phone_pattern_e164 : Regex
phone_pattern_e164 =
    isolated (seqs (char b'+' ∷ chr (λ c. leb b'1' c && leb c b'9') ∷ rep 6 8 digit ∷ []))

-- `\d{3}-\d{2}-\d{4}`, isolated
abbrev pub ssn_pattern : Regex
ssn_pattern =
    isolated
      (seqs (exactly 3 digit ∷ char b'-' ∷ exactly 2 digit ∷ char b'-' ∷ exactly 4 digit ∷ []))

-- `(?:\d[ -]*?){13,19}`, isolated
abbrev pub cc_candidate_pattern : Regex
cc_candidate_pattern = isolated (rep 13 6 (seq digit (lazy (one_of " -"))))

abbrev letter : Regex
letter = chr (λ c. is_upper c || is_lower c)

abbrev alnum : Regex
alnum = chr is_alnum

-- `[A-Z]{2}\d{2}[A-Z0-9]{11,30}`, isolated, of either case
abbrev pub iban_pattern : Regex
iban_pattern = isolated (seqs (exactly 2 letter ∷ exactly 2 digit ∷ rep 11 19 alnum ∷ []))

-- `P\.?\s*O\.?\s*Box\s*\d{1,6}`, isolated, of either case
abbrev pub po_box_pattern : Regex
po_box_pattern = isolated (
    seqs (
      char_ci b'P'
      ∷ opt (char b'.')
      ∷ star space
      ∷ char_ci b'O'
      ∷ opt (char b'.')
      ∷ star space
      ∷ literal_ci "Box"
      ∷ star space
      ∷ rep 1 5 digit
      ∷ []))

-- A word that may be abbreviated, as `St\.?`.
abbrev dotted : String → Regex
dotted s = seq (literal_ci s) (opt (char b'.'))

abbrev street_kinds : List Regex
street_kinds =
    literal_ci "Street"
    ∷ dotted "St"
    ∷ literal_ci "Avenue"
    ∷ dotted "Ave"
    ∷ literal_ci "Road"
    ∷ dotted "Rd"
    ∷ literal_ci "Boulevard"
    ∷ dotted "Blvd"
    ∷ literal_ci "Lane"
    ∷ dotted "Ln"
    ∷ literal_ci "Drive"
    ∷ dotted "Dr"
    ∷ literal_ci "Court"
    ∷ dotted "Ct"
    ∷ literal_ci "Way"
    ∷ literal_ci "Terrace"
    ∷ dotted "Ter"
    ∷ literal_ci "Circle"
    ∷ dotted "Cir"
    ∷ literal_ci "Place"
    ∷ dotted "Pl"
    ∷ []

-- `\d{1,6}\s+(?:[A-Za-z0-9.\-]+\s+){0,4}(?:Street|…)`, isolated, of either case
abbrev pub street_address_pattern : Regex
street_address_pattern =
    let part = chr (λ c. is_alnum c || c == b'.' || c == b'-') in
    isolated (
      seqs (
        rep 1 5 digit
        ∷ plus space
        ∷ rep 0 4 (seq (plus part) (plus space))
        ∷ alts street_kinds
        ∷ []))

-- `[A-Za-z0-9_-]`
abbrev token_char : Regex
token_char = chr (λ c. is_alnum c || c == b'_' || c == b'-')

abbrev at_least : ℕ → Regex → Regex
at_least n r = seq (exactly n r) (star r)

-- `eyJ[A-Za-z0-9_-]{8,}\.[A-Za-z0-9_-]{10,}\.[A-Za-z0-9_-]{10,}`, isolated
abbrev pub jwt_pattern : Regex
jwt_pattern = isolated (
    seqs (
      literal "eyJ"
      ∷ at_least 8 token_char
      ∷ char b'.'
      ∷ at_least 10 token_char
      ∷ char b'.'
      ∷ at_least 10 token_char
      ∷ []))

-- `AKIA[0-9A-Z]{16}`, isolated
abbrev pub api_key_aws_access_pattern : Regex
api_key_aws_access_pattern =
    isolated (seq (literal "AKIA") (exactly 16 (chr (λ c. is_digit c || is_upper c))))

-- `AIza[0-9A-Za-z\-_]{35}`, isolated
abbrev pub api_key_google_pattern : Regex
api_key_google_pattern = isolated (seq (literal "AIza") (exactly 35 token_char))

-- `ghp_[A-Za-z0-9]{36}`, isolated
abbrev pub api_key_github_pattern : Regex
api_key_github_pattern = isolated (seq (literal "ghp_") (exactly 36 alnum))

-- `(?:api[_-]?key|apikey|secret|token)\s*[:=]\s*[A-Za-z0-9\-_]{16,}`, isolated, of either case
abbrev pub api_key_generic_assignment_pattern : Regex
api_key_generic_assignment_pattern = isolated (
    seqs (
      alts (
        seqs (literal_ci "api" ∷ opt (one_of "_-") ∷ literal_ci "key" ∷ [])
        ∷ literal_ci "apikey"
        ∷ literal_ci "secret"
        ∷ literal_ci "token"
        ∷ [])
      ∷ star space
      ∷ one_of ":="
      ∷ star space
      ∷ at_least 16 token_char
      ∷ []))
