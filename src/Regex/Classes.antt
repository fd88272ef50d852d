-- ===== src/Regex/Classes.antt =====
-- Character classes and literals of the patterns.
use api_gateways.Base.{
  ℕ, Bool, false, ◌||◌, List, [], ◌∷◌, String, Text, codes, is_word, is_digit, is_space, is_upper,
  is_lower, to_lower, ◌==◌,
}
use api_gateways.Regex.{Regex, chr, empty, seq, alt, rep, star, not_behind, not_ahead}

-- `\d`, `\s`, `\w`, one character, `.`, and a class by its characters
abbrev pub digit : Regex
digit = chr is_digit

abbrev pub space : Regex
space = chr is_space

abbrev pub word : Regex
word = chr is_word

abbrev pub char : ℕ → Regex
char c = chr (λ d. d == c)

-- A character under `re.IGNORECASE`.
abbrev pub char_ci : ℕ → Regex
char_ci c = chr (λ d. to_lower d == to_lower c)

abbrev pub member : Text → ℕ → Bool
member [] d = false
member (c ∷ s) d = d == c || member s d

abbrev pub one_of : String → Regex
one_of s = chr (member (codes s))

abbrev pub all_chars : (ℕ → Regex) → Text → Regex
all_chars f [] = empty
all_chars f (c ∷ []) = f c
all_chars f (c ∷ s) = seq (f c) (all_chars f s)

abbrev pub literal : String → Regex
literal s = all_chars char (codes s)

abbrev pub literal_ci : String → Regex
literal_ci s = all_chars char_ci (codes s)

abbrev pub opt : Regex → Regex
opt r = rep 0 1 r

abbrev pub plus : Regex → Regex
plus r = seq r (star r)

abbrev pub exactly : ℕ → Regex → Regex
exactly n r = rep n 0 r

-- Several parts in a row, and several alternatives.
abbrev pub seqs : List Regex → Regex
seqs [] = empty
seqs (r ∷ []) = r
seqs (r ∷ rs) = seq r (seqs rs)

abbrev pub alts : List Regex → Regex
alts [] = chr (λ c. false)
alts (r ∷ []) = r
alts (r ∷ rs) = alt r (alts rs)

-- `(?<!\w)…(?!\w)`
abbrev pub isolated : Regex → Regex
isolated r = seq (not_behind is_word) (seq r (not_ahead is_word))

-- `[A-Za-z0-9]`
abbrev pub is_alnum : ℕ → Bool
is_alnum c = is_digit c || is_upper c || is_lower c
