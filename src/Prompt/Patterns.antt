-- ===== src/Prompt/Patterns.antt =====
-- The pattern library `INJECTION_PATTERNS` of fastapi_backend/app/services/prompt_security_service.py. A
-- weight is a Python `float`, given by its IEEE 754 bit pattern: on numbers that are not negative the
-- order of the patterns is the order of the numbers.
use api_gateways.Base.{ℕ, List, [], ◌∷◌, String, ◌==◌, not}
use api_gateways.Regex.{Regex, chr, seq, alt, rep, star, boundary}
use api_gateways.Regex.Classes.{space, literal_ci, opt, plus, seqs, alts}

pub record InjectionPattern : Type 0 where
  pub name : String
  pub pattern : Regex
  pub weight : ℕ
  pub description : String

-- The doubles of the weights.
abbrev pub double_0_5 : ℕ
double_0_5 = 0x3FE0000000000000

abbrev pub double_0_6 : ℕ
double_0_6 = 0x3FE3333333333333

abbrev pub double_0_7 : ℕ
double_0_7 = 0x3FE6666666666666

abbrev pub double_0_8 : ℕ
double_0_8 = 0x3FE999999999999A

abbrev pub double_1_0 : ℕ
double_1_0 = 0x3FF0000000000000

abbrev pub double_1_2 : ℕ
double_1_2 = 0x3FF3333333333333

abbrev pub double_1_5 : ℕ
double_1_5 = 0x3FF8000000000000

-- A word of either case, the words of a list, and `\s+`.
abbrev pub w : String → Regex
w = literal_ci

abbrev pub words : List String → List Regex
words [] = []
words (s ∷ ss) = w s ∷ words ss

abbrev pub any_word : List String → Regex
any_word ss = alts (words ss)

abbrev pub gap : Regex
gap = plus space

-- `(all\s+)?` and the like
abbrev pub maybe : String → Regex
maybe s = opt (seq (w s) gap)

-- `.{0,50}`
abbrev pub up_to_50 : Regex
up_to_50 = rep 0 50 (chr (λ c. not (c == 10)))

abbrev pub bounded : Regex → Regex
bounded r = seqs (boundary ∷ r ∷ boundary ∷ [])

abbrev pub ignore_previous_instructions : Regex
ignore_previous_instructions = seqs (
    w "ignore"
    ∷ gap
    ∷ maybe "all"
    ∷ w "previous"
    ∷ gap
    ∷ any_word ("instructions" ∷ "prompts" ∷ "rules" ∷ "context" ∷ [])
    ∷ [])

abbrev pub disregard_instructions : Regex
disregard_instructions = seqs (
    w "disregard"
    ∷ gap
    ∷ maybe "all"
    ∷ any_word ("previous" ∷ "prior" ∷ "above" ∷ "earlier" ∷ [])
    ∷ gap
    ∷ any_word ("instructions" ∷ "prompts" ∷ "rules" ∷ [])
    ∷ [])

abbrev pub forget_instructions : Regex
forget_instructions = seqs (
    w "forget"
    ∷ gap
    ∷ any_word ("everything" ∷ "all" ∷ "your" ∷ [])
    ∷ gap
    ∷ maybe "you"
    ∷ maybe "were"
    ∷ any_word ("told" ∷ "instructed" ∷ "trained" ∷ [])
    ∷ [])

abbrev pub dan_jailbreak : Regex
dan_jailbreak = bounded (alt (w "DAN") (seqs (w "Do" ∷ gap ∷ w "Anything" ∷ gap ∷ w "Now" ∷ [])))

abbrev pub developer_mode : Regex
developer_mode = seqs (
    any_word ("developer" ∷ "dev" ∷ [])
    ∷ gap
    ∷ w "mode"
    ∷ gap
    ∷ any_word ("enabled" ∷ "activated" ∷ "on" ∷ "override" ∷ [])
    ∷ [])

abbrev pub jailbreak_keyword : Regex
jailbreak_keyword = bounded (
    alts (
      w "jailbreak"
      ∷ seqs (w "jail" ∷ star space ∷ w "break" ∷ [])
      ∷ seqs (w "bypass" ∷ gap ∷ w "safety" ∷ [])
      ∷ seqs (w "bypass" ∷ gap ∷ w "filter" ∷ [])
      ∷ []))

abbrev you_are : List Regex
you_are = w "you" ∷ gap ∷ w "are" ∷ []

abbrev pub roleplay_bypass : Regex
roleplay_bypass = seqs (
    alts (
      seqs (w "you" ∷ gap ∷ w "are" ∷ gap ∷ w "now" ∷ [])
      ∷ seqs (w "act" ∷ gap ∷ w "as" ∷ [])
      ∷ seqs (w "pretend" ∷ gap ∷ alt (seqs (w "to" ∷ gap ∷ w "be" ∷ [])) (seqs you_are) ∷ [])
      ∷ seqs (w "from" ∷ gap ∷ w "now" ∷ gap ∷ w "on" ∷ gap ∷ seqs you_are ∷ [])
      ∷ [])
    ∷ gap
    ∷ maybe "a"
    ∷ opt (seqs (w "a" ∷ opt (w "n") ∷ gap ∷ []))
    ∷ any_word ("evil" ∷ "unrestricted" ∷ "unfiltered" ∷ "uncensored" ∷ [])
    ∷ [])

abbrev pub hypothetical_bypass : Regex
hypothetical_bypass = seqs (
    alts (
      w "hypothetically"
      ∷ seqs (w "in" ∷ gap ∷ w "a" ∷ gap ∷ w "fictional" ∷ [])
      ∷ seqs (w "for" ∷ gap ∷ w "educational" ∷ gap ∷ w "purposes" ∷ [])
      ∷ w "theoretically"
      ∷ [])
    ∷ up_to_50
    ∷ alts (
        seqs (w "how" ∷ gap ∷ w "to" ∷ [])
        ∷ seqs (w "steps" ∷ gap ∷ w "to" ∷ [])
        ∷ seqs (w "instructions" ∷ gap ∷ w "for" ∷ [])
        ∷ [])
    ∷ up_to_50
    ∷ alts (
        w "hack"
        ∷ w "exploit"
        ∷ w "attack"
        ∷ seqs (w "break" ∷ gap ∷ w "into" ∷ [])
        ∷ w "steal"
        ∷ [])
    ∷ [])
