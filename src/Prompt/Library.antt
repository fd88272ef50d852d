-- ===== src/Prompt/Library.antt =====
-- The second half of the pattern library of prompt_security_service.py, and the list itself.
use api_gateways.Base.{ℕ, ◌||◌, List, [], ◌∷◌, String, is_space, ◌==◌, not}
use api_gateways.Regex.{Regex, chr, seq, lazy}
use api_gateways.Regex.Classes.{char, literal, opt, plus, seqs, alts}
use api_gateways.Prompt.Patterns.{
  InjectionPattern, double_0_5, double_0_6, double_0_7, double_0_8, double_1_0, double_1_2,
  double_1_5, w, any_word, gap, maybe, ignore_previous_instructions, disregard_instructions,
  forget_instructions, dan_jailbreak, developer_mode, jailbreak_keyword, roleplay_bypass,
  hypothetical_bypass,
}

abbrev system_prompt_leak : Regex
system_prompt_leak = seqs (
    any_word ("repeat" ∷ "show" ∷ "reveal" ∷ "display" ∷ "print" ∷ "output" ∷ [])
    ∷ gap
    ∷ maybe "your"
    ∷ alts (
        seqs (w "system" ∷ gap ∷ w "prompt" ∷ [])
        ∷ seqs (w "initial" ∷ gap ∷ w "instructions" ∷ [])
        ∷ seqs (w "hidden" ∷ gap ∷ w "instructions" ∷ [])
        ∷ seqs (w "original" ∷ gap ∷ w "prompt" ∷ [])
        ∷ [])
    ∷ [])

abbrev what_are_your_instructions : Regex
what_are_your_instructions = seqs (
    w "what"
    ∷ gap
    ∷ any_word ("are" ∷ "were" ∷ [])
    ∷ gap
    ∷ w "your"
    ∷ gap
    ∷ opt (seq (any_word ("original" ∷ "initial" ∷ "system" ∷ [])) gap)
    ∷ any_word ("instructions" ∷ "rules" ∷ "guidelines" ∷ "prompt" ∷ [])
    ∷ [])

abbrev base64_injection : Regex
base64_injection = seqs (
    any_word ("decode" ∷ "interpret" ∷ "execute" ∷ "run" ∷ [])
    ∷ gap
    ∷ maybe "this"
    ∷ any_word ("base64" ∷ "encoded" ∷ "b64" ∷ [])
    ∷ [])

-- `!\[.*?\]\(https?://[^\s)]+\)`
abbrev markdown_injection : Regex
markdown_injection = seqs (
    literal "!["
    ∷ lazy (chr (λ c. not (c == 10)))
    ∷ literal "]("
    ∷ w "http"
    ∷ opt (w "s")
    ∷ literal "://"
    ∷ plus (chr (λ c. not (is_space c || c == b')')))
    ∷ char b')'
    ∷ [])

abbrev delimiter_injection : Regex
delimiter_injection = any_word (
    "<|im_start|>" ∷ "<|im_end|>" ∷ "<|system|>" ∷ "[INST]" ∷ "[/INST]" ∷ "<<SYS>>" ∷ "<</SYS>>"
    ∷ [])

abbrev entry : String → Regex → ℕ → String → InjectionPattern
entry name pattern weight description = record {
  name = name;
  pattern = pattern;
  weight = weight;
  description = description;
}

-- `INJECTION_PATTERNS`
unfoldable pub injection_patterns : List InjectionPattern
injection_patterns =
    entry "ignore_previous_instructions" ignore_previous_instructions double_1_0
      "Attempts to override system instructions"
    ∷ entry "disregard_instructions" disregard_instructions double_1_0
        "Variation of instruction override"
    ∷ entry "forget_instructions" forget_instructions double_1_0 "Attempts to reset model context"
    ∷ entry "dan_jailbreak" dan_jailbreak double_1_5 "DAN (Do Anything Now) jailbreak attempt"
    ∷ entry "developer_mode" developer_mode double_1_2 "Fake developer mode activation"
    ∷ entry "jailbreak_keyword" jailbreak_keyword double_1_5 "Explicit jailbreak keywords"
    ∷ entry "roleplay_bypass" roleplay_bypass double_1_0
        "Instructs model to adopt an unrestricted persona"
    ∷ entry "hypothetical_bypass" hypothetical_bypass double_0_8
        "Uses hypothetical framing to extract harmful content"
    ∷ entry "system_prompt_leak" system_prompt_leak double_1_0
        "Attempts to extract the system prompt"
    ∷ entry "what_are_your_instructions" what_are_your_instructions double_0_6
        "Probing for system instructions"
    ∷ entry "base64_injection" base64_injection double_0_7
        "Attempts to use encoding to bypass filters"
    ∷ entry "markdown_injection" markdown_injection double_0_5
        "Markdown image injection (potential exfiltration)"
    ∷ entry "delimiter_injection" delimiter_injection double_1_5
        "Injects model-specific control tokens"
    ∷ []
