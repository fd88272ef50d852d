-- ===== src/Prompt.antt =====
-- fastapi_backend/app/services/prompt_security_service.py: prompts are scored against a pattern library.
-- Weights and scores are `float`s by their bit patterns; addition, SHA-256 and the compilation of a stored pattern are arguments.
pub mod Patterns
pub mod Library
pub mod Doubles
pub mod Laws
use api_gateways.Base.{
  ℕ, String, Bool, true, false, Option, none, some, List, [], ◌∷◌, ◌++◌, filter, get_last?, str_eq,
  Text, leb, if◌then◌else◌,
}
use api_gateways.Regex.{Regex, search_in}
use api_gateways.Request.Schema.{Message}
use Patterns.{InjectionPattern, double_1_0}
use Library.{injection_patterns}
use Doubles.{double_le}

pub record ScanResult : Type 0 where
  pub is_blocked : Bool
  pub total_score : ℕ
  pub matched_patterns : List String
  pub prompt_hash : String

-- `DEFAULT_BLOCK_THRESHOLD`
abbrev pub default_block_threshold : ℕ
default_block_threshold = double_1_0

-- The attributes of `PromptSecurityService`.
pub record PromptSecurity : Type 0 where
  pub threshold : ℕ
  pub patterns : List InjectionPattern

-- `__init__`
unfoldable pub init : ℕ → PromptSecurity
unfolding injection_patterns
init block_threshold = record { threshold = block_threshold; patterns = injection_patterns }

-- A row of `security_patterns`; the weight is the `float` of its decimal.
pub record PatternRow : Type 0 where
  pub name : String
  pub pattern : String
  pub weight : ℕ
  pub description : Option String
  pub is_active : Bool

abbrev or_empty : Option String → String
or_empty none = ""
or_empty (some s) = s

-- `if not compiled: compiled = INJECTION_PATTERNS`
abbrev pub or_static : List InjectionPattern → List InjectionPattern
or_static [] = injection_patterns
or_static (p ∷ ps) = p ∷ ps

module _ (compile : String → Option Regex) where
  abbrev keep_compiled : PatternRow → Option Regex → List InjectionPattern → List InjectionPattern
  keep_compiled row none ps = ps
  keep_compiled row (some r) ps =
      record {
        name = row.name;
        pattern = r;
        weight = row.weight;
        description = or_empty row.description;
      }
      ∷ ps

  -- The loop of `reload_patterns` over the active rows: those that do not compile are skipped.
  unfoldable pub compile_rows : List PatternRow → List InjectionPattern
  compile_rows [] = []
  compile_rows (row ∷ rows) = keep_compiled row (compile row.pattern) (compile_rows rows)

  -- `reload_patterns`
  unfoldable pub reload_patterns : PromptSecurity → List PatternRow → PromptSecurity
  unfolding compile_rows
  reload_patterns svc table = record svc {
    patterns = or_static (compile_rows (filter (λ row. row.is_active) table));
  }

-- `m.get("role") == "user"`
abbrev pub is_user : Message → Bool
is_user m = str_eq m.role "user"

module _ (add : ℕ → ℕ → ℕ) (sha256 : Text → String) where
  -- The loop of `scan`: the names that matched and the score.
  unfoldable pub scan_from : Text → List String → ℕ → List InjectionPattern → List String × ℕ
  scan_from s matched score [] = (matched, score)
  scan_from s matched score (p ∷ ps) =
      let hit = search_in p.pattern s in
      scan_from s (if hit then matched ++ p.name ∷ [] else matched)
        (if hit then add score p.weight else score) ps

  -- `scan`
  unfoldable pub scan : PromptSecurity → Text → ScanResult
  unfolding scan_from double_le
  scan svc prompt_text =
      let (matched, score) = scan_from prompt_text [] 0 svc.patterns in
      record {
        is_blocked = double_le svc.threshold score;
        total_score = score;
        matched_patterns = matched;
        prompt_hash = sha256 prompt_text;
      }

  abbrev pub scan_latest : PromptSecurity → Option Message → ScanResult
  scan_latest svc none = record {
    is_blocked = false;
    total_score = 0;
    matched_patterns = [];
    prompt_hash = sha256 [];
  }
  scan_latest svc (some m) = scan svc m.content

  -- `scan_messages`
  unfoldable pub scan_messages : PromptSecurity → List Message → ScanResult
  unfolding scan
  scan_messages svc messages = scan_latest svc (get_last? (filter is_user messages))
