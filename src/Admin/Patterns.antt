-- ===== src/Admin/Patterns.antt =====
-- fastapi_backend/app/api/admin/security_patterns.py: the stored injection patterns. The rounding of a weight to the column, none
-- where it does not fit, and `re.compile` are arguments, and so is a new id.
pub mod Laws
use api_gateways.Base.{
  ℕ, String, Bool, true, false, not, Option, none, some, List, [], ◌∷◌, ◌++◌, ◌==◌, any, filter,
  map, str_eq, if◌then◌else◌,
}
use api_gateways.Regex.{Regex}
use api_gateways.Gateway.Outcome.{Outcome, done, http}
use api_gateways.Prompt.{PatternRow, PromptSecurity, reload_patterns}

-- A row of `security_patterns`, with its key.
pub record SecurityPattern : Type 0 where
  pub id : ℕ
  pub row : PatternRow

abbrev pub has_name : String → List SecurityPattern → Bool
has_name name ps = any (λ p. str_eq p.row.name name) ps

abbrev pub has_id : ℕ → List SecurityPattern → Bool
has_id id ps = any (λ p. p.id == id) ps

abbrev pub table_of : List SecurityPattern → List PatternRow
table_of ps = map (λ p. p.row) ps

module _ (compile : String → Option Regex) (to_decimal : ℕ → Option ℕ) where
  -- The insert: it fails for a weight out of range and for a name that is taken.
  abbrev pub insert_row :
      ℕ → PatternRow → List SecurityPattern → List SecurityPattern × Outcome SecurityPattern
  insert_row new_id row ps =
      if has_name row.name ps
      then (ps, http 400)
      else (ps ++ record { id = new_id; row = row } ∷ [], done (record { id = new_id; row = row }))

  abbrev pub commit_row :
      ℕ
      → PatternRow
      → Option ℕ
      → List SecurityPattern
      → List SecurityPattern × Outcome SecurityPattern
  commit_row new_id row none ps = (ps, http 400)
  commit_row new_id row (some weight) ps = insert_row new_id (record row { weight = weight }) ps

  abbrev pub create_compiled :
      ℕ
      → PatternRow
      → Option Regex
      → List SecurityPattern
      → List SecurityPattern × Outcome SecurityPattern
  create_compiled new_id pattern_data none ps = (ps, http 400)
  create_compiled new_id pattern_data (some r) ps =
      commit_row new_id pattern_data (to_decimal pattern_data.weight) ps

  -- `create_pattern`
  unfoldable pub create_pattern :
      ℕ → PatternRow → List SecurityPattern → List SecurityPattern × Outcome SecurityPattern
  create_pattern new_id pattern_data ps =
      create_compiled new_id pattern_data (compile pattern_data.pattern) ps

-- `delete_pattern`
unfoldable pub delete_pattern : ℕ → List SecurityPattern → List SecurityPattern × Outcome {0} Unit
delete_pattern pattern_id ps =
    if has_id pattern_id ps
    then (filter (λ p. not (p.id == pattern_id)) ps, done tt)
    else (ps, http 404)

-- The endpoint `reload_patterns`, which hands the table to the service.
unfoldable pub reload_endpoint :
    (String → Option Regex) → PromptSecurity → List SecurityPattern → PromptSecurity
unfolding reload_patterns
reload_endpoint compile svc ps = reload_patterns compile svc (table_of ps)
