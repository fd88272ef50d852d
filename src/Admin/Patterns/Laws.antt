-- ===== src/Admin/Patterns/Laws.antt =====
-- What a pattern that is created through security_patterns.py does to the prompts.
use api_gateways.Base.{
  All, ℕ, String, Bool, true, false, Option, none, some, List, [], ◌∷◌, ◌++◌, filter, Text, ◌≡◌,
  refl, inl, inr, arith, Bool-cases, Option-cases, if◌then◌else◌, sym, ap, ◌∙◌,
}
use api_gateways.Regex.{Regex, search_in}
use api_gateways.Gateway.Outcome.{Outcome, done, http, done-inj}
use api_gateways.Prompt.{PatternRow, PromptSecurity, reload_patterns, compile_rows, or_static, scan}
use api_gateways.Prompt.Patterns.{InjectionPattern}
use api_gateways.Prompt.Doubles.{IsNonNegative, double_le}
use api_gateways.Prompt.Laws.{Listed, Weighed, IsSum, heavy_match-blocks}
use api_gateways.Admin.Patterns.{
  SecurityPattern, table_of, has_name, create_pattern, create_compiled, commit_row, reload_endpoint,
}

or_static-Listed :
    (p : InjectionPattern) (ps : List InjectionPattern) → Listed p ps → Listed p (or_static ps)
or_static-Listed p [] none_listed = elim none_listed [ ]
or_static-Listed p (q ∷ qs) listed = listed

or_static-Weighed :
    (p : InjectionPattern) (ps : List InjectionPattern)
    → Listed p ps
    → All Weighed ps
    → All Weighed (or_static ps)
or_static-Weighed p [] none_listed h = elim none_listed [ ]
or_static-Weighed p (q ∷ qs) listed h = h

module _ (compile : String → Option Regex) (to_decimal : ℕ → Option ℕ) where
  compile_rows-Listed :
      (p : InjectionPattern) (row : PatternRow) (rows : List PatternRow)
      → Listed p (compile_rows compile rows)
      → Listed p (compile_rows compile (row ∷ rows))
  unfolding compile_rows
  compile_rows-Listed p row rows h = elim (Option-cases (compile row.pattern)) [
    | inl e ↦ rw e h
    | inr (r, e) ↦ rw e (inr h)
  ]

  abbrev compiled : PatternRow → Regex → InjectionPattern
  compiled row r = record {
    name = row.name;
    pattern = r;
    weight = row.weight;
    description = elim row.description [ none ↦ "" | some s ↦ s ];
  }

  appended-Listed :
      (row : PatternRow) (r : Regex) (rows : List PatternRow)
      → compile row.pattern ≡ some r
      → row.is_active ≡ true
      → Listed
          (compiled row r)
          (compile_rows compile (filter (λ k. k.is_active) (rows ++ row ∷ [])))
  unfolding compile_rows
  appended-Listed row r [] compiles active = rw active (rw compiles (inl refl))
  appended-Listed row r (k ∷ rows) compiles active = elim (Bool-cases k.is_active) [
    | inl on ↦
        rw on
          (compile_rows-Listed (compiled row r) k _ (appended-Listed row r rows compiles active))
    | inr off ↦ rw off (appended-Listed row r rows compiles active)
  ]

  -- What a creation that succeeds has stored.
  abbrev IsStored :
      PatternRow
      → SecurityPattern
      → List SecurityPattern
      → List SecurityPattern × Outcome SecurityPattern
      → Type 0
  IsStored pattern_data stored ps result =
      (result.0 ≡ ps ++ stored ∷ [])
      × (stored.row.pattern ≡ pattern_data.pattern)
      × (stored.row.is_active ≡ pattern_data.is_active)

  insert_row-IsStored :
      (taken : Bool) (row : PatternRow) (p stored : SecurityPattern) (ps : List SecurityPattern)
      → p.row.pattern ≡ row.pattern
      → p.row.is_active ≡ row.is_active
      → let result : List SecurityPattern × Outcome SecurityPattern =
          if taken then (ps, http 400) else (ps ++ p ∷ [], done p) in
        result.1 ≡ done stored → IsStored row stored ps result
  insert_row-IsStored true row p stored ps same active h = absurd (ground (arith, h))
  insert_row-IsStored false row p stored ps same active h =
      let e = done-inj h in
      (
        ap (λ q. ps ++ q ∷ []) e,
        ap (λ q. q.row.pattern) (sym e) ∙ same,
        ap (λ q. q.row.is_active) (sym e) ∙ active,
      )

  commit_row-IsStored :
      (new_id : ℕ) (row : PatternRow) (w : Option ℕ) (ps : List SecurityPattern)
      (stored : SecurityPattern)
      → (commit_row compile to_decimal new_id row w ps).1 ≡ done stored
      → IsStored row stored ps (commit_row compile to_decimal new_id row w ps)
  commit_row-IsStored new_id row none ps stored h = absurd (ground (arith, h))
  commit_row-IsStored new_id row (some w) ps stored h =
      insert_row-IsStored (has_name row.name ps) row
        (record { id = new_id; row = record row { weight = w } }) stored ps refl refl h

  create_pattern-IsStored :
      (new_id : ℕ) (pattern_data : PatternRow) (ps : List SecurityPattern)
      (stored : SecurityPattern)
      → (create_pattern compile to_decimal new_id pattern_data ps).1 ≡ done stored
      → IsStored pattern_data stored ps (create_pattern compile to_decimal new_id pattern_data ps)
  unfolding create_pattern
  create_pattern-IsStored new_id pattern_data ps stored h =
      compiled_case (compile pattern_data.pattern) h
    where
      compiled_case :
          (o : Option Regex)
          → (create_compiled compile to_decimal new_id pattern_data o ps).1 ≡ done stored
          → IsStored pattern_data stored ps
              (create_compiled compile to_decimal new_id pattern_data o ps)
      compiled_case none e = absurd (ground (arith, e))
      compiled_case (some r) e =
          commit_row-IsStored new_id pattern_data (to_decimal pattern_data.weight) ps stored e

  table_of-append :
      (ps : List SecurityPattern) (p : SecurityPattern)
      → table_of (ps ++ p ∷ []) ≡ table_of ps ++ p.row ∷ []
  table_of-append [] p = refl
  table_of-append (q ∷ ps) p = ap (λ rows. q.row ∷ rows) (table_of-append ps p)

  compile_row-Weighed :
      (row : PatternRow) (rows : List PatternRow)
      → IsNonNegative row.weight
      → All Weighed (compile_rows compile rows)
      → All Weighed (compile_rows compile (row ∷ rows))
  unfolding compile_rows
  compile_row-Weighed row rows n h = elim (Option-cases (compile row.pattern)) [
    | inl e ↦ rw e h
    | inr (r, e) ↦ rw e (n, h)
  ]

  compile_rows-Weighed :
      (rows : List PatternRow)
      → All (λ row. IsNonNegative row.weight) rows
      → All Weighed (compile_rows compile (filter (λ k. k.is_active) rows))
  unfolding compile_rows
  compile_rows-Weighed [] h = tt
  compile_rows-Weighed (row ∷ rows) (n, h) = elim (Bool-cases row.is_active) [
    | inl on ↦ rw on (compile_row-Weighed row _ n (compile_rows-Weighed rows h))
    | inr off ↦ rw off (compile_rows-Weighed rows h)
  ]

  table_of-Weighed :
      (ps : List SecurityPattern) (p : SecurityPattern)
      → All (λ q. IsNonNegative q.row.weight) ps
      → IsNonNegative p.row.weight
      → All (λ row. IsNonNegative row.weight) (table_of ps ++ p.row ∷ [])
  table_of-Weighed [] p h n = (n, tt)
  table_of-Weighed (q ∷ ps) p (m, h) n = (m, table_of-Weighed ps p h n)

  module _ (add : ℕ → ℕ → ℕ) (sha256 : Text → String) (sum : IsSum add) where
    -- An active pattern that is created works after the next reload: every prompt in which it is found is blocked, if its stored weight reaches the
    -- threshold and neither its weight nor any other that is stored is negative or NaN; what else the other patterns are makes no difference.
    pub created-blocks :
        (svc : PromptSecurity) (new_id : ℕ) (pattern_data : PatternRow) (ps : List SecurityPattern)
        (stored : SecurityPattern) (r : Regex) (prompt_text : Text)
        → (create_pattern compile to_decimal new_id pattern_data ps).1 ≡ done stored
        → compile pattern_data.pattern ≡ some r
        → pattern_data.is_active ≡ true
        → search_in r prompt_text ≡ true
        → All (λ p. IsNonNegative p.row.weight) ps
        → IsNonNegative stored.row.weight
        → double_le svc.threshold stored.row.weight ≡ true
        → (scan add sha256
            (reload_endpoint compile svc
              (create_pattern compile to_decimal new_id pattern_data ps).0)
            prompt_text).is_blocked
          ≡ true
    unfolding reload_endpoint reload_patterns
    created-blocks svc new_id pattern_data ps stored r prompt_text created compiles active hit
          others weight heavy =
        let (table, same, on) = create_pattern-IsStored new_id pattern_data ps stored created in
        let rows = table_of ps ++ stored.row ∷ [] in
        let listed =
          appended-Listed stored.row r (table_of ps) (ap compile same ∙ compiles) (on ∙ active) in
        rw (table, table_of-append ps stored)
          (heavy_match-blocks add sha256 sum (reload_patterns compile svc rows) prompt_text
            (compiled stored.row r)
            (or_static-Weighed (compiled stored.row r) _ listed
              (compile_rows-Weighed rows (table_of-Weighed ps stored others weight)))
            (or_static-Listed (compiled stored.row r) _ listed) hit heavy)
