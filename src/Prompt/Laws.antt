-- ===== src/Prompt/Laws.antt =====
-- fastapi_backend/app/services/prompt_security_service.py: the score and the pattern list.
use api_gateways.Base.{
  ℕ, String, Bool, true, false, Option, none, some, List, [], ◌∷◌, ◌++◌, ◌≡◌, refl, ap, ◌∙◌, subst,
  ◌≤◌, ◌⊎◌, inl, inr, filter, get_last?, Text, All, arith, Bool-cases, length,
}
use api_gateways.Regex.{Regex, search_in}
use api_gateways.Request.Schema.{Message}
use api_gateways.Prompt.{
  PromptSecurity, PatternRow, compile_rows, reload_patterns, scan_from, scan, scan_messages,
  or_static, is_user, scan_latest,
}
use api_gateways.Prompt.Patterns.{InjectionPattern}
use api_gateways.Prompt.Doubles.{double_le, IsNonNegative, double_le-IsNonNegative}
use api_gateways.Prompt.Library.{injection_patterns}

-- The pattern stands in the list.
abbrev pub Listed : InjectionPattern → List InjectionPattern → Type 0
Listed p [] = ⊥
Listed p (q ∷ qs) = (p ≡ q) ⊎ Listed p qs

-- The addition of two numbers that are not negative: a `float` that is not negative, and at least as great as each.
pub record IsSum (add : ℕ → ℕ → ℕ) : Type 0 where
  pub sum_bound : (a w : ℕ) → IsNonNegative a → IsNonNegative w → IsNonNegative (add a w)
  pub grows : (a w : ℕ) → IsNonNegative a → IsNonNegative w → a ≤ add a w
  pub covers : (a w : ℕ) → IsNonNegative a → IsNonNegative w → w ≤ add a w

abbrev pub Weighed : InjectionPattern → Type 0
Weighed p = IsNonNegative p.weight

module _ (add : ℕ → ℕ → ℕ) (sha256 : Text → String) (sum : IsSum add) where
  scan_from-grows :
      (s : Text) (ns : List String) (a : ℕ) (ps : List InjectionPattern)
      → IsNonNegative a
      → All Weighed ps
      → (a ≤ (scan_from add sha256 s ns a ps).1) × IsNonNegative (scan_from add sha256 s ns a ps).1
  unfolding scan_from
  scan_from-grows s ns a [] n h = (omega arith, n)
  scan_from-grows s ns a (p ∷ ps) n h = elim (Bool-cases (search_in p.pattern s)) [
    | inl e ↦
        let g = sum.grows a p.weight n h.0 in
        let (more, bound) =
          scan_from-grows s (ns ++ p.name ∷ []) (add a p.weight) ps (sum.sum_bound a p.weight n h.0)
            h.1 in
        rw (e, scan_from) (omega (arith, g, more), bound)
    | inr e ↦ rw (e, scan_from) (scan_from-grows s ns a ps n h.1)
  ]

  scan_from-reaches :
      (s : Text) (ns : List String) (a : ℕ) (p : InjectionPattern) (ps : List InjectionPattern)
      → IsNonNegative a
      → All Weighed ps
      → Listed p ps
      → search_in p.pattern s ≡ true
      → p.weight ≤ (scan_from add sha256 s ns a ps).1
  unfolding scan_from
  scan_from-reaches s ns a p [] n h none_listed hit = elim none_listed [ ]
  scan_from-reaches s ns a p (q ∷ qs) n h (inl same) hit =
      let hit_q : search_in q.pattern s ≡ true =
        subst (λ r. search_in r.pattern s ≡ true) same hit in
      let w : p.weight ≡ q.weight = ap (λ r. r.weight) same in
      let c = sum.covers a q.weight n h.0 in
      let (more, bound) =
        scan_from-grows s (ns ++ q.name ∷ []) (add a q.weight) qs (sum.sum_bound a q.weight n h.0)
          h.1 in
      rw (hit_q, scan_from) (omega (arith, w, c, more))
  scan_from-reaches s ns a p (q ∷ qs) n h (inr later) hit =
      elim (Bool-cases (search_in q.pattern s)) [
        | inl e ↦
            rw (e, scan_from)
              (scan_from-reaches s (ns ++ q.name ∷ []) (add a q.weight) p qs
                (sum.sum_bound a q.weight n h.0) h.1 later hit)
        | inr e ↦ rw (e, scan_from) (scan_from-reaches s ns a p qs n h.1 later hit)
      ]

  -- A listed pattern that matches the prompt and weighs the threshold or more blocks the prompt, if no listed weight is negative or NaN.
  pub heavy_match-blocks :
      (svc : PromptSecurity) (prompt_text : Text) (p : InjectionPattern)
      → All Weighed svc.patterns
      → Listed p svc.patterns
      → search_in p.pattern prompt_text ≡ true
      → double_le svc.threshold p.weight ≡ true
      → (scan add sha256 svc prompt_text).is_blocked ≡ true
  unfolding scan
  heavy_match-blocks svc prompt_text p weighed listed hit heavy =
      let score = (scan_from add sha256 prompt_text [] 0 svc.patterns).1 in
      let (more, bound) = scan_from-grows prompt_text [] 0 svc.patterns (omega arith) weighed in
      let reached =
        scan_from-reaches prompt_text [] 0 p svc.patterns (omega arith) weighed listed hit in
      double_le-IsNonNegative svc.threshold p.weight score bound reached heavy

module _ (compile : String → Option Regex) where
  -- The rows of which nothing is used: inactive, or of a pattern that does not compile.
  abbrev pub Useless : PatternRow → Type 0
  Useless row = (row.is_active ≡ false) ⊎ (compile row.pattern ≡ none)

  none_compile :
      (table : List PatternRow)
      → All Useless table
      → compile_rows compile (filter (λ row. row.is_active) table) ≡ []
  unfolding compile_rows
  none_compile [] h = refl
  none_compile (row ∷ rows) (inl off, h) = rw off (none_compile rows h)
  none_compile (row ∷ rows) (inr bad, h) = elim (Bool-cases row.is_active) [
    | inl e ↦ rw e (rw bad (none_compile rows h))
    | inr e ↦ rw e (none_compile rows h)
  ]

  filled : (ps : List InjectionPattern) → 1 ≤ length (or_static ps)
  unfolding injection_patterns
  filled [] = omega arith
  filled (p ∷ ps) = omega arith

  -- Reloading keeps the threshold and never leaves the service without patterns.
  pub reload-filled :
      (svc : PromptSecurity) (table : List PatternRow)
      → ((reload_patterns compile svc table).threshold ≡ svc.threshold)
        × (1 ≤ length (reload_patterns compile svc table).patterns)
  unfolding reload_patterns
  reload-filled svc table =
      (refl, filled (compile_rows compile (filter (λ row. row.is_active) table)))

  -- A table whose rows are all inactive or do not compile gives the built-in list.
  pub reload-static :
      (svc : PromptSecurity) (table : List PatternRow)
      → All Useless table
      → (reload_patterns compile svc table).patterns ≡ injection_patterns
  unfolding reload_patterns
  reload-static svc table useless = ap or_static (none_compile table useless)

module _ (add : ℕ → ℕ → ℕ) (sha256 : Text → String) where
  last-after : (before : List Message) (m : Message) → get_last? (before ++ m ∷ []) ≡ some m
  last-after [] m = refl
  last-after (x ∷ []) m = refl
  last-after (x ∷ y ∷ before) m = last-after (y ∷ before) m

  answered : (after : List Message) → All (λ m. is_user m ≡ false) after → filter is_user after ≡ []
  answered [] h = refl
  answered (m ∷ after) (e, h) = rw e (answered after h)

  filter-append :
      (p : Message → Bool) (xs ys : List Message) → filter p (xs ++ ys) ≡ filter p xs ++ filter p ys
  filter-append p [] ys = refl
  filter-append p (x ∷ xs) ys = elim (Bool-cases (p x)) [
    | inl e ↦ rw e (ap (λ l. x ∷ l) (filter-append p xs ys))
    | inr e ↦ rw e (filter-append p xs ys)
  ]

  -- The scan of a conversation is the scan of its latest user message alone: what stands before it, and the messages of other roles after it, change nothing.
  pub scan_messages-latest :
      (svc : PromptSecurity) (before : List Message) (m : Message) (after : List Message)
      → is_user m ≡ true
      → All (λ m. is_user m ≡ false) after
      → scan_messages add sha256 svc (before ++ m ∷ after) ≡ scan add sha256 svc m.content
  unfolding scan_messages
  scan_messages-latest svc before m after user others =
      let split : filter is_user (before ++ m ∷ after) ≡ filter is_user before ++ m ∷ [] =
        filter-append is_user before (m ∷ after) ∙ rw user (rw (answered after others) refl) in
      ap (scan_latest add sha256 svc) (ap get_last? split ∙ last-after (filter is_user before) m)
