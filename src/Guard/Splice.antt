-- ===== src/Guard/Splice.antt =====
-- The inner loop of `redact` in output_guard_service.py, which replaces matches in place from the last to the first.
use mathlib.Core.List.{reverse, reverse-cons}
use api_gateways.Base.{
  ℕ, ◌-◌, ◌≤◌, ◌≡◌, refl, sym, ap, ap₂, ◌∙◌, true, false, List, [], ◌∷◌, ◌++◌, append_assoc, filter,
  length, take, drop, length-take, take-append_left, drop-append_length, take-take,
  take-append-drop, take-split, drop-split, Text, arith, Bool-cases, inl, inr,
}
use api_gateways.Regex.{Span, finditer}
use api_gateways.Regex.Bounds.{Ordered, Ordered-lower, finditer-Ordered}
use api_gateways.Inspector.{group}
use api_gateways.Guard.{
  Rule, placeholder, Redaction, validates, redact_match, redact_matches, apply_rule,
}

-- The text from the place `pos` on, with the spans replaced in one pass.
unfoldable pub splice : Text → ℕ → Text → List Span → Text
splice ph pos s [] = s
splice ph pos s (m ∷ ms) =
    take (m.start - pos) s ++ (ph ++ splice ph m.stop (drop (m.stop - pos) s) ms)

-- The matches that the validator accepts.
abbrev pub valid_matches : Rule → Text → List Span → List Span
valid_matches rule original ms = filter (λ m. validates rule.validator (group original m)) ms

module _ (rule : Rule) (original : Text) where
  -- The loop from the other end.
  unfoldable pub redact_right : Redaction → List Span → Redaction
  redact_right r [] = r
  redact_right r (m ∷ ms) = redact_match rule original (redact_right r ms) m

  redact_matches-append :
      (r : Redaction) (ms ns : List Span)
      → redact_matches rule original r (ms ++ ns)
        ≡ redact_matches rule original (redact_matches rule original r ms) ns
  unfolding redact_matches
  redact_matches-append r [] ns = refl
  redact_matches-append r (m ∷ ms) ns = redact_matches-append (redact_match rule original r m) ms ns

  pub redact_matches-reverse :
      (r : Redaction) (ms : List Span)
      → redact_matches rule original r (reverse ms) ≡ redact_right r ms
  unfolding redact_right
  redact_matches-reverse r [] = unfold redact_matches in refl
  redact_matches-reverse r (m ∷ ms) =
      rw (reverse-cons m ms, redact_matches-append r (reverse ms) (m ∷ []))
        (rw (redact_matches-reverse r ms) (unfold redact_matches in refl))

  abbrev ph : Text
  ph = placeholder rule.type_label

  redact_valid :
      (r : Redaction) (m : Span)
      → validates rule.validator (group original m) ≡ true
      → (redact_match rule original r m).result_text
        ≡ take m.start r.result_text ++ ph ++ drop m.stop r.result_text
  unfolding redact_match
  redact_valid r m e = rw e

  redact_invalid :
      (r : Redaction) (m : Span)
      → validates rule.validator (group original m) ≡ false
      → redact_match rule original r m ≡ r
  unfolding redact_match
  redact_invalid r m e = rw e

  -- One replacement in a text whose tail from `b` on was already rewritten to `t`.
  replace_before :
      (s t : Text) (lo a b : ℕ)
      → lo ≤ a
      → a ≤ b
      → b ≤ length s
      → take a (take b s ++ t) ++ ph ++ drop b (take b s ++ t)
        ≡ take lo s ++ (take (a - lo) (drop lo s) ++ (ph ++ t))
  replace_before s t lo a b p q le =
      let n : length (take b s) ≡ b = omega (arith, length-take b s) in
      ap₂ (λ u v. u ++ ph ++ v) (take-append_left a (take b s) t (omega arith) ∙ take-take a b s q)
        (drop-append_length b (take b s) t n)
      ∙ append_assoc (take a s) ph t
      ∙ ap (λ u. u ++ (ph ++ t)) (sym (take-split lo a s p))
      ∙ append_assoc (take lo s) (take (a - lo) (drop lo s)) (ph ++ t)

  redact_right-splice :
      (r : Redaction) (lo : ℕ) (ms : List Span)
      → Ordered lo (length r.result_text) ms
      → (redact_right r ms).result_text
        ≡ take lo r.result_text
          ++ splice ph lo (drop lo r.result_text) (valid_matches rule original ms)
  unfolding redact_right splice
  redact_right-splice r lo [] h = sym (take-append-drop lo r.result_text)
  redact_right-splice r lo (m ∷ ms) h =
      elim (Bool-cases (validates rule.validator (group original m))) [
        | inl e ↦
            let s = r.result_text in
            let t = splice ph m.stop (drop m.stop s) (valid_matches rule original ms) in
            rw e (
              redact_valid (redact_right r ms) m e
              ∙ ap (λ u. take m.start u ++ ph ++ drop m.stop u)
                  (redact_right-splice r m.stop ms h.3)
              ∙ replace_before s t lo m.start m.stop h.0 (omega arith) h.2
              ∙ ap
                  (λ u.
                    take lo s
                    ++ (take (m.start - lo) (drop lo s)
                        ++ (ph ++ splice ph m.stop u (valid_matches rule original ms))))
                  (sym (drop-split lo m.stop s (omega arith))))
        | inr e ↦ rw e (
            ap (λ q. q.result_text) (redact_invalid (redact_right r ms) m e)
            ∙ redact_right-splice r lo ms (Ordered-lower lo m.stop _ ms (omega arith) h.3))
      ]

-- A rule rewrites a text to the text with its valid matches replaced in one pass from the left,
-- whatever the validator, though the code replaces them in place from the right.
pub apply_rule-splice :
    (r : Redaction) (rule : Rule)
    → (apply_rule r rule).result_text
      ≡ splice
          (placeholder rule.type_label)
          0
          r.result_text
          (valid_matches rule r.result_text (finditer rule.pattern r.result_text))
unfolding apply_rule
apply_rule-splice r rule =
    let ms = finditer rule.pattern r.result_text in
    ap (λ q. q.result_text) (redact_matches-reverse rule r.result_text r ms)
    ∙ redact_right-splice rule r.result_text r 0 ms (finditer-Ordered rule.pattern r.result_text)
