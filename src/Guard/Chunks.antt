-- ===== src/Guard/Chunks.antt =====
-- What a redaction reports, and how a chunk is divided between the client and the carry-over.
use api_gateways.Base.{
  ◌⊎◌, ◌+◌, ◌-◌, ◌≤◌, ◌≡◌, refl, sym, ap, ◌∙◌, List, [], ◌∷◌, ◌++◌, length, length-drop,
  take-append-drop, sorted, ltb, Text, arith, Bool-cases, inl, inr,
}
use api_gateways.Regex.{Span, finditer}
use api_gateways.Guard.{
  Rule, Redaction, redact_match, apply_rule, apply_rules, redact, output_pii_rules, carry_size,
  split_carry, redact_stream_chunk,
}
use api_gateways.Guard.Splice.{valid_matches, redact_right, redact_matches-reverse}

count_right :
    (rule : Rule) (original : Text) (r : Redaction) (ms : List Span)
    → (redact_right rule original r ms).redaction_count
      ≡ r.redaction_count + length (valid_matches rule original ms)
unfolding redact_right redact_match
count_right rule original r [] = omega arith
count_right rule original r (m ∷ ms) = ground (arith, count_right rule original r ms)

-- A rule counts each of its valid matches.
pub apply_rule-count :
    (r : Redaction) (rule : Rule)
    → (apply_rule r rule).redaction_count
      ≡ r.redaction_count
        + length (valid_matches rule r.result_text (finditer rule.pattern r.result_text))
unfolding apply_rule
apply_rule-count r rule =
    let ms = finditer rule.pattern r.result_text in
    ap (λ q. q.redaction_count) (redact_matches-reverse rule r.result_text r ms)
    ∙ count_right rule r.result_text r ms

-- A loop over matches that counts none of them changes nothing.
right_idle :
    (rule : Rule) (original : Text) (r : Redaction) (ms : List Span)
    → length (valid_matches rule original ms) ≡ 0
    → redact_right rule original r ms ≡ r
unfolding redact_right redact_match
right_idle rule original r [] h = refl
right_idle rule original r (m ∷ ms) h = ground (arith, right_idle rule original r ms)

apply_rule_idle :
    (r : Redaction) (rule : Rule)
    → (apply_rule r rule).redaction_count ≡ r.redaction_count
    → apply_rule r rule ≡ r
apply_rule_idle r rule h =
    let ms = finditer rule.pattern r.result_text in
    let e : apply_rule r rule ≡ redact_right rule r.result_text r ms =
      unfold apply_rule in redact_matches-reverse rule r.result_text r ms in
    e ∙ right_idle rule r.result_text r ms (omega (arith, apply_rule-count r rule))

apply_rules-count :
    (r : Redaction) (rules : List Rule) → r.redaction_count ≤ (apply_rules r rules).redaction_count
unfolding apply_rules
apply_rules-count r [] = omega arith
apply_rules-count r (rule ∷ rules) =
    omega (arith, apply_rules-count (apply_rule r rule) rules, apply_rule-count r rule)

apply_rules_idle :
    (r : Redaction) (rules : List Rule)
    → (apply_rules r rules).redaction_count ≡ r.redaction_count
    → apply_rules r rules ≡ r
unfolding apply_rules
apply_rules_idle r [] h = refl
apply_rules_idle r (rule ∷ rules) h =
    let e =
      apply_rule_idle r rule
        (omega (arith, apply_rules-count (apply_rule r rule) rules, apply_rule-count r rule)) in
    ap (λ q. apply_rules q rules) e
    ∙ apply_rules_idle r rules (ap (λ q. (apply_rules q rules).redaction_count) (sym e) ∙ h)

-- A redaction that reports a count of 0 has left the text as it was and reports no types: a caller
-- that looks at the count alone, as `submit_json` does, misses no change.
pub redact_zero :
    (s : Text)
    → (redact s).redaction_count ≡ 0
    → ((redact s).result_text ≡ s) × ((redact s).redacted_types ≡ [])
unfolding redact
redact_zero s h =
    let e =
      apply_rules_idle (record { result_text = s; redaction_count = 0; redacted_types = [] })
        output_pii_rules h in
    (ap (λ q. q.result_text) e, ap (λ q. sorted q.redacted_types) e ∙ (unfold sorted in refl))

-- What is sent and what is held back make up the redacted text of the carry-over and the chunk; at
-- most 30 characters are held back, and exactly 30 as soon as anything is sent.
pub chunk_split :
    (chunk carry_buffer : Text)
    → let (safe, carry) = redact_stream_chunk chunk carry_buffer in
      (safe ++ carry ≡ (redact (carry_buffer ++ chunk)).result_text)
      × (length carry ≤ carry_size)
      × ((length safe ≡ 0) ⊎ (length carry ≡ carry_size))
unfolding redact_stream_chunk
chunk_split chunk carry_buffer = split_lem (redact (carry_buffer ++ chunk)).result_text
  where
    split_lem :
        (s : Text)
        → (((split_carry s).0 ++ (split_carry s).1) ≡ s)
          × (length (split_carry s).1 ≤ carry_size)
          × ((length (split_carry s).0 ≡ 0) ⊎ (length (split_carry s).1 ≡ carry_size))
    split_lem s = elim (Bool-cases (ltb carry_size (length s))) [
      | inl e ↦ rw e (
        take-append-drop (length s - carry_size) s,
        ground (arith, length-drop (length s - carry_size) s),
        inr (ground (arith, length-drop (length s - carry_size) s)),
      )
      | inr e ↦ rw e (refl, ground arith, inl refl)
    ]
