-- ===== src/Policy/Agreement.antt =====
-- The lists of denied policies of OPA, on the bundle that the service pushes, and of the embedded evaluator.
use api_gateways.Base.{
  ◌≡◌, refl, sym, ap, ◌∙◌, String, Bool, false, ◌&&◌, List, [], ◌∷◌, ◌++◌, map, append_assoc,
  append-nil, subst, arith, All, contains, str_eq, eq_iff, Bool-cases, inl, inr, if◌then◌else◌,
}
use api_gateways.Policy.Schema.{
  PolicyEffect, allow_onprem_only, deny_cloud, allow_all, deny_all, Policy, EvaluationResult,
  CanonicalContext, allow, deny,
}
use api_gateways.Policy.Evaluate.{matches, should_block, result_of, violation, evaluate_from}
use api_gateways.Policy.Opa.{apply_block}
use api_gateways.Policy.Rego.{serialize_policy, policy_matches, rule_blocks, block}
use api_gateways.Errors.{Result, ok, raise}

matches-serialize :
    (p : Policy) (ctx : CanonicalContext) → policy_matches (serialize_policy p) ctx ≡ matches p ctx
unfolding policy_matches matches
matches-serialize p ctx = ground arith

blocks_effect :
    (e : PolicyEffect) (p : Policy) (ctx : CanonicalContext)
    → p.effect ≡ e
    → rule_blocks (serialize_policy p) ctx ≡ should_block p ctx
unfolding rule_blocks should_block
blocks_effect allow_onprem_only p ctx h = rw h (ground arith)
blocks_effect deny_cloud p ctx h = rw h (ground arith)
blocks_effect allow_all p ctx h = rw h
blocks_effect deny_all p ctx h = rw h

blocks-serialize :
    (p : Policy) (ctx : CanonicalContext)
    → rule_blocks (serialize_policy p) ctx ≡ should_block p ctx
blocks-serialize p ctx = blocks_effect p.effect p ctx refl

-- The policy matches and blocks.
abbrev pub denies : Policy → CanonicalContext → Bool
denies p ctx = matches p ctx && should_block p ctx

abbrev pub blocked_ids : CanonicalContext → List Policy → List String
blocked_ids ctx ps = block ctx (map serialize_policy ps)

-- No two policies have the same id, which is the primary key of their table.
abbrev pub Distinct : List Policy → Type 0
Distinct [] = Unit
Distinct (p ∷ ps) = All (λ q. str_eq p.id q.id ≡ false) ps × Distinct ps

blocked_ids-cons :
    (ctx : CanonicalContext) (p : Policy) (ps : List Policy)
    → blocked_ids ctx (p ∷ ps)
      ≡ (if denies p ctx then p.id ∷ blocked_ids ctx ps else blocked_ids ctx ps)
unfolding block
blocked_ids-cons ctx p ps = rw (matches-serialize p ctx, blocks-serialize p ctx)

not_blocked :
    (ctx : CanonicalContext) (id : String) (ps : List Policy)
    → All (λ q. str_eq id q.id ≡ false) ps
    → contains id (blocked_ids ctx ps) ≡ false
not_blocked ctx id [] h = unfold block in refl
not_blocked ctx id (p ∷ ps) h =
    rw (blocked_ids-cons ctx p ps)
      (ground (arith, not_blocked ctx id ps h.1, eq_iff p.id id, eq_iff id p.id))

-- The id of a policy is in the set exactly when the policy denies.
abbrev pub Exact : CanonicalContext → List String → Policy → Type 0
Exact ctx ids p = contains p.id ids ≡ denies p ctx

Exact-cons :
    (ctx : CanonicalContext) (id : String) (ids : List String) (qs : List Policy)
    → All (λ q. str_eq id q.id ≡ false) qs
    → All (Exact ctx ids) qs
    → All (Exact ctx (id ∷ ids)) qs
Exact-cons ctx id ids [] h e = tt
Exact-cons ctx id ids (q ∷ qs) h e = (rw h.0 e.0, Exact-cons ctx id ids qs h.1 e.1)

pub blocked_ids-Exact :
    (ctx : CanonicalContext) (ps : List Policy)
    → Distinct ps
    → All (Exact ctx (blocked_ids ctx ps)) ps
blocked_ids-Exact ctx [] h = tt
blocked_ids-Exact ctx (p ∷ ps) h = elim (Bool-cases (denies p ctx)) [
  | inl d ↦
      let e : blocked_ids ctx (p ∷ ps) ≡ p.id ∷ blocked_ids ctx ps =
        rw (blocked_ids-cons ctx p ps) (rw d) in
      subst (λ ids. All (Exact ctx ids) (p ∷ ps)) (sym e)
        (
          ground (arith, eq_iff p.id p.id),
          Exact-cons ctx p.id (blocked_ids ctx ps) ps h.0 (blocked_ids-Exact ctx ps h.1),
        )
  | inr d ↦
      let e : blocked_ids ctx (p ∷ ps) ≡ blocked_ids ctx ps =
        rw (blocked_ids-cons ctx p ps) (rw d) in
      subst (λ ids. All (Exact ctx ids) (p ∷ ps)) (sym e)
        (rw d (not_blocked ctx p.id ps h.0), blocked_ids-Exact ctx ps h.1)
]

-- What the embedded evaluator does from `results`, told from the two lists of the other loop.
abbrev pub Follows :
    List EvaluationResult
    → List EvaluationResult × List EvaluationResult
    → Result (List EvaluationResult)
    → Type 0
Follows results (evaluation, []) r = r ≡ ok (results ++ evaluation)
Follows results (evaluation, first ∷ denied) r =
    (seen : List EvaluationResult) × (r ≡ raise (violation first.policy_id first.description seen))

Follows-append :
    (results : List EvaluationResult) (x : EvaluationResult)
    (lists : List EvaluationResult × List EvaluationResult) (r : Result (List EvaluationResult))
    → Follows (results ++ x ∷ []) lists r
    → Follows results (x ∷ lists.0, lists.1) r
Follows-append results x (evaluation, []) r h = h ∙ ap ok (append_assoc results (x ∷ []) evaluation)
Follows-append results x (evaluation, first ∷ denied) r h = h

pub evaluate_from-Follows :
    (ctx : CanonicalContext) (ids : List String) (results : List EvaluationResult)
    (ps : List Policy)
    → All (Exact ctx ids) ps
    → Follows results (apply_block ids ctx ps) (evaluate_from ctx results ps)
unfolding apply_block evaluate_from
evaluate_from-Follows ctx ids results [] h = ap ok (sym (append-nil results))
evaluate_from-Follows ctx ids results (p ∷ ps) h = elim (Bool-cases (denies p ctx)) [
  | inl d ↦ rw (h.0, d) (results ++ result_of p deny ∷ [], refl)
  | inr d ↦
      rw (h.0, d)
        (elim (Bool-cases (matches p ctx)) [
          | inl m ↦ rw m (
              Follows-append results (result_of p allow) (apply_block ids ctx ps) _
                (evaluate_from-Follows ctx ids (results ++ result_of p allow ∷ []) ps h.1))
          | inr m ↦ rw m (evaluate_from-Follows ctx ids results ps h.1)
        ])
]
