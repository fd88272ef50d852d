-- ===== src/Admin/Score/Laws.antt =====
-- What the score of the dashboard is made of.
use api_gateways.Base.{
  ℕ, String, Bool, true, false, Option, none, some, List, ◌+◌, ◌≤◌, leb, leb→le, ◌==◌,
  if◌then◌else◌, ◌≡◌, ◌≢◌, ◌↔◌, refl, arith, Bool-cases, eq_iff, inl, inr,
}
use Prim.Native.Nat.{min}
use api_gateways.Admin.Score.{
  SecurityPattern, Event, KongReply, unreachable, answered, active_names, bonus, plugin_points,
  kong_points, get_security_score, defense_points, pattern_points, grade_of,
}

bonus_bound : (name : String) (names : List String) → bonus name names ≤ 10
bonus_bound name names = ground arith

plugin_points_bound : (o : Option (List String)) → plugin_points o ≤ 50
plugin_points_bound none = omega arith
plugin_points_bound (some names) = omega (
  arith,
  bonus_bound "rate-limiting" names,
  bonus_bound "ip-restriction" names,
  bonus_bound "cors" names,
)

kong_points_bound : (reply : KongReply) → kong_points reply ≤ 50
unfolding kong_points
kong_points_bound unreachable = omega arith
kong_points_bound (answered status none) = omega arith
kong_points_bound (answered status (some plugins)) = elim (Bool-cases (status == 200)) [
  | inl found ↦ rw found (plugin_points_bound (active_names plugins))
  | inr other ↦ rw other (omega arith)
]

module _ (fifth_of_rate : ℕ → ℕ → ℕ) where
  defense_points_bound :
      (day_ago : ℕ) (es : List Event) → defense_points fifth_of_rate day_ago es ≤ 20
  unfolding defense_points
  defense_points_bound day_ago es = ground arith

  not_excellent : (b : Bool) → ◌≢◌ {A = String} (if b then "MODERATE" else "CRITICAL") "EXCELLENT"
  not_excellent true e = absurd (ground (arith, (eq_iff "MODERATE" "EXCELLENT").1 e))
  not_excellent false e = absurd (ground (arith, (eq_iff "CRITICAL" "EXCELLENT").1 e))

  grade_of-excellent : (n : ℕ) → (grade_of fifth_of_rate n ≡ "EXCELLENT") ↔ (80 ≤ n)
  grade_of-excellent n = elim (Bool-cases (leb 80 n)) [
    | inl high ↦ rw high ((λ e. leb→le 80 n high), (λ h. refl))
    | inr low ↦
        rw low ((λ e. absurd (not_excellent (leb 50 n) e)), (λ h. absurd (ground (arith, h, low))))
  ]

  low_sum : (n : ℕ) → n ≤ 50 → grade_of fifth_of_rate n ≢ "EXCELLENT"
  low_sum n h e = absurd (omega (arith, h, (grade_of-excellent n).0 e))

  -- The score lies between 10 and 100 and is the sum of its four parts, of which none passes its maximum (20, 50, 10 and 20): neither the limit of the sum nor that of Kong's part ever cuts anything off. It is graded "EXCELLENT" exactly from 80 on, and without an answer of Kong it never is.
  pub get_security_score_lem :
      (day_ago : ℕ) (ps : List SecurityPattern) (reply : KongReply) (es : List Event)
      → let s = get_security_score fifth_of_rate day_ago ps reply es in
        (s.score
          ≡ s.breakdown.ai_patterns + s.breakdown.kong_edge + s.breakdown.pii_redaction
            + s.breakdown.threat_defense)
        × (s.breakdown.kong_edge ≡ kong_points reply)
        × (s.breakdown.ai_patterns ≤ 20)
        × (s.breakdown.threat_defense ≤ 20)
        × (10 ≤ s.score)
        × (s.score ≤ 100)
        × ((s.grade ≡ "EXCELLENT") ↔ (80 ≤ s.score))
        × ((get_security_score fifth_of_rate day_ago ps unreachable es).grade ≢ "EXCELLENT")
  unfolding get_security_score kong_points
  get_security_score_lem day_ago ps reply es =
      let k = kong_points_bound reply in
      let d = defense_points_bound day_ago es in
      (
        omega (arith, k, d),
        omega (arith, k),
        omega arith,
        d,
        omega arith,
        omega arith,
        grade_of-excellent _,
        low_sum
            (min 100 (pattern_points ps + min 50 0 + 10 + defense_points fifth_of_rate day_ago es))
            (omega (arith, d)),
      )
