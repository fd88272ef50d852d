-- ===== src/Admin/Metrics/Laws.antt =====
-- What the counts of the dashboard come to over the requests of the pipeline.
use api_gateways.Base.{
  ℕ, String, true, false, List, [], ◌∷◌, str_eq, contains, ◌≡◌, inl, inr, refl, arith, Bool-cases,
  eq_iff, subst, All,
}
use api_gateways.Pipeline.World.{World, RequestRow}
use api_gateways.Pipeline.Lifecycle.{Reach}
use api_gateways.Pipeline.Lifecycle.Rows.{IsRow, AreRows, open_states, closed_states}
use api_gateways.Pipeline.Lifecycle.Laws.{Reach-AreRows}
use api_gateways.Admin.Metrics.{count, get_dashboard_metrics}

IsRow-status :
    (s : String) (r : RequestRow)
    → contains s open_states ≡ false
    → contains s closed_states ≡ false
    → IsRow r
    → str_eq r.status s ≡ false
IsRow-status s r o c h = elim (Bool-cases (str_eq r.status s)) [
  | inr differ ↦ differ
  | inl same ↦
      let e = (eq_iff r.status s).0 same in
      elim h [
        | inl x ↦ absurd (ground (arith, subst (λ k. contains k open_states ≡ true) e x))
        | inr x ↦ absurd (ground (arith, subst (λ k. contains k closed_states ≡ true) e x.0))
      ]
]

count-status :
    (s : String) (rows : List RequestRow)
    → contains s open_states ≡ false
    → contains s closed_states ≡ false
    → All IsRow rows
    → count (λ r. str_eq r.status s) rows ≡ 0
count-status s [] o c h = refl
count-status s (r ∷ rows) o c h = rw (IsRow-status s r o c h.0) (count-status s rows o c h.1)

-- However many requests the checks refuse, the dashboard counts none of them as blocked: over every table that the pipeline can reach from one whose rows are in its states, the count of the rows with the status "denied" is 0.
pub blocked_count-zero :
    (v w : World) (yesterday : ℕ)
    → Reach v w
    → AreRows v
    → (get_dashboard_metrics yesterday w).blocked_count ≡ 0
unfolding get_dashboard_metrics
blocked_count-zero v w yesterday r h =
    count-status "denied" w.requests refl refl (Reach-AreRows v w r h)
