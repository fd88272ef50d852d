-- ===== src/Admin/Metrics.antt =====
-- fastapi_backend/app/api/admin/metrics.py: what the dashboard counts in `ai_requests`. The success rate, a `float`,
-- the groups per intent, service and tenant and the latency are left out.
pub mod Laws
use api_gateways.Base.{
  ℕ, String, Bool, true, false, not, Option, none, some, List, [], ◌∷◌, ◌+◌, leb, ◌&&◌, str_eq,
  length, filter,
}
use api_gateways.Pipeline.World.{World, RequestRow}

-- `select(func.count()).where(p)`
abbrev pub count : (RequestRow → Bool) → List RequestRow → ℕ
count p rows = length (filter p rows)

-- Upgraded: `sensitivity != resolved_sensitivity`, where the latter is not null
abbrev pub is_upgraded : RequestRow → Bool
is_upgraded r = elim r.resolved_sensitivity [
  | none ↦ false
  | some level ↦ not (str_eq r.sensitivity level)
]

pub record Metrics : Type 0 where
  pub total_24h : ℕ
  pub successes_24h : ℕ
  pub blocked_count : ℕ
  pub pii_upgrades : ℕ

-- The queries of `get_dashboard_metrics`, from `yesterday` on where it says so.
unfoldable pub get_dashboard_metrics : ℕ → World → Metrics
get_dashboard_metrics yesterday w = record {
  total_24h = count (λ r. leb yesterday r.started_at) w.requests;
  successes_24h = count (λ r. leb yesterday r.started_at && str_eq r.status "completed") w.requests;
  blocked_count = count (λ r. str_eq r.status "denied") w.requests;
  pii_upgrades = count is_upgraded w.requests;
}
