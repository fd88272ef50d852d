-- ===== src/Tests/Admin.antt =====
-- Runs of the endpoints for administrators, and their theorems at concrete inputs.
use api_gateways.Base.{
  ℕ, true, false, none, some, List, [], ◌∷◌, ◌+◌, ◌*◌, ◌/◌, ◌≤◌, ◌≡◌, ◌≢◌, ◌↔◌, refl, lookup,
  Distinct,
}
use api_gateways.Quota.{QuotaFile, load_quotas, get_tenant_config, check_quota}
use api_gateways.Pipeline.World.{World}
use api_gateways.Pipeline.Lifecycle.{Reach, here, next, stream}
use api_gateways.Pipeline.Lifecycle.Rows.{AreRows}
use api_gateways.Pipeline.Lifecycle.Laws.{Reach-AreRows}
use api_gateways.Pipeline.Submit.{Answers, submit_stream}
use api_gateways.Pipeline.Provider.{GeminiReply, exhausted}
use api_gateways.Admin.Quotas.{
  QuotaUpdate, QuotaAdmin, stored, entry_of, updated_file, update_tenant_quota,
}
use api_gateways.Admin.Quotas.Laws.{update_tenant_quota-config, is_active_ignored}
use api_gateways.Admin.Metrics.{get_dashboard_metrics}
use api_gateways.Admin.Metrics.Laws.{blocked_count-zero}
use api_gateways.Admin.Score.{
  SecurityPattern, Event, KongReply, unreachable, answered, get_security_score, kong_points,
}
use api_gateways.Admin.Score.Laws.{get_security_score_lem}
use api_gateways.Tests.Data.{services, outside, world, user, asking}

-- The quota file of two tenants.
abbrev file : QuotaFile
file = record {
  tenants =
      ("acme", record { max_tokens = some 1000; reset_period = none; is_active = none })
      ∷ ("beta", record { max_tokens = some 10; reset_period = none; is_active = none })
      ∷ [];
  defaults = none;
}

abbrev quota_admin : QuotaAdmin
quota_admin = record { source = stored file; service = load_quotas (some file) }

abbrev more : QuotaUpdate
more = record { max_tokens = 50; reset_period = "daily"; is_active = true }

file-Distinct : Distinct file.tenants
unfolding lookup
file-Distinct = (refl, (refl, tt))

update_tenant_quota-config_example :
    (get_tenant_config (update_tenant_quota "beta" more quota_admin).0.service "beta"
      ≡ entry_of more)
    × ((update_tenant_quota "beta" more quota_admin).0.source
        ≡ stored (updated_file "beta" more file))
    × Distinct (updated_file "beta" more file).tenants
update_tenant_quota-config_example =
    update_tenant_quota-config file file-Distinct "beta" quota_admin refl more "beta"

is_active_ignored_example :
    check_quota
      (λ n. "2026-05-12")
      (update_tenant_quota "beta" (record more { is_active = false }) quota_admin).0.service
      5
      "beta"
      []
    ≡ check_quota
        (λ n. "2026-05-12")
        (update_tenant_quota "beta" (record more { is_active = true }) quota_admin).0.service
        5
        "beta"
        []
is_active_ignored_example =
    is_active_ignored file file-Distinct "beta" quota_admin refl more "beta" (λ n. "2026-05-12") 5
      []

-- The providers of a stream that Ollama ends at once.
abbrev answers : Answers
answers = record {
  status_error = λ n. "";
  gemini = GeminiReply.no_connection "";
  ollama_lines = [];
  ollama_end = exhausted;
}

-- A request that the shield refuses.
abbrev attacked : World
attacked = (submit_stream services outside answers user (asking "jailbreak") world).0

attack-Reach : Reach world attacked
attack-Reach = next here (stream world services outside answers user (asking "jailbreak"))

Reach-AreRows_example : AreRows attacked
Reach-AreRows_example = Reach-AreRows world attacked attack-Reach tt

blocked_count-zero_example : (get_dashboard_metrics 0 attacked).blocked_count ≡ 0
blocked_count-zero_example = blocked_count-zero world attacked 0 attack-Reach tt

abbrev fifth : ℕ → ℕ → ℕ
fifth blocked total = blocked * 100 / total / 5

abbrev patterns : List SecurityPattern
patterns = record { is_active = true } ∷ record { is_active = false } ∷ []

abbrev events : List Event
events =
    record { created_at = 7; decision = "blocked" }
    ∷ record { created_at = 8; decision = "allowed" }
    ∷ []

abbrev kong : KongReply
kong = answered 200 (some (record { name = some "cors"; enabled = none } ∷ []))

points : (get_security_score fifth 5 patterns kong events).score ≡ 37
unfolding get_security_score
points = refl

get_security_score_lem_example :
    let s = get_security_score fifth 5 patterns kong events in
    (s.score
      ≡ s.breakdown.ai_patterns + s.breakdown.kong_edge + s.breakdown.pii_redaction
        + s.breakdown.threat_defense)
    × (s.breakdown.kong_edge ≡ kong_points kong)
    × (s.breakdown.ai_patterns ≤ 20)
    × (s.breakdown.threat_defense ≤ 20)
    × (10 ≤ s.score)
    × (s.score ≤ 100)
    × ((s.grade ≡ "EXCELLENT") ↔ (80 ≤ s.score))
    × ((get_security_score fifth 5 patterns unreachable events).grade ≢ "EXCELLENT")
get_security_score_lem_example = get_security_score_lem fifth 5 patterns kong events
