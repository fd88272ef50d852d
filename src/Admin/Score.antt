-- ===== src/Admin/Score.antt =====
-- fastapi_backend/app/api/admin/security_events_admin.py: `get_security_score`, from the tables and Kong's list of plugins.
-- `int((blocked / total) * 100 / 5)`, computed on `float`s, is an argument.
pub mod Laws
use api_gateways.Base.{
  ℕ, String, Bool, true, false, Option, none, some, List, [], ◌∷◌, ◌+◌, ◌*◌, leb, ◌==◌, ◌&&◌,
  str_eq, length, filter, contains, if◌then◌else◌, map,
}
use Prim.Native.Nat.{min}

-- A row of `security_patterns` and one of `security_events`, by what is read.
pub record SecurityPattern : Type 0 where
  pub is_active : Bool

pub record Event : Type 0 where
  pub created_at : ℕ
  pub decision : String

-- A plugin as Kong lists it.
pub record Listed : Type 0 where
  pub name : Option String
  pub enabled : Option Bool

-- No answer, or a status and the `data` of the body, none where the body is not such a list.
pub data KongReply : Type 0 where
  unreachable : KongReply
  answered : ℕ → Option (List Listed) → KongReply

abbrev or_true : Option Bool → Bool
or_true none = true
or_true (some b) = b

abbrev add_name : Option String → Option (List String) → Option (List String)
add_name none rest = none
add_name (some name) none = none
add_name (some name) (some names) = some (name ∷ names)

-- `[p["name"] for p in plugins if p.get("enabled", True)]`; none where a name is missing
unfoldable pub active_names : List Listed → Option (List String)
active_names [] = some []
active_names (p ∷ ps) =
    let rest = active_names ps in if or_true p.enabled then add_name p.name rest else rest

abbrev pub bonus : String → List String → ℕ
bonus name names = if contains name names then 10 else 0

-- The points of the plugins, before the limit.
abbrev pub plugin_points : Option (List String) → ℕ
plugin_points none = 0
plugin_points (some names) =
    min 20 (length names * 5)
    + bonus "rate-limiting" names
    + bonus "ip-restriction" names
    + bonus "cors" names

-- The `try` block; an exception leaves the points as they were, at 0.
unfoldable pub kong_points : KongReply → ℕ
unfolding active_names
kong_points unreachable = 0
kong_points (answered status none) = 0
kong_points (answered status (some plugins)) =
    if status == 200 then plugin_points (active_names plugins) else 0

-- The breakdown, by its points.
pub record Breakdown : Type 0 where
  pub ai_patterns : ℕ
  pub kong_edge : ℕ
  pub pii_redaction : ℕ
  pub threat_defense : ℕ

pub record SecurityScore : Type 0 where
  pub score : ℕ
  pub grade : String
  pub breakdown : Breakdown

abbrev pub pattern_points : List SecurityPattern → ℕ
pattern_points ps = min 20 (length (filter (λ p. p.is_active) ps) * 2)

module _ (fifth_of_rate : ℕ → ℕ → ℕ) where
  -- "Recent attack defense"
  unfoldable pub defense_points : ℕ → List Event → ℕ
  defense_points day_ago es =
      let total = length (filter (λ e. leb day_ago e.created_at) es) in
      let blocked =
        length (filter (λ e. leb day_ago e.created_at && str_eq e.decision "blocked") es) in
      if total == 0 then 20 else min 20 (fifth_of_rate blocked total)

  abbrev pub breakdown_of : ℕ → List SecurityPattern → KongReply → List Event → Breakdown
  breakdown_of day_ago ps reply es = record {
    ai_patterns = pattern_points ps;
    kong_edge = min 50 (kong_points reply);
    pii_redaction = 10;
    threat_defense = defense_points day_ago es;
  }

  abbrev pub grade_of : ℕ → String
  grade_of score =
      if leb 80 score then "EXCELLENT" else if leb 50 score then "MODERATE" else "CRITICAL"

  -- `get_security_score`
  unfoldable pub get_security_score :
      ℕ → List SecurityPattern → KongReply → List Event → SecurityScore
  unfolding kong_points defense_points
  get_security_score day_ago ps reply es =
      let b = breakdown_of day_ago ps reply es in
      let score = min 100 (b.ai_patterns + b.kong_edge + b.pii_redaction + b.threat_defense) in
      record { score = score; grade = grade_of score; breakdown = b }
