-- ===== src/Gateway/Discovery.antt =====
-- `route_discovery` of fastapi_backend/app/api/admin/gateway_plugins.py: the paths of the backend against the routes
-- of Kong. The tags of a path, which Python gives in no fixed order, are left out; `int((a / b) * 100)` is an argument.
pub mod Laws
pub mod Routes
pub mod Sorted
pub mod Listed
pub mod Reports
use api_gateways.Base.{
  ℕ, zero, suc, String, Bool, true, false, not, ◌&&◌, ◌||◌, Option, none, some, List, [], ◌∷◌, ◌++◌,
  map, any, filter, length, Text, text_eq, text_in, to_upper, ◌==◌, ltb, if◌then◌else◌,
}
use api_gateways.Gateway.Outcome.{Outcome, done, http, raised, ◌>>=◌}
use api_gateways.Gateway.Kong.{
  Field, absent, null, given, KongRoute, KongPlugin, Reply, kong_request, data_of,
}
use api_gateways.Gateway.Plugins.{starts_with}

-- An item of `openapi_schema["paths"]`: the path and the keys of its methods.
pub record ApiPath : Type 0 where
  pub path : Text
  pub methods : List Text

pub data Status : Type 0 where
  exposed registered protected : Status

pub record PathInfo : Type 0 where
  pub path : Text
  pub methods : List Text
  pub status : Status
  pub kong_route : Option Text
  pub kong_route_id : Option Text
  pub plugins : List Text

abbrev pub on_route : Text → Field (Option Text) → Bool
on_route id (given (some rid)) = text_eq rid id
on_route id (given none) = false
on_route id null = false
on_route id absent = false

-- `plugins_by_route.get(id, [])`
unfoldable pub plugins_of : Text → List KongPlugin → List KongPlugin
plugins_of id plugins = filter (λ p. on_route id p.route) plugins

-- `kr.get("paths", [])`, over which the code iterates
abbrev pub route_paths : Field (List Text) → Outcome (List Text)
route_paths absent = done []
route_paths null = raised "TypeError"
route_paths (given ps) = done ps

abbrev pub matches : Text → List Text → Bool
matches path = any (λ kp. starts_with path kp || text_eq path kp)

-- `find_kong_route`
unfoldable pub find_kong_route : Text → List KongRoute → Outcome (Option KongRoute)
find_kong_route path [] = done none
find_kong_route path (kr ∷ routes) =
    let rest = find_kong_route path routes in
    route_paths kr.paths >>= (λ ps. if matches path ps then done (some kr) else rest)

-- `kr.get("name", kr["id"])`
abbrev pub name_or_id : KongRoute → Option Text
name_or_id kr = elim kr.name [ absent ↦ some kr.id | null ↦ none | given name ↦ some name ]

abbrev pub status_of : List Text → Status
status_of [] = registered
status_of (p ∷ ps) = protected

-- An item of `results`
unfoldable pub path_info : List KongPlugin → ApiPath → Option KongRoute → PathInfo
path_info plugins fp none = record {
  path = fp.path;
  methods = map (map to_upper) (fp.methods);
  status = exposed;
  kong_route = none;
  kong_route_id = none;
  plugins = [];
}
path_info plugins fp (some kr) =
    let names : List Text = map (λ p. p.name) (plugins_of kr.id plugins) in
    record {
      path = fp.path;
      methods = map (map to_upper) (fp.methods);
      status = status_of names;
      kong_route = name_or_id kr;
      kong_route_id = some kr.id;
      plugins = names;
    }

-- The loop over the paths.
unfoldable pub cross_reference :
    List KongRoute → List KongPlugin → List ApiPath → Outcome (List PathInfo)
unfolding find_kong_route path_info plugins_of
cross_reference routes plugins [] = done []
cross_reference routes plugins (fp ∷ fps) = find_kong_route fp.path routes >>= (λ kr.
    cross_reference routes plugins fps >>= (λ infos. done (path_info plugins fp kr ∷ infos)))

pub record KongOnly : Type 0 where
  pub id : Text
  pub name : Option Text
  pub plugins : List Text

abbrev pub is_matched : Text → List PathInfo → Bool
is_matched id = any (λ r. elim r.kong_route_id [ none ↦ false | some rid ↦ text_eq rid id ])

unfoldable pub kong_only : List PathInfo → List KongPlugin → List KongRoute → List KongOnly
unfolding plugins_of
kong_only infos plugins routes =
    map
      (λ kr. record {
        id = kr.id;
        name = name_or_id kr;
        plugins = map (λ p. p.name) (plugins_of kr.id plugins);
      })
      (filter (λ kr. not (is_matched kr.id infos)) routes)

abbrev pub is_covered : PathInfo → Bool
is_covered r = elim r.status [ exposed ↦ false | registered ↦ true | protected ↦ true ]

abbrev pub order : Status → ℕ
order exposed = 0
order registered = 1
order protected = 2

-- `<=` on texts
unfoldable pub text_le : Text → Text → Bool
text_le [] t = true
text_le (c ∷ s) [] = false
text_le (c ∷ s) (d ∷ t) = ltb c d || (c == d && text_le s t)

-- The key of the sort.
abbrev pub info_le : PathInfo → PathInfo → Bool
info_le r q =
    ltb (order r.status) (order q.status)
    || (order r.status == order q.status && text_le r.path q.path)

-- `results.sort(key=…)`, which is stable
unfoldable pub insert_info : PathInfo → List PathInfo → List PathInfo
unfolding text_le
insert_info r [] = r ∷ []
insert_info r (q ∷ qs) = if info_le r q then r ∷ q ∷ qs else q ∷ insert_info r qs

unfoldable pub sort_infos : List PathInfo → List PathInfo
unfolding insert_info
sort_infos [] = []
sort_infos (r ∷ rs) = insert_info r (sort_infos rs)

pub record Report : Type 0 where
  pub total_backend_paths : ℕ
  pub total_kong_routes : ℕ
  pub coverage_percent : ℕ
  pub paths : List PathInfo
  pub kong_only_routes : List KongOnly

module _ (percent : ℕ → ℕ → ℕ) where
  unfoldable pub coverage : List PathInfo → ℕ
  coverage [] = 0
  coverage (r ∷ rs) = percent (length (filter is_covered (r ∷ rs))) (length (r ∷ rs))

  abbrev pub report : List KongRoute → List KongPlugin → List PathInfo → Report
  report routes plugins results = record {
    total_backend_paths = length results;
    total_kong_routes = length routes;
    coverage_percent = coverage results;
    paths = sort_infos results;
    kong_only_routes = kong_only results plugins routes;
  }

  -- `route_discovery`
  unfoldable pub route_discovery :
      List ApiPath → Reply (List KongRoute) → Reply (List KongPlugin) → Outcome Report
  unfolding kong_request cross_reference kong_only coverage sort_infos
  route_discovery api routes plugins = kong_request routes >>= (λ rs.
      kong_request plugins >>= (λ ps.
        cross_reference (data_of rs) (data_of ps) api
        >>= (λ results. done (report (data_of rs) (data_of ps) results))))
