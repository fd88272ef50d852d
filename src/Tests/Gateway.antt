-- ===== src/Tests/Gateway.antt =====
-- Runs of the gateway's administration and admission, and their theorems at concrete inputs.
use mathlib.Core.List.{Perm}
use api_gateways.Base.{
  ℕ, ◌*◌, ◌/◌, true, Option, none, some, List, [], ◌∷◌, ◌++◌, Text, codes, text_eq, ◌≡◌, ◌≢◌, ◌⊎◌,
  refl, arith, map, length, All,
}
use api_gateways.Gateway.Outcome.{Outcome, done, http, raised}
use api_gateways.Gateway.Nested.{
  text, other, leaf, dict, Entries, end, entry, flatten_dict, unflatten_dict,
}
use api_gateways.Gateway.Nested
use api_gateways.Gateway.Nested.Paths.{IsConfig}
use api_gateways.Gateway.Nested.RoundTrip.{as_values, unflatten_dict-flatten_dict}
use api_gateways.Gateway.Kong.{absent, null, given, KongRoute, KongPlugin, answered}
use api_gateways.Gateway.Plugins
use api_gateways.Gateway.Discovery
use api_gateways.Gateway.Discovery.{ApiPath, Report, route_discovery}
use api_gateways.Gateway.Discovery.Sorted.{IsSorted}
use api_gateways.Gateway.Discovery.Listed.{IsListed, Leftover}
use api_gateways.Gateway.Discovery.Reports.{route_discovery_lem}
use api_gateways.Gateway.Admission.{
  Response, Signed, Provided, gateway_compute_signature, gateway_verify_signature,
  gateway_canonical_string,
}
use api_gateways.Gateway.Admission.Laws.{signature-binds}
use api_gateways.Gateway.Tokens.{RsaKey, User, get_current_user, require_admin}
use api_gateways.Gateway.Tokens.Laws.{Answer, get_current_user_lem, rotated_keys}

-- A limit with a nested Redis.
abbrev config : Entries
config = entry (codes "minute") (leaf (other 5)) (
    entry (codes "redis")
      (dict (
        entry (codes "host") (leaf (text (codes "cache")))
          (entry (codes "port") (leaf (other 6379)) end)))
      (entry (codes "policy") (leaf (text (codes "local"))) end))

flat_config :
    flatten_dict config
    ≡ (codes "minute", other 5)
      ∷ (codes "redis.host", text (codes "cache"))
      ∷ (codes "redis.port", other 6379)
      ∷ (codes "policy", text (codes "local"))
      ∷ []
unfolding flatten_dict text_eq
flat_config = refl

config-IsConfig : IsConfig config
unfolding Nested.find text_eq
config-IsConfig = ground arith

unflatten_dict-flatten_dict_example : unflatten_dict (as_values (flatten_dict config)) ≡ done config
unflatten_dict-flatten_dict_example = unflatten_dict-flatten_dict config config-IsConfig

-- A value that is no dictionary stands where a dictionary is needed.
prefix_clash :
    unflatten_dict ((codes "a", leaf (other 1)) ∷ (codes "a.b", leaf (other 2)) ∷ [])
    ≡ raised "TypeError"
unfolding unflatten_dict text_eq
prefix_clash = refl

empty_skipped : unflatten_dict ((codes "a", leaf (text [])) ∷ []) ≡ done end
unfolding unflatten_dict
empty_skipped = refl

abbrev routes : List KongRoute
routes =
    record { id = codes "r1"; name = given (codes "ai"); paths = given (codes "/ai" ∷ []) }
    ∷ record { id = codes "r2"; name = absent; paths = given (codes "/health" ∷ []) }
    ∷ []

abbrev plugins : List KongPlugin
plugins =
    record {
      id = codes "p1";
      name = codes "cors";
      enabled = true;
      route = given (some (codes "r1"));
      service = null;
      config = given config;
      created_at = none;
    }
    ∷ []

abbrev api : List ApiPath
api =
    record { path = codes "/ai/request"; methods = codes "post" ∷ [] }
    ∷ record { path = codes "/metrics"; methods = codes "get" ∷ [] }
    ∷ []

abbrev percent : ℕ → ℕ → ℕ
percent a b = a * 100 / b

routes_have_paths : All Discovery.Reports.HasPaths routes
routes_have_paths = ground arith

route_discovery_lem_example :
    (r : Report) × (route_discovery percent api
        (answered 200 (some routes))
        (answered 200 (some plugins))
      ≡ done r)
    × All (IsListed routes plugins) r.paths
    × Perm (map (λ p. p.path) r.paths) (map (λ fp. fp.path) api)
    × IsSorted r.paths
    × (r.total_backend_paths ≡ length api)
    × (r.total_kong_routes ≡ length routes)
    × (r.coverage_percent ≡ Discovery.Reports.share percent api routes plugins r.paths)
    × Leftover plugins r.paths routes r.kong_only_routes
route_discovery_lem_example = route_discovery_lem percent api routes plugins routes_have_paths

abbrev by_host : KongRoute
by_host = record { id = codes "r0"; name = absent; paths = null }

auto_named : Plugins.clean_path (codes "/api/admin/metrics/") ≡ codes "api-admin-metrics"
unfolding Plugins.clean_path
auto_named = refl

-- A code that is the text itself.
abbrev plain_mac : Text → Text → Text
plain_mac secret message = secret ++ message

abbrev signed : Signed
signed = record {
  method = codes "GET";
  path = codes "/a";
  timestamp = codes "1";
  nonce = codes "n";
}

-- A bar in a path moves the bounds of the parts.
moved_bar :
    gateway_canonical_string
      (record signed { path = codes "/a|1"; timestamp = codes "n"; nonce = codes "x" })
    ≡ gateway_canonical_string (record signed { nonce = codes "n|x" })
unfolding gateway_canonical_string
moved_bar = refl

verified :
    gateway_verify_signature plain_mac
      (codes "k")
      signed
      (Provided.text (gateway_compute_signature plain_mac (codes "k") signed))
    ≡ done true
unfolding gateway_verify_signature text_eq
verified = refl

signature-binds_example :
    (signed ≡ signed)
    ⊎ ((gateway_canonical_string signed ≢ gateway_canonical_string signed)
        × (plain_mac (codes "k") (gateway_canonical_string signed)
            ≡ plain_mac (codes "k") (gateway_canonical_string signed)))
signature-binds_example =
    signature-binds plain_mac (codes "k") signed signed (ground arith) (ground arith) (ground arith)
      (ground arith) (ground arith) (ground arith) verified

abbrev answer : Response
answer = record {
  status_code = 200;
  headers = ("x-frame-options", codes "ALLOW") ∷ ("content-type", codes "json") ∷ [];
}

abbrev key : Text → RsaKey
key kid = record { kid = some kid; n = codes "n"; e = codes "e" }

abbrev admin : User
admin = record { sub = codes "u"; realm_access = given (some (codes "admin" ∷ [])) }

-- A token is its `kid`.
abbrev kid_of : Text → Outcome (Option Text)
kid_of token = done (some token)

abbrev decode : Text → RsaKey → Outcome User
decode token k = done admin

get_current_user_lem_example :
    Answer kid_of decode (done (key (codes "a") ∷ key (codes "b") ∷ [])) none (codes "b") (
      get_current_user kid_of decode
        (done (key (codes "a") ∷ key (codes "b") ∷ []))
        (codes "b")
        none)
get_current_user_lem_example =
    get_current_user_lem kid_of decode (done (key (codes "a") ∷ key (codes "b") ∷ [])) (codes "b")
      none

rotated_keys_example :
    ((get_current_user kid_of decode
        (done (key (codes "b") ∷ []))
        (codes "b")
        (some (key (codes "a") ∷ []))).1
      ≡ http 401)
    × (get_current_user kid_of decode
          (done (key (codes "b") ∷ []))
          (codes "b")
          (get_current_user kid_of decode
            (done (key (codes "b") ∷ []))
            (codes "b")
            (some (key (codes "a") ∷ []))).0
        ≡ (some (key (codes "b") ∷ []), done admin))
unfolding api_gateways.Gateway.Tokens.find_key text_eq
rotated_keys_example =
    rotated_keys kid_of decode (key (codes "a") ∷ []) (key (codes "b") ∷ []) (codes "b")
      (some (codes "b")) (key (codes "b")) admin refl refl refl refl

admin_passes : require_admin admin ≡ done admin
unfolding require_admin text_eq
admin_passes = refl
