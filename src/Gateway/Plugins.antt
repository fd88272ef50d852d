-- ===== src/Gateway/Plugins.antt =====
-- The endpoints for the plugins of fastapi_backend/app/api/admin/gateway_plugins.py and the registration of a route.
use api_gateways.Base.{
  ℕ, Bool, true, false, ◌&&◌, ◌||◌, Option, none, some, List, [], ◌∷◌, ◌++◌, map, Text, codes,
  replace, to_lower, ◌==◌, if◌then◌else◌,
}
use mathlib.Core.List.{reverse}
use api_gateways.Gateway.Outcome.{Outcome, done, http, raised, ◌>>=◌}
use api_gateways.Gateway.Nested.{Leaf, Nested, Entries, flatten_dict, unflatten_dict}
use api_gateways.Gateway.Kong.{
  Field, absent, null, given, KongPlugin, KongService, Reply, kong_request, data_of,
}

pub data Scope : Type 0 where
  global_scope route_scope service_scope : Scope

pub record PluginInfo : Type 0 where
  pub id : Text
  pub name : Text
  pub enabled : Bool
  pub scope : Scope
  pub scope_target : Option Text
  pub config : List (Text × Leaf)
  pub created_at : Option ℕ

-- An `id` that is there and not empty.
abbrev pub target : Field (Option Text) → Option Text
target absent = none
target null = none
target (given none) = none
target (given (some [])) = none
target (given (some (c ∷ s))) = some (c ∷ s)

abbrev scope_of : Option Text → Option Text → Scope × Option Text
scope_of (some r) service = (route_scope, some r)
scope_of none (some s) = (service_scope, some s)
scope_of none none = (global_scope, none)

abbrev flat_config : Field Entries → List (Text × Leaf)
flat_config (given es) = flatten_dict es
flat_config null = []
flat_config absent = []

-- An item of `list_plugins`
unfoldable pub plugin_info : KongPlugin → PluginInfo
plugin_info p =
    let (scope, scope_target) = scope_of (target p.route) (target p.service) in
    record {
      id = p.id;
      name = p.name;
      enabled = p.enabled;
      scope = scope;
      scope_target = scope_target;
      config = flat_config p.config;
      created_at = p.created_at;
    }

-- `list_plugins`
unfoldable pub list_plugins : Reply (List KongPlugin) → Outcome (List PluginInfo)
unfolding plugin_info kong_request
list_plugins reply = kong_request reply >>= (λ plugins. done (map plugin_info (data_of plugins)))

pub record PluginApplyRequest : Type 0 where
  pub name : Text
  pub config : List (Text × Nested)
  pub route_id : Option Text
  pub service_id : Option Text
  pub enabled : Bool

pub record PluginPayload : Type 0 where
  pub name : Text
  pub config : Entries
  pub enabled : Bool
  pub route : Option Text
  pub service : Option Text

abbrev pub or_none : Option Text → Option Text
or_none none = none
or_none (some []) = none
or_none (some (c ∷ s)) = some (c ∷ s)

-- The payload of `apply_plugin`
unfoldable pub apply_payload : PluginApplyRequest → Outcome PluginPayload
apply_payload req = unflatten_dict req.config >>= (λ config. done (record {
  name = req.name;
  config = config;
  enabled = req.enabled;
  route = or_none req.route_id;
  service = or_none req.service_id;
}))

-- `apply_plugin`, where Kong answers the payload
unfoldable pub apply_plugin :
    {A : Type 0} → (PluginPayload → Reply A) → PluginApplyRequest → Outcome (Option A)
unfolding apply_payload kong_request
apply_plugin kong req = apply_payload req >>= (λ payload. kong_request (kong payload))

pub record PluginUpdateRequest : Type 0 where
  pub config : Option (List (Text × Nested))
  pub enabled : Option Bool

pub record PluginPatch : Type 0 where
  pub config : Option Entries
  pub enabled : Option Bool

abbrev patch_config : Option (List (Text × Nested)) → Outcome (Option Entries)
patch_config none = done none
patch_config (some flat) = unflatten_dict flat >>= (λ config. done (some config))

-- `update_plugin`
unfoldable pub update_plugin :
    {A : Type 0} → (Text → PluginPatch → Reply A) → Text → PluginUpdateRequest → Outcome (Option A)
unfolding kong_request
update_plugin kong plugin_id req = patch_config req.config >>= (λ config.
    kong_request (kong plugin_id (record { config = config; enabled = req.enabled })))

-- `delete_plugin`
unfoldable pub delete_plugin : {A : Type 0} → (Text → Reply A) → Text → Outcome (Option A)
unfolding kong_request
delete_plugin kong plugin_id = kong_request (kong plugin_id)

abbrev pub starts_with : Text → Text → Bool
starts_with s [] = true
starts_with [] (d ∷ t) = false
starts_with (c ∷ s) (d ∷ t) = c == d && starts_with s t

-- `t in s`
abbrev pub has_infix : Text → Text → Bool
has_infix t [] = starts_with [] t
has_infix t (c ∷ s) = starts_with (c ∷ s) t || has_infix t s

abbrev service_name : Field Text → Outcome Text
service_name absent = done []
service_name null = raised "AttributeError"
service_name (given name) = done name

-- The first service that looks like the backend.
unfoldable pub find_backend : List KongService → Outcome (Option Text)
find_backend [] = done none
find_backend (s ∷ services) =
    let rest = find_backend services in
    service_name s.name
    >>= (λ name. if has_infix (codes "fastapi") (map to_lower name) then done (some s.id) else rest)

abbrev first_id : List KongService → Option Text
first_id [] = none
first_id (s ∷ services) = some s.id

abbrev or_else : Option Text → Option Text → Option Text
or_else none fallback = fallback
or_else (some []) fallback = fallback
or_else (some (c ∷ s)) fallback = some (c ∷ s)

-- `target_service_id`: the given one, else the backend's, else the first
unfoldable pub target_service : Option Text → List KongService → Outcome (Option Text)
unfolding find_backend
target_service (some (c ∷ s)) services = done (some (c ∷ s))
target_service (some []) services =
    find_backend services >>= (λ found. done (or_else found (first_id services)))
target_service none services =
    find_backend services >>= (λ found. done (or_else found (first_id services)))

abbrev strip_slashes_left : Text → Text
strip_slashes_left [] = []
strip_slashes_left (c ∷ s) = let rest = strip_slashes_left s in if c == b'/' then rest else c ∷ s

-- `path.strip("/").replace("/", "-")`
unfoldable pub clean_path : Text → Text
unfolding replace
clean_path path =
    replace b'/' b'-' (reverse (strip_slashes_left (reverse (strip_slashes_left path))))

abbrev auto_name : Text → Text
auto_name [] = codes "auto-root"
auto_name (c ∷ s) = codes "auto-" ++ (c ∷ s)

pub record AutoRegisterRequest : Type 0 where
  pub path : Text
  pub methods : List Text
  pub name : Option Text
  pub service_id : Option Text

pub record RoutePayload : Type 0 where
  pub name : Text
  pub paths : List Text
  pub methods : List Text
  pub service : Text
  pub strip_path : Bool

abbrev route_name : Option Text → Text → Text
route_name none path = auto_name (clean_path path)
route_name (some []) path = auto_name (clean_path path)
route_name (some (c ∷ s)) path = c ∷ s

abbrev bound : Option Text → Outcome Text
bound none = http 400
bound (some []) = http 400
bound (some (c ∷ s)) = done (c ∷ s)

-- `auto_register`
unfoldable pub auto_register :
    {A : Type 0}
    → Reply (List KongService)
    → (RoutePayload → Reply A)
    → AutoRegisterRequest
    → Outcome (Option A)
unfolding kong_request target_service clean_path
auto_register services kong req = kong_request services >>= (λ list.
    target_service req.service_id (data_of list) >>= (λ found. bound found >>= (λ service.
      kong_request (
        kong (record {
          name = route_name req.name req.path;
          paths = req.path ∷ [];
          methods = req.methods;
          service = service;
          strip_path = false;
        })))))
