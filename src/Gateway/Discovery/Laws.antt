-- ===== src/Gateway/Discovery/Laws.antt =====
-- What `route_discovery` of gateway_plugins.py reports.
use api_gateways.Base.{
  Bool, true, false, Option, none, some, List, [], ◌∷◌, map, any, Text, text_eq, ◌≡◌, refl, ap₂,
  arith,
}
use api_gateways.Gateway.Outcome.{done, >>=-eq-done, done-inj}
use api_gateways.Gateway.Kong.{Field, absent, null, given, KongRoute, KongPlugin}
use api_gateways.Gateway.Plugins.{starts_with}
use api_gateways.Gateway.Discovery.{
  ApiPath, PathInfo, matches, find_kong_route, path_info, cross_reference,
}

-- Some path of the routes is a prefix of the path.
abbrev pub is_prefixed : Text → Field (List Text) → Bool
is_prefixed path (given ps) = any (λ kp. starts_with path kp) ps
is_prefixed path null = false
is_prefixed path absent = false

abbrev pub is_served : List KongRoute → Text → Bool
is_served routes path = any (λ kr. is_prefixed path kr.paths) routes

starts_with-eq : (s t : Text) → text_eq s t ≡ true → starts_with s t ≡ true
unfolding text_eq
starts_with-eq [] [] h = refl
starts_with-eq [] (d ∷ t) h = absurd (ground arith)
starts_with-eq (c ∷ s) [] h = refl
starts_with-eq (c ∷ s) (d ∷ t) h = ground (arith, starts_with-eq s t)

pub matches-prefix :
    (path : Text) (ps : List Text) → matches path ps ≡ any (λ kp. starts_with path kp) ps
matches-prefix path [] = refl
matches-prefix path (p ∷ ps) = ground (arith, starts_with-eq path p, matches-prefix path ps)

path_info-path :
    (plugins : List KongPlugin) (fp : ApiPath) (o : Option KongRoute)
    → (path_info plugins fp o).path ≡ fp.path
unfolding path_info
path_info-path plugins fp none = refl
path_info-path plugins fp (some kr) = refl

-- The results are those of the paths, in their order.
pub cross_reference-path :
    (routes : List KongRoute) (plugins : List KongPlugin) (api : List ApiPath)
    (infos : List PathInfo)
    → cross_reference routes plugins api ≡ done infos
    → map (λ r. r.path) infos ≡ map (λ fp. fp.path) api
unfolding cross_reference
cross_reference-path routes plugins [] infos h = rw (← done-inj h) refl
cross_reference-path routes plugins (fp ∷ fps) infos h =
    let (o, found, e) = >>=-eq-done (find_kong_route fp.path routes) _ h in
    let (rest, later, last) = >>=-eq-done (cross_reference routes plugins fps) _ e in
    rw (← done-inj last) (
      ap₂ (λ x xs. x ∷ xs) (path_info-path plugins fp o)
        (cross_reference-path routes plugins fps rest later))
