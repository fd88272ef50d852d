-- ===== src/Gateway/Discovery/Reports.antt =====
-- The report of `route_discovery` of gateway_plugins.py as a whole.
use mathlib.Core.List.Perm
use mathlib.Core.List.{Perm}
use api_gateways.Base.{
  ℕ, suc, false, ◌||◌, Option, none, some, List, [], ◌∷◌, ◌++◌, map, length, Text, if◌then◌else◌,
  ◌≡◌, ◌≢◌, refl, ap, ap₂, sym, ◌∙◌, arith, All, Bool-cases, inl, inr, ◌⊎◌,
}
use api_gateways.Gateway.Outcome.{done, raised, ◌>>=◌}
use api_gateways.Gateway.Kong.{Field, absent, null, given, KongRoute, KongPlugin, answered}
use api_gateways.Gateway.Discovery.{
  ApiPath, PathInfo, route_paths, matches, find_kong_route, path_info, cross_reference, sort_infos,
  Report, report, coverage, route_discovery,
}
use api_gateways.Gateway.Discovery.Laws.{
  is_prefixed, matches-prefix, is_served, cross_reference-path,
}
use api_gateways.Gateway.Discovery.Sorted.{
  IsSorted, sort_infos-IsSorted, sort_infos-perm, sort_infos-All, covered, sort_infos-covered,
  is_covered-covered, sort_infos-length,
}
use api_gateways.Gateway.Discovery.Listed.{
  IsListed, cross_reference-IsListed, Leftover, kong_only-Leftover, sort_infos-Refers,
}

-- Kong gives the paths of the route, or leaves them out.
abbrev pub HasPaths : KongRoute → Type 0
HasPaths kr = kr.paths ≢ null

find_kong_route-done :
    (path : Text) (routes : List KongRoute)
    → All HasPaths routes
    → (o : Option KongRoute) × (find_kong_route path routes ≡ done o)
unfolding find_kong_route
find_kong_route-done path [] h = (none, refl)
find_kong_route-done path (kr ∷ routes) h =
    round kr.paths h.0 (find_kong_route-done path routes h.1)
  where
    round :
        (f : Field (List Text))
        → f ≢ null
        → (o : Option KongRoute) × (find_kong_route path routes ≡ done o)
        → (o : Option KongRoute) × ((route_paths f
              >>= (λ ps. if matches path ps then done (some kr) else find_kong_route path routes))
            ≡ done o)
    round absent n r = r
    round null n r = absurd (n refl)
    round (given ps) n (o, e) = elim (Bool-cases (matches path ps)) [
      | inl hit ↦ (some kr, rw hit)
      | inr miss ↦ (o, rw miss e)
    ]

cross_reference-done :
    (routes : List KongRoute) (plugins : List KongPlugin) (api : List ApiPath)
    → All HasPaths routes
    → (infos : List PathInfo) × (cross_reference routes plugins api ≡ done infos)
unfolding cross_reference
cross_reference-done routes plugins [] h = ([], refl)
cross_reference-done routes plugins (fp ∷ fps) h =
    let (o, found) = find_kong_route-done fp.path routes h in
    let (infos, rest) = cross_reference-done routes plugins fps h in
    (path_info plugins fp o ∷ infos, rw (found, rest))

length-map {ℓ κ} :
    {A : Type ℓ} {B : Type κ} (f : A → B) (xs : List A) → length (map f xs) ≡ length xs
length-map f [] = refl
length-map f (x ∷ xs) = ap suc (length-map f xs)

module _ (percent : ℕ → ℕ → ℕ) (api : List ApiPath) (routes : List KongRoute)
    (plugins : List KongPlugin) where
  abbrev pub share : List PathInfo → ℕ
  share [] = 0
  share (r ∷ rs) = percent (covered (r ∷ rs)) (length (r ∷ rs))

  share_of :
      (rs : List PathInfo) (n : ℕ) → length rs ≡ suc n → share rs ≡ percent (covered rs) (length rs)
  share_of [] n h = absurd (omega arith)
  share_of (r ∷ rs) n h = refl

  coverage-share : (rs : List PathInfo) → coverage percent rs ≡ share (sort_infos rs)
  unfolding coverage
  coverage-share [] = unfold sort_infos in refl
  coverage-share (r ∷ rs) =
      ap₂ percent (is_covered-covered (r ∷ rs) ∙ sym (sort_infos-covered (r ∷ rs)))
        (sym (sort_infos-length (r ∷ rs)))
      ∙ sym (share_of (sort_infos (r ∷ rs)) (length rs) (sort_infos-length (r ∷ rs)))

  -- If Kong answers both requests and gives no route with `null` for its paths, the report lists every path of the backend once and counts them and the routes.
  -- A path that no path of a route begins is exposed, without plugins. Every other goes by the first route with a path that begins it, with the plugins bound to
  -- that route, as protected if there are some and as registered if not. Exposed paths come first, then the registered ones, then the protected, each in the order
  -- of their texts. The coverage is the share of those that are not exposed, or 0 without paths. The remaining routes are those that no listed path goes by, in
  -- their order, with the plugins bound to them.
  pub route_discovery_lem :
      All HasPaths routes
      → (r : Report) × (route_discovery percent api
            (answered 200 (some routes))
            (answered 200 (some plugins))
          ≡ done r)
        × All (IsListed routes plugins) r.paths
        × Perm (map (λ p. p.path) r.paths) (map (λ fp. fp.path) api)
        × IsSorted r.paths
        × (r.total_backend_paths ≡ length api)
        × (r.total_kong_routes ≡ length routes)
        × (r.coverage_percent ≡ share r.paths)
        × Leftover plugins r.paths routes r.kong_only_routes
  unfolding route_discovery
  route_discovery_lem h =
      let (infos, e) = cross_reference-done routes plugins api h in
      let same = cross_reference-path routes plugins api infos e in
      (
        report percent routes plugins infos,
        rw e,
        sort_infos-All (IsListed routes plugins) infos
            (cross_reference-IsListed routes plugins api infos e),
        rw (← same) (Perm.map (λ p. p.path) (sort_infos-perm infos)),
        sort_infos-IsSorted infos,
        sym (length-map (λ p. p.path) infos) ∙ ap length same ∙ length-map (λ fp. fp.path) api,
        refl,
        coverage-share infos,
        kong_only-Leftover infos (sort_infos infos) plugins (λ id. sort_infos-Refers id infos)
            routes,
      )

find_kong_route-null :
    (path : Text) (earlier : List KongRoute) (kr : KongRoute) (later : List KongRoute)
    → All HasPaths earlier
    → is_served earlier path ≡ false
    → kr.paths ≡ null
    → find_kong_route path (earlier ++ kr ∷ later) ≡ raised "TypeError"
unfolding find_kong_route
find_kong_route-null path [] kr later h u n = rw n
find_kong_route-null path (r ∷ earlier) kr later h u n =
    round r.paths h.0 u (λ v. find_kong_route-null path earlier kr later h.1 v n)
  where
    round :
        (f : Field (List Text))
        → f ≢ null
        → (is_prefixed path f || is_served earlier path) ≡ false
        → (is_served earlier path ≡ false
            → find_kong_route path (earlier ++ kr ∷ later) ≡ raised "TypeError")
        → (route_paths f >>= (λ ps.
            if matches path ps
            then done (some r)
            else find_kong_route path (earlier ++ kr ∷ later)))
          ≡ raised "TypeError"
    round absent m w rest = rest w
    round null m w rest = absurd (m refl)
    round (given ps) m w rest = elim (Bool-cases (matches path ps)) [
      | inl hit ↦ absurd (ground (arith, matches-prefix path ps))
      | inr miss ↦ rw miss (rest (ground arith))
    ]

find_kong_route-either :
    (path : Text) (routes : List KongRoute)
    → (find_kong_route path routes ≡ raised "TypeError")
      ⊎ ((o : Option KongRoute) × (find_kong_route path routes ≡ done o))
unfolding find_kong_route
find_kong_route-either path [] = inr (none, refl)
find_kong_route-either path (kr ∷ routes) = round kr.paths (find_kong_route-either path routes)
  where
    round :
        (f : Field (List Text))
        → (find_kong_route path routes ≡ raised "TypeError")
          ⊎ ((o : Option KongRoute) × (find_kong_route path routes ≡ done o))
        → ((route_paths f
              >>= (λ ps. if matches path ps then done (some kr) else find_kong_route path routes))
            ≡ raised "TypeError")
          ⊎ ((o : Option KongRoute) × ((route_paths f >>= (λ ps.
                  if matches path ps then done (some kr) else find_kong_route path routes))
                ≡ done o))
    round absent r = r
    round null r = inl refl
    round (given ps) r = elim (Bool-cases (matches path ps)) [
      | inl hit ↦ inr (some kr, rw hit)
      | inr miss ↦ rw miss r
    ]

cross_reference-raised :
    (routes : List KongRoute) (plugins : List KongPlugin) (before : List ApiPath) (fp : ApiPath)
    (after : List ApiPath)
    → find_kong_route fp.path routes ≡ raised "TypeError"
    → cross_reference routes plugins (before ++ fp ∷ after) ≡ raised "TypeError"
unfolding cross_reference
cross_reference-raised routes plugins [] fp after h = rw h
cross_reference-raised routes plugins (b ∷ before) fp after h =
    elim (find_kong_route-either b.path routes) [
      | inl e ↦ rw e
      | inr (o, e) ↦ rw (e, cross_reference-raised routes plugins before fp after h)
    ]

-- A route that Kong lists with `null` for its paths, as it does for a route by host, makes the whole report fail with a
-- `TypeError`, unless every path of the backend begins with a path of the routes before it.
pub null_paths-raise :
    (percent : ℕ → ℕ → ℕ) (before after : List ApiPath) (fp : ApiPath)
    (earlier later : List KongRoute) (kr : KongRoute) (plugins : List KongPlugin)
    → All HasPaths earlier
    → is_served earlier fp.path ≡ false
    → kr.paths ≡ null
    → route_discovery percent
        (before ++ fp ∷ after)
        (answered 200 (some (earlier ++ kr ∷ later)))
        (answered 200 (some plugins))
      ≡ raised "TypeError"
unfolding route_discovery
null_paths-raise percent before after fp earlier later kr plugins h u n = rw (
    cross_reference-raised (earlier ++ kr ∷ later) plugins before fp after
      (find_kong_route-null fp.path earlier kr later h u n))
