-- ===== src/Gateway/Discovery/Listed.antt =====
-- The items of the report of `route_discovery` of gateway_plugins.py.
use api_gateways.Base.{
  Bool, true, false, not, Option, none, some, List, [], ◌∷◌, map, filter, Text, text_eq,
  text_eq_sound, text_eq_refl, if◌then◌else◌, ◌≡◌, ◌≢◌, ◌↔◌, ◌⊎◌, inl, inr, refl, ap, subst, arith,
  All, Bool-cases,
}
use api_gateways.Gateway.Outcome.{done, >>=-eq-done, done-inj}
use api_gateways.Gateway.Kong.{KongRoute, KongPlugin}
use api_gateways.Gateway.Discovery.{
  ApiPath, exposed, registered, protected, PathInfo, status_of, path_info, plugins_of,
  find_kong_route, cross_reference, KongOnly, is_matched, kong_only, name_or_id, info_le,
  insert_info, sort_infos,
}
use api_gateways.Gateway.Discovery.Routes.{
  Attached, plugins_of-Attached, HasPrefix, ServedBy, IsFound, find_kong_route-IsFound,
}

module _ (routes : List KongRoute) (plugins : List KongPlugin) where
  -- A path that no route serves.
  pub record IsExposed (r : PathInfo) : Type 0 where
    pub status_exposed : r.status ≡ exposed
    pub unserved : All (λ kr. ¬ HasPrefix r.path kr.paths) routes
    pub no_route : r.kong_route_id ≡ none
    pub no_plugins : r.plugins ≡ []

  -- A path with the route that serves it, the plugins bound to that route, and the status that they make.
  pub record IsServed (r : PathInfo) : Type 0 where
    pub kr : KongRoute
    pub served : ServedBy routes r.path kr
    pub named : r.kong_route_id ≡ some kr.id
    pub attached : Attached kr.id plugins r.plugins
    pub status_served :
        ((r.plugins ≡ []) × (r.status ≡ registered)) ⊎ ((r.plugins ≢ []) × (r.status ≡ protected))

  abbrev pub IsListed : PathInfo → Type 0
  IsListed r = IsExposed r ⊎ IsServed r

  status_of_either :
      (names : List Text)
      → ((names ≡ []) × (status_of names ≡ registered))
        ⊎ ((names ≢ []) × (status_of names ≡ protected))
  status_of_either [] = inl (refl, refl)
  status_of_either (n ∷ ns) = inr (λ e. absurd (ground (arith, e)), refl)

  path_info-IsListed :
      (fp : ApiPath) (o : Option KongRoute)
      → IsFound routes fp.path o
      → IsListed (path_info plugins fp o)
  unfolding path_info
  path_info-IsListed fp none h =
      inl (record { status_exposed = refl; unserved = h; no_route = refl; no_plugins = refl })
  path_info-IsListed fp (some k) h = inr (record {
    kr = k;
    served = h;
    named = refl;
    attached = plugins_of-Attached k.id plugins;
    status_served = status_of_either (map (λ p. p.name) (plugins_of k.id plugins));
  })

  pub cross_reference-IsListed :
      (api : List ApiPath) (infos : List PathInfo)
      → cross_reference routes plugins api ≡ done infos
      → All IsListed infos
  unfolding cross_reference
  cross_reference-IsListed [] infos h = rw (← done-inj h) tt
  cross_reference-IsListed (fp ∷ fps) infos h =
      let (o, found, e) = >>=-eq-done (find_kong_route fp.path routes) _ h in
      let (rest, later, last) = >>=-eq-done (cross_reference routes plugins fps) _ e in
      rw (← done-inj last) (
        path_info-IsListed fp o (find_kong_route-IsFound fp.path routes o found),
        cross_reference-IsListed fps rest later,
      )

-- Some item goes by the route of this id.
abbrev pub Refers : Text → List PathInfo → Type 0
Refers id [] = ⊥
Refers id (r ∷ rs) = (r.kong_route_id ≡ some id) ⊎ Refers id rs

-- The routes that no item goes by, in their order, each with the plugins bound to it.
pub data Leftover (plugins : List KongPlugin) (results : List PathInfo)
    : List KongRoute → List KongOnly → Type 0 where
  nothing : Leftover plugins results [] []
  matched :
      {kr : KongRoute} {routes : List KongRoute} {items : List KongOnly}
      → Refers kr.id results
      → Leftover plugins results routes items
      → Leftover plugins results (kr ∷ routes) items
  left :
      {kr : KongRoute} {item : KongOnly} {routes : List KongRoute} {items : List KongOnly}
      → ¬ Refers kr.id results
      → item.id ≡ kr.id
      → Attached kr.id plugins item.plugins
      → Leftover plugins results routes items
      → Leftover plugins results (kr ∷ routes) (item ∷ items)

abbrev refers : Text → Option Text → Bool
refers id o = elim o [ none ↦ false | some rid ↦ text_eq rid id ]

refers_iff : (id : Text) (o : Option Text) → (refers id o ≡ true) ↔ (o ≡ some id)
refers_iff id none = (λ e. absurd (ground (arith, e)), λ e. absurd (ground (arith, e)))
refers_iff id (some rid) = (
  λ e. ap some (text_eq_sound rid id e),
  λ e.
      let same : rid ≡ id = ground (arith, e) in
      subst (λ t. text_eq rid t ≡ true) same (text_eq_refl rid),
)

is_matched-Refers : (id : Text) (rs : List PathInfo) → is_matched id rs ≡ true → Refers id rs
is_matched-Refers id [] h = absurd (ground (arith, h))
is_matched-Refers id (r ∷ rs) h = elim (Bool-cases (refers id r.kong_route_id)) [
  | inl here ↦ inl ((refers_iff id r.kong_route_id).0 here)
  | inr there ↦
      let rest : is_matched id rs ≡ true = rw there at h in inr (is_matched-Refers id rs rest)
]

Refers-is_matched : (id : Text) (rs : List PathInfo) → Refers id rs → is_matched id rs ≡ true
Refers-is_matched id [] h = elim h [ ]
Refers-is_matched id (r ∷ rs) (inl here) = rw ((refers_iff id r.kong_route_id).1 here) refl
Refers-is_matched id (r ∷ rs) (inr there) = elim (Bool-cases (refers id r.kong_route_id)) [
  | inl e ↦ rw e refl
  | inr e ↦ rw e (Refers-is_matched id rs there)
]

abbrev item_of : List KongPlugin → KongRoute → KongOnly
item_of plugins kr = record {
  id = kr.id;
  name = name_or_id kr;
  plugins = map (λ p. p.name) (plugins_of kr.id plugins);
}

Leftover-round :
    (infos results : List PathInfo) (plugins : List KongPlugin) (kr : KongRoute)
    (routes rest : List KongRoute) (b : Bool)
    → ((id : Text) → Refers id infos ↔ Refers id results)
    → is_matched kr.id infos ≡ b
    → Leftover plugins results routes (map (item_of plugins) rest)
    → Leftover plugins results
        (kr ∷ routes)
        (map (item_of plugins) (if not b then kr ∷ rest else rest))
Leftover-round infos results plugins kr routes rest true same e h =
    matched ((same kr.id).0 (is_matched-Refers kr.id infos e)) h
Leftover-round infos results plugins kr routes rest false same e h =
    left (λ r. absurd (ground (arith, e, Refers-is_matched kr.id infos ((same kr.id).1 r)))) refl
      (plugins_of-Attached kr.id plugins) h

pub kong_only-Leftover :
    (infos results : List PathInfo) (plugins : List KongPlugin)
    → ((id : Text) → Refers id infos ↔ Refers id results)
    → (routes : List KongRoute) → Leftover plugins results routes (kong_only infos plugins routes)
unfolding kong_only
kong_only-Leftover infos results plugins same [] = nothing
kong_only-Leftover infos results plugins same (kr ∷ routes) =
    Leftover-round infos results plugins kr routes
      (filter (λ k. not (is_matched k.id infos)) routes) (is_matched kr.id infos) same refl
      (kong_only-Leftover infos results plugins same routes)

insert_info-Refers :
    (id : Text) (r : PathInfo) (qs : List PathInfo)
    → Refers id (r ∷ qs) ↔ Refers id (insert_info r qs)
unfolding insert_info
insert_info-Refers id r [] = (λ h. h, λ h. h)
insert_info-Refers id r (q ∷ qs) = elim (Bool-cases (info_le r q)) [
  | inl here ↦ rw here (λ h. h, λ h. h)
  | inr later ↦
      let ih = insert_info-Refers id r qs in
      rw later (
        λ h. elim h [
          | inl e ↦ inr (ih.0 (inl e))
          | inr k ↦ elim k [ inl e ↦ inl e | inr more ↦ inr (ih.0 (inr more)) ]
        ],
        λ h. elim h [
          | inl e ↦ inr (inl e)
          | inr k ↦ elim (ih.1 k) [ inl e ↦ inl e | inr more ↦ inr (inr more) ]
        ],
      )
]

pub sort_infos-Refers : (id : Text) (rs : List PathInfo) → Refers id rs ↔ Refers id (sort_infos rs)
unfolding sort_infos
sort_infos-Refers id [] = (λ h. h, λ h. h)
sort_infos-Refers id (r ∷ rs) =
    let ih = sort_infos-Refers id rs in
    let step = insert_info-Refers id r (sort_infos rs) in
    (
      λ h. step.0 (elim h [ inl e ↦ inl e | inr more ↦ inr (ih.0 more) ]),
      λ h. elim (step.1 h) [ inl e ↦ inl e | inr more ↦ inr (ih.1 more) ],
    )
