-- ===== src/Gateway/Discovery/Routes.antt =====
-- Which route of Kong serves a path of the backend, and which plugins it has, said without the code's loops.
use api_gateways.Base.{
  Bool, true, false, Option, none, some, List, [], ◌∷◌, ◌++◌, map, filter, any, Text, text_eq,
  text_eq_sound, text_eq_refl, if◌then◌else◌, ◌≡◌, ◌≢◌, ◌↔◌, inl, inr, refl, ap, ap₂, sym, ◌∙◌,
  arith, All, Bool-cases, subst,
}
use api_gateways.Gateway.Outcome.{Outcome, done, done-inj, ◌>>=◌}
use api_gateways.Gateway.Kong.{Field, absent, null, given, KongRoute, KongPlugin}
use api_gateways.Gateway.Plugins.{starts_with}
use api_gateways.Gateway.Discovery.{on_route, plugins_of, route_paths, matches, find_kong_route}
use api_gateways.Gateway.Discovery.Laws.{matches-prefix}

-- The names of the plugins that are bound to the route of this id, in the order of the list.
pub data Attached (id : Text) : List KongPlugin → List Text → Type 0 where
  nothing : Attached id [] []
  bound :
      {p : KongPlugin} {ps : List KongPlugin} {names : List Text}
      → p.route ≡ given (some id)
      → Attached id ps names
      → Attached id (p ∷ ps) (p.name ∷ names)
  unbound :
      {p : KongPlugin} {ps : List KongPlugin} {names : List Text}
      → p.route ≢ given (some id)
      → Attached id ps names
      → Attached id (p ∷ ps) names

on_route_iff :
    (id : Text) (f : Field (Option Text)) → (on_route id f ≡ true) ↔ (f ≡ given (some id))
on_route_iff id absent = (λ e. absurd (ground (arith, e)), λ e. absurd (ground (arith, e)))
on_route_iff id null = (λ e. absurd (ground (arith, e)), λ e. absurd (ground (arith, e)))
on_route_iff id (given none) = (λ e. absurd (ground (arith, e)), λ e. absurd (ground (arith, e)))
on_route_iff id (given (some rid)) = (
  λ e. ap (λ t. given (some t)) (text_eq_sound rid id e),
  λ e.
      let same : rid ≡ id = ground (arith, e) in
      subst (λ t. text_eq rid t ≡ true) same (text_eq_refl rid),
)

pub plugins_of-Attached :
    (id : Text) (ps : List KongPlugin) → Attached id ps (map (λ p. p.name) (plugins_of id ps))
unfolding plugins_of
plugins_of-Attached id [] = nothing
plugins_of-Attached id (p ∷ ps) = round (on_route id p.route) refl (plugins_of-Attached id ps)
  where
    round :
        (b : Bool)
        → on_route id p.route ≡ b
        → Attached id ps (map (λ q. q.name) (filter (λ q. on_route id q.route) ps))
        → Attached id (p ∷ ps) (
            map
              (λ q. q.name)
              (if b
                then p ∷ filter (λ q. on_route id q.route) ps
                else filter (λ q. on_route id q.route) ps))
    round true e h = bound ((on_route_iff id p.route).0 e) h
    round false e h = unbound (λ f. absurd (ground (arith, e, (on_route_iff id p.route).1 f))) h

-- One of the route's paths is a beginning of the path.
pub record HasPrefix (path : Text) (f : Field (List Text)) : Type 0 where
  pub before : List Text
  pub prefix : Text
  pub after : List Text
  pub rest : Text
  pub listed : f ≡ given (before ++ prefix ∷ after)
  pub begins : path ≡ prefix ++ rest

abbrev paths_or : List Text → Field (List Text) → List Text
paths_or ps (given qs) = qs
paths_or ps null = ps
paths_or ps absent = ps

listed_paths : (ps qs : List Text) → ◌≡◌ {A = Field (List Text)} (given ps) (given qs) → ps ≡ qs
listed_paths ps qs e = ap (paths_or ps) e

no_listed :
    (before : List Text) (kp : Text) (after : List Text)
    → ◌≢◌ {A = Field (List Text)} absent (given (before ++ kp ∷ after))
no_listed before kp after e = absurd (ground (arith, e))

starts_with-append : (kp rest : Text) → starts_with (kp ++ rest) kp ≡ true
starts_with-append [] rest = refl
starts_with-append (c ∷ kp) rest = ground (arith, starts_with-append kp rest)

starts_with-rest :
    (path kp : Text) → starts_with path kp ≡ true → (rest : Text) × (path ≡ kp ++ rest)
starts_with-rest path [] h = (path, refl)
starts_with-rest [] (d ∷ kp) h = absurd (ground (arith, h))
starts_with-rest (c ∷ path) (d ∷ kp) h =
    let (rest, e) = starts_with-rest path kp (ground (arith, h)) in
    let same : c ≡ d = ground (arith, h) in (rest, ap₂ (λ x xs. x ∷ xs) same e)

any_prefix :
    (path : Text) (ps : List Text)
    → any (λ kp. starts_with path kp) ps ≡ true
    → HasPrefix path (given ps)
any_prefix path [] h = absurd (ground (arith, h))
any_prefix path (p ∷ ps) h = elim (Bool-cases (starts_with path p)) [
  | inl here ↦
      let (rest, e) = starts_with-rest path p here in
      record { before = []; prefix = p; after = ps; rest = rest; listed = refl; begins = e }
  | inr there ↦
      let k = any_prefix path ps (ground (arith, h, there)) in
      record {
        before = p ∷ k.before;
        prefix = k.prefix;
        after = k.after;
        rest = k.rest;
        listed =
            ap (λ l. given (p ∷ l)) (listed_paths ps (k.before ++ k.prefix ∷ k.after) k.listed);
        begins = k.begins;
      }
]

prefix_any :
    (path : Text) (before after : List Text) (kp rest : Text)
    → path ≡ kp ++ rest
    → any (λ k. starts_with path k) (before ++ kp ∷ after) ≡ true
prefix_any path [] after kp rest e =
    let hit : starts_with path kp ≡ true = rw e (starts_with-append kp rest) in ground (arith, hit)
prefix_any path (p ∷ before) after kp rest e =
    ground (arith, prefix_any path before after kp rest e)

no_prefix :
    (path : Text) (ps : List Text)
    → any (λ kp. starts_with path kp) ps ≡ false
    → ¬ HasPrefix path (given ps)
no_prefix path ps h k =
    let hit = prefix_any path k.before k.after k.prefix k.rest k.begins in
    let same = listed_paths ps (k.before ++ k.prefix ∷ k.after) k.listed in
    absurd (ground (arith, h, subst (λ l. any (λ kp. starts_with path kp) l ≡ true) (sym same) hit))

-- The route that serves the path: the first with a path that is a beginning of it.
pub record ServedBy (routes : List KongRoute) (path : Text) (kr : KongRoute) : Type 0 where
  pub before : List KongRoute
  pub after : List KongRoute
  pub split : routes ≡ before ++ kr ∷ after
  pub serves : HasPrefix path kr.paths
  pub earlier : All (λ r. ¬ HasPrefix path r.paths) before

-- What a search comes to: no route serves the path, or this one does.
abbrev pub IsFound : List KongRoute → Text → Option KongRoute → Type 0
IsFound routes path none = All (λ r. ¬ HasPrefix path r.paths) routes
IsFound routes path (some kr) = ServedBy routes path kr

IsFound-later :
    (path : Text) (r : KongRoute) (routes : List KongRoute) (o : Option KongRoute)
    → ¬ HasPrefix path r.paths
    → IsFound routes path o
    → IsFound (r ∷ routes) path o
IsFound-later path r routes none n h = (n, h)
IsFound-later path r routes (some kr) n h = record {
  before = r ∷ h.before;
  after = h.after;
  split = ap (λ l. r ∷ l) h.split;
  serves = h.serves;
  earlier = (n, h.earlier);
}

search_round :
    (path : Text) (kr : KongRoute) (routes : List KongRoute) (f : Field (List Text))
    (m : Outcome (Option KongRoute)) (o : Option KongRoute)
    → kr.paths ≡ f
    → ((r : Option KongRoute) → m ≡ done r → IsFound routes path r)
    → (route_paths f >>= (λ ps. if matches path ps then done (some kr) else m)) ≡ done o
    → IsFound (kr ∷ routes) path o
search_round path kr routes absent m o e ih h =
    IsFound-later path kr routes o
      (λ k. absurd (no_listed k.before k.prefix k.after (sym e ∙ k.listed))) (ih o h)
search_round path kr routes null m o e ih h = absurd (ground (arith, h))
search_round path kr routes (given ps) m o e ih h = elim (Bool-cases (matches path ps)) [
  | inl hit ↦
      let found : done (some kr) ≡ done o = rw hit at h in
      subst (IsFound (kr ∷ routes) path) (done-inj found) (record {
        before = [];
        after = routes;
        split = refl;
        serves =
            subst (HasPrefix path) (sym e)
              (any_prefix path ps (sym (matches-prefix path ps) ∙ hit));
        earlier = tt;
      })
  | inr miss ↦
      let rest : m ≡ done o = rw miss at h in
      IsFound-later path kr routes o
        (subst (λ f. ¬ HasPrefix path f) (sym e)
          (no_prefix path ps (sym (matches-prefix path ps) ∙ miss)))
        (ih o rest)
]

-- The search finds the route that serves the path, and none exactly if none does.
pub find_kong_route-IsFound :
    (path : Text) (routes : List KongRoute) (o : Option KongRoute)
    → find_kong_route path routes ≡ done o
    → IsFound routes path o
unfolding find_kong_route
find_kong_route-IsFound path [] o h = subst (IsFound [] path) (done-inj h) tt
find_kong_route-IsFound path (kr ∷ routes) o h =
    search_round path kr routes kr.paths (find_kong_route path routes) o refl
      (find_kong_route-IsFound path routes) h
