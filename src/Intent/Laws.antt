-- ===== src/Intent/Laws.antt =====
-- fastapi_backend/app/services/intent_mappings_service.py and intent_cache_service.py: what a new mapping
-- changes for the requests that come after the next reload.
use api_gateways.Base.{
  arith, Bool, none, sym, All, ◌⊎◌, String, true, false, some, List, [], ◌∷◌, ◌++◌, ◌≡◌, refl, ap,
  subst, ◌∙◌, inl, inr, Bool-cases, Option-cases, filter, contains, str_eq, eq_iff, if◌then◌else◌,
  lookup, insert, lookup-insert,
}
use api_gateways.Errors.{intent_not_found, raise, ok, ok-inj, err≢ok}
use api_gateways.Intent.{
  IntentRouting, IntentDb, CreateMapping, is_active, list_active_intent_mappings,
  get_intent_mapping_by_intent_name, create_intent_mapping, get_intent_mapping_by_id,
  soft_delete_intent_mapping, put_row,
}
use api_gateways.Intent.Service.{
  create_mapping, delete_mapping, IntentCache, empty_cache, load_mappings, force_reload,
  resolve_intent,
}

load-last :
    (ms : List IntentRouting) (m : IntentRouting) (c : IntentCache)
    → (load_mappings (ms ++ m ∷ []) c).cache
      ≡ insert m.intent_name m.service_id (load_mappings ms c).cache
unfolding load_mappings
load-last [] m c = refl
load-last (x ∷ ms) m c =
    load-last ms m
      (record { cache = insert x.intent_name x.service_id c.cache; version = x.taxonomy_version })

active-last :
    (ms : List IntentRouting) (m : IntentRouting)
    → is_active m ≡ true
    → filter is_active (ms ++ m ∷ []) ≡ filter is_active ms ++ m ∷ []
active-last [] m on = rw on refl
active-last (x ∷ ms) m on = elim (Bool-cases (is_active x)) [
  | inl e ↦ rw e (ap (λ l. x ∷ l) (active-last ms m on))
  | inr e ↦ rw e (active-last ms m on)
]

reload-last :
    (db new : IntentDb) (m : IntentRouting)
    → is_active m ≡ true
    → new.mappings ≡ db.mappings ++ m ∷ []
    → (force_reload new).cache ≡ insert m.intent_name m.service_id (force_reload db).cache
unfolding force_reload list_active_intent_mappings
reload-last db new m on grown =
    ap (λ ms. (load_mappings (filter is_active ms) empty_cache).cache) grown
    ∙ ap (λ ms. (load_mappings ms empty_cache).cache) (active-last db.mappings m on)
    ∙ load-last (filter is_active db.mappings) m empty_cache

resolve-found :
    (c : IntentCache) (name service : String)
    → lookup name c.cache ≡ some service
    → str_eq service "" ≡ false
    → resolve_intent c name ≡ ok service
unfolding resolve_intent
resolve-found c name service found named = rw found (rw named refl)

-- What a creation that goes through leaves in the tables.
abbrev Created : CreateMapping → IntentDb → IntentDb × IntentRouting → Type 0
Created payload db r =
    (r.0.mappings ≡ db.mappings ++ r.1 ∷ [])
    × (is_active r.1 ≡ true)
    × (r.1.intent_name ≡ payload.intent_name)
    × (r.1.service_id ≡ payload.service_id)

create_intent_mapping-ok :
    (new_id created_by : String) (payload : CreateMapping) (db : IntentDb)
    (r : IntentDb × IntentRouting)
    → create_intent_mapping new_id payload created_by db ≡ ok r
    → Created payload db r
unfolding create_intent_mapping
create_intent_mapping-ok new_id created_by payload db r e =
    elim (Bool-cases (contains payload.service_id db.services)) [
      | inl known ↦ subst (Created payload db) (ok-inj (rw known at e)) (refl, refl, refl, refl)
      | inr unknown ↦ absurd (err≢ok (rw unknown at e))
    ]

create_mapping-ok :
    (new_id created_by : String) (payload : CreateMapping) (db : IntentDb)
    (r : IntentDb × IntentRouting)
    → create_mapping new_id payload created_by db ≡ ok r
    → Created payload db r
unfolding create_mapping
create_mapping-ok new_id created_by payload db r e =
    elim (Option-cases (get_intent_mapping_by_intent_name db payload.intent_name)) [
      | inl fresh ↦ create_intent_mapping-ok new_id created_by payload db r (rw fresh at e)
      | inr (m, taken) ↦ absurd (err≢ok (rw taken at e))
    ]

-- A mapping that is created is what its intent resolves to after the next reload of the cache, and no other intent's service changes; the service id is not empty.
pub create_mapping-resolves :
    (new_id created_by : String) (payload : CreateMapping) (db : IntentDb)
    (r : IntentDb × IntentRouting) (other : String)
    → create_mapping new_id payload created_by db ≡ ok r
    → str_eq payload.service_id "" ≡ false
    → (resolve_intent (force_reload r.0) payload.intent_name ≡ ok payload.service_id)
      × (lookup other (force_reload r.0).cache ≡ (
          if str_eq payload.intent_name other
          then some payload.service_id
          else lookup other (force_reload db).cache))
create_mapping-resolves new_id created_by payload db r other e named =
    let (grown, on, name, service) = create_mapping-ok new_id created_by payload db r e in
    let loaded : (force_reload r.0).cache
        ≡ insert payload.intent_name payload.service_id (force_reload db).cache =
      reload-last db r.0 r.1 on grown
      ∙ ap (λ n. insert n r.1.service_id (force_reload db).cache) name
      ∙ ap (λ s. insert payload.intent_name s (force_reload db).cache) service in
    let found : (j : String)
        → lookup j (force_reload r.0).cache ≡ (
            if str_eq payload.intent_name j
            then some payload.service_id
            else lookup j (force_reload db).cache) =
      λ j.
        ap (lookup j) loaded
        ∙ lookup-insert payload.intent_name j payload.service_id (force_reload db).cache in
    (
      resolve-found (force_reload r.0) payload.intent_name payload.service_id
          (found payload.intent_name
            ∙ rw ((eq_iff payload.intent_name payload.intent_name).1 refl) refl)
          named,
      found other,
    )

load-none :
    (name : String) (ms : List IntentRouting) (c : IntentCache)
    → All (λ m. str_eq m.intent_name name ≡ false) ms
    → lookup name c.cache ≡ none
    → lookup name (load_mappings ms c).cache ≡ none
unfolding load_mappings
load-none name [] c others absent = absent
load-none name (m ∷ ms) c (other, others) absent =
    load-none name ms _ others
      (lookup-insert m.intent_name name m.service_id c.cache ∙ rw other absent)

reload-none :
    (db : IntentDb) (name : String)
    → All (λ m. str_eq m.intent_name name ≡ false) (filter is_active db.mappings)
    → lookup name (force_reload db).cache ≡ none
unfolding force_reload list_active_intent_mappings empty_cache lookup
reload-none db name others = load-none name (filter is_active db.mappings) empty_cache others refl

resolve-absent :
    (c : IntentCache) (name : String)
    → lookup name c.cache ≡ none
    → resolve_intent c name ≡ raise (intent_not_found name c.version)
unfolding resolve_intent
resolve-absent c name absent = rw absent refl

-- The row is the mapping `m` itself, or a mapping of another intent.
abbrev pub SameOrOther : IntentRouting → IntentRouting → Type 0
SameOrOther m x = (str_eq x.id m.id ≡ true) ⊎ (str_eq x.intent_name m.intent_name ≡ false)

inactive-out :
    (m row : IntentRouting) (ms : List IntentRouting)
    → is_active row ≡ false
    → row.id ≡ m.id
    → All (SameOrOther m) ms
    → All (λ x. str_eq x.intent_name m.intent_name ≡ false) (filter is_active (put_row row ms))
inactive-out m row [] off same h = tt
inactive-out m row (x ∷ ms) off same (hx, h) = elim (Bool-cases (str_eq x.id row.id)) [
  | inl e ↦ rw e (rw off (inactive-out m row ms off same h))
  | inr e ↦ rw e (kept_other (is_active x) (apart hx e) (inactive-out m row ms off same h))
]
  where
    apart :
        SameOrOther m x → str_eq x.id row.id ≡ false → str_eq x.intent_name m.intent_name ≡ false
    apart (inl s) e =
        let e2 : str_eq x.id m.id ≡ false = subst (λ i. str_eq x.id i ≡ false) same e in
        absurd (ground (arith, s, e2))
    apart (inr o) e = o

    kept_other :
        (b : Bool)
        → str_eq x.intent_name m.intent_name ≡ false
        → All (λ y. str_eq y.intent_name m.intent_name ≡ false) (filter is_active (put_row row ms))
        → All
            (λ y. str_eq y.intent_name m.intent_name ≡ false)
            (if b then x ∷ filter is_active (put_row row ms) else filter is_active (put_row row ms))
    kept_other true o rest = (o, rest)
    kept_other false o rest = rest

-- A mapping that is deleted no longer serves its intent: after the next reload of the cache the intent is not found; no other mapping has its intent's name.
pub delete_mapping-unresolves :
    (mapping_id performed_by : String) (db : IntentDb) (m : IntentRouting)
    (r : IntentDb × IntentRouting)
    → get_intent_mapping_by_id db mapping_id ≡ some m
    → All (SameOrOther m) db.mappings
    → delete_mapping mapping_id performed_by db ≡ ok r
    → resolve_intent (force_reload r.0) m.intent_name
      ≡ raise (intent_not_found m.intent_name (force_reload r.0).version)
unfolding delete_mapping soft_delete_intent_mapping
delete_mapping-unresolves mapping_id performed_by db m r found alone e =
    unresolved r (ap (λ p. p.0.mappings) (sym (ok-inj (rw found at e))))
  where
    off_row : IntentRouting
    off_row = record m { is_active = some false }

    unresolved :
        (r : IntentDb × IntentRouting)
        → r.0.mappings ≡ put_row off_row db.mappings
        → resolve_intent (force_reload r.0) m.intent_name
          ≡ raise (intent_not_found m.intent_name (force_reload r.0).version)
    unresolved r grown = resolve-absent (force_reload r.0) m.intent_name (
        reload-none r.0 m.intent_name (
          subst (λ ms. All (λ x. str_eq x.intent_name m.intent_name ≡ false) (filter is_active ms))
            (sym grown) (inactive-out m off_row db.mappings refl refl alone)))
