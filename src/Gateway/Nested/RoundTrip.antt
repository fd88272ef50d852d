-- ===== src/Gateway/Nested/RoundTrip.antt =====
-- `flatten_dict` and `unflatten_dict` of gateway_plugins.py together.
use api_gateways.Base.{List, [], ◌∷◌, map, Text, ◌≡◌, refl, ap, All, All-append, ◌∙◌}
use api_gateways.Gateway.Outcome.{done}
use api_gateways.Gateway.Nested.{
  Leaf, Nested, leaf, dict, Entries, end, entry, flatten_dict, unflatten_dict,
}
use api_gateways.Gateway.Nested.Paths.{Dotless, IsConfig, KeyPath, under, paths}
use api_gateways.Gateway.Nested.Unflatten.{
  flat_item, IsKept, unflatten_from-paths, store_paths-paths, KeysAbsent-end,
}
use api_gateways.Gateway.Nested.Flatten.{item, flatten_dict-paths}

-- The values of a flat form as those of a request.
abbrev pub as_values : List (Text × Leaf) → List (Text × Nested)
as_values [] = []
as_values ((k, v) ∷ flat) = (k, leaf v) ∷ as_values flat

as_values-item : (xs : List KeyPath) → as_values (map (item []) xs) ≡ map flat_item xs
as_values-item [] = refl
as_values-item (x ∷ xs) = ap (λ l. flat_item x ∷ l) (as_values-item xs)

under-IsKept :
    (k : Text) (xs : List KeyPath) → Dotless k → All IsKept xs → All IsKept (map (under k) xs)
under-IsKept k [] d h = tt
under-IsKept k ((p, ps, v) ∷ xs) d h = ((d, (h.0.0, h.0.1), h.0.2), under-IsKept k xs d h.1)

paths-IsKept : (es : Entries) → IsConfig es → All IsKept (paths es)
unfolding paths
paths-IsKept end h = tt
paths-IsKept (entry k (leaf v) es) h = ((h.0, tt, h.2), paths-IsKept es h.3)
paths-IsKept (entry k (dict sub) es) h =
    All-append IsKept (map (under k) (paths sub)) (paths es)
      (under-IsKept k (paths sub) h.0 (paths-IsKept sub h.2.1)) (paths-IsKept es h.3)

-- A configuration is read back from its flat form as it was, in the order of its keys, if its keys have no dots and are distinct in each
-- dictionary, and no value in it is `None`, the empty text or an empty dictionary.
pub unflatten_dict-flatten_dict :
    (es : Entries) → IsConfig es → unflatten_dict (as_values (flatten_dict es)) ≡ done es
unfolding unflatten_dict
unflatten_dict-flatten_dict es h =
    rw (flatten_dict-paths es h, as_values-item (paths es))
      (unflatten_from-paths (paths es) end (paths-IsKept es h)
        ∙ store_paths-paths es end h (KeysAbsent-end es))
