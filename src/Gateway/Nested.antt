-- ===== src/Gateway/Nested.antt =====
-- `flatten_dict` and `unflatten_dict` of fastapi_backend/app/api/admin/gateway_plugins.py: the configuration of a
-- plugin, nested for Kong and flat for the form.
pub mod Paths
pub mod Unflatten
pub mod Flatten
pub mod RoundTrip
use api_gateways.Base.{
  ℕ, Bool, true, false, Option, none, some, List, [], ◌∷◌, ◌++◌, Text, codes, text_eq, ◌==◌,
  if◌then◌else◌,
}
use api_gateways.Gateway.Outcome.{Outcome, done, raised, ◌>>=◌}

-- A value that is no dictionary: `None`, a text, or another, which only its number tells apart.
pub data Leaf : Type 0 where
  null : Leaf
  text : Text → Leaf
  other : ℕ → Leaf

-- A dictionary in its order of insertion.
mutual
  pub data Nested : Type 0 where
    leaf : Leaf → Nested
    dict : Entries → Nested

  pub data Entries : Type 0 where
    end : Entries
    entry : Text → Nested → Entries → Entries

-- `d[k] = v` on a dictionary without nesting
unfoldable pub assign : Text → Leaf → List (Text × Leaf) → List (Text × Leaf)
assign k v [] = (k, v) ∷ []
assign k v ((j, w) ∷ d) = if text_eq j k then (j, v) ∷ d else (j, w) ∷ assign k v d

-- `d.update(e)`
unfoldable pub update : List (Text × Leaf) → List (Text × Leaf) → List (Text × Leaf)
unfolding assign
update d [] = d
update d ((k, v) ∷ e) = update (assign k v d) e

abbrev pub dot : Text
dot = codes "."

-- `flatten_dict`: the loop over the items, with what is flat so far
unfoldable pub flatten_from : Text → Entries → List (Text × Leaf) → List (Text × Leaf)
unfolding assign update
flatten_from prefix end flat = flat
flatten_from prefix (entry key (leaf v) es) flat =
    flatten_from prefix es (assign (prefix ++ key) v flat)
flatten_from prefix (entry key (dict sub) es) flat =
    flatten_from prefix es (update flat (flatten_from (prefix ++ (key ++ dot)) sub []))

unfoldable pub flatten_dict : Entries → List (Text × Leaf)
unfolding flatten_from
flatten_dict es = flatten_from [] es []

-- `key.split(".")`, which is never empty: its first part and the others
unfoldable pub split : Text → Text × List Text
split [] = ([], [])
split (c ∷ s) =
    let (part, parts) = split s in if c == b'.' then ([], part ∷ parts) else (c ∷ part, parts)

unfoldable pub find : Text → Entries → Option Nested
find k end = none
find k (entry j v es) = if text_eq j k then some v else find k es

unfoldable pub put : Text → Nested → Entries → Entries
put k v end = entry k v end
put k v (entry j w es) = if text_eq j k then entry j v es else entry j w (put k v es)

-- `d[part]`, after `d[part] = {}` if it is not there; a value that is no dictionary cannot be indexed
abbrev pub sub_dict : Option Nested → Outcome Entries
sub_dict none = done end
sub_dict (some (dict sub)) = done sub
sub_dict (some (leaf v)) = raised "TypeError"

-- The walk along the parts, and the assignment at its end.
unfoldable pub set_path : Text → List Text → Nested → Entries → Outcome Entries
unfolding find put
set_path part [] v es = done (put part v es)
set_path part (next ∷ parts) v es =
    sub_dict (find part es)
    >>= (λ sub. set_path next parts v sub >>= (λ after. done (put part (dict after) es)))

abbrev pub is_empty_value : Nested → Bool
is_empty_value (leaf null) = true
is_empty_value (leaf (text [])) = true
is_empty_value v = false

-- `unflatten_dict`, with what is nested so far; the values of a request may be dictionaries themselves
unfoldable pub unflatten_from : List (Text × Nested) → Entries → Outcome Entries
unfolding split set_path
unflatten_from [] es = done es
unflatten_from ((key, v) ∷ flat) es =
    let (part, parts) = split key in
    let skipped = unflatten_from flat es in
    let stored = set_path part parts v es >>= (λ after. unflatten_from flat after) in
    if is_empty_value v then skipped else stored

unfoldable pub unflatten_dict : List (Text × Nested) → Outcome Entries
unfolding unflatten_from
unflatten_dict flat = unflatten_from flat end
