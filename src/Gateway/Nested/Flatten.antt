-- ===== src/Gateway/Nested/Flatten.antt =====
-- `flatten_dict` of gateway_plugins.py lists each path of a configuration once.
use mathlib.Core.List.{map-append}
use api_gateways.Base.{
  false, none, List, [], ◌∷◌, ◌++◌, map, Text, text_eq, text_eq_refl, ◌≡◌, arith, refl, ap, ap₂,
  All, All-append, ◌∙◌, sym, append-nil, append_assoc,
}
use api_gateways.Gateway.Nested.{
  Leaf, leaf, dict, Entries, end, entry, find, assign, update, dot, flatten_from, flatten_dict,
}
use api_gateways.Gateway.Nested.Paths.{Dotless, IsConfig, KeyPath, under, paths, join, text_ne}

-- What follows a key: nothing, or a dot.
abbrev IsTail : Text → Type 0
IsTail [] = Unit
IsTail (c ∷ t) = c ≡ b'.'

-- The key that a text begins with is determined.
head_unique :
    (k j s t : Text) → Dotless k → Dotless j → IsTail s → IsTail t → k ++ s ≡ j ++ t → k ≡ j
head_unique [] [] s t hk hj hs ht e = refl
head_unique [] (c ∷ j) [] t hk hj hs ht e = absurd (ground arith)
head_unique [] (c ∷ j) (d ∷ s) t hk hj hs ht e = absurd (ground arith)
head_unique (c ∷ k) [] s [] hk hj hs ht e = absurd (ground arith)
head_unique (c ∷ k) [] s (d ∷ t) hk hj hs ht e = absurd (ground arith)
head_unique (c ∷ k) (d ∷ j) s t hk hj hs ht e =
    let heads : c ≡ d = cc in
    let tails : k ++ s ≡ j ++ t = cc in
    ap₂ (λ x xs. x ∷ xs) heads (head_unique k j s t hk.1 hj.1 hs ht tails)

append-cancel : (p s t : Text) → p ++ s ≡ p ++ t → s ≡ t
append-cancel [] s t e = e
append-cancel (c ∷ p) s t e = append-cancel p s t (cc)

-- A flat key that comes from the key `k` below the prefix.
abbrev Under : Text → Text → Text → Type 0
Under prefix k q = (t : Text) × IsTail t × (q ≡ prefix ++ (k ++ t))

abbrev Avoids : Text → Text → List (Text × Leaf) → Type 0
Avoids prefix k = All (λ e. ¬ Under prefix k e.0)

-- No flat key comes from a key of the dictionary.
abbrev Clear : Text → Entries → List (Text × Leaf) → Type 0
Clear prefix end flat = Unit
Clear prefix (entry k v es) flat = Avoids prefix k flat × Clear prefix es flat

-- The flat form, one item after the other.
pub flat_of : Text → Entries → List (Text × Leaf)
flat_of prefix end = []
flat_of prefix (entry k (leaf v) es) = (prefix ++ k, v) ∷ flat_of prefix es
flat_of prefix (entry k (dict sub) es) = flat_of (prefix ++ (k ++ dot)) sub ++ flat_of prefix es

assign_absent :
    (q : Text) (v : Leaf) (flat : List (Text × Leaf))
    → All (λ e. text_eq e.0 q ≡ false) flat
    → assign q v flat ≡ flat ++ (q, v) ∷ []
unfolding assign
assign_absent q v [] h = refl
assign_absent q v ((j, w) ∷ flat) h = rw h.0 (ap (λ d. (j, w) ∷ d) (assign_absent q v flat h.1))

assign-Avoids :
    (prefix k : Text) (v : Leaf) (flat : List (Text × Leaf))
    → Avoids prefix k flat
    → assign (prefix ++ k) v flat ≡ flat ++ (prefix ++ k, v) ∷ []
assign-Avoids prefix k v flat h = assign_absent (prefix ++ k) v flat (differ flat h)
  where
    differ :
        (d : List (Text × Leaf))
        → Avoids prefix k d
        → All (λ e. text_eq e.0 (prefix ++ k) ≡ false) d
    differ [] a = tt
    differ ((q, w) ∷ d) a = (
      text_ne q (prefix ++ k) (λ e. a.0 ([], tt, e ∙ ap (λ t. prefix ++ t) (sym (append-nil k)))),
      differ d a.1,
    )

update-append : (d e f : List (Text × Leaf)) → update d (e ++ f) ≡ update (update d e) f
unfolding update
update-append d [] f = refl
update-append d ((k, v) ∷ e) f = update-append (assign k v d) e f

-- A key of the dictionary differs from one that is no longer in it.
abbrev NotIn : Text → Entries → Type 0
NotIn k end = Unit
NotIn k (entry j v es) = (text_eq j k ≡ false) × Dotless j × NotIn k es

NotIn-find : (k : Text) (es : Entries) → find k es ≡ none → IsConfig es → NotIn k es
unfolding find
NotIn-find k end h c = tt
NotIn-find k (entry j v es) h c = (ground arith, c.0, NotIn-find k es (ground arith) c.3)

-- Items that come from another key leave the rest of the dictionary clear.
Clear-append :
    (prefix k : Text) (es : Entries) (flat new : List (Text × Leaf))
    → Dotless k
    → NotIn k es
    → All (λ e. Under prefix k e.0) new
    → Clear prefix es flat
    → Clear prefix es (flat ++ new)
Clear-append prefix k end flat new d n u c = tt
Clear-append prefix k (entry j v es) flat new d n u c = (
  All-append (λ (e : Text × Leaf). ¬ Under prefix j e.0) flat new c.0 (avoids new u),
  Clear-append prefix k es flat new d n.2 u c.1,
)
  where
    clash : (q : Text) → Under prefix k q → ¬ Under prefix j q
    clash q (s, hs, e) (t, ht, f) =
        let same =
          head_unique k j s t d n.1 hs ht (append-cancel prefix (k ++ s) (j ++ t) (sym e ∙ f)) in
        absurd (ground (arith, n.0, same, text_eq_refl j))

    avoids : (l : List (Text × Leaf)) → All (λ e. Under prefix k e.0) l → Avoids prefix j l
    avoids [] a = tt
    avoids ((q, w) ∷ l) a = (clash q a.0, avoids l a.1)

All-map {ℓ κ ι} :
    {A : Type ℓ} (P : A → Type κ) (Q : A → Type ι) (imp : (a : A) → P a → Q a) (xs : List A)
    → All P xs
    → All Q xs
All-map P Q imp [] h = tt
All-map P Q imp (x ∷ xs) h = (imp x h.0, All-map P Q imp xs h.1)

-- The key begins with the prefix.
abbrev Starts : Text → Text × Leaf → Type 0
Starts prefix e = (t : Text) × (e.0 ≡ prefix ++ t)

below : (prefix k t : Text) → (prefix ++ (k ++ dot)) ++ t ≡ prefix ++ (k ++ (dot ++ t))
below prefix k t = append_assoc prefix (k ++ dot) t ∙ ap (λ x. prefix ++ x) (append_assoc k dot t)

flat_of-Starts : (prefix : Text) (es : Entries) → All (Starts prefix) (flat_of prefix es)
unfolding flat_of
flat_of-Starts prefix end = tt
flat_of-Starts prefix (entry k (leaf v) es) = ((k, refl), flat_of-Starts prefix es)
flat_of-Starts prefix (entry k (dict sub) es) =
    All-append (Starts prefix) (flat_of (prefix ++ (k ++ dot)) sub) (flat_of prefix es)
      (All-map (Starts (prefix ++ (k ++ dot))) (Starts prefix)
        (λ e s. (k ++ (dot ++ s.0), s.1 ∙ below prefix k s.0)) (flat_of (prefix ++ (k ++ dot)) sub)
        (flat_of-Starts (prefix ++ (k ++ dot)) sub))
      (flat_of-Starts prefix es)

flat_of-Under :
    (prefix k : Text) (sub : Entries)
    → All (λ e. Under prefix k e.0) (flat_of (prefix ++ (k ++ dot)) sub)
flat_of-Under prefix k sub =
    All-map (Starts (prefix ++ (k ++ dot))) (λ e. Under prefix k e.0)
      (λ e s. (dot ++ s.0, refl, s.1 ∙ below prefix k s.0)) (flat_of (prefix ++ (k ++ dot)) sub)
      (flat_of-Starts (prefix ++ (k ++ dot)) sub)

Clear-below :
    (prefix k : Text) (sub : Entries) (flat : List (Text × Leaf))
    → Avoids prefix k flat
    → Clear (prefix ++ (k ++ dot)) sub flat
Clear-below prefix k end flat a = tt
Clear-below prefix k (entry j v sub) flat a = (
  All-map (λ (e : Text × Leaf). ¬ Under prefix k e.0) (λ e. ¬ Under (prefix ++ (k ++ dot)) j e.0)
      (λ e n u. n (dot ++ (j ++ u.0), refl, u.2 ∙ below prefix k (j ++ u.0))) flat a,
  Clear-below prefix k sub flat a,
)

Clear-nil : (prefix : Text) (es : Entries) → Clear prefix es []
Clear-nil prefix end = tt
Clear-nil prefix (entry k v es) = (tt, Clear-nil prefix es)

-- No item of the flat form of a configuration overwrites another.
update-flat_of :
    (prefix : Text) (es : Entries) (flat : List (Text × Leaf))
    → IsConfig es
    → Clear prefix es flat
    → update flat (flat_of prefix es) ≡ flat ++ flat_of prefix es
unfolding flat_of update
update-flat_of prefix end flat h c = sym (append-nil flat)
update-flat_of prefix (entry k (leaf v) es) flat h c =
    ap (λ d. update d (flat_of prefix es)) (assign-Avoids prefix k v flat c.0)
    ∙ update-flat_of prefix es (flat ++ (prefix ++ k, v) ∷ []) h.3 (
        Clear-append prefix k es flat ((prefix ++ k, v) ∷ []) h.0 (NotIn-find k es h.1 h.3)
          (([], tt, ap (λ t. prefix ++ t) (sym (append-nil k))), tt) c.1)
    ∙ append_assoc flat ((prefix ++ k, v) ∷ []) (flat_of prefix es)
update-flat_of prefix (entry k (dict sub) es) flat h c =
    let inner = flat_of (prefix ++ (k ++ dot)) sub in
    update-append flat inner (flat_of prefix es)
    ∙ ap (λ d. update d (flat_of prefix es))
        (update-flat_of (prefix ++ (k ++ dot)) sub flat h.2.1 (Clear-below prefix k sub flat c.0))
    ∙ update-flat_of prefix es (flat ++ inner) h.3 (
        Clear-append prefix k es flat inner h.0 (NotIn-find k es h.1 h.3)
          (flat_of-Under prefix k sub) c.1)
    ∙ append_assoc flat inner (flat_of prefix es)

flatten_from-update :
    (prefix : Text) (es : Entries) (flat : List (Text × Leaf))
    → IsConfig es
    → flatten_from prefix es flat ≡ update flat (flat_of prefix es)
unfolding flat_of flatten_from update
flatten_from-update prefix end flat h = refl
flatten_from-update prefix (entry k (leaf v) es) flat h =
    flatten_from-update prefix es (assign (prefix ++ k) v flat) h.3
flatten_from-update prefix (entry k (dict sub) es) flat h =
    let p = prefix ++ (k ++ dot) in
    flatten_from-update prefix es (update flat (flatten_from p sub [])) h.3
    ∙ ap (λ d. update (update flat d) (flat_of prefix es))
        (flatten_from-update p sub [] h.2.1 ∙ update-flat_of p sub [] h.2.1 (Clear-nil p sub))
    ∙ sym (update-append flat (flat_of p sub) (flat_of prefix es))

-- The flat form of a path below a prefix.
abbrev pub item : Text → KeyPath → Text × Leaf
item prefix (p, ps, v) = (prefix ++ join p ps, v)

map-under :
    (prefix k : Text) (xs : List KeyPath)
    → map (item prefix) (map (under k) xs) ≡ map (item (prefix ++ (k ++ dot))) xs
map-under prefix k [] = refl
map-under prefix k ((p, ps, v) ∷ xs) =
    ap₂ (λ x l. x ∷ l) (ap (λ q. (q, v)) (sym (below prefix k (join p ps)))) (map-under prefix k xs)

flat_of-paths : (prefix : Text) (es : Entries) → flat_of prefix es ≡ map (item prefix) (paths es)
unfolding flat_of paths
flat_of-paths prefix end = refl
flat_of-paths prefix (entry k (leaf v) es) =
    ap (λ l. (prefix ++ k, v) ∷ l) (flat_of-paths prefix es)
flat_of-paths prefix (entry k (dict sub) es) =
    ap₂ (λ a b. a ++ b)
      (flat_of-paths (prefix ++ (k ++ dot)) sub ∙ sym (map-under prefix k (paths sub)))
      (flat_of-paths prefix es)
    ∙ sym (map-append (item prefix) (map (under k) (paths sub)) (paths es))

-- The flat form of a configuration lists its paths, in their order.
pub flatten_dict-paths : (es : Entries) → IsConfig es → flatten_dict es ≡ map (item []) (paths es)
unfolding flatten_dict
flatten_dict-paths es h =
    flatten_from-update [] es [] h
    ∙ update-flat_of [] es [] h (Clear-nil [] es)
    ∙ flat_of-paths [] es
