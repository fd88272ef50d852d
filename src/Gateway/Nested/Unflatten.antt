-- ===== src/Gateway/Nested/Unflatten.antt =====
-- `unflatten_dict` of gateway_plugins.py puts each path of a configuration where it was.
use api_gateways.Base.{
  false, none, some, List, [], ◌∷◌, ◌++◌, map, Text, text_eq, text_eq_refl, ◌≡◌, arith, refl, ap,
  All, ◌∙◌, sym, fun_ext, subst,
}
use api_gateways.Gateway.Outcome.{Outcome, done, http, raised, ◌>>=◌}
use api_gateways.Gateway.Nested.{
  Leaf, Nested, leaf, dict, Entries, end, entry, find, put, dot, is_empty_value, split, set_path,
  unflatten_from,
}
use api_gateways.Gateway.Nested.Paths.{
  Dotless, NonEmpty, IsConfig, KeyPath, under, paths, join, text_eq-false_sym,
}

split-Dotless : (p : Text) → Dotless p → split p ≡ (p, [])
unfolding split
split-Dotless [] h = refl
split-Dotless (c ∷ p) h = rw (split-Dotless p h.1, h.0)

split-join_next :
    (p : Text) (s : Text) → Dotless p → split (p ++ (dot ++ s)) ≡ (p, (split s).0 ∷ (split s).1)
unfolding split
split-join_next [] s h = refl
split-join_next (c ∷ p) s h = rw (split-join_next p s h.1, h.0)

pub split-join :
    (p : Text) (ps : List Text) → Dotless p → All Dotless ps → split (join p ps) ≡ (p, ps)
split-join p [] h hs = split-Dotless p h
split-join p (q ∷ qs) h hs = rw (split-join_next p (join q qs) h, split-join q qs hs.0 hs.1)

-- The assignments along the paths.
pub store_paths : List KeyPath → Entries → Outcome Entries
store_paths [] es = done es
store_paths ((p, ps, v) ∷ r) es = set_path p ps (leaf v) es >>= (λ after. store_paths r after)

-- The flat form of a path.
abbrev pub flat_item : KeyPath → Text × Nested
flat_item (p, ps, v) = (join p ps, leaf v)

abbrev pub IsKept : KeyPath → Type 0
IsKept (p, ps, v) = Dotless p × All Dotless ps × (is_empty_value (leaf v) ≡ false)

pub unflatten_from-paths :
    (r : List KeyPath) (es : Entries)
    → All IsKept r
    → unflatten_from (map flat_item r) es ≡ store_paths r es
unfolding unflatten_from store_paths
unflatten_from-paths [] es h = refl
unflatten_from-paths ((p, ps, v) ∷ r) es h =
    rw (split-join p ps h.0.0 h.0.1, h.0.2)
      (ap (λ k. set_path p ps (leaf v) es >>= k)
        (fun_ext (λ after. unflatten_from-paths r after h.1)))

abbrev pub append : Entries → Entries → Entries
append end fs = fs
append (entry k v es) fs = entry k v (append es fs)

find-append : (k : Text) (es fs : Entries) → find k es ≡ none → find k (append es fs) ≡ find k fs
unfolding find
find-append k end fs h = refl
find-append k (entry j v es) fs h = ground (arith, find-append k es fs)

put-append :
    (k : Text) (v : Nested) (es fs : Entries)
    → find k es ≡ none
    → put k v (append es fs) ≡ append es (put k v fs)
unfolding find put
put-append k v end fs h = refl
put-append k v (entry j w es) fs h = ground (arith, put-append k v es fs)

append_end : (es : Entries) → append es end ≡ es
append_end end = refl
append_end (entry k v es) = ap (λ t. entry k v t) (append_end es)

append_assoc : (a b c : Entries) → append (append a b) c ≡ append a (append b c)
append_assoc end b c = refl
append_assoc (entry k v a) b c = ap (λ t. entry k v t) (append_assoc a b c)

put_absent :
    (k : Text) (v : Nested) (es : Entries)
    → find k es ≡ none
    → put k v es ≡ append es (entry k v end)
unfolding find put
put_absent k v end h = refl
put_absent k v (entry j w es) h = ground (arith, put_absent k v es)

-- No key of the first dictionary is in the second.
abbrev pub KeysAbsent : Entries → Entries → Type 0
KeysAbsent end base = Unit
KeysAbsent (entry k v es) base = (find k base ≡ none) × KeysAbsent es base

bind_assoc :
    {A B C : Type 0} (m : Outcome A) (f : A → Outcome B) (g : B → Outcome C)
    → ((m >>= f) >>= g) ≡ (m >>= (λ a. f a >>= g))
bind_assoc (done a) f g = refl
bind_assoc (http status) f g = refl
bind_assoc (raised e) f g = refl

-- A dictionary with one more entry at its end.
abbrev with_last : Entries → Text → Entries → Entries
with_last base k t = append base (entry k (dict t) end)

find_last :
    (k : Text) (base s : Entries) → find k base ≡ none → find k (with_last base k s) ≡ some (dict s)
find_last k base s h =
    rw (find-append k base (entry k (dict s) end) h) (unfold find in rw text_eq_refl)

put_last :
    (k : Text) (base s t : Entries)
    → find k base ≡ none
    → put k (dict t) (with_last base k s) ≡ with_last base k t
put_last k base s t h =
    rw (put-append k (dict t) base (entry k (dict s) end) h) (unfold put in rw text_eq_refl)

module _ (k : Text) (base : Entries) (absent : find k base ≡ none) where
  set_path_last :
      (q : Text) (qs : List Text) (v : Nested) (s : Entries)
      → set_path k (q ∷ qs) v (with_last base k s)
        ≡ (set_path q qs v s >>= (λ t. done (with_last base k t)))
  unfolding set_path
  set_path_last q qs v s =
      rw (find_last k base s absent)
        (ap (λ f. set_path q qs v s >>= f) (fun_ext (λ t. ap done (put_last k base s t absent))))

  set_path_first :
      (q : Text) (qs : List Text) (v : Nested)
      → set_path k (q ∷ qs) v base ≡ (set_path q qs v end >>= (λ t. done (with_last base k t)))
  unfolding set_path
  set_path_first q qs v = rw absent (
      ap (λ f. set_path q qs v end >>= f)
        (fun_ext (λ t. ap done (put_absent k (dict t) base absent))))

  store_paths-last :
      (xs : List KeyPath) (s : Entries)
      → store_paths (map (under k) xs) (with_last base k s)
        ≡ (store_paths xs s >>= (λ t. done (with_last base k t)))
  unfolding store_paths
  store_paths-last [] s = refl
  store_paths-last ((q, qs, v) ∷ xs) s = rw (set_path_last q qs (leaf v) s) (
      bind_assoc (set_path q qs (leaf v) s) _ _
      ∙ ap (λ f. set_path q qs (leaf v) s >>= f) (fun_ext (λ t. store_paths-last xs t))
      ∙ sym (bind_assoc (set_path q qs (leaf v) s) _ _))

  store_paths-first :
      (x : KeyPath) (xs : List KeyPath)
      → store_paths (map (under k) (x ∷ xs)) base
        ≡ store_paths (map (under k) (x ∷ xs)) (with_last base k end)
  unfolding store_paths
  store_paths-first (q, qs, v) xs =
      rw (set_path_first q qs (leaf v), set_path_last q qs (leaf v) end)

store_paths-append :
    (xs ys : List KeyPath) (es : Entries)
    → store_paths (xs ++ ys) es ≡ (store_paths xs es >>= (λ after. store_paths ys after))
unfolding store_paths
store_paths-append [] ys es = refl
store_paths-append ((p, ps, v) ∷ xs) ys es =
    ap (λ f. set_path p ps (leaf v) es >>= f) (fun_ext (λ t. store_paths-append xs ys t))
    ∙ sym (bind_assoc (set_path p ps (leaf v) es) _ _)

paths_nonempty :
    (es : Entries)
    → NonEmpty es
    → IsConfig es
    → (x : KeyPath) × (xs : List KeyPath) × (paths es ≡ x ∷ xs)
unfolding paths
paths_nonempty end n h = elim n [ ]
paths_nonempty (entry k (leaf v) es) n h = ((k, [], v), paths es, refl)
paths_nonempty (entry k (dict sub) es) n h =
    let (x, xs, e) = paths_nonempty sub h.2.0 h.2.1 in
    (under k x, map (under k) xs ++ paths es, rw e)

find_last_ne :
    (j k : Text) (v : Nested) (base : Entries)
    → text_eq k j ≡ false
    → find j base ≡ none
    → find j (append base (entry k v end)) ≡ none
find_last_ne j k v base h absent =
    rw (find-append j base (entry k v end) absent) (unfold find in rw h)

KeysAbsent-last :
    (k : Text) (v : Nested) (es base : Entries)
    → find k es ≡ none
    → KeysAbsent es base
    → KeysAbsent es (append base (entry k v end))
unfolding find
KeysAbsent-last k v end base h a = tt
KeysAbsent-last k v (entry j w es) base h a = (
  find_last_ne j k v base (text_eq-false_sym j k (ground arith)) a.0,
  KeysAbsent-last k v es base (ground arith) a.1,
)

pub KeysAbsent-end : (es : Entries) → KeysAbsent es end
unfolding find
KeysAbsent-end end = tt
KeysAbsent-end (entry k v es) = (refl, KeysAbsent-end es)

-- The paths of a dictionary, put under a key that is new, make up the entry of this key.
store_paths-under :
    (k : Text) (sub base : Entries) (x : KeyPath) (rest : List KeyPath)
    → find k base ≡ none
    → store_paths (x ∷ rest) end ≡ done sub
    → store_paths (map (under k) (x ∷ rest)) base ≡ done (append base (entry k (dict sub) end))
store_paths-under k sub base x rest absent stored =
    store_paths-first k base absent x rest
    ∙ store_paths-last k base absent (x ∷ rest) end
    ∙ ap (λ m. m >>= (λ t. done (append base (entry k (dict t) end)))) stored

store_paths-under_key :
    (k : Text) (sub base : Entries) (xs : List KeyPath)
    → find k base ≡ none
    → (x : KeyPath) × (rest : List KeyPath) × (xs ≡ x ∷ rest)
    → store_paths xs end ≡ done sub
    → store_paths (map (under k) xs) base ≡ done (append base (entry k (dict sub) end))
store_paths-under_key k sub base xs absent (x, rest, e) =
    subst
      (λ ys.
        store_paths ys end ≡ done sub
        → store_paths (map (under k) ys) base ≡ done (append base (entry k (dict sub) end)))
      (sym e) (store_paths-under k sub base x rest absent)

store_paths-leaf :
    (k : Text) (v : Leaf) (xs : List KeyPath) (base : Entries)
    → find k base ≡ none
    → store_paths ((k, [], v) ∷ xs) base ≡ store_paths xs (append base (entry k (leaf v) end))
unfolding store_paths set_path
store_paths-leaf k v xs base h = rw (put_absent k (leaf v) base h)

-- To store the paths of a configuration adds its entries in their order.
pub store_paths-paths :
    (es base : Entries)
    → IsConfig es
    → KeysAbsent es base
    → store_paths (paths es) base ≡ done (append base es)
unfolding paths
store_paths-paths end base h a = unfold store_paths in rw append_end
store_paths-paths (entry k (leaf v) es) base h a =
    store_paths-leaf k v (paths es) base a.0
    ∙ store_paths-paths es (append base (entry k (leaf v) end)) h.3
        (KeysAbsent-last k (leaf v) es base h.1 a.1)
    ∙ ap done (append_assoc base (entry k (leaf v) end) es)
store_paths-paths (entry k (dict sub) es) base h a =
    let stored = store_paths-paths sub end h.2.1 (KeysAbsent-end sub) in
    let under_k =
      store_paths-under_key k sub base (paths sub) a.0 (paths_nonempty sub h.2.0 h.2.1) stored in
    store_paths-append (map (under k) (paths sub)) (paths es) base
    ∙ ap (λ m. m >>= (λ t. store_paths (paths es) t)) under_k
    ∙ store_paths-paths es (append base (entry k (dict sub) end)) h.3
        (KeysAbsent-last k (dict sub) es base h.1 a.1)
    ∙ ap done (append_assoc base (entry k (dict sub) end) es)
