-- ===== src/Base/Strip.antt =====
-- `str.strip` takes the outer white space away and nothing else, so it may be repeated.
use mathlib.Core.List.{map-append, reverse-append, reverse-cons, reverse-reverse}
use mathlib.Core.List.{List, [], ◌∷◌, ◌++◌, map, reverse}
use mathlib.Core.Path.{◌≡◌, refl}
use mathlib.Core.Bool.{false}
use Prim.Native.Nat.{ℕ}
use native.Mathlib.Omega.{arith}
use api_gateways.Base.Tests.{if◌then◌else◌}
use api_gateways.Base.Texts.{Text, is_space, lstrip, strip}

-- The text does not begin with white space.
abbrev NoLead : Text → Type 0
NoLead [] = Unit
NoLead (c ∷ s) = is_space c ≡ false

lstrip-NoLead : (s : Text) → NoLead (lstrip s)
unfolding lstrip
lstrip-NoLead [] = tt
lstrip-NoLead (c ∷ s) = ground (arith, lstrip-NoLead s)

lstrip_self : (s : Text) → NoLead s → lstrip s ≡ s
unfolding lstrip
lstrip_self [] h = refl
lstrip_self (c ∷ s) h = ground arith

NoLead-append : (r q : Text) → NoLead (r ++ q) → NoLead r
NoLead-append [] q h = tt
NoLead-append (c ∷ r) q h = h

-- What `lstrip` took away.
dropped : Text → Text
dropped [] = []
dropped (c ∷ s) = let rest = dropped s in if is_space c then c ∷ rest else []

append-dropped : (s : Text) → dropped s ++ lstrip s ≡ s
unfolding dropped lstrip
append-dropped [] = refl
append-dropped (c ∷ s) = ground (arith, append-dropped s)

rstrip-NoLead : (t : Text) → NoLead t → NoLead (reverse (lstrip (reverse t)))
rstrip-NoLead t h = NoLead-append (reverse (lstrip (reverse t))) (reverse (dropped (reverse t))) (
    rw (← reverse-append (dropped (reverse t)) (lstrip (reverse t)), append-dropped (reverse t))
      (rw reverse-reverse h))

pub map-reverse {ℓ κ} :
    {A : Type ℓ} {B : Type κ} (f : A → B) (xs : List A) → map f (reverse xs) ≡ reverse (map f xs)
map-reverse f [] = refl
map-reverse f (x ∷ xs) = simp (reverse-cons, map-append, map-reverse f xs)

-- A text with no white space at either end is its own `strip`.
strip_self : (t : Text) → NoLead t → NoLead (reverse t) → strip t ≡ t
unfolding strip
strip_self t h k = rw (lstrip_self t h) (rw (lstrip_self (reverse t) k) (reverse-reverse t))

module _ (f : ℕ → ℕ) (keeps : (c : ℕ) → is_space c ≡ false → is_space (f c) ≡ false) where
  map-NoLead : (s : Text) → NoLead s → NoLead (map f s)
  map-NoLead [] h = tt
  map-NoLead (c ∷ s) h = keeps c h

  -- A text that was stripped and then mapped, without new white space, is stripped.
  pub strip-map-strip : (s : Text) → strip (map f (strip s)) ≡ map f (strip s)
  strip-map-strip s =
      strip_self (map f (strip s))
        (map-NoLead (strip s) (unfold strip in rstrip-NoLead (lstrip s) (lstrip-NoLead s)))
        (rw (← map-reverse f (strip s)) (
          map-NoLead (reverse (strip s))
            (unfold strip in rw reverse-reverse (lstrip-NoLead (reverse (lstrip s))))))
