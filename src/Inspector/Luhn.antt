-- ===== src/Inspector/Luhn.antt =====
-- `_luhn_check` of content_inspector_service.py, which output_guard_service.py repeats, and the errors
-- that it detects.
use mathlib.Core.List.{reverse, map-append, reverse-append, reverse-cons}
use api_gateways.Base.{
  ◌≢◌, ℕ, suc, ◌+◌, ◌-◌, ◌*◌, ◌%◌, ◌<◌, ◌≡◌, refl, sym, ap, ◌∙◌, Bool, true, false, inl, inr, List,
  [], ◌∷◌, ◌++◌, map, append_assoc, length, Text, is_digit, ltb, arith, ◌==◌, ==_iff, Bool-cases,
  if◌then◌else◌,
}

-- The part of the digit `d` at the place `i` from the right.
unfoldable pub luhn_term : ℕ → ℕ → ℕ
luhn_term i d = if i % 2 == 1 then (let e = d * 2 in if ltb 9 e then e - 9 else e) else d

unfoldable pub luhn_loop : ℕ → ℕ → List ℕ → ℕ
unfolding luhn_term
luhn_loop i checksum [] = checksum
luhn_loop i checksum (d ∷ ds) = luhn_loop (suc i) (checksum + luhn_term i d) ds

-- `int(d)` of a digit character
abbrev pub digit_value : ℕ → ℕ
digit_value c = c - b'0'

-- `_luhn_check`
unfoldable pub luhn_check : Text → Bool
unfolding luhn_loop
luhn_check number_digits = luhn_loop 0 0 (reverse (map digit_value number_digits)) % 10 == 0

luhn_loop-append :
    (i checksum : ℕ) (ds es : List ℕ)
    → luhn_loop i checksum (ds ++ es) ≡ luhn_loop (i + length ds) (luhn_loop i checksum ds) es
unfolding luhn_loop
luhn_loop-append i checksum [] es = ap (λ j. luhn_loop j checksum es) (omega arith)
luhn_loop-append i checksum (d ∷ ds) es =
    luhn_loop-append (suc i) (checksum + luhn_term i d) ds es
    ∙ ap (λ j. luhn_loop j (luhn_loop (suc i) (checksum + luhn_term i d) ds) es) (omega arith)

luhn_loop-add : (i a b : ℕ) (ds : List ℕ) → luhn_loop i (a + b) ds ≡ a + luhn_loop i b ds
unfolding luhn_loop
luhn_loop-add i a b [] = refl
luhn_loop-add i a b (d ∷ ds) =
    ap (λ c. luhn_loop (suc i) c ds) (omega arith) ∙ luhn_loop-add (suc i) a (b + luhn_term i d) ds

luhn_step :
    (i a d : ℕ) (ls : List ℕ) → luhn_loop i a (d ∷ ls) ≡ a + luhn_term i d + luhn_loop (suc i) 0 ls
unfolding luhn_loop
luhn_step i a d ls =
    let z : a + luhn_term i d ≡ a + luhn_term i d + 0 = omega arith in
    ap (λ b. luhn_loop (suc i) b ls) z ∙ luhn_loop-add (suc i) (a + luhn_term i d) 0 ls

-- The checksum around one digit, on the reversed digits.
luhn_at :
    (rs ls : List ℕ) (d : ℕ)
    → luhn_loop 0 0 (rs ++ d ∷ ls)
      ≡ luhn_loop 0 0 rs + luhn_term (length rs) d + luhn_loop (suc (length rs)) 0 ls
luhn_at rs ls d =
    let z : 0 + length rs ≡ length rs = omega arith in
    luhn_loop-append 0 0 rs (d ∷ ls)
    ∙ ap (λ i. luhn_loop i (luhn_loop 0 0 rs) (d ∷ ls)) z
    ∙ luhn_step (length rs) (luhn_loop 0 0 rs) d ls

reverse_split :
    (xs ys : Text) (c : ℕ)
    → reverse (map digit_value (xs ++ c ∷ ys))
      ≡ reverse (map digit_value ys) ++ digit_value c ∷ reverse (map digit_value xs)
reverse_split xs ys c = simp (map-append, reverse-append, reverse-cons, append_assoc)

luhn_term-lt : (i d : ℕ) → d < 10 → luhn_term i d < 10
unfolding luhn_term
luhn_term-lt i d h = ground arith

luhn_term-injective : (i d e : ℕ) → d < 10 → e < 10 → luhn_term i d ≡ luhn_term i e → d ≡ e
unfolding luhn_term
luhn_term-injective i d e h k q = ground arith

residues : (a b t u : ℕ) → t < 10 → u < 10 → (a + t + b) % 10 ≡ 0 → (a + u + b) % 10 ≡ 0 → t ≡ u
residues a b t u h k p q = omega arith

luhn_check-split :
    (xs ys : Text) (c : ℕ)
    → luhn_check (xs ++ c ∷ ys) ≡ true
    → let rs = reverse (map digit_value ys) in
      (luhn_loop 0 0 rs
          + luhn_term (length rs) (digit_value c)
          + luhn_loop (suc (length rs)) 0 (reverse (map digit_value xs)))
        % 10
      ≡ 0
unfolding luhn_check
luhn_check-split xs ys c v =
    let rs = reverse (map digit_value ys) in
    let ls = reverse (map digit_value xs) in
    ap (λ n. n % 10)
      (sym (ap (luhn_loop 0 0) (reverse_split xs ys c) ∙ luhn_at rs ls (digit_value c)))
    ∙ (==_iff _ 0).0 v

luhn_same_digit :
    (xs ys : Text) (c d : ℕ)
    → is_digit c ≡ true
    → is_digit d ≡ true
    → luhn_check (xs ++ c ∷ ys) ≡ true
    → luhn_check (xs ++ d ∷ ys) ≡ true
    → c ≡ d
luhn_same_digit xs ys c d hc hd vc vd =
    let k = length (reverse (map digit_value ys)) in
    let lc : digit_value c < 10 = ground arith in
    let ld : digit_value d < 10 = ground arith in
    let same : luhn_term k (digit_value c) ≡ luhn_term k (digit_value d) =
      residues _ _ _ _ (luhn_term-lt k _ lc) (luhn_term-lt k _ ld) (luhn_check-split xs ys c vc)
        (luhn_check-split xs ys d vd) in
    let q = luhn_term-injective k (digit_value c) (digit_value d) lc ld same in ground arith

-- A single wrong digit in a number that passes the check is always detected, wherever it stands.
pub luhn_detects_digit :
    (xs ys : Text) (c d : ℕ)
    → is_digit c ≡ true
    → is_digit d ≡ true
    → c ≢ d
    → luhn_check (xs ++ c ∷ ys) ≡ true
    → luhn_check (xs ++ d ∷ ys) ≡ false
luhn_detects_digit xs ys c d hc hd apart valid = elim (Bool-cases (luhn_check (xs ++ d ∷ ys))) [
  | inl same ↦ absurd (apart (luhn_same_digit xs ys c d hc hd valid same))
  | inr e ↦ e
]
