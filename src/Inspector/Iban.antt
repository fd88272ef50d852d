-- ===== src/Inspector/Iban.antt =====
-- `_iban_mod97_check` of content_inspector_service.py. The code reduces the digits in chunks of
-- nine.
use api_gateways.Base.{
  ℕ, zero, suc, ◌+◌, ◌-◌, ◌*◌, ◌/◌, ◌%◌, ◌≤◌, ◌<◌, ◌≡◌, refl, sym, ap, ◌∙◌, Bool, true, false, ◌||◌,
  ◌↔◌, inl, inr, Option, none, some, [], ◌∷◌, ◌++◌, map, length, take, drop, take-append-drop,
  length-drop, filter, not, Text, is_digit, is_upper, to_upper, ltb, arith, ◌==◌, ==_iff,
  Bool-cases, if◌then◌else◌,
}

-- `int(s)` of a text of digits, and the same after a number that was read
unfoldable pub int_from : ℕ → Text → ℕ
int_from n [] = n
int_from n (c ∷ s) = int_from (n * 10 + (c - b'0')) s

abbrev pub int : Text → ℕ
int = int_from 0

-- `str(n)`; `fuel` bounds the number of digits
unfoldable pub decimal_from : ℕ → ℕ → Text
decimal_from zero n = (b'0' + n % 10) ∷ []
decimal_from (suc fuel) n =
    let more = decimal_from fuel (n / 10) ++ (b'0' + n % 10) ∷ [] in
    if ltb n 10 then (b'0' + n) ∷ [] else more

abbrev pub decimal : ℕ → Text
decimal n = decimal_from n n

-- The loop over chunks of nine digits; `fuel` bounds its rounds.
unfoldable pub mod97_from : ℕ → ℕ → Text → ℕ
unfolding int_from decimal_from
mod97_from zero remainder s = remainder
mod97_from (suc fuel) remainder [] = remainder
mod97_from (suc fuel) remainder (c ∷ s) =
    mod97_from fuel (int (decimal remainder ++ take 9 (c ∷ s)) % 97) (drop 9 (c ∷ s))

-- One character in digits: itself, or A = 10 to Z = 35.
unfoldable pub convert : ℕ → Option Text
unfolding decimal_from
convert c =
    if is_digit c
    then some (c ∷ [])
    else if is_upper c
    then some (decimal (c - b'A' + 10))
    else none

abbrev join : Option Text → Option Text → Option Text
join none o = none
join (some s) none = none
join (some s) (some t) = some (s ++ t)

unfoldable pub convert_all : Text → Option Text
unfolding convert
convert_all [] = some []
convert_all (c ∷ s) = join (convert c) (convert_all s)

-- `iban_alnum.replace(" ", "").upper()`
unfoldable pub normalize_iban : Text → Text
normalize_iban s = map to_upper (filter (λ c. not (c == b' ')) s)

abbrev is_one : Option Text → Bool
is_one none = false
is_one (some digits) = mod97_from (length digits) 0 digits == 1

-- `_iban_mod97_check`
unfoldable pub iban_mod97_check : Text → Bool
unfolding mod97_from convert_all normalize_iban
iban_mod97_check iban_alnum =
    let iban = normalize_iban iban_alnum in
    if ltb (length iban) 15 || ltb 34 (length iban)
    then false
    else is_one (convert_all (drop 4 iban ++ take 4 iban))

int_from-append : (n : ℕ) (s t : Text) → int_from n (s ++ t) ≡ int_from (int_from n s) t
unfolding int_from
int_from-append n [] t = refl
int_from-append n (c ∷ s) t = int_from-append (n * 10 + (c - b'0')) s t

int-decimal_from : (fuel n : ℕ) → n ≤ fuel → int (decimal_from fuel n) ≡ n
unfolding int_from decimal_from
int-decimal_from zero n h = omega arith
int-decimal_from (suc fuel) n h = elim (Bool-cases (ltb n 10)) [
  | inl e ↦ rw e (omega arith)
  | inr e ↦ rw e (
      rw (int_from-append 0 (decimal_from fuel (n / 10)) ((b'0' + n % 10) ∷ []))
        (rw (int-decimal_from fuel (n / 10) (ground arith)) (omega arith)))
]

-- Reading on from numbers that are congruent gives congruent numbers.
int_from-mod : (a b : ℕ) (s : Text) → a % 97 ≡ b % 97 → int_from a s % 97 ≡ int_from b s % 97
unfolding int_from
int_from-mod a b [] h = h
int_from-mod a b (c ∷ s) h =
    int_from-mod (a * 10 + (c - b'0')) (b * 10 + (c - b'0')) s (omega arith)

-- One chunk: the text of the remainder in front of it reads as the remainder continued.
int-chunk : (r : ℕ) (s : Text) → int (decimal r ++ s) ≡ int_from r s
int-chunk r s =
    int_from-append 0 (decimal r) s ∙ ap (λ n. int_from n s) (int-decimal_from r r (omega arith))

mod97_from-eq :
    (fuel r : ℕ) (s : Text) → r < 97 → length s ≤ fuel → mod97_from fuel r s ≡ int_from r s % 97
unfolding mod97_from
mod97_from-eq zero r [] h le = omega arith
mod97_from-eq zero r (c ∷ s) h le = absurd (omega arith)
mod97_from-eq (suc fuel) r [] h le = omega arith
mod97_from-eq (suc fuel) r (c ∷ s) h le =
    let chunk = take 9 (c ∷ s) in
    let rest = drop 9 (c ∷ s) in
    let n = int (decimal r ++ chunk) in
    mod97_from-eq fuel (n % 97) rest (omega arith) (omega (arith, length-drop 8 s))
    ∙ int_from-mod (n % 97) n rest (omega arith)
    ∙ ap (λ m. int_from m rest % 97) (int-chunk r chunk)
    ∙ ap (λ m. m % 97) (sym (int_from-append r chunk rest))
    ∙ ap (λ t. int_from r t % 97) (take-append-drop 9 (c ∷ s))

-- The chunked loop, with as many rounds as there are digits, ends in the remainder of the whole
-- number by 97, whatever the length of the text.
pub mod97_from-int : (s : Text) → mod97_from (length s) 0 s ≡ int s % 97
mod97_from-int s = mod97_from-eq (length s) 0 s (omega arith) (omega arith)

-- A text whose normalized form has 15 to 34 characters, all of them letters or digits that convert
-- to `digits`, passes the check exactly when the number that they spell is 1 modulo 97.
pub iban_check_iff :
    (iban_alnum digits : Text)
    → 15 ≤ length (normalize_iban iban_alnum)
    → length (normalize_iban iban_alnum) ≤ 34
    → convert_all (drop 4 (normalize_iban iban_alnum) ++ take 4 (normalize_iban iban_alnum))
      ≡ some digits
    → (iban_mod97_check iban_alnum ≡ true) ↔ (int digits % 97 ≡ 1)
unfolding iban_mod97_check
iban_check_iff iban_alnum digits lo hi converted =
    let short : ltb (length (normalize_iban iban_alnum)) 15 ≡ false = ground arith in
    let long : ltb 34 (length (normalize_iban iban_alnum)) ≡ false = ground arith in
    rw (short, long, converted, mod97_from-int digits) (==_iff (int digits % 97) 1)
