-- ===== src/Prompt/Doubles.antt =====
-- Python's `float` by its bit pattern, a number below `2 ^ 64`, and its comparison.
use api_gateways.Base.{
  ℕ, Bool, true, not, ◌&&◌, ◌==◌, leb, ltb, ◌-◌, ◌≤◌, ◌≡◌, arith, if◌then◌else◌,
}

-- The pattern of `-0.0`, with the sign bit alone, and that of the infinity, above which are the patterns of NaN.
abbrev pub sign_bit : ℕ
sign_bit = 9223372036854775808

abbrev pub infinity : ℕ
infinity = 9218868437227405312

abbrev pub is_signed : ℕ → Bool
is_signed w = leb sign_bit w

abbrev pub magnitude : ℕ → ℕ
magnitude w = if is_signed w then w - sign_bit else w

abbrev pub is_nan : ℕ → Bool
is_nan w = ltb infinity (magnitude w)

-- `a <= b` of two numbers: the negative ones stand in the reverse order of their patterns, and the two zeros are equal.
abbrev pub number_le : ℕ → ℕ → Bool
number_le a b =
    if is_signed a
    then (if is_signed b then leb (magnitude b) (magnitude a) else true)
    else if is_signed b
    then magnitude a == 0 && magnitude b == 0
    else leb a b

-- `a <= b`, which is false where one of them is NaN
unfoldable pub double_le : ℕ → ℕ → Bool
double_le a b = not (is_nan a) && (not (is_nan b) && number_le a b)

-- Zero or a positive number, the infinity included.
abbrev pub IsNonNegative : ℕ → Type 0
IsNonNegative w = w ≤ infinity

-- What a number that is not negative reaches, a greater one reaches.
pub double_le-IsNonNegative :
    (t w a : ℕ) → IsNonNegative a → w ≤ a → double_le t w ≡ true → double_le t a ≡ true
unfolding double_le
double_le-IsNonNegative t w a n h k = ground arith
