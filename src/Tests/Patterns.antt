-- ===== src/Tests/Patterns.antt =====
-- A pattern that an administrator adds, on a concrete prompt.
use api_gateways.Base.{
  ℕ, String, true, Option, none, some, [], ◌∷◌, ◌+◌, codes, ◌≡◌, refl, arith, false,
}
use api_gateways.Regex.{Regex, search_in}
use api_gateways.Gateway.Outcome.{done, http}
use api_gateways.Prompt.{PatternRow, PromptSecurity, scan}
use Prim.Native.Nat.{min}
use api_gateways.Prompt.Doubles.{double_le, infinity, sign_bit}
use api_gateways.Prompt.Laws.{IsSum}
use api_gateways.Prompt.Patterns.{double_1_0, double_1_5, jailbreak_keyword}
use api_gateways.Admin.Patterns.{SecurityPattern, create_pattern, delete_pattern, reload_endpoint}
use api_gateways.Admin.Patterns.Laws.{created-blocks}

abbrev compile : String → Option Regex
compile s = some jailbreak_keyword

abbrev fits : ℕ → Option ℕ
fits w = some w

abbrev keyword : PatternRow
keyword = record {
  name = "keyword";
  pattern = "jailbreak";
  weight = double_1_5;
  description = none;
  is_active = true;
}

abbrev stored : SecurityPattern
stored = record { id = 1; row = keyword }

created : create_pattern compile fits 1 keyword [] ≡ (stored ∷ [], done stored)
unfolding create_pattern
created = refl

-- The name is taken.
twice : create_pattern compile fits 2 keyword (stored ∷ []) ≡ (stored ∷ [], http 400)
unfolding create_pattern
twice = refl

deleted_once : delete_pattern 1 (stored ∷ []) ≡ ([], done tt)
unfolding delete_pattern
deleted_once = refl

abbrev shield : PromptSecurity
shield = record { threshold = double_1_0; patterns = [] }

keyword_found : search_in jailbreak_keyword (codes "a jailbreak") ≡ true
unfolding search_in
keyword_found = refl

-- A sum that stops at the infinity.
abbrev plus : ℕ → ℕ → ℕ
plus a b = min infinity (a + b)

plus-IsSum : IsSum plus
plus-IsSum = record {
  sum_bound = λ a w m n. omega arith;
  grows = λ a w m n. omega arith;
  covers = λ a w m n. omega arith;
}

-- A stored weight below the threshold, and one that is negative, reach it not.
below : double_le double_1_5 double_1_0 ≡ false
unfolding double_le
below = refl

negative : double_le double_1_0 (sign_bit + double_1_5) ≡ false
unfolding double_le
negative = refl

zeros : double_le 0 sign_bit ≡ true
unfolding double_le
zeros = refl

heavy : double_le double_1_0 double_1_5 ≡ true
unfolding double_le
heavy = refl

abbrev other : SecurityPattern
other = record {
  id = 0;
  row = record { name = "other"; pattern = "x"; weight = 0; description = none; is_active = true };
}

created-blocks_example :
    (scan plus
      (λ s. "digest")
      (reload_endpoint compile shield (create_pattern compile fits 1 keyword (other ∷ [])).0)
      (codes "a jailbreak")).is_blocked
    ≡ true
created-blocks_example =
    created-blocks compile fits plus (λ s. "digest") plus-IsSum shield 1 keyword (other ∷ []) stored
      jailbreak_keyword (codes "a jailbreak") (unfold create_pattern in refl) refl refl
      keyword_found (omega arith, tt) (omega arith) heavy
