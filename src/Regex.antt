-- ===== src/Regex.antt =====
-- The part of Python's `re` that the detectors use, as a backtracking matcher: `ends` lists the
-- lengths of all matches at a position in the order in which `re` tries them. No pattern of the
-- program matches the empty text, so `finditer` here passes over empty matches.
pub mod Bounds
pub mod Classes
use api_gateways.Base.{
  ℕ, zero, suc, ◌+◌, ◌-◌, Bool, true, false, not, ◌&&◌, ◌||◌, Option, none, some, List, [], ◌∷◌,
  ◌++◌, map, length, drop, Text, is_word, ◌==◌, if◌then◌else◌,
}

pub data Regex : Type 0 where
  -- one character of a class
  chr : (ℕ → Bool) → Regex
  empty : Regex
  seq alt : Regex → Regex → Regex
  -- greedy `{m,m+k}`, by `m` and `k`
  rep : ℕ → ℕ → Regex → Regex
  -- `*`, and the lazy `*?`
  star lazy : Regex → Regex
  -- `(?<!…)` and `(?!…)` of one character
  not_behind not_ahead : (ℕ → Bool) → Regex
  -- `\b`
  boundary : Regex

-- The character before the position `n` further on.
unfoldable pub before : ℕ → Option ℕ → Text → Option ℕ
before zero prev s = prev
before (suc n) prev [] = prev
before (suc n) prev (c ∷ s) = before n (some c) s

-- Every match of the first part, continued by every match of the rest.
unfoldable pub follow : List ℕ → (ℕ → List ℕ) → List ℕ
follow [] k = []
follow (n ∷ ns) k = map (λ m. n + m) (k n) ++ follow ns k

unfoldable pub positive : List ℕ → List ℕ
positive [] = []
positive (n ∷ ns) = let rest = positive ns in if n == 0 then rest else n ∷ rest

abbrev pub Matcher : Type 0
Matcher = Option ℕ → Text → List ℕ

-- `fuel` bounds the rounds of a loop; each round consumes a character.
unfoldable pub star_ends : Matcher → ℕ → Matcher
unfolding before follow positive
star_ends f zero prev s = 0 ∷ []
star_ends f (suc fuel) prev s =
    follow (positive (f prev s)) (λ n. star_ends f fuel (before n prev s) (drop n s)) ++ 0 ∷ []

unfoldable pub lazy_ends : Matcher → ℕ → Matcher
unfolding before follow positive
lazy_ends f zero prev s = 0 ∷ []
lazy_ends f (suc fuel) prev s =
    0 ∷ follow (positive (f prev s)) (λ n. lazy_ends f fuel (before n prev s) (drop n s))

unfoldable pub rep_ends : Matcher → ℕ → ℕ → Matcher
unfolding before follow positive
rep_ends f zero zero prev s = 0 ∷ []
rep_ends f zero (suc k) prev s =
    follow (positive (f prev s)) (λ n. rep_ends f zero k (before n prev s) (drop n s)) ++ 0 ∷ []
rep_ends f (suc m) k prev s = follow (f prev s) (λ n. rep_ends f m k (before n prev s) (drop n s))

abbrev holds : (ℕ → Bool) → Option ℕ → Bool
holds p none = false
holds p (some c) = p c

abbrev next : Text → Option ℕ
next [] = none
next (c ∷ s) = some c

abbrev when : Bool → List ℕ
when b = if b then 0 ∷ [] else []

abbrev differ : Bool → Bool → Bool
differ true b = not b
differ false b = b

abbrev chr_ends : (ℕ → Bool) → Text → List ℕ
chr_ends p [] = []
chr_ends p (c ∷ s) = if p c then 1 ∷ [] else []

unfoldable pub ends : Regex → Matcher
unfolding star_ends lazy_ends rep_ends
ends (chr p) prev s = chr_ends p s
ends empty prev s = 0 ∷ []
ends (seq r q) prev s = follow (ends r prev s) (λ n. ends q (before n prev s) (drop n s))
ends (alt r q) prev s = ends r prev s ++ ends q prev s
ends (rep m k r) prev s = rep_ends (ends r) m k prev s
ends (star r) prev s = star_ends (ends r) (length s) prev s
ends (lazy r) prev s = lazy_ends (ends r) (length s) prev s
ends (not_behind p) prev s = when (not (holds p prev))
ends (not_ahead p) prev s = when (not (holds p (next s)))
ends boundary prev s = when (differ (holds is_word prev) (holds is_word (next s)))

-- The length of the match that `re` takes at a position: 0 if there is none.
abbrev pub first_end : List ℕ → ℕ
first_end [] = 0
first_end (n ∷ ns) = n

pub record Span : Type 0 where
  pub start : ℕ
  pub stop : ℕ

-- The scan behind `finditer`: `skip` characters still belong to the match before.
unfoldable pub scan : Regex → ℕ → ℕ → Option ℕ → Text → List Span
unfolding ends
scan r skip pos prev [] = []
scan r (suc skip) pos prev (c ∷ s) = scan r skip (suc pos) (some c) s
scan r zero pos prev (c ∷ s) =
    let n = first_end (ends r prev (c ∷ s)) in
    let rest = scan r (n - 1) (suc pos) (some c) s in
    if n == 0 then rest else record { start = pos; stop = pos + n } ∷ rest

-- `list(pattern.finditer(text))`
unfoldable pub finditer : Regex → Text → List Span
unfolding scan
finditer r s = scan r 0 0 none s

-- `pattern.search(text)`, as a test; empty matches do not occur
unfoldable pub search_in : Regex → Text → Bool
unfolding finditer
search_in r s = elim (finditer r s) [ [] ↦ false | ◌∷◌ x xs ↦ true ]
