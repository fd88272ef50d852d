-- ===== src/Regex/Bounds.antt =====
-- Where the matches of a pattern lie: inside the text, one behind the other, none empty.
use api_gateways.Base.{
  ℕ, zero, suc, ◌+◌, ◌-◌, ◌≤◌, ◌<◌, ◌≡◌, refl, Bool, true, false, Option, none, some, List, [], ◌∷◌,
  map, length, drop, length-drop, All, All-append, Text, arith, ◌==◌, Bool-cases, inl, inr,
}
use api_gateways.Regex.{
  Regex, chr, empty, seq, alt, rep, star, lazy, not_behind, not_ahead, boundary, before, follow,
  positive, Matcher, star_ends, lazy_ends, rep_ends, ends, first_end, when, chr_ends, Span, scan,
  finditer,
}

-- Every end lies within `n` characters.
abbrev Within : ℕ → List ℕ → Type 0
Within n ms = All (λ m. m ≤ n) ms

abbrev IsBounded : Matcher → Type 0
IsBounded f = (prev : Option ℕ) (s : Text) → Within (length s) (f prev s)

shift-Within : (n k : ℕ) (ms : List ℕ) → Within k ms → Within (n + k) (map (λ m. n + m) ms)
shift-Within n k [] h = tt
shift-Within n k (m ∷ ms) h = (omega arith, shift-Within n k ms h.1)

raise-Within : (n k : ℕ) (ms : List ℕ) → n ≤ k → Within n ms → Within k ms
raise-Within n k [] le h = tt
raise-Within n k (m ∷ ms) le h = (omega arith, raise-Within n k ms le h.1)

follow-Within :
    (s : Text) (ns : List ℕ) (k : ℕ → List ℕ)
    → Within (length s) ns
    → ((n : ℕ) → Within (length (drop n s)) (k n))
    → Within (length s) (follow ns k)
unfolding follow
follow-Within s [] k h g = tt
follow-Within s (n ∷ ns) k h g =
    All-append _ (map (λ m. n + m) (k n)) (follow ns k)
      (raise-Within (n + length (drop n s)) (length s) (map (λ m. n + m) (k n))
        (omega (arith, length-drop n s, h.0)) (shift-Within n (length (drop n s)) (k n) (g n)))
      (follow-Within s ns k h.1 g)

positive-Within : (k : ℕ) (ns : List ℕ) → Within k ns → Within k (positive ns)
unfolding positive
positive-Within k [] h = tt
positive-Within k (n ∷ ns) h = ground (arith, positive-Within k ns h.1)

module _ (f : Matcher) (bounded : IsBounded f) where
  star-IsBounded : (fuel : ℕ) → IsBounded (star_ends f fuel)
  unfolding star_ends
  star-IsBounded zero prev s = (omega arith, tt)
  star-IsBounded (suc fuel) prev s =
      All-append _ (follow (positive (f prev s)) _) (0 ∷ [])
        (follow-Within s (positive (f prev s)) _ (positive-Within _ (f prev s) (bounded prev s))
          (λ n. star-IsBounded fuel (before n prev s) (drop n s)))
        (omega arith, tt)

  lazy-IsBounded : (fuel : ℕ) → IsBounded (lazy_ends f fuel)
  unfolding lazy_ends
  lazy-IsBounded zero prev s = (omega arith, tt)
  lazy-IsBounded (suc fuel) prev s = (
    omega arith,
    follow-Within s (positive (f prev s)) _ (positive-Within _ (f prev s) (bounded prev s))
        (λ n. lazy-IsBounded fuel (before n prev s) (drop n s)),
  )

  rep-IsBounded : (m k : ℕ) → IsBounded (rep_ends f m k)
  unfolding rep_ends
  rep-IsBounded zero zero prev s = (omega arith, tt)
  rep-IsBounded zero (suc k) prev s =
      All-append _ (follow (positive (f prev s)) _) (0 ∷ [])
        (follow-Within s (positive (f prev s)) _ (positive-Within _ (f prev s) (bounded prev s))
          (λ n. rep-IsBounded zero k (before n prev s) (drop n s)))
        (omega arith, tt)
  rep-IsBounded (suc m) k prev s =
      follow-Within s (f prev s) _ (bounded prev s)
        (λ n. rep-IsBounded m k (before n prev s) (drop n s))

when-Within : (b : Bool) (n : ℕ) → Within n (when b)
when-Within true n = (omega arith, tt)
when-Within false n = tt

chr-Within : (p : ℕ → Bool) (s : Text) → Within (length s) (chr_ends p s)
chr-Within p [] = tt
chr-Within p (c ∷ s) = elim (Bool-cases (p c)) [ inl e ↦ rw e (omega arith, tt) | inr e ↦ rw e tt ]

-- No match reaches past the end of the text.
ends-IsBounded : (r : Regex) → IsBounded (ends r)
unfolding ends
ends-IsBounded (chr p) prev s = chr-Within p s
ends-IsBounded empty prev s = (omega arith, tt)
ends-IsBounded (seq r q) prev s =
    follow-Within s (ends r prev s) _ (ends-IsBounded r prev s)
      (λ n. ends-IsBounded q (before n prev s) (drop n s))
ends-IsBounded (alt r q) prev s =
    All-append _ (ends r prev s) (ends q prev s) (ends-IsBounded r prev s) (ends-IsBounded q prev s)
ends-IsBounded (rep m k r) prev s = rep-IsBounded (ends r) (ends-IsBounded r) m k prev s
ends-IsBounded (star r) prev s = star-IsBounded (ends r) (ends-IsBounded r) (length s) prev s
ends-IsBounded (lazy r) prev s = lazy-IsBounded (ends r) (ends-IsBounded r) (length s) prev s
ends-IsBounded (not_behind p) prev s = when-Within _ (length s)
ends-IsBounded (not_ahead p) prev s = when-Within _ (length s)
ends-IsBounded boundary prev s = when-Within _ (length s)

-- From `lo` on, the spans follow one another, are not empty, and end by `hi`.
abbrev pub Ordered : ℕ → ℕ → List Span → Type 0
Ordered lo hi [] = Unit
Ordered lo hi (x ∷ xs) = (lo ≤ x.start) × (x.start < x.stop) × (x.stop ≤ hi) × Ordered x.stop hi xs

first_end_le : (k : ℕ) (ns : List ℕ) → Within k ns → first_end ns ≤ k
first_end_le k [] h = omega arith
first_end_le k (n ∷ ns) h = h.0

pub Ordered-lower :
    (lo lo' hi : ℕ) (xs : List Span) → lo ≤ lo' → Ordered lo' hi xs → Ordered lo hi xs
Ordered-lower lo lo' hi [] le h = tt
Ordered-lower lo lo' hi (x ∷ xs) le h = (omega arith, h.1, h.2, h.3)

Ordered-eq :
    {lo lo' hi hi' : ℕ} (xs : List Span)
    → lo ≡ lo'
    → hi ≡ hi'
    → Ordered lo hi xs
    → Ordered lo' hi' xs
Ordered-eq xs e f h = rw (← e, ← f) h

scan-Ordered :
    (r : Regex) (skip pos : ℕ) (prev : Option ℕ) (s : Text)
    → Ordered (pos + skip) (pos + length s) (scan r skip pos prev s)
unfolding scan
scan-Ordered r zero pos prev [] = tt
scan-Ordered r (suc skip) pos prev [] = tt
scan-Ordered r (suc skip) pos prev (c ∷ s) =
    Ordered-eq _ (omega arith) (omega arith) (scan-Ordered r skip (suc pos) (some c) s)
scan-Ordered r zero pos prev (c ∷ s) =
    let n = first_end (ends r prev (c ∷ s)) in
    let fits : n ≤ suc (length s) =
      first_end_le _ (ends r prev (c ∷ s)) (ends-IsBounded r prev (c ∷ s)) in
    let rest = scan-Ordered r (n - 1) (suc pos) (some c) s in
    elim (Bool-cases (n == 0)) [
      | inl e ↦ rw e (
          Ordered-lower (pos + 0) (suc pos + (n - 1)) _ _ (omega arith)
            (Ordered-eq _ refl (omega arith) rest))
      | inr e ↦
          rw e
            (omega arith, ground arith, omega arith, Ordered-eq _ (ground arith) (omega arith) rest)
    ]

-- The matches of a pattern lie within the text, do not overlap, and come in order.
pub finditer-Ordered : (r : Regex) (s : Text) → Ordered 0 (length s) (finditer r s)
unfolding finditer
finditer-Ordered r s = Ordered-eq _ (omega arith) (omega arith) (scan-Ordered r 0 0 none s)
