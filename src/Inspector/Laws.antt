-- ===== src/Inspector/Laws.antt =====
-- What `inspect_content` of content_inspector_service.py reports, and the level that it gives.
use api_gateways.Base.{
  ℕ, ◌+◌, ◌≤◌, ◌<◌, ◌≡◌, ◌≢◌, refl, ap, ◌∙◌, String, Bool, false, not, ◌&&◌, ◌||◌, Option, none,
  some, List, [], ◌∷◌, map, All, any, contains, sum, get_last?, Dict, lookup, insert, sorted,
  insert_sorted, str_eq, eq_iff, Text, strip, ◌==◌, arith, Bool-cases, inl, inr, if◌then◌else◌,
}
use api_gateways.Policy.Schema.{SensitivityLevel, low, medium, high}
use api_gateways.Request.Schema.{Message, AiRequest}
use api_gateways.Inspector.{
  add_detected, add_all, keys, values, detections, inspect_content, conclude, count_of, is_empty,
  inspect_text, inspect_last, inspect_declared, unchanged,
}

abbrev pub counts : List (String × ℕ) → List ℕ
counts = map (λ d. d.1)

sum-insert :
    (k : String) (v : ℕ) (d : Dict ℕ)
    → sum (values (insert k v d)) + count_of (lookup k d) ≡ sum (values d) + v
unfolding lookup insert
sum-insert k v [] = omega arith
sum-insert k v ((j, m) ∷ d) = elim (Bool-cases (str_eq j k)) [
  | inl e ↦ rw e (omega arith)
  | inr e ↦ rw e (omega (arith, sum-insert k v d))
]

sum-add_detected :
    (d : Dict ℕ) (x : String × ℕ) → sum (values (add_detected d x)) ≡ sum (values d) + x.1
unfolding add_detected
sum-add_detected d (k, n) = ground (arith, sum-insert k (count_of (lookup k d) + n) d)

sum-add_all :
    (d : Dict ℕ) (xs : List (String × ℕ))
    → sum (values (add_all d xs)) ≡ sum (values d) + sum (counts xs)
unfolding add_all
sum-add_all d [] = omega arith
sum-add_all d (x ∷ xs) = omega (arith, sum-add_all (add_detected d x) xs, sum-add_detected d x)

-- Every recorded count is positive.
abbrev IsPositive : Dict ℕ → Type 0
IsPositive d = All (λ e. 0 < e.1) d

insert-IsPositive :
    (k : String) (n : ℕ) (d : Dict ℕ) → 0 < n → IsPositive d → IsPositive (insert k n d)
unfolding insert
insert-IsPositive k n [] p h = (p, tt)
insert-IsPositive k n ((j, m) ∷ d) p h = ground (arith, insert-IsPositive k n d p)

add_detected-IsPositive :
    (d : Dict ℕ) (x : String × ℕ) → IsPositive d → IsPositive (add_detected d x)
unfolding add_detected
add_detected-IsPositive d (k, n) h =
    ground (arith, insert-IsPositive k (count_of (lookup k d) + n) d)

add_all-IsPositive :
    (d : Dict ℕ) (xs : List (String × ℕ)) → IsPositive d → IsPositive (add_all d xs)
unfolding add_all
add_all-IsPositive d [] h = h
add_all-IsPositive d (x ∷ xs) h =
    add_all-IsPositive (add_detected d x) xs (add_detected-IsPositive d x h)

contains-insert :
    (t k : String) (n : ℕ) (d : Dict ℕ)
    → contains t (keys (insert k n d)) ≡ (str_eq k t || contains t (keys d))
unfolding insert
contains-insert t k n [] = refl
contains-insert t k n ((j, m) ∷ d) =
    ground (arith, contains-insert t k n d, eq_iff j k, eq_iff j t, eq_iff k t)

-- The detection is of this type and found something.
abbrev pub found : String → String × ℕ → Bool
found t (k, n) = str_eq k t && not (n == 0)

contains-add_detected :
    (t : String) (d : Dict ℕ) (x : String × ℕ)
    → contains t (keys (add_detected d x)) ≡ (contains t (keys d) || found t x)
unfolding add_detected
contains-add_detected t d (k, n) = ground (arith, contains-insert t k (count_of (lookup k d) + n) d)

contains-add_all :
    (t : String) (d : Dict ℕ) (xs : List (String × ℕ))
    → contains t (keys (add_all d xs)) ≡ (contains t (keys d) || any (found t) xs)
unfolding add_all
contains-add_all t d [] = ground arith
contains-add_all t d (x ∷ xs) =
    ground (arith, contains-add_all t (add_detected d x) xs, contains-add_detected t d x)

contains-insert_sorted :
    (t s : String) (ss : List String)
    → contains t (insert_sorted s ss) ≡ (str_eq s t || contains t ss)
unfolding insert_sorted
contains-insert_sorted t s [] = refl
contains-insert_sorted t s (x ∷ xs) = ground (arith, contains-insert_sorted t s xs)

pub contains-sorted : (t : String) (ss : List String) → contains t (sorted ss) ≡ contains t ss
unfolding sorted
contains-sorted t [] = refl
contains-sorted t (s ∷ ss) =
    ground (arith, contains-insert_sorted t s (sorted ss), contains-sorted t ss)

-- What `conclude` reports, told from the dictionary.
conclude-report :
    (declared : SensitivityLevel) (d : Dict ℕ)
    → IsPositive d
    → let r = conclude declared d in
      (r.total_count ≡ sum (values d))
      × (r.resolved ≡ (if sum (values d) == 0 then declared else high))
      × ((t : String) → contains t r.detected_types ≡ contains t (keys d))
conclude-report declared [] h = (refl, refl, λ t. refl)
conclude-report declared (e ∷ es) h = (refl, ground arith, λ t. contains-sorted t (keys (e ∷ es)))

abbrev pub rank : SensitivityLevel → ℕ
rank low = 0
rank medium = 1
rank high = 2

rank-le-high : (l : SensitivityLevel) → rank l ≤ 2
rank-le-high low = omega arith
rank-le-high medium = omega arith
rank-le-high high = omega arith

conclude-rank : (l : SensitivityLevel) (d : Dict ℕ) → rank l ≤ rank (conclude l d).resolved
conclude-rank l [] = omega arith
conclude-rank l (e ∷ es) = rank-le-high l

module _ (nlp : Text → List String) (intents : Text) (body : AiRequest) where
  text-rank : (s : Text) → rank body.sensitivity ≤ rank (inspect_text nlp intents body s).resolved
  text-rank s = elim (Bool-cases (is_empty (strip s))) [
    | inl e ↦ rw e (omega arith)
    | inr e ↦ rw e (conclude-rank body.sensitivity (add_all [] (detections nlp intents body s)))
  ]

  last-rank :
      (o : Option Message) → rank body.sensitivity ≤ rank (inspect_last nlp intents body o).resolved
  last-rank none = omega arith
  last-rank (some m) = text-rank m.content

  declared-rank :
      (l : SensitivityLevel)
      → rank body.sensitivity ≤ rank (inspect_declared nlp intents body l).resolved
  declared-rank high = rank-le-high body.sensitivity
  declared-rank low = last-rank (get_last? body.messages)
  declared-rank medium = last-rank (get_last? body.messages)

  -- The sensitivity that comes back is never below the declared one.
  pub inspect-rank : rank body.sensitivity ≤ rank (inspect_content nlp intents body).resolved
  unfolding inspect_content
  inspect-rank = declared-rank body.sensitivity

  declared_low :
      (l : SensitivityLevel)
      → l ≢ high
      → inspect_declared nlp intents body l
        ≡ inspect_last nlp intents body (get_last? body.messages)
  declared_low high h = absurd (h refl)
  declared_low low h = refl
  declared_low medium h = refl

  -- A request below HIGH whose latest message is not blank is resolved to HIGH exactly when some
  -- detector finds something, and else keeps its level; the count is the sum over all detectors,
  -- and a type is reported exactly when a detector of that type finds something.
  pub inspect_report :
      (last : Message)
      → body.sensitivity ≢ high
      → get_last? body.messages ≡ some last
      → is_empty (strip last.content) ≡ false
      → let r = inspect_content nlp intents body in
        let detected = detections nlp intents body last.content in
        (r.total_count ≡ sum (counts detected))
        × (r.resolved ≡ (if sum (counts detected) == 0 then body.sensitivity else high))
        × ((t : String) → contains t r.detected_types ≡ any (found t) detected)
  unfolding inspect_content
  inspect_report last below at_end filled =
      let detected = detections nlp intents body last.content in
      let d = add_all [] detected in
      let total : sum (values d) ≡ sum (counts detected) = omega (arith, sum-add_all [] detected) in
      let report = conclude-report body.sensitivity d (add_all-IsPositive [] detected tt) in
      let path : inspect_declared nlp intents body body.sensitivity ≡ conclude body.sensitivity d =
        declared_low body.sensitivity below
        ∙ ap (inspect_last nlp intents body) at_end
        ∙ ap (λ b. if b then unchanged body.sensitivity else conclude body.sensitivity d) filled in
      (
        ap (λ r. r.total_count) path ∙ report.0 ∙ total,
        ap (λ r. r.resolved) path
            ∙ report.1
            ∙ ap (λ n. if n == 0 then body.sensitivity else high) total,
        λ t.
            ap (λ r. contains t r.detected_types) path
            ∙ report.2 t
            ∙ contains-add_all t [] detected,
      )
