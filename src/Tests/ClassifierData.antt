-- ===== src/Tests/ClassifierData.antt =====
-- A concrete outside of the classifier service: floats, Redis and JSON.
use api_gateways.Base.{
  true, sym, ◌∙◌, ℕ, zero, suc, Option, none, some, List, [], ◌∷◌, ◌++◌, Text, codes, text_eq,
  if◌then◌else◌, ltb, leb, ◌≡◌, ◌⊎◌, inl, inr, refl, ap, arith, length, take, drop, length-take,
  length-append, Bool-cases,
}
use api_gateways.Base.Json.{Json, num, str, obj, end, field}
use api_gateways.Errors.{ok, ok-inj}
use api_gateways.Classifier.Outside.{
  Source, cache, model, fallback, heuristic, ClassifyResponse, ToFloat, invalid, number, Outside,
  IsOrdered, IsStore,
}

abbrev pub zeros : ℕ → Text
zeros zero = []
zeros (suc n) = 0 ∷ zeros n

abbrev pub digest : Text → Text
digest t = take 64 (t ++ zeros 64)

pub length-digest : (t : Text) → length (digest t) ≡ 64
length-digest t = omega (arith, length-take {0} 64 (t ++ zeros 64), length-append {0} t (zeros 64))

abbrev pub source_code : Source → ℕ
source_code cache = 0
source_code model = 1
source_code fallback = 2
source_code heuristic = 3

abbrev pub source_of : ℕ → Source
source_of n =
    if ltb n 1 then cache else if ltb n 2 then model else if ltb n 3 then fallback else heuristic

source_of-source_code : (s : Source) → source_of (source_code s) ≡ s
source_of-source_code cache = refl
source_of-source_code model = refl
source_of-source_code fallback = refl
source_of-source_code heuristic = refl

-- A text with its length before it.
abbrev pub framed : Text → Text → Text
framed s rest = length s ∷ (s ++ rest)

abbrev pub dump_response : ClassifyResponse ℕ → Text
dump_response r =
    r.confidence
    ∷ source_code r.source
    ∷ framed r.intent_label (framed r.taxonomy_version (framed r.model_id []))

abbrev pub after_version : ℕ → ℕ → Text → Text → Text → Option (ClassifyResponse ℕ)
after_version c s label version [] = none
after_version c s label version (n ∷ xs) = some (record {
  intent_label = label;
  confidence = c;
  source = source_of s;
  taxonomy_version = version;
  model_id = take n xs;
})

abbrev pub after_label : ℕ → ℕ → Text → Text → Option (ClassifyResponse ℕ)
after_label c s label [] = none
after_label c s label (n ∷ xs) = after_version c s label (take n xs) (drop n xs)

-- The confidence is checked against its range.
abbrev pub read_response : Text → Option (ClassifyResponse ℕ)
read_response (c ∷ s ∷ n ∷ xs) = if leb c 100 then after_label c s (take n xs) (drop n xs) else none
read_response other = none

take-length : (s rest : Text) → take (length s) (s ++ rest) ≡ s
take-length [] rest = refl
take-length (c ∷ s) rest = ap (λ t. c ∷ t) (take-length s rest)

drop-length : (s rest : Text) → drop (length s) (s ++ rest) ≡ rest
drop-length [] rest = refl
drop-length (c ∷ s) rest = drop-length s rest

read_response-dump_response :
    (r : ClassifyResponse ℕ)
    → leb r.confidence 100 ≡ true
    → read_response (dump_response r) ≡ some r
read_response-dump_response r h = rw h (simp (take-length, drop-length, source_of-source_code))

abbrev confidence_or : ℕ → Option (ClassifyResponse ℕ) → ℕ
confidence_or c none = c
confidence_or c (some r) = r.confidence

after_version-confidence :
    (c s : ℕ) (label version rest : Text)
    → confidence_or c (after_version c s label version rest) ≡ c
after_version-confidence c s label version [] = refl
after_version-confidence c s label version (n ∷ xs) = refl

after_label-confidence :
    (c s : ℕ) (label rest : Text) → confidence_or c (after_label c s label rest) ≡ c
after_label-confidence c s label [] = refl
after_label-confidence c s label (n ∷ xs) =
    after_version-confidence c s label (take n xs) (drop n xs)

read_response-range :
    (raw : Text) (r : ClassifyResponse ℕ)
    → read_response raw ≡ some r
    → (leb 0 r.confidence ≡ true) × (leb r.confidence 100 ≡ true)
read_response-range [] r h = absurd (ground (arith, h))
read_response-range (c ∷ []) r h = absurd (ground (arith, h))
read_response-range (c ∷ s ∷ []) r h = absurd (ground (arith, h))
read_response-range (c ∷ s ∷ n ∷ xs) r h = elim (Bool-cases (leb c 100)) [
  | inr high ↦ let e : none ≡ some r = rw high at h in absurd (ground (arith, e))
  | inl fits ↦
      let e : after_label c s (take n xs) (drop n xs) ≡ some r = rw fits at h in
      let same : r.confidence ≡ c =
        ap (confidence_or c) (sym e) ∙ after_label-confidence c s (take n xs) (drop n xs) in
      ground (arith, same, fits)
]

abbrev pub read_store : Text → List (Text × Text) → Option Text
read_store k [] = none
read_store k ((j, v) ∷ s) = if text_eq j k then some v else read_store k s

abbrev pub number_of : Json → ToFloat ℕ
number_of (num n) = number n
number_of v = invalid

abbrev pub text_of : Json → Text
text_of (str s) = codes s
text_of v = []

-- Confidences in hundredths, Redis as an association list, and a model that answers with one object.
abbrev pub outside : Outside
outside = record {
  Float = ℕ;
  lt = ltb;
  le = leb;
  zero_float = 0;
  one_float = 100;
  to_float = number_of;
  sha256_hex = digest;
  Store = List (Text × Text);
  fetch = λ k s. ok (read_store k s);
  setex = λ k ttl v s. (k, v) ∷ s;
  validate = read_response;
  dump = dump_response;
  render = text_of;
  loads = λ s. some (obj (field "intent" (str "code") (field "confidence" (num 140) end)));
}

pub ordered : IsOrdered outside
ordered = record {
  zero_lt_one = refl;
  zero_le = refl;
  one_le = refl;
  lt_le = λ a b h. ground arith;
}

kept_store :
    (k j v raw : Text) (s : List (Text × Text))
    → read_store j ((k, v) ∷ s) ≡ some raw
    → (raw ≡ v) ⊎ (ok (read_store j s) ≡ ok (some raw))
kept_store k j v raw s h = elim (Bool-cases (text_eq k j)) [
  | inl same ↦ inl (ground arith)
  | inr other ↦ inr (ground arith)
]

pub store : IsStore outside
store = record {
  validate-IsUnit = read_response-range;
  validate_dump = λ r h. read_response-dump_response r h.1;
  fetch_setex = λ k j ttl v raw s h. kept_store k j v raw s (ok-inj h);
}
