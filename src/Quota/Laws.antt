-- ===== src/Quota/Laws.antt =====
-- fastapi_backend/app/services/quota_service.py: the usage of a day, and the quota test on it.
use api_gateways.Base.{
  ℕ, String, true, false, Option, none, some, List, [], ◌∷◌, ◌≡◌, refl, sym, ap, ◌∙◌, ◌+◌, ◌-◌, ◌≤◌,
  ◌<◌, ◌↔◌, leb, str_eq, if◌then◌else◌, lookup, lookup-insert, All, arith, Bool-cases, eq_iff, inl,
  inr,
}
use text.Mathlib.TextLemmas.{append_cancel_left, append_cancel_right}
use api_gateways.Quota.{
  Counter, Redis, QuotaService, or_else, max_tokens, redis_get, redis_incrby_expire, incremented,
  quota_key, check_quota, increment_usage, get_quota_status, below, live?, live_until,
}

-- A call of `increment_usage`.
pub record Increment : Type 0 where
  pub time : ℕ
  pub tenant : String
  pub tokens : ℕ

-- The tokens of a tenant's increments.
abbrev pub tokens_of : String → List Increment → ℕ
tokens_of j [] = 0
tokens_of j (e ∷ es) = (if str_eq e.tenant j then e.tokens else 0) + tokens_of j es

module _ (date_of : ℕ → String) where
  abbrev pub run : List Increment → Redis → Redis
  run [] r = r
  run (e ∷ es) r = run es (increment_usage date_of e.time e.tenant e.tokens r)

  abbrev pub used : ℕ → String → Redis → ℕ
  used now j r = or_else 0 (redis_get now (quota_key date_of now j) r)

  -- The call falls on the day of `end`, no later than it.
  abbrev pub SameDay : ℕ → Increment → Type 0
  SameDay end e = (e.time ≤ end) × (end < e.time + 90000) × (date_of e.time ≡ date_of end)

  -- A counter that Redis still holds at `end`, if there is one.
  abbrev Until : ℕ → Option ℕ → Type 0
  Until end none = Unit
  Until end (some at) = end < at

  abbrev Kept : ℕ → Option Counter → Type 0
  Kept end none = Unit
  Kept end (some c) = Until end c.expires_at

  key-inj : (now : ℕ) (i j : String) → quota_key date_of now i ≡ quota_key date_of now j → i ≡ j
  unfolding quota_key
  key-inj now i j e = append_cancel_right i j _ (append_cancel_left "quota:tenant:" _ _ e)

  key-day :
      (t now : ℕ) (i : String)
      → date_of t ≡ date_of now
      → quota_key date_of t i ≡ quota_key date_of now i
  unfolding quota_key
  key-day t now i e = rw e refl

  same_key :
      (now : ℕ) (i j : String)
      → str_eq (quota_key date_of now i) (quota_key date_of now j) ≡ str_eq i j
  same_key now i j = elim (Bool-cases (str_eq i j)) [
    | inl e ↦
        let p : i ≡ j = (eq_iff i j).0 e in
        (eq_iff (quota_key date_of now i) (quota_key date_of now j)).1
          (ap (quota_key date_of now) p)
        ∙ sym e
    | inr e ↦ elim (Bool-cases (str_eq (quota_key date_of now i) (quota_key date_of now j))) [
      | inl f ↦
          let p : i ≡ j =
            key-inj now i j ((eq_iff (quota_key date_of now i) (quota_key date_of now j)).0 f) in
          f ∙ sym ((eq_iff i j).1 p)
      | inr f ↦ f ∙ sym e
    ]
  ]

  live_until_later :
      (t end n : ℕ) (at : Option ℕ)
      → t ≤ end
      → Until end at
      → live_until t n at ≡ live_until end n at
  live_until_later t end n none h k = refl
  live_until_later t end n (some at) h k = ground arith

  live-now : (t end : ℕ) (c : Option Counter) → t ≤ end → Kept end c → live? t c ≡ live? end c
  live-now t end none h k = refl
  live-now t end (some c) h k = live_until_later t end c.value c.expires_at h k

  -- An increment's effect on the counter of `j`, by the key it writes.
  abbrev written : ℕ → Increment → Redis → String → String → Option Counter
  written end e r k j =
      if str_eq k j
      then some (incremented e.time e.tokens 90000 (live? e.time (lookup k r)))
      else lookup j r

  written-by_tenant :
      (end : ℕ) (e : Increment) (j : String) (r : Redis)
      → written end e r (quota_key date_of end e.tenant) (quota_key date_of end j) ≡ (
          if str_eq e.tenant j
          then some (
              incremented e.time e.tokens 90000 (live? e.time (lookup (quota_key date_of end j) r)))
          else lookup (quota_key date_of end j) r)
  written-by_tenant end e j r =
      rw (same_key end e.tenant j) (elim (Bool-cases (str_eq e.tenant j)) [
        | inl same ↦
            let p : e.tenant ≡ j = (eq_iff e.tenant j).0 same in
            rw same (
              ap
                (λ i. some (
                  incremented e.time e.tokens 90000
                    (live? e.time (lookup (quota_key date_of end i) r))))
                p)
        | inr other ↦ rw other refl
      ])

  -- The counter under the key of `j` after an increment on the day of `end`.
  step-lookup :
      (end : ℕ) (e : Increment) (j : String) (r : Redis)
      → SameDay end e
      → lookup (quota_key date_of end j) (increment_usage date_of e.time e.tenant e.tokens r) ≡ (
          if str_eq e.tenant j
          then some (
              incremented e.time e.tokens 90000 (live? e.time (lookup (quota_key date_of end j) r)))
          else lookup (quota_key date_of end j) r)
  unfolding increment_usage redis_incrby_expire redis_get
  step-lookup end e j r (h0, h1, h2) =
      lookup-insert (quota_key date_of e.time e.tenant) (quota_key date_of end j)
        (incremented e.time e.tokens 90000 (redis_get e.time (quota_key date_of e.time e.tenant) r))
        r
      ∙ ap (λ k. written end e r k (quota_key date_of end j)) (key-day e.time end e.tenant h2)
      ∙ written-by_tenant end e j r

  step-Kept :
      (end : ℕ) (e : Increment) (j : String) (r : Redis)
      → SameDay end e
      → Kept end (lookup (quota_key date_of end j) r)
      → Kept end
          (lookup (quota_key date_of end j) (increment_usage date_of e.time e.tenant e.tokens r))
  step-Kept end e j r day kept = elim (Bool-cases (str_eq e.tenant j)) [
    | inl same ↦ rw (step-lookup end e j r day) (rw same day.1)
    | inr other ↦ rw (step-lookup end e j r day) (rw other kept)
  ]

  added :
      (end at m n : ℕ)
      → end < at
      → or_else 0 (live_until end (m + n) (some at)) ≡ (if true then n else 0) + m
  added end at m n h = ground arith

  step-used :
      (end : ℕ) (e : Increment) (j : String) (r : Redis)
      → SameDay end e
      → Kept end (lookup (quota_key date_of end j) r)
      → used end j (increment_usage date_of e.time e.tenant e.tokens r)
        ≡ (if str_eq e.tenant j then e.tokens else 0) + used end j r
  unfolding redis_get
  step-used end e j r day kept = elim (Bool-cases (str_eq e.tenant j)) [
    | inl same ↦ rw (step-lookup end e j r day) (
        rw same (
          rw (live-now e.time end (lookup (quota_key date_of end j) r) day.0 kept)
            (added end (e.time + 90000) (used end j r) e.tokens day.1)))
    | inr other ↦ rw (step-lookup end e j r day) (rw other (omega arith))
  ]

  run-used :
      (end : ℕ) (es : List Increment) (j : String) (r : Redis)
      → All (SameDay end) es
      → Kept end (lookup (quota_key date_of end j) r)
      → used end j (run es r) ≡ tokens_of j es + used end j r
  run-used end [] j r days kept = omega arith
  run-used end (e ∷ es) j r (day, days) kept =
      let after = increment_usage date_of e.time e.tenant e.tokens r in
      omega (
        arith,
        step-used end e j r day kept,
        run-used end es j after days (step-Kept end e j r day kept),
      )

  check-used :
      (svc : QuotaService) (now : ℕ) (j : String) (r : Redis)
      → (check_quota date_of svc now j r ≡ true) ↔ (used now j r < max_tokens svc j)
  unfolding check_quota
  check-used svc now j r = by_counter (max_tokens svc j) (redis_get now (quota_key date_of now j) r)
    where
      by_counter :
          (limit : ℕ) (o : Option ℕ)
          → ((if leb limit 0 then false else below limit o) ≡ true) ↔ (or_else 0 o < limit)
      by_counter limit none = ground arith
      by_counter limit (some n) = ground arith

  -- The tokens reported for a tenant at the end of a day are those of its own increments of the day and no others, when the counters are empty before, in whatever order the tenants' calls come; the day's last request is allowed exactly if they are below the tenant's limit, and the remaining tokens are the limit less the used ones.
  pub day_total :
      (svc : QuotaService) (end : ℕ) (es : List Increment) (j : String)
      → All (SameDay end) es
      → ((get_quota_status date_of svc end j (run es [])).used_tokens ≡ tokens_of j es)
        × ((check_quota date_of svc end j (run es []) ≡ true) ↔ (tokens_of j es < max_tokens svc j))
        × ((get_quota_status date_of svc end j (run es [])).remaining_tokens
            ≡ max_tokens svc j - tokens_of j es)
  unfolding get_quota_status lookup
  day_total svc end es j days =
      let total : used end j (run es []) ≡ tokens_of j es =
        omega (arith, run-used end es j [] days tt) in
      (
        total,
        rw (sym total) (check-used svc end j (run es [])),
        ap (λ n. max_tokens svc j - n) total,
      )
