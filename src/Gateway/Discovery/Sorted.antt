-- ===== src/Gateway/Discovery/Sorted.antt =====
-- The order in which `route_discovery` of gateway_plugins.py lists the paths, and what sorting leaves as it was.
use mathlib.Core.List.Perm
use mathlib.Core.List.{Perm}
use api_gateways.Base.{
  ℕ, suc, ◌+◌, ◌<◌, true, false, ◌||◌, ◌&&◌, ◌==◌, ltb, List, [], ◌∷◌, length, filter, Text, ◌≡◌,
  ◌≢◌, refl, ap, sym, subst, ◌∙◌, arith, All, Bool-cases, inl, inr, ◌⊎◌,
}
use api_gateways.Gateway.Discovery.{
  Status, exposed, registered, protected, PathInfo, order, is_covered, text_le, info_le,
  insert_info, sort_infos,
}

text_le_total : (s t : Text) → text_le s t ≡ false → text_le t s ≡ true
unfolding text_le
text_le_total [] t h = absurd (ground arith)
text_le_total (c ∷ s) [] h = refl
text_le_total (c ∷ s) (d ∷ t) h = ground (arith, text_le_total s t)

info_le_total : (r q : PathInfo) → info_le r q ≡ false → info_le q r ≡ true
info_le_total r q h = ground (arith, text_le_total r.path q.path)

-- The order of texts, by their first different character.
pub data Lex : Text → Text → Type 0 where
  ended : (t : Text) → Lex [] t
  smaller : {c d : ℕ} (s t : Text) → c < d → Lex (c ∷ s) (d ∷ t)
  same : (c : ℕ) {s t : Text} → Lex s t → Lex (c ∷ s) (c ∷ t)

text_le-Lex : (s t : Text) → text_le s t ≡ true → Lex s t
unfolding text_le
text_le-Lex [] t h = ended t
text_le-Lex (c ∷ s) [] h = absurd (ground (arith, h))
text_le-Lex (c ∷ s) (d ∷ t) h = elim (Bool-cases (ltb c d)) [
  | inl less ↦ smaller s t (ground (arith, less))
  | inr more ↦
      let e : c ≡ d = ground (arith, h, more) in
      let rest : text_le s t ≡ true = ground (arith, h, more) in
      subst (λ x. Lex (c ∷ s) (x ∷ t)) e (same c (text_le-Lex s t rest))
]

-- A path stands before another: exposed before the others, registered before protected, and those of one status in the order of their texts.
abbrev pub Before : PathInfo → PathInfo → Type 0
Before r q =
    ((r.status ≡ exposed) × (q.status ≢ exposed))
    ⊎ (((r.status ≡ registered) × (q.status ≡ protected))
        ⊎ ((r.status ≡ q.status) × Lex r.path q.path))

info_le-Before :
    (r q : PathInfo) (s t : Status)
    → r.status ≡ s
    → q.status ≡ t
    → (ltb (order s) (order t) || (order s == order t && text_le r.path q.path)) ≡ true
    → Before r q
info_le-Before r q exposed exposed e f h =
    inr (inr (e ∙ sym f, text_le-Lex r.path q.path (ground (arith, h))))
info_le-Before r q exposed registered e f h = inl (e, λ g. absurd (ground (arith, sym f ∙ g)))
info_le-Before r q exposed protected e f h = inl (e, λ g. absurd (ground (arith, sym f ∙ g)))
info_le-Before r q registered exposed e f h = absurd (ground (arith, h))
info_le-Before r q registered registered e f h =
    inr (inr (e ∙ sym f, text_le-Lex r.path q.path (ground (arith, h))))
info_le-Before r q registered protected e f h = inr (inl (e, f))
info_le-Before r q protected exposed e f h = absurd (ground (arith, h))
info_le-Before r q protected registered e f h = absurd (ground (arith, h))
info_le-Before r q protected protected e f h =
    inr (inr (e ∙ sym f, text_le-Lex r.path q.path (ground (arith, h))))

abbrev IsOrdered : List PathInfo → Type 0
IsOrdered [] = Unit
IsOrdered (r ∷ []) = Unit
IsOrdered (r ∷ q ∷ qs) = (info_le r q ≡ true) × IsOrdered (q ∷ qs)

-- Each item stands before the next.
abbrev pub IsSorted : List PathInfo → Type 0
IsSorted [] = Unit
IsSorted (r ∷ []) = Unit
IsSorted (r ∷ q ∷ qs) = Before r q × IsSorted (q ∷ qs)

IsOrdered-IsSorted : (rs : List PathInfo) → IsOrdered rs → IsSorted rs
IsOrdered-IsSorted [] h = tt
IsOrdered-IsSorted (r ∷ []) h = tt
IsOrdered-IsSorted (r ∷ q ∷ qs) h =
    (info_le-Before r q r.status q.status refl refl h.0, IsOrdered-IsSorted (q ∷ qs) h.1)

insert_info-IsOrdered :
    (r : PathInfo) (qs : List PathInfo) → IsOrdered qs → IsOrdered (insert_info r qs)
unfolding insert_info
insert_info-IsOrdered r [] h = tt
insert_info-IsOrdered r (q ∷ []) h = ground (arith, info_le_total r q)
insert_info-IsOrdered r (q ∷ p ∷ ps) h =
    ground (arith, info_le_total r q, insert_info-IsOrdered r (p ∷ ps) h.1)

insert_info-perm : (r : PathInfo) (qs : List PathInfo) → Perm (insert_info r qs) (r ∷ qs)
unfolding insert_info
insert_info-perm r [] = Perm.rfl
insert_info-perm r (q ∷ qs) = elim (Bool-cases (info_le r q)) [
  | inl here ↦ rw here Perm.rfl
  | inr later ↦ rw later (Perm.trans (Perm.cons q (insert_info-perm r qs)) (Perm.swap r q qs))
]

insert_info-All :
    (P : PathInfo → Type 0) (r : PathInfo) (qs : List PathInfo)
    → P r
    → All P qs
    → All P (insert_info r qs)
unfolding insert_info
insert_info-All P r [] p h = (p, tt)
insert_info-All P r (q ∷ qs) p h = ground (arith, insert_info-All P r qs p h.1)

sort_infos-IsOrdered : (rs : List PathInfo) → IsOrdered (sort_infos rs)
unfolding sort_infos
sort_infos-IsOrdered [] = tt
sort_infos-IsOrdered (r ∷ rs) = insert_info-IsOrdered r (sort_infos rs) (sort_infos-IsOrdered rs)

pub sort_infos-perm : (rs : List PathInfo) → Perm (sort_infos rs) rs
unfolding sort_infos
sort_infos-perm [] = Perm.rfl
sort_infos-perm (r ∷ rs) =
    Perm.trans (insert_info-perm r (sort_infos rs)) (Perm.cons r (sort_infos-perm rs))

pub sort_infos-All : (P : PathInfo → Type 0) (rs : List PathInfo) → All P rs → All P (sort_infos rs)
unfolding sort_infos
sort_infos-All P [] h = tt
sort_infos-All P (r ∷ rs) h = insert_info-All P r (sort_infos rs) h.0 (sort_infos-All P rs h.1)

pub sort_infos-IsSorted : (rs : List PathInfo) → IsSorted (sort_infos rs)
sort_infos-IsSorted rs = IsOrdered-IsSorted (sort_infos rs) (sort_infos-IsOrdered rs)

-- The paths that are not exposed.
abbrev pub covered : List PathInfo → ℕ
covered [] = 0
covered (r ∷ rs) = elim r.status [ exposed ↦ 0 | registered ↦ 1 | protected ↦ 1 ] + covered rs

insert_info-covered :
    (r : PathInfo) (qs : List PathInfo) → covered (insert_info r qs) ≡ covered (r ∷ qs)
unfolding insert_info
insert_info-covered r [] = refl
insert_info-covered r (q ∷ qs) = elim (Bool-cases (info_le r q)) [
  | inl here ↦ rw here refl
  | inr later ↦ rw later (omega (arith, insert_info-covered r qs))
]

pub sort_infos-covered : (rs : List PathInfo) → covered (sort_infos rs) ≡ covered rs
unfolding sort_infos
sort_infos-covered [] = refl
sort_infos-covered (r ∷ rs) =
    omega (arith, insert_info-covered r (sort_infos rs), sort_infos-covered rs)

pub is_covered-covered : (rs : List PathInfo) → length (filter is_covered rs) ≡ covered rs
is_covered-covered [] = refl
is_covered-covered (r ∷ rs) = by_status r.status refl (is_covered-covered rs)
  where
    by_status :
        (s : Status)
        → r.status ≡ s
        → length (filter is_covered rs) ≡ covered rs
        → length (filter is_covered (r ∷ rs)) ≡ covered (r ∷ rs)
    by_status exposed e h = rw e (omega (arith, h))
    by_status registered e h = rw e (omega (arith, h))
    by_status protected e h = rw e (omega (arith, h))

insert_info-length :
    (r : PathInfo) (qs : List PathInfo) → length (insert_info r qs) ≡ suc (length qs)
unfolding insert_info
insert_info-length r [] = refl
insert_info-length r (q ∷ qs) = elim (Bool-cases (info_le r q)) [
  | inl here ↦ rw here refl
  | inr later ↦ rw later (ap suc (insert_info-length r qs))
]

pub sort_infos-length : (rs : List PathInfo) → length (sort_infos rs) ≡ length rs
unfolding sort_infos
sort_infos-length [] = refl
sort_infos-length (r ∷ rs) = insert_info-length r (sort_infos rs) ∙ ap suc (sort_infos-length rs)
