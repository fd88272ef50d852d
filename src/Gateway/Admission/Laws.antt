-- ===== src/Gateway/Admission/Laws.antt =====
-- What middleware.py and gateway_signature.py let in and add.
use api_gateways.Base.{
  none, codes, subst, String, true, false, Option, some, [], ◌∷◌, ◌++◌, Text, text_eq,
  text_eq_sound, text_eq_refl, str_eq, if◌then◌else◌, ◌==◌, insert, lookup, lookup-insert,
  insert_all, lookup-insert_all, Distinct, or_lookup, ◌≡◌, ◌≢◌, ◌↔◌, ◌⊎◌, inl, inr, refl, ap, ap₂,
  sym, ◌∙◌, arith, Bool-cases,
}
use api_gateways.Gateway.Outcome.{Outcome, done, raised, done-inj}
use api_gateways.Gateway.Admission.{
  check_value, check_header, verify_kong_header, Response, or_new, security_headers,
  middleware_stack, middleware_stack, Signed, bar, gateway_canonical_string, no_text, text,
  is_ascii, gateway_compute_signature, gateway_verify_signature,
}

-- A text without the character that separates the parts.
abbrev pub NoBar : Text → Type 0
NoBar [] = Unit
NoBar (c ∷ s) = ((c == b'|') ≡ false) × NoBar s

part_unique :
    (p q s t : Text) → NoBar p → NoBar q → p ++ (bar ++ s) ≡ q ++ (bar ++ t) → (p ≡ q) × (s ≡ t)
part_unique [] [] s t hp hq e = (refl, cc)
part_unique [] (c ∷ q) s t hp hq e = absurd (ground arith)
part_unique (c ∷ p) [] s t hp hq e = absurd (ground arith)
part_unique (c ∷ p) (d ∷ q) s t hp hq e =
    let heads : c ≡ d = cc in
    let tails : p ++ (bar ++ s) ≡ q ++ (bar ++ t) = cc in
    let (same, rest) = part_unique p q s t hp.1 hq.1 tails in
    (ap₂ (λ x xs. x ∷ xs) heads same, rest)

-- The signed text of a request whose method, path and time stamp have no bar determines the request.
pub gateway_canonical_string-inj :
    (r q : Signed)
    → NoBar r.method
    → NoBar r.path
    → NoBar r.timestamp
    → NoBar q.method
    → NoBar q.path
    → NoBar q.timestamp
    → gateway_canonical_string r ≡ gateway_canonical_string q
    → r ≡ q
unfolding gateway_canonical_string
gateway_canonical_string-inj r q rm rp rt qm qp qt e =
    let (m, e1) = part_unique r.method q.method _ _ rm qm e in
    let (p, e2) = part_unique r.path q.path _ _ rp qp e1 in
    let (t, n) = part_unique r.timestamp q.timestamp _ _ rt qt e2 in ground arith

text_eq_iff : (s t : Text) → (text_eq s t ≡ true) ↔ (s ≡ t)
text_eq_iff s t = (text_eq_sound s t, λ e. ap (text_eq s) (sym e) ∙ text_eq_refl s)

-- The request has the method that is let through, or the gateway's header with a value that the setting asks for, if it asks for one.
abbrev pub ComesByKong : Option Text → Text → Option Text → Type 0
ComesByKong setting method header =
    (method ≡ codes "OPTIONS")
    ⊎ ((v : Text) × (header ≡ some v)
        × ((setting ≡ none) ⊎ ((setting ≡ some (codes "true")) ⊎ (setting ≡ some v))))

check_value_iff :
    (setting : Option Text) (v : Text)
    → (check_value setting v ≡ done tt)
      ↔ ((setting ≡ none) ⊎ ((setting ≡ some (codes "true")) ⊎ (setting ≡ some v)))
check_value_iff none v = (λ _. inl refl, λ _. refl)
check_value_iff (some expected) v =
    ground (arith, text_eq_iff expected (codes "true"), text_eq_iff v expected)

check_header_iff :
    (setting header : Option Text)
    → (check_header setting header ≡ done tt) ↔ (
        (v : Text) × (header ≡ some v)
        × ((setting ≡ none) ⊎ ((setting ≡ some (codes "true")) ⊎ (setting ≡ some v))))
check_header_iff setting none =
    (λ e. absurd (ground (arith, e)), λ (v, h, r). absurd (ground (arith, h)))
check_header_iff setting (some v) = (
  λ e. (v, refl, (check_value_iff setting v).0 e),
  λ (w, h, r).
      let same : w ≡ v = ground (arith, h) in
      subst (λ x. check_value setting x ≡ done tt) same ((check_value_iff setting w).1 r),
)

pub verify_kong_header_iff :
    (setting : Option Text) (method : Text) (header : Option Text)
    → (verify_kong_header setting method header ≡ done tt) ↔ ComesByKong setting method header
unfolding verify_kong_header
verify_kong_header_iff setting method header =
    elim (Bool-cases (text_eq method (codes "OPTIONS"))) [
      | inl options ↦
          rw options ((λ _. inl ((text_eq_iff method (codes "OPTIONS")).0 options)), (λ _. refl))
      | inr other ↦ rw other (
        (λ e. inr ((check_header_iff setting header).0 e)),
        (λ r. elim r [
          | inl options ↦
              absurd (ground (arith, other, (text_eq_iff method (codes "OPTIONS")).1 options))
          | inr h ↦ (check_header_iff setting header).1 h
        ]),
      )
    ]

module _ (mac : Text → Text → Text) (secret : Text) where
  -- A signature is accepted exactly if it is an ASCII text and the one computed for the request; the check raises exactly for a text
  -- that is not ASCII, and refuses what is no text.
  pub gateway_verify_signature_lem :
      (r : Signed) (s : Text)
      → ((gateway_verify_signature mac secret r (text s) ≡ done true)
          ↔ ((is_ascii s ≡ true) × (s ≡ gateway_compute_signature mac secret r)))
        × ((gateway_verify_signature mac secret r (text s) ≡ raised "UnicodeEncodeError")
            ↔ (is_ascii s ≡ false))
        × (gateway_verify_signature mac secret r no_text ≡ done false)
  unfolding gateway_verify_signature
  gateway_verify_signature_lem r s = elim (Bool-cases (is_ascii s)) [
    | inl ascii ↦ rw ascii (
      (
        λ e. (refl, sym (text_eq_sound _ s (done-inj e))),
        λ h. ap done ((text_eq_iff _ s).1 (sym h.1)),
      ),
      (λ e. absurd (ground arith), λ e. absurd (ground arith)),
      refl,
    )
    | inr wide ↦
        rw wide
          ((λ e. absurd (ground arith), λ h. absurd (ground arith)), (λ _. refl, λ _. refl), refl)
  ]

  -- If the signature of a request is accepted for another, and the method, path and time stamp of both have no bar, then the requests are the
  -- same, or two different texts have the same code.
  pub signature-binds :
      (r q : Signed)
      → NoBar r.method
      → NoBar r.path
      → NoBar r.timestamp
      → NoBar q.method
      → NoBar q.path
      → NoBar q.timestamp
      → gateway_verify_signature mac secret r (text (gateway_compute_signature mac secret q))
        ≡ done true
      → (r ≡ q)
        ⊎ ((gateway_canonical_string r ≢ gateway_canonical_string q)
            × (mac secret (gateway_canonical_string r) ≡ mac secret (gateway_canonical_string q)))
  unfolding gateway_compute_signature
  signature-binds r q rm rp rt qm qp qt e =
      elim (Bool-cases (text_eq (gateway_canonical_string r) (gateway_canonical_string q))) [
        | inl same ↦
            inl (gateway_canonical_string-inj r q rm rp rt qm qp qt (text_eq_sound _ _ same))
        | inr differ ↦ inr (
          λ eq. absurd (
              ground (
                arith,
                differ,
                (text_eq_iff (gateway_canonical_string r) (gateway_canonical_string q)).1 eq,
              )),
          sym ((gateway_verify_signature_lem r (gateway_compute_signature mac secret q)).0.0 e).1,
        )
      ]

security_headers-Distinct : Distinct security_headers
unfolding lookup
security_headers-Distinct = (refl, (refl, (refl, (refl, (refl, (refl, tt))))))

-- Every response of the application goes out with its status; its headers are the request's correlation id, or the new one if the
-- request has none, the six security headers, and all others of the application. The application sees the same id.
pub middleware_stack_lem :
    (header : Option Text) (new_id : Text) (app : Text → Outcome Response) (response : Response)
    → app (or_new header new_id) ≡ done response
    → (r : Response) × (middleware_stack header new_id app ≡ done r)
      × (r.status_code ≡ response.status_code)
      × ((k : String)
          → lookup k r.headers ≡ (
              if str_eq "x-correlation-id" k
              then some (or_new header new_id)
              else or_lookup (lookup k security_headers) (lookup k response.headers)))
unfolding middleware_stack
middleware_stack_lem header new_id app response e =
    let secured = insert_all security_headers response.headers in
    let cid = or_new header new_id in
    (
      record response { headers = insert "x-correlation-id" cid secured },
      rw e,
      refl,
      λ k.
          lookup-insert "x-correlation-id" k cid secured
          ∙ rw (lookup-insert_all k security_headers response.headers security_headers-Distinct),
    )
