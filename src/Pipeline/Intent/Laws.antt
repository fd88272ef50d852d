-- ===== src/Pipeline/Intent/Laws.antt =====
-- fastapi_backend/app/services/ai_request_service.py and infrastructure/intent_classifier/client.py: the intents
-- that the classifier can bring about.
use api_gateways.Base.{
  arith, ℕ, String, Bool, true, false, not, List, [], ◌∷◌, ◌++◌, ◌≡◌, refl, sym, ap, subst, ◌&&◌,
  inl, inr, Bool-cases, contains, str_eq, eq_iff,
}
use api_gateways.Base.Json.{Json, null, bool, num, str, arr, obj, Fields}
use api_gateways.Errors.{Result, ok, err, ok-inj, ◌>>=◌}
use api_gateways.Request.Schema.{AiRequest}
use api_gateways.Intent.Client.{
  unclassified_label, ClassifierDecision, ClassifierClient, ClassifierReply, failed, answered,
  IntentTaxonomy, is_configured, is_routable_intent, classify, checked, read_reply, read_fields,
  read_confidence, read_decision,
}
use api_gateways.Pipeline.Outside.{Services, Outside}
use api_gateways.Pipeline.Intent.{
  ChosenIntent, choose_intent, choose_by, ask, as_provided, with_decision, is_empty,
  messages_to_classify_text,
}

contains-last : (s : String) (ss : List String) → contains s (ss ++ s ∷ []) ≡ true
contains-last s [] = ground (arith, (eq_iff s s).1 refl)
contains-last s (t ∷ ts) = ground (arith, contains-last s ts)

unclassified-routable : (tx : IntentTaxonomy) → is_routable_intent unclassified_label tx ≡ true
unfolding is_routable_intent
unclassified-routable tx = contains-last unclassified_label tx.candidate_labels

checked-routable :
    (tx : IntentTaxonomy) (d : ClassifierDecision)
    → is_routable_intent (checked tx d).intent_label tx ≡ true
checked-routable tx d = elim (Bool-cases (is_routable_intent d.intent_label tx)) [
  | inl e ↦ rw e e
  | inr e ↦ rw e (unclassified-routable tx)
]

-- A result of a chain on results went through its first step.
result-bind-ok {ℓ κ} :
    {A : Type ℓ} {B : Type κ} (r : Result A) (f : A → Result B) (b : B)
    → (r >>= f) ≡ ok b
    → (a : A) × (r ≡ ok a) × (f a ≡ ok b)
result-bind-ok (ok a) f b e = (a, refl, e)
result-bind-ok (err x) f b e = absurd (ground arith)

module _ (render : Json → String) (to_float : Json → Result ℕ) (tx : IntentTaxonomy) where
  read_fields-routable :
      (body : Fields) (d : ClassifierDecision)
      → read_fields render to_float tx body ≡ ok d
      → is_routable_intent d.intent_label tx ≡ true
  read_fields-routable body d e =
      let (conf, parsed, made) =
        result-bind-ok (read_confidence render to_float body)
          (λ conf. ok (checked tx (read_decision render to_float body conf))) d e in
      subst (λ x. is_routable_intent x.intent_label tx ≡ true) (ok-inj made)
        (checked-routable tx (read_decision render to_float body conf))

  read_reply-routable :
      (reply : ClassifierReply) (d : ClassifierDecision)
      → read_reply render to_float tx reply ≡ ok d
      → is_routable_intent d.intent_label tx ≡ true
  read_reply-routable failed d e =
      subst (λ x. is_routable_intent x.intent_label tx ≡ true) (ok-inj e) (unclassified-routable tx)
  read_reply-routable (answered (obj body)) d e = read_fields-routable body d e
  read_reply-routable (answered null) d e = absurd (ground arith)
  read_reply-routable (answered (bool b)) d e = absurd (ground arith)
  read_reply-routable (answered (num n)) d e = absurd (ground arith)
  read_reply-routable (answered (str s)) d e = absurd (ground arith)
  read_reply-routable (answered (arr xs)) d e = absurd (ground arith)

  -- The client of the classifier only ever decides on a label that can be routed, whatever the service answers: an answer that fails or names another label becomes the unclassified one; the taxonomy file is there.
  pub classify-routable :
      (c : ClassifierClient) (reply : ClassifierReply) (d : ClassifierDecision)
      → classify render to_float c (ok tx) reply ≡ ok d
      → is_routable_intent d.intent_label tx ≡ true
  unfolding classify
  classify-routable c reply d e = elim (Bool-cases (is_configured c)) [
    | inl on ↦ read_reply-routable reply d (rw on at e)
    | inr off ↦
        subst (λ x. is_routable_intent x.intent_label tx ≡ true) (ok-inj (rw off at e))
          (unclassified-routable tx)
  ]

module _ (svc : Services) (out : Outside) (body : AiRequest) where
  asked-ok :
      (tx : IntentTaxonomy) (f : ClassifierDecision → ChosenIntent) (c : ChosenIntent)
      → out.taxonomy ≡ ok tx
      → (ask svc out >>= (λ d. ok (f d))) ≡ ok c
      → (d : ClassifierDecision) × (is_routable_intent d.intent_label tx ≡ true) × (f d ≡ c)
  asked-ok tx f c read e =
      let (d, decided, made) = result-bind-ok (ask svc out) (λ d. ok (f d)) c e in
      let decided_tx : classify out.render out.to_float svc.intent_classifier (ok tx)
            out.classifier_reply
          ≡ ok d =
        subst
          (λ t.
            classify out.render out.to_float svc.intent_classifier t out.classifier_reply ≡ ok d)
          read decided in
      (
        d,
        classify-routable out.render out.to_float tx svc.intent_classifier out.classifier_reply d
            decided_tx,
        ok-inj made,
      )

  chosen-routes :
      (tx : IntentTaxonomy) (c : ChosenIntent) (is_auto shadow can_ask : Bool)
      → out.taxonomy ≡ ok tx
      → choose_by svc out body is_auto shadow can_ask ≡ ok c
      → (is_auto ≡ true → is_routable_intent c.intent_name tx ≡ true)
        × (is_auto ≡ false → c.intent_name ≡ body.intent)
  chosen-routes tx c true shadow true read e =
      let (d, routable, made) =
        asked-ok tx
          (λ d. with_decision (record (as_provided body) { intent_name = d.intent_label }) "auto" d)
          c read e in
      (
        (λ _. subst (λ x. is_routable_intent x.intent_name tx ≡ true) made routable),
        λ no. absurd (ground arith),
      )
  chosen-routes tx c true shadow false read e = (
    (λ _.
        subst (λ x. is_routable_intent x.intent_name tx ≡ true) (ok-inj e)
          (unclassified-routable tx)),
    λ no. absurd (ground arith),
  )
  chosen-routes tx c false true true read e =
      let (d, routable, made) =
        asked-ok tx (λ d. with_decision (as_provided body) "shadow" d) c read e in
      ((λ no. absurd (ground arith)), λ _. sym (ap (λ x. x.intent_name) made))
  chosen-routes tx c false true false read e =
      ((λ no. absurd (ground arith)), λ _. sym (ap (λ x. x.intent_name) (ok-inj e)))
  chosen-routes tx c false false can_ask read e =
      ((λ no. absurd (ground arith)), λ _. sym (ap (λ x. x.intent_name) (ok-inj e)))

  -- A request that asks for automatic routing is served under an intent of the taxonomy or as unclassified, whatever the classifier answers; the taxonomy file is there.
  pub choose_intent-routable :
      (tx : IntentTaxonomy) (c : ChosenIntent)
      → out.taxonomy ≡ ok tx
      → choose_intent svc out body ≡ ok c
      → str_eq body.intent svc.intent_auto_token ≡ true
      → is_routable_intent c.intent_name tx ≡ true
  unfolding choose_intent
  choose_intent-routable tx c read e is_auto =
      (chosen-routes tx c (str_eq body.intent svc.intent_auto_token) svc.intent_classifier_shadow
          (not (is_empty (messages_to_classify_text body)) && is_configured svc.intent_classifier)
          read e).0
        is_auto

  -- A request that names its intent keeps it, also when the classifier is asked in shadow mode; the taxonomy file is there.
  pub choose_intent-keeps :
      (tx : IntentTaxonomy) (c : ChosenIntent)
      → out.taxonomy ≡ ok tx
      → choose_intent svc out body ≡ ok c
      → str_eq body.intent svc.intent_auto_token ≡ false
      → c.intent_name ≡ body.intent
  unfolding choose_intent
  choose_intent-keeps tx c read e named =
      (chosen-routes tx c (str_eq body.intent svc.intent_auto_token) svc.intent_classifier_shadow
          (not (is_empty (messages_to_classify_text body)) && is_configured svc.intent_classifier)
          read e).1
        named
