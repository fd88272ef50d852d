-- ===== src/Gateway/Tokens/Laws.antt =====
-- The keys that security.py keeps, over several requests.
use api_gateways.Base.{
  true, ◌++◌, ◌∷◌, [], All, ◌≢◌, ◌↔◌, sym, ap, ◌∙◌, Bool-cases, text_eq_sound, text_eq_refl,
  text_eq, subst, Option, none, some, List, Text, ◌≡◌, ◌⊎◌, inl, inr, refl, arith,
}
use api_gateways.Gateway.Outcome.{Outcome, done, done-inj, http, raised, ◌>>=◌}
use api_gateways.Gateway.Tokens.{
  RsaKey, User, same_kid, find_key, Jwks, get_jwks, decode_with, verify_token, or_unauthorized,
  get_current_user,
}

-- The first key of the list with this `kid`: it has it, and no key before it does.
pub record IsFirst (kid : Option Text) (keys : List RsaKey) (key : RsaKey) : Type 0 where
  pub before : List RsaKey
  pub after : List RsaKey
  pub split : keys ≡ before ++ key ∷ after
  pub named : key.kid ≡ kid
  pub unnamed : All (λ k. k.kid ≢ kid) before

same_kid_iff : (k j : Option Text) → (same_kid k j ≡ true) ↔ (k ≡ j)
same_kid_iff none none = (λ _. refl, λ _. refl)
same_kid_iff none (some j) = (λ e. absurd (ground (arith, e)), λ e. absurd (ground (arith, e)))
same_kid_iff (some k) none = (λ e. absurd (ground (arith, e)), λ e. absurd (ground (arith, e)))
same_kid_iff (some k) (some j) = (
  λ e. ap some (text_eq_sound k j e),
  λ e. subst (λ x. text_eq k x ≡ true) (ground (arith, e)) (text_eq_refl k),
)

find_key-IsFirst :
    (kid : Option Text) (keys : List RsaKey) (key : RsaKey)
    → find_key kid keys ≡ some key
    → IsFirst kid keys key
unfolding find_key
find_key-IsFirst kid [] key h = absurd (ground (arith, h))
find_key-IsFirst kid (k ∷ ks) key h = elim (Bool-cases (same_kid k.kid kid)) [
  | inl same ↦
      let e : some k ≡ some key = rw same at h in
      let eq : k ≡ key = ground (arith, e) in
      record {
        before = [];
        after = ks;
        split = ap (λ x. x ∷ ks) eq;
        named = ap (λ x. x.kid) (sym eq) ∙ (same_kid_iff k.kid kid).0 same;
        unnamed = tt;
      }
  | inr differ ↦
      let e : find_key kid ks ≡ some key = rw differ at h in
      let f = find_key-IsFirst kid ks key e in
      record {
        before = k ∷ f.before;
        after = f.after;
        split = ap (λ l. k ∷ l) f.split;
        named = f.named;
        unnamed = (λ eq. absurd (ground (arith, differ, (same_kid_iff k.kid kid).1 eq)), f.unnamed);
      }
]

IsFirst-find_key :
    (kid : Option Text) (before after : List RsaKey) (key : RsaKey)
    → key.kid ≡ kid
    → All (λ k. k.kid ≢ kid) before
    → find_key kid (before ++ key ∷ after) ≡ some key
unfolding find_key
IsFirst-find_key kid [] after key named unnamed =
    let e = (same_kid_iff key.kid kid).1 named in rw e refl
IsFirst-find_key kid (k ∷ before) after key named unnamed = elim (Bool-cases (same_kid k.kid kid)) [
  | inl same ↦ absurd (unnamed.0 ((same_kid_iff k.kid kid).0 same))
  | inr differ ↦ rw differ (IsFirst-find_key kid before after key named unnamed.1)
]

-- The keys that a request goes by: those that are kept, or else those that Keycloak gives.
abbrev pub AreKeys : Outcome (List RsaKey) → Jwks → List RsaKey → Type 0
AreKeys fetched kept keys = (kept ≡ some keys) ⊎ ((kept ≡ none) × (fetched ≡ done keys))

module _ (unverified_kid : Text → Outcome (Option Text))
    (decode : Text → RsaKey → Outcome User) where
  -- The user that a token gives with some keys: it verifies against the first key with its `kid`.
  pub record IsVerified (keys : List RsaKey) (token : Text) (user : User) : Type 0 where
    pub kid : Option Text
    pub key : RsaKey
    pub header : unverified_kid token ≡ done kid
    pub first : IsFirst kid keys key
    pub decoded : decode token key ≡ done user

  verify_token-inv :
      (token : Text) (keys : List RsaKey) (user : User)
      → verify_token unverified_kid decode token keys ≡ done user
      → IsVerified keys token user
  unfolding verify_token
  verify_token-inv token keys user h = by_kid (unverified_kid token) refl h
    where
      by_key :
          (kid : Option Text)
          → unverified_kid token ≡ done kid
          → (k : Option RsaKey) → find_key kid keys ≡ k
          → decode_with unverified_kid decode token k ≡ done user
          → IsVerified keys token user
      by_key kid n none f d = absurd (ground arith)
      by_key kid n (some key) f d = record {
        kid = kid;
        key = key;
        header = n;
        first = find_key-IsFirst kid keys key f;
        decoded = d;
      }

      by_kid :
          (m : Outcome (Option Text))
          → unverified_kid token ≡ m
          → (m >>= (λ kid. decode_with unverified_kid decode token (find_key kid keys))) ≡ done user
          → IsVerified keys token user
      by_kid (done kid) n e = by_key kid n (find_key kid keys) refl e
      by_kid (http status) n e = absurd (ground arith)
      by_kid (raised x) n e = absurd (ground arith)

  IsVerified-verify_token :
      (keys : List RsaKey) (token : Text) (user : User)
      → IsVerified keys token user
      → verify_token unverified_kid decode token keys ≡ done user
  unfolding verify_token
  IsVerified-verify_token keys token user v =
      let f = v.first in
      rw (v.header, f.split, IsFirst-find_key v.kid f.before f.after v.key f.named f.unnamed)
        v.decoded

  -- With the keys that it goes by, the token gives the user.
  abbrev pub Gives : Outcome (List RsaKey) → Jwks → Text → List RsaKey → User → Type 0
  Gives fetched kept token keys user = AreKeys fetched kept keys × IsVerified keys token user

  abbrev pub Answer : Outcome (List RsaKey) → Jwks → Text → Jwks × Outcome User → Type 0
  Answer fetched kept token out =
      ((keys : List RsaKey) × (user : User) × (out ≡ (some keys, done user))
        × Gives fetched kept token keys user)
      ⊎ ((out ≡ (none, http 401))
          × ¬ ((keys : List RsaKey) × (user : User) × Gives fetched kept token keys user))

  Gives-none :
      (fetched : Outcome (List RsaKey)) (kept : Jwks) (keys : List RsaKey) (token : Text)
      (m : Outcome User)
      → ((ks : List RsaKey) → AreKeys fetched kept ks → ks ≡ keys)
      → verify_token unverified_kid decode token keys ≡ m
      → ((user : User) → m ≢ done user)
      → ¬ ((ks : List RsaKey) × (user : User) × Gives fetched kept token ks user)
  Gives-none fetched kept keys token m only h other (ks, user, (a, v)) = other user (
      sym h
      ∙ IsVerified-verify_token keys token user
          (subst (λ k. IsVerified k token user) (only ks a) v))

  verified_or_refused :
      (fetched : Outcome (List RsaKey)) (kept : Jwks) (keys : List RsaKey) (token : Text)
      (m : Outcome User)
      → AreKeys fetched kept keys
      → ((ks : List RsaKey) → AreKeys fetched kept ks → ks ≡ keys)
      → verify_token unverified_kid decode token keys ≡ m
      → Answer fetched kept token (or_unauthorized unverified_kid decode (some keys) m)
  verified_or_refused fetched kept keys token (done user) a only h =
      inl (keys, user, refl, (a, verify_token-inv token keys user h))
  verified_or_refused fetched kept keys token (http status) a only h =
      inr (refl, Gives-none fetched kept keys token (http status) only h (λ u e. ground (arith, e)))
  verified_or_refused fetched kept keys token (raised x) a only h =
      inr (refl, Gives-none fetched kept keys token (raised x) only h (λ u e. ground (arith, e)))

  only_kept :
      (fetched : Outcome (List RsaKey)) (keys ks : List RsaKey)
      → AreKeys fetched (some keys) ks
      → ks ≡ keys
  only_kept fetched keys ks (inl e) = ground (arith, e)
  only_kept fetched keys ks (inr e) = absurd (ground (arith, e.0))

  only_fetched : (keys ks : List RsaKey) → AreKeys (done keys) none ks → ks ≡ keys
  only_fetched keys ks (inl e) = absurd (ground (arith, e))
  only_fetched keys ks (inr e) = sym (done-inj e.1)

  no_keys :
      (fetched : Outcome (List RsaKey)) (token : Text)
      → ((keys : List RsaKey) → fetched ≢ done keys)
      → ¬ ((ks : List RsaKey) × (user : User) × Gives fetched none token ks user)
  no_keys fetched token h (ks, user, (inl e, v)) = absurd (ground (arith, e))
  no_keys fetched token h (ks, user, (inr e, v)) = h ks e.1

  -- A request gets the user that its token gives, verified against the first key with the token's `kid` of the keys that are kept, or that Keycloak
  -- gives if none are kept, and those keys stay. If its token gives no user, or there are no keys, it is answered with 401, and nothing is kept.
  pub get_current_user_lem :
      (fetched : Outcome (List RsaKey)) (token : Text) (kept : Jwks)
      → Answer fetched kept token (get_current_user unverified_kid decode fetched token kept)
  unfolding get_current_user get_jwks
  get_current_user_lem fetched token (some keys) =
      verified_or_refused fetched (some keys) keys token
        (verify_token unverified_kid decode token keys) (inl refl) (only_kept fetched keys) refl
  get_current_user_lem (done keys) token none =
      verified_or_refused (done keys) none keys token
        (verify_token unverified_kid decode token keys) (inr (refl, refl)) (only_fetched keys) refl
  get_current_user_lem (http status) token none =
      inr (refl, no_keys (http status) token (λ ks e. ground (arith, e)))
  get_current_user_lem (raised x) token none =
      inr (refl, no_keys (raised x) token (λ ks e. ground (arith, e)))

  -- After Keycloak changed its keys, a token of a new key is refused once, since the old keys are kept; the refusal empties
  -- them, so that the next request with the token is let in.
  pub rotated_keys :
      (old new : List RsaKey) (token : Text) (kid : Option Text) (key : RsaKey) (user : User)
      → unverified_kid token ≡ done kid
      → find_key kid old ≡ none
      → find_key kid new ≡ some key
      → decode token key ≡ done user
      → let first = get_current_user unverified_kid decode (done new) token (some old) in
        (first.1 ≡ http 401)
        × (get_current_user unverified_kid decode (done new) token first.0 ≡ (some new, done user))
  unfolding get_current_user get_jwks verify_token
  rotated_keys old new token kid key user n o f d = rw (n, o, f, d) (refl, refl)
