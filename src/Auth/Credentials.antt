-- ===== src/Auth/Credentials.antt =====
-- Which identity a bearer token has.
use microhook.Prelude.{
  ℕ, ◌≡◌, ◌≢◌, refl, sym, ◌∙◌, ap, Text, false, true, List, [], ◌∷◌, ◌++◌, arith, All, is_empty,
  Option, none, some, Result, ok, err, ◌==◌, eq_iff, eq_refl, eq-false_of_ne, Bool, if◌then◌else◌,
  Bool-cases, inl, inr, >>=-eq-ok,
}
use microhook.Config.{Token, allows_action as token_allows_action}
use microhook.Auth.{
  Identity, no_identity, TokenCredential, AuthError, invalid_bearer_token, new_credential, new,
  new_identity, allows_action, match_credentials, authenticate_token, authenticate_header,
  parse_bearer_token,
}
use microhook.Auth.TokenFormat
use microhook.Auth.TokenFormat.Laws.{validate-InAlphabet}
use microhook.Auth.Header.{header_of, parse_bearer_token-header_of}

-- The identity of the first credential with a digest.
pub first_match : Text → List TokenCredential → Option Identity
first_match provided [] = none
first_match provided (c ∷ cs) =
    if provided == c.digest then some c.identity else first_match provided cs

abbrev pub outcome : Option Identity → Result AuthError Identity
outcome none = err invalid_bearer_token
outcome (some identity) = ok identity

-- Once matched, the loop keeps its identity.
match_credentials_after :
    (provided : Text) (cs : List TokenCredential) (identity : Identity)
    → match_credentials provided cs identity 1 ≡ (identity, 1)
unfolding match_credentials
match_credentials_after provided [] identity = refl
match_credentials_after provided (c ∷ cs) identity =
    ground (arith, match_credentials_after provided cs identity)

abbrev matched_as : Option Identity → Identity × ℕ
matched_as none = (no_identity, 0)
matched_as (some identity) = (identity, 1)

match_credentials_lem :
    (provided : Text) (cs : List TokenCredential)
    → match_credentials provided cs no_identity 0 ≡ matched_as (first_match provided cs)
unfolding match_credentials first_match
match_credentials_lem provided [] = refl
match_credentials_lem provided (c ∷ cs) =
    ground
      (arith, match_credentials_lem provided cs, match_credentials_after provided cs c.identity)

module _ (digest : Text → Text) where
  -- A token has the identity of the first credential with its digest, found by the loop over all of
  -- them; an empty token, or one with no such credential, is refused.
  pub authenticate_token_lem :
      (credentials : List TokenCredential) (value : Text)
      → authenticate_token digest credentials value ≡ (
          if is_empty value
          then err invalid_bearer_token
          else outcome (first_match (digest value) credentials))
  unfolding authenticate_token
  authenticate_token_lem credentials value =
      ground (arith, match_credentials_lem (digest value) credentials)

  -- The identity of the first configured token with a digest.
  pub owner : Text → List Token → Option Identity
  owner d [] = none
  owner d (t ∷ tokens) = if d == digest t.value then some (new_identity t) else owner d tokens

  new_credential_inv :
      (t : Token) {c : TokenCredential}
      → new_credential digest t ≡ ok c
      → (is_empty t.name ≡ false)
        × (is_empty t.value ≡ false)
        × (TokenFormat.validate t.value ≡ true)
        × (c ≡ record { identity = new_identity t; digest = digest t.value })
  unfolding new_credential
  new_credential_inv t {c} h = ground arith

  new-cons :
      (t : Token) (tokens : List Token) {credentials : List TokenCredential}
      → new digest (t ∷ tokens) ≡ ok credentials
      → (is_empty t.value ≡ false)
        × (TokenFormat.validate t.value ≡ true)
        × ((rest : List TokenCredential) × (new digest tokens ≡ ok rest)
            × (credentials ≡ record { identity = new_identity t; digest = digest t.value } ∷ rest))
  unfolding new
  new-cons t tokens h =
      let (c, made, h') = >>=-eq-ok (new_credential digest t) _ h in
      let (rest, e, h'') = >>=-eq-ok (new digest tokens) _ h' in
      let (named, given, valid, same) = new_credential_inv t made in
      (given, valid, (rest, e, ground arith))

  new-first_match :
      (tokens : List Token) (d : Text) {credentials : List TokenCredential}
      → new digest tokens ≡ ok credentials
      → first_match d credentials ≡ owner d tokens
  unfolding owner first_match
  new-first_match [] d {credentials} h =
      let none_made : credentials ≡ [] = unfold new in cc in rw none_made
  new-first_match (t ∷ tokens) d h =
      let (given, valid, (rest, e, same)) = new-cons t tokens h in
      rw same (rw (new-first_match tokens d e))

  pub nonempty_of_validate :
      (value : Text) → TokenFormat.validate value ≡ true → is_empty value ≡ false
  nonempty_of_validate value v = let (encoded, e, _, _) = validate-InAlphabet value v in rw e

  authenticate_header-header_of :
      (tokens : List Token) {credentials : List TokenCredential} (value : Text)
      → new digest tokens ≡ ok credentials
      → TokenFormat.validate value ≡ true
      → authenticate_header digest credentials (header_of value)
        ≡ outcome (owner (digest value) tokens)
  unfolding authenticate_header
  authenticate_header-header_of tokens {credentials} value h v =
      rw (parse_bearer_token-header_of value v, authenticate_header)
        (authenticate_token_lem credentials value
          ∙ rw (nonempty_of_validate value v, new-first_match tokens (digest value) h))

  owner-append :
      (d : Text) (before : List Token) (t : Token) (after : List Token)
      → All (λ u. digest u.value ≢ digest t.value) before
      → owner (digest t.value) (before ++ t ∷ after) ≡ some (new_identity t)
  unfolding owner
  owner-append d [] t after h = rw (eq_refl (digest t.value))
  owner-append d (u ∷ before) t after (hu, h) =
      rw (eq-false_of_ne (digest t.value) (digest u.value) (λ e. hu (sym e)))
        (owner-append d before t after h)

  valid_of_new :
      (before : List Token) (t : Token) (after : List Token) {credentials : List TokenCredential}
      → new digest (before ++ t ∷ after) ≡ ok credentials
      → TokenFormat.validate t.value ≡ true
  valid_of_new [] t after h = (new-cons t after h).1
  valid_of_new (u ∷ before) t after h =
      let (given, valid, (rest, e, same)) = new-cons u (before ++ t ∷ after) h in
      valid_of_new before t after e

  -- With the credentials that `new` makes of the tokens, the header that carries one of them has that
  -- token's identity, unless a token before it has the same digest.
  pub authenticate_configured :
      (before : List Token) (t : Token) (after : List Token) {credentials : List TokenCredential}
      → new digest (before ++ t ∷ after) ≡ ok credentials
      → All (λ u. digest u.value ≢ digest t.value) before
      → authenticate_header digest credentials (header_of t.value) ≡ ok (new_identity t)
  authenticate_configured before t after h apart =
      authenticate_header-header_of (before ++ t ∷ after) t.value h (valid_of_new before t after h)
      ∙ ap outcome (owner-append (digest t.value) before t after apart)

  -- A configured token with a digest, and its identity.
  pub record Owns (d : Text) (tokens : List Token) (identity : Identity) : Type 0 where
    pub before : List Token
    pub token : Token
    pub after : List Token
    pub listed : tokens ≡ before ++ token ∷ after
    pub digest_eq : d ≡ digest token.value
    pub identity_eq : identity ≡ new_identity token

  owner-Owns :
      (d : Text) (tokens : List Token) {identity : Identity}
      → owner d tokens ≡ some identity
      → Owns d tokens identity
  unfolding owner
  owner-Owns d [] h = cc
  owner-Owns d (t ∷ tokens) {identity} h = elim (Bool-cases (d == digest t.value)) [
    | inl e ↦ record {
      before = [];
      token = t;
      after = tokens;
      listed = refl;
      digest_eq = (eq_iff d (digest t.value)).0 e;
      identity_eq = same_identity (rw e at h);
    }
    | inr e ↦
        let o = owner-Owns d tokens (rw e at h) in
        record {
          before = t ∷ o.before;
          token = o.token;
          after = o.after;
          listed = ap (λ (ts : List Token). t ∷ ts) o.listed;
          digest_eq = o.digest_eq;
          identity_eq = o.identity_eq;
        }
  ]
    where
      same_identity : {i j : Identity} → some i ≡ some j → j ≡ i
      same_identity h = cc

  -- With the credentials that `new` makes of the tokens, whoever is authenticated presented a bearer
  -- token with the digest of a configured token, and has that token's identity.
  pub authenticate_header-Owns :
      (tokens : List Token) {credentials : List TokenCredential} (header : Text)
      {identity : Identity}
      → new digest tokens ≡ ok credentials
      → authenticate_header digest credentials header ≡ ok identity
      → (value : Text) × (parse_bearer_token header ≡ ok value)
        × Owns (digest value) tokens identity
  unfolding authenticate_header
  authenticate_header-Owns tokens {credentials} header {identity} h k =
      let (value, parsed, found) = >>=-eq-ok (parse_bearer_token header) _ k in
      (
        value,
        parsed,
        owner-Owns (digest value) tokens (
            rw (← new-first_match tokens (digest value) h)
              (found_of_outcome _ _ (sym (authenticate_token_lem credentials value) ∙ found))),
      )
    where
      found_of_outcome :
          (b : Bool) (o : Option Identity)
          → (if b then err invalid_bearer_token else outcome o) ≡ ok identity
          → o ≡ some identity
      found_of_outcome b o e = ground arith

-- A token's identity may do what the token may, for a token whose set was made of its actions.
pub allows_action-new_identity :
    (t : Token) (name : Text)
    → t.action_set ≡ t.actions
    → allows_action (new_identity t) name ≡ token_allows_action t name
unfolding allows_action new_identity token_allows_action
allows_action-new_identity t name h = rw h
