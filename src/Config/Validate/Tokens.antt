-- ===== src/Config/Validate/Tokens.antt =====
-- The tokens of a configuration in which `validate` finds nothing.
use microhook.Prelude.{
  ℕ, suc, ◌≡◌, refl, Text, List, [], ◌∷◌, ◌++◌, some, Map, true, false, arith, lookup, insert,
  is_empty, All, Bool-cases, Option-cases, inl, inr,
}
use microhook.Config.{Token}
use microhook.Config.Errors.{Message, append-nil_split, token_name_required, token_name_duplicate}
use microhook.Config.Validate.{
  check_name, validate_token_actions, validate_token_value, validate_tokens,
}
use microhook.Config.Validate.Sound.{check_name-nil}
use microhook.Auth.TokenFormat

module _ (names : Map ℕ) where
  -- A named token of the token format, scoped to known actions only.
  pub record IsValidToken (t : Token) : Type 0 where
    pub named : is_empty t.name ≡ false
    pub value : TokenFormat.validate t.value ≡ true
    pub actions :
        All (λ n. (is_empty n ≡ false) × ((index : ℕ) × (lookup n names ≡ some index))) t.actions

  token_actions_step :
      (i j : ℕ) (seen : Map ℕ) (action : Text) (actions : List Text)
      → validate_token_actions i j names seen (action ∷ actions) ≡ []
      → (is_empty action ≡ false)
        × ((index : ℕ) × (lookup action names ≡ some index))
        × (validate_token_actions i (suc j) names (insert action j seen) actions ≡ [])
  unfolding validate_token_actions
  token_actions_step i j seen action actions h = elim (Bool-cases (is_empty action)) [
    | inl e ↦ absurd (impossible (rw e at h))
    | inr e ↦ elim (Option-cases (lookup action seen)) [
      | inr (p, f) ↦ absurd (impossible (rw (e, f) at h))
      | inl f ↦ elim (Option-cases (lookup action names)) [
        | inl g ↦ absurd (impossible (rw (e, f, g) at h))
        | inr (k, g) ↦ (e, (k, g), rw (e, f, g) at h)
      ]
    ]
  ]
    where
      impossible : {m : Message} {ms : List Message} → m ∷ ms ≡ [] → ⊥
      impossible h = cc

  validate_token_actions-nil :
      (actions : List Text) (i j : ℕ) (seen : Map ℕ)
      → validate_token_actions i j names seen actions ≡ []
      → All (λ n. (is_empty n ≡ false) × ((index : ℕ) × (lookup n names ≡ some index))) actions
  validate_token_actions-nil [] i j seen h = tt
  validate_token_actions-nil (action ∷ actions) i j seen h =
      let (named, known, rest) = token_actions_step i j seen action actions h in
      ((named, known), validate_token_actions-nil actions i (suc j) (insert action j seen) rest)

  validate_token_value-nil :
      (i : ℕ) (value : Text) → validate_token_value i value ≡ [] → TokenFormat.validate value ≡ true
  unfolding validate_token_value
  validate_token_value-nil i value h = ground arith

  validate_tokens_step :
      (i : ℕ) (seen : Map ℕ) (t : Token) (tokens : List Token)
      → let named =
          check_name (token_name_required i) (λ p. token_name_duplicate i p t.name) i t.name seen in
        validate_tokens i names seen (t ∷ tokens)
        ≡ named.0
          ++ validate_token_value i t.value
          ++ validate_token_actions i 0 names [] t.actions
          ++ validate_tokens (suc i) names named.1 tokens
  unfolding validate_tokens
  validate_tokens_step i seen t tokens = refl

  -- With no message every token is valid.
  pub validate_tokens-All :
      (tokens : List Token) (i : ℕ) (seen : Map ℕ)
      → validate_tokens i names seen tokens ≡ []
      → All IsValidToken tokens
  validate_tokens-All [] i seen h = tt
  validate_tokens-All (t ∷ tokens) i seen h =
      let named =
        check_name (token_name_required i) (λ p. token_name_duplicate i p t.name) i t.name seen in
      let (front, more) = append-nil_split _ _ (rw (validate_tokens_step i seen t tokens) at h) in
      let (head, actions) =
        append-nil_split _ (validate_token_actions i 0 names [] t.actions) front in
      let (here, value) = append-nil_split named.0 (validate_token_value i t.value) head in
      (
        record {
          named = (check_name-nil _ _ i t.name seen here).0;
          value = validate_token_value-nil i t.value value;
          actions = validate_token_actions-nil t.actions i 0 [] actions;
        },
        validate_tokens-All tokens (suc i) named.1 more,
      )
