-- ===== src/Config/Errors.antt =====
-- internal/config/validate.go, `ValidationErrors`: one constructor for each message that is added.
-- A number is the index that the message prints; the rendering of the text is left out.
use microhook.Prelude.{ℕ, Text, List, [], ◌∷◌, ◌++◌, Option, none, some, ◌≡◌, refl}

pub data Message : Type 0 where
  listen_required log_format_required log_format_unknown : Message
  path_required retention_days_negative max_runs_negative : Message
  timeout_invalid : ℕ → Message
  action_name_required : ℕ → Message
  action_name_duplicate : ℕ → ℕ → Text → Message
  command_or_shell : ℕ → Message
  command_empty : ℕ → ℕ → Message
  policy_required policy_unknown max_output_negative cwd_nul env_key_empty : ℕ → Message
  env_key_equals env_key_nul env_value_nul : ℕ → Text → Message
  token_name_required : ℕ → Message
  token_name_duplicate : ℕ → ℕ → Text → Message
  token_value_required token_value_invalid : ℕ → Message
  token_action_empty : ℕ → ℕ → Message
  token_action_duplicate : ℕ → ℕ → ℕ → Text → Message
  token_action_unknown : ℕ → ℕ → Text → Message

-- `OrNil`: an error value exactly when a message was added.
unfoldable pub or_nil : List Message → Option (List Message)
or_nil [] = none
or_nil (m ∷ ms) = some (m ∷ ms)

pub append-nil_split {ℓ} : {A : Type ℓ} (xs ys : List A) → xs ++ ys ≡ [] → (xs ≡ []) × (ys ≡ [])
append-nil_split [] ys h = (refl, h)
append-nil_split (x ∷ xs) ys h = cc
