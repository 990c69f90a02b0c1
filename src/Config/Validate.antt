-- ===== src/Config/Validate.antt =====
-- internal/config/validate.go: `Config.Validate`, as the messages that it adds, in order.
pub mod Sound
pub mod Tokens
use microhook.Prelude.{
  ℕ, suc, Text, bytes, ℤ, is_neg, Bool, true, false, not, ◌&&◌, ◌||◌, List, [], ◌∷◌, ◌++◌, Map,
  Option, none, some, is_blank, is_empty, eqb, any, lookup, insert, keys, sort_strings, ◌==◌,
  if◌then◌else◌,
}
use microhook.Config.{ServerConfig, StorageConfig, Action, Token, default_log_format}
use microhook.Config.Errors.{
  Message, listen_required, log_format_required, log_format_unknown, path_required,
  retention_days_negative, max_runs_negative, action_name_required, action_name_duplicate,
  command_or_shell, command_empty, policy_required, policy_unknown, max_output_negative, cwd_nul,
  env_key_empty, env_key_equals, env_key_nul, env_value_nul, token_name_required,
  token_name_duplicate, token_value_required, token_value_invalid, token_action_empty,
  token_action_duplicate, token_action_unknown,
}
use microhook.Config.Normalize.{Settings, has_command, has_shell_command, value_or}
use microhook.Auth.TokenFormat

-- `if test { errs.Add(message) }`
abbrev pub message_if : Bool → Message → List Message
message_if test m = if test then m ∷ [] else []

unfoldable pub validate_server : ServerConfig → List Message
unfolding ◌==◌
validate_server server =
    message_if (is_blank server.listen) listen_required
    ++ (if server.log_format == default_log_format || server.log_format == bytes "text"
        then []
        else if is_empty server.log_format
        then log_format_required ∷ []
        else log_format_unknown ∷ [])

unfoldable pub validate_storage : StorageConfig → List Message
validate_storage storage =
    message_if (is_blank storage.path) path_required
    ++ message_if (is_neg storage.retention_days) retention_days_negative
    ++ message_if (is_neg storage.max_runs) max_runs_negative

-- `strings.IndexByte(s, b) >= 0`
abbrev pub has_byte : ℕ → Text → Bool
has_byte b s = any (λ c. eqb c b) s

unfoldable pub validate_env_key : ℕ → Map Text → Text → List Message
unfolding lookup
validate_env_key i env key =
    if is_blank key
    then env_key_empty i ∷ []
    else if has_byte b'=' key
    then env_key_equals i key ∷ []
    else if has_byte 0 key
    then env_key_nul i key ∷ []
    else if has_byte 0 (value_or [] (lookup key env))
    then env_value_nul i key ∷ []
    else []

unfoldable pub validate_env_keys : ℕ → Map Text → List Text → List Message
unfolding validate_env_key
validate_env_keys i env [] = []
validate_env_keys i env (key ∷ rest) = validate_env_key i env key ++ validate_env_keys i env rest

unfoldable pub validate_env : ℕ → Map Text → List Message
unfolding validate_env_keys sort_strings keys
validate_env i env = validate_env_keys i env (sort_strings (keys env))

unfoldable pub validate_command : ℕ → ℕ → List Text → List Message
validate_command i j [] = []
validate_command i j (arg ∷ args) =
    message_if (is_blank arg) (command_empty i j) ++ validate_command i (suc j) args

unfoldable pub validate_policy : ℕ → Text → List Message
unfolding ◌==◌
validate_policy i policy =
    if policy == bytes "allow" || policy == bytes "reject"
    then []
    else if is_empty policy
    then policy_required i ∷ []
    else policy_unknown i ∷ []

abbrev same : Bool → Bool → Bool
same true b = b
same false b = not b

unfoldable pub validate_action : ℕ → Action → List Message
unfolding validate_command validate_policy validate_env has_command has_shell_command
validate_action i a =
    message_if (same (has_command a.command) (has_shell_command a.shell_command))
      (command_or_shell i)
    ++ validate_command i 0 a.command
    ++ validate_policy i a.concurrency_policy
    ++ message_if (is_neg a.max_output_bytes) (max_output_negative i)
    ++ message_if (has_byte 0 a.cwd) (cwd_nul i)
    ++ validate_env i a.env

-- The test of a name against the names seen so far, for actions and tokens alike: the messages
-- and the new table.
unfoldable pub check_name : Message → (ℕ → Message) → ℕ → Text → Map ℕ → List Message × Map ℕ
unfolding lookup insert
check_name required duplicate i name seen =
    if is_empty name then (required ∷ [], seen) else elim (lookup name seen) [
      | some previous ↦ (duplicate previous ∷ [], seen)
      | none ↦ ([], insert name i seen)
    ]

-- The loop of `validateActions` from index `i`, with `actionNames` so far.
unfoldable pub validate_actions_from : ℕ → Map ℕ → List Action → List Message × Map ℕ
unfolding check_name validate_action
validate_actions_from i seen [] = ([], seen)
validate_actions_from i seen (a ∷ actions) =
    let (named, seen') =
      check_name (action_name_required i) (λ p. action_name_duplicate i p a.name) i a.name seen in
    let (more, names) = validate_actions_from (suc i) seen' actions in
    (named ++ validate_action i a ++ more, names)

unfoldable pub validate_actions : List Action → List Message × Map ℕ
unfolding validate_actions_from
validate_actions actions = validate_actions_from 0 [] actions

-- The inner loop of `validateTokens`, with `seenActions` so far.
unfoldable pub validate_token_actions : ℕ → ℕ → Map ℕ → Map ℕ → List Text → List Message
unfolding lookup insert
validate_token_actions i j names seen [] = []
validate_token_actions i j names seen (action ∷ actions) =
    let rest = validate_token_actions i (suc j) names seen actions in
    let next = validate_token_actions i (suc j) names (insert action j seen) actions in
    if is_empty action then token_action_empty i j ∷ rest else elim (lookup action seen) [
      | some previous ↦ token_action_duplicate i j previous action ∷ rest
      | none ↦ elim (lookup action names) [
        | none ↦ token_action_unknown i j action ∷ next
        | some _ ↦ next
      ]
    ]

unfoldable pub validate_token_value : ℕ → Text → List Message
validate_token_value i value =
    if is_empty value
    then token_value_required i ∷ []
    else message_if (not (TokenFormat.validate value)) (token_value_invalid i)

-- The outer loop, with `tokenNames` so far.
unfoldable pub validate_tokens : ℕ → Map ℕ → Map ℕ → List Token → List Message
unfolding check_name validate_token_value validate_token_actions
validate_tokens i names seen [] = []
validate_tokens i names seen (t ∷ tokens) =
    let (named, seen') =
      check_name (token_name_required i) (λ p. token_name_duplicate i p t.name) i t.name seen in
    named
    ++ validate_token_value i t.value
    ++ validate_token_actions i 0 names [] t.actions
    ++ validate_tokens (suc i) names seen' tokens

unfoldable pub validate : Settings → List Message
unfolding validate_server validate_storage validate_actions validate_tokens
validate c =
    let (messages, action_names) = validate_actions c.actions in
    validate_server c.server
    ++ validate_storage c.storage
    ++ messages
    ++ validate_tokens 0 action_names [] c.tokens
