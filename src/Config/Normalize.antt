-- ===== src/Config/Normalize.antt =====
-- internal/config/load.go: the decoded file and `normalize`. `time.ParseDuration` is a parameter.
use microhook.Prelude.{
  ℕ, suc, Text, ℤ, pos, Bool, true, false, not, List, [], ◌∷◌, ◌++◌, map, Map, Option, none, some,
  trim_space, is_blank, is_empty, if◌then◌else◌,
}
use microhook.Config.{
  ServerConfig, Token, StorageConfig, Action, default_listen_address, default_log_format,
  default_concurrency_policy, default_max_output_bytes, action_mode_command, action_mode_shell,
}
use microhook.Config.Errors.{Message, timeout_invalid}

pub record FileServerConfig : Type 0 where
  pub listen : Text
  pub log_format : Text

pub record FileToken : Type 0 where
  pub name : Text
  pub value : Text
  pub actions : List Text

pub record FileStorageConfig : Type 0 where
  pub path : Text
  pub retention_days : ℤ
  pub max_runs : ℤ

pub record FileAction : Type 0 where
  pub name : Text
  pub description : Text
  pub command : List Text
  pub shell_command : Text
  pub cwd : Text
  pub timeout : Text
  pub env : Map Text
  pub concurrency_policy : Text
  pub max_output_bytes : Option ℤ
  pub enabled : Option Bool

pub record FileConfig : Type 0 where
  pub server : FileServerConfig
  pub tokens : List FileToken
  pub storage : FileStorageConfig
  pub actions : List FileAction

-- The exported fields of `Config`; its registry is built by `load`.
pub record Settings : Type 0 where
  pub server : ServerConfig
  pub tokens : List Token
  pub storage : StorageConfig
  pub actions : List Action

-- `if v := strings.TrimSpace(text); v != "" { field = v }` over the default of the field.
abbrev pub trimmed_or : Text → Text → Text
trimmed_or default text = if is_blank text then default else trim_space text

abbrev pub value_or {ℓ} : {A : Type ℓ} → A → Option A → A
value_or default none = default
value_or default (some a) = a

unfoldable pub normalize_action_names : List Text → List Text
normalize_action_names names = map trim_space names

unfoldable pub make_action_set : List Text → List Text
make_action_set names = names

unfoldable pub normalize_token : FileToken → Token
unfolding normalize_action_names make_action_set
normalize_token t =
    let actions = normalize_action_names t.actions in
    record {
      name = trim_space t.name;
      value = trim_space t.value;
      actions = actions;
      action_set = make_action_set actions;
    }

unfoldable pub normalize_tokens : List FileToken → List Token
unfolding normalize_token
normalize_tokens ts = map normalize_token ts

-- The mode is left empty when both commands are given, or neither.
unfoldable pub mode_of : Bool → Bool → Text
mode_of true false = action_mode_command
mode_of false true = action_mode_shell
mode_of _ _ = []

unfoldable pub has_command : List Text → Bool
has_command command = not (is_empty command)

unfoldable pub has_shell_command : Text → Bool
has_shell_command shell_command = not (is_blank shell_command)

module _ (parse_duration : Text → Option ℤ) where
  unfoldable pub normalize_timeout : ℕ → Text → ℤ × List Message
  normalize_timeout i text =
      if is_blank text then (pos 0, []) else elim (parse_duration (trim_space text)) [
        | none ↦ (pos 0, timeout_invalid i ∷ [])
        | some timeout ↦ (timeout, [])
      ]

  unfoldable pub normalize_action : ℕ → FileAction → Action × List Message
  unfolding normalize_timeout mode_of has_command has_shell_command
  normalize_action i f =
      let (timeout, errs) = normalize_timeout i f.timeout in
      (
        record {
          name = trim_space f.name;
          description = f.description;
          mode = mode_of (has_command f.command) (has_shell_command f.shell_command);
          command = f.command;
          shell_command = f.shell_command;
          cwd = f.cwd;
          timeout = timeout;
          env = f.env;
          concurrency_policy = trimmed_or default_concurrency_policy f.concurrency_policy;
          max_output_bytes = value_or default_max_output_bytes f.max_output_bytes;
          enabled = value_or true f.enabled;
        },
        errs,
      )

  unfoldable pub normalize_actions : ℕ → List FileAction → List Action × List Message
  unfolding normalize_action
  normalize_actions i [] = ([], [])
  normalize_actions i (f ∷ fs) =
      let (action, errs) = normalize_action i f in
      let (actions, more) = normalize_actions (suc i) fs in (action ∷ actions, errs ++ more)

  unfoldable pub normalize : FileConfig → Settings × List Message
  unfolding normalize_tokens normalize_actions
  normalize f =
      let (actions, errs) = normalize_actions 0 f.actions in
      (
        record {
          server = record {
            listen = trimmed_or default_listen_address f.server.listen;
            log_format = trimmed_or default_log_format f.server.log_format;
          };
          tokens = normalize_tokens f.tokens;
          storage = record {
            path = trim_space f.storage.path;
            retention_days = f.storage.retention_days;
            max_runs = f.storage.max_runs;
          };
          actions = actions;
        },
        errs,
      )
