-- ===== src/Config.antt =====
-- internal/config/config.go: the configuration as the service uses it.
pub mod Errors
pub mod ErrorText
pub mod Fallback
pub mod Registry
pub mod Normalize
pub mod Validate
pub mod Load
use microhook.Prelude.{Text, bytes, ℤ, pos, Bool, true, List, Map, is_empty, contains, ◌==◌}
use microhook.Prelude.{if◌then◌else◌}

abbrev pub default_path : Text
default_path = bytes "/etc/microhook/config.yml"

abbrev pub default_listen_address : Text
default_listen_address = bytes "127.0.0.1:9464"

abbrev pub default_log_format : Text
default_log_format = bytes "json"

abbrev pub default_concurrency_policy : Text
default_concurrency_policy = bytes "allow"

abbrev pub default_max_output_bytes : ℤ
default_max_output_bytes = pos 65536

abbrev pub action_mode_command : Text
action_mode_command = bytes "command"

abbrev pub action_mode_shell : Text
action_mode_shell = bytes "shell"

pub record ServerConfig : Type 0 where
  pub listen : Text
  pub log_format : Text

-- `action_set` lists the keys of the Go map.
pub record Token : Type 0 where
  pub name : Text
  pub value : Text
  pub actions : List Text
  pub action_set : List Text

unfoldable pub is_global : Token → Bool
is_global t = is_empty t.actions

unfoldable pub allows_action : Token → Text → Bool
unfolding is_global contains
allows_action t action_name = if is_global t then true else contains t.action_set action_name

pub record StorageConfig : Type 0 where
  pub path : Text
  pub retention_days : ℤ
  pub max_runs : ℤ

-- `timeout` is a Go `time.Duration`, in nanoseconds.
pub record Action : Type 0 where
  pub name : Text
  pub description : Text
  pub mode : Text
  pub command : List Text
  pub shell_command : Text
  pub cwd : Text
  pub timeout : ℤ
  pub env : Map Text
  pub concurrency_policy : Text
  pub max_output_bytes : ℤ
  pub enabled : Bool

unfoldable pub uses_shell : Action → Bool
unfolding ◌==◌
uses_shell a = a.mode == action_mode_shell
