-- ===== src/Execution/Environment.antt =====
-- internal/execution/runner.go, `buildEnv`: the variables that a process is given.
pub mod Precedence
use microhook.Prelude.{
  Text, bytes, List, [], ◌∷◌, ◌++◌, Map, Option, none, some, is_blank, lookup, insert, copy, keys,
  sort_strings, if◌then◌else◌,
}
use microhook.Config.Normalize.{value_or}

abbrev pub default_path : Text
default_path = bytes "/usr/local/sbin:/usr/local/bin:/usr/sbin:/usr/bin:/sbin:/bin"

abbrev pub env_run_id : Text
env_run_id = bytes "MICROHOOK_RUN_ID"

abbrev pub env_action : Text
env_action = bytes "MICROHOOK_ACTION"

abbrev pub env_request_id : Text
env_request_id = bytes "MICROHOOK_REQUEST_ID"

-- `PATH` of the service, if it is set to more than white space.
abbrev pub path_or_default : Option Text → Text
path_or_default none = default_path
path_or_default (some path) = if is_blank path then default_path else path

-- The map `env` when all its writes are done.
unfoldable pub env_map : Option Text → Map Text → Text → Text → Text → Map Text
unfolding insert copy
env_map path configured run_id action_name request_id = insert env_request_id request_id (
    insert env_action action_name (
      insert env_run_id run_id (copy (insert (bytes "PATH") (path_or_default path) []) configured)))

abbrev render : Map Text → List Text → List Text
render env [] = []
render env (key ∷ rest) = (key ++ b'=' ∷ value_or [] (lookup key env)) ∷ render env rest

unfoldable pub build_env : Option Text → Map Text → Text → Text → Text → List Text
unfolding env_map sort_strings keys
build_env path configured run_id action_name request_id =
    let env = env_map path configured run_id action_name request_id in
    render env (sort_strings (keys env))
