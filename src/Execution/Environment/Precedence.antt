-- ===== src/Execution/Environment/Precedence.antt =====
-- Which value a variable has that several sources set.
use microhook.Prelude.{
  ◌≡◌, Text, bytes, [], Map, Option, none, some, lookup, insert, copy, ◌==◌, lookup-insert,
  lookup-copy,
}
use microhook.Execution.Environment.{
  env_run_id, env_action, env_request_id, env_map, path_or_default,
}

module _ (path : Option Text) (configured : Map Text) (run_id action_name request_id : Text) where
  abbrev env : Map Text
  env = env_map path configured run_id action_name request_id

  -- The three variables of microhook have its values, whatever the configuration of the action
  -- says of them.
  pub env_map-microhook :
      (lookup env_run_id env ≡ some run_id)
      × (lookup env_action env ≡ some action_name)
      × (lookup env_request_id env ≡ some request_id)
  unfolding env_map ◌==◌
  env_map-microhook =
      let base = copy (insert (bytes "PATH") (path_or_default path) []) configured in
      let one = insert env_run_id run_id base in
      let two = insert env_action action_name one in
      (
        rw (
          lookup-insert env_request_id env_run_id request_id two,
          lookup-insert env_action env_run_id action_name one,
          lookup-insert env_run_id env_run_id run_id base,
        ),
        rw (
          lookup-insert env_request_id env_action request_id two,
          lookup-insert env_action env_action action_name one,
        ),
        rw (lookup-insert env_request_id env_request_id request_id two),
      )

  -- `PATH` is that of the service, or the default, where the action does not set it.
  pub env_map-path :
      lookup (bytes "PATH") configured ≡ none
      → lookup (bytes "PATH") env ≡ some (path_or_default path)
  unfolding env_map ◌==◌
  env_map-path h =
      let base = copy (insert (bytes "PATH") (path_or_default path) []) configured in
      let one = insert env_run_id run_id base in
      let two = insert env_action action_name one in
      rw (
        lookup-insert env_request_id (bytes "PATH") request_id two,
        lookup-insert env_action (bytes "PATH") action_name one,
        lookup-insert env_run_id (bytes "PATH") run_id base,
        lookup-copy (bytes "PATH") (insert (bytes "PATH") (path_or_default path) []) configured h,
        lookup-insert (bytes "PATH") (bytes "PATH") (path_or_default path) [],
      )
