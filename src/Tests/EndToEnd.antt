-- ===== src/Tests/EndToEnd.antt =====
-- An action that is invoked over HTTP, and its run that is read.
use microhook.Prelude.{◌≡◌, refl, bytes, [], ◌∷◌, none, trim_space, lookup, ◌==◌}
use microhook.Config.Registry.{get}
use microhook.Auth.{new_identity, allows_action}
use microhook.Auth.Header.{header_of}
use microhook.Auth.Credentials.{authenticate_configured}
use microhook.Storage.Tables.{find_run, find_snapshot}
use microhook.Execution.Service.{check_invoke, normalize_invoke_mode, is_running}
use microhook.Execution.Runner.{judge}
use microhook.Execution.Service.Ending.{on}
use microhook.Execution.Service.Synchronous.{fresh_of}
use microhook.HttpApi.{Codec, payload, respond, run_body, status_ok}
use microhook.HttpApi.Server.{to_invoke_action, to_get_run}
use microhook.HttpApi.Server.EndToEnd.{params_of, asks, serve, ended_response, invoked-shown}
use microhook.Tests.Parameters.{
  json, digest, messages, process, no_runs, idle, deploy, token_value, fresh,
}
use microhook.Tests.App.{kept_config, kept_config-IsReady}
use microhook.Tests.Auth.{ci, admin, credentials, made, apart}
use microhook.Tests.Recovery.{decodes}

abbrev codec : Codec
codec = record { input_request_id = λ t. none; marshal_metadata = λ mode id. [] }

invoked-shown_example :
    let body = run_body (
      ended_response json digest credentials kept_config messages codec process
        (bytes "r1")
        5
        9
        deploy
        (header_of token_value)
        (bytes "q1")
        (new_identity ci)
        (bytes "deploy")
        (bytes "sync")
        []) in
    let handle = serve json digest credentials kept_config messages codec process in
    let posted =
      handle
        (fresh_of json
          (bytes "r1")
          5
          deploy
          (params_of codec (bytes "deploy") (bytes "q1") (bytes "sync") []))
        (asks
          (to_invoke_action (bytes "deploy") (payload (bytes "sync") []))
          (header_of token_value)
          (bytes "q1"))
        (on no_runs idle) in
    (posted.0.status ≡ status_ok)
    × (posted.0.body ≡ body)
    × ((handle fresh (asks (to_get_run (bytes "r1")) (header_of token_value) []) posted.1).0
        ≡ respond status_ok body)
unfolding find_run find_snapshot trim_space allows_action is_running lookup new_identity ◌==◌
    check_invoke get normalize_invoke_mode judge
invoked-shown_example =
    invoked-shown json digest credentials kept_config messages codec process (bytes "r1") 5 9 deploy
      (header_of token_value) (bytes "q1") (new_identity ci) (bytes "deploy") (bytes "sync") []
      no_runs idle fresh [] (authenticate_configured digest (admin ∷ []) ci [] made apart) refl
      kept_config-IsReady refl refl refl decodes refl refl refl refl refl
