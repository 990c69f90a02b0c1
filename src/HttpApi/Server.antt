-- ===== src/HttpApi/Server.antt =====
-- internal/httpapi/server.go: the handlers behind the router, and what is observed of a request. What
-- chi makes of the method and the path is given.
pub mod Effects
pub mod RequestIds
pub mod EndToEnd
use microhook.Prelude.{
  ℕ, leb, Text, bytes, Bool, true, false, List, is_empty, trim_space, if◌then◌else◌,
}
use microhook.Config.Registry.{ActionRegistry}
use microhook.Auth.{Identity, TokenCredential}
use microhook.Storage.Rows.{Json}
use microhook.Execution.{Process}
use microhook.Execution.Runner.{Messages}
use microhook.Execution.Service.{Service, Fresh}
use microhook.HttpApi.{
  status_ok, status_bad_request, status_internal_server_error, no_body, text_body, Response,
  respond, Payload, Codec, Handler, authenticate, get_run, list_runs, invoke_action,
}

-- The routes, with what the handlers read of the path, the query and the body. `to_healthz` is told
-- whether the method is GET; `unmatched`, whether the path is below /v1, and the router's answer.
pub data Route : Type 0 where
  to_healthz : (is_get : Bool) → Route
  to_list_runs : (action : Text) → (status : Text) → Route
  to_get_run : (id : Text) → Route
  to_invoke_action : (name : Text) → Payload → Route
  unmatched : (below_v1 : Bool) → (answer : Response) → Route

-- The route, and the headers Authorization and X-Request-Id.
pub record Request : Type 0 where
  pub route : Route
  pub authorization : Text
  pub header_request_id : Text

abbrev pub status_method_not_allowed : ℕ
status_method_not_allowed = 405

unfoldable pub healthz : Bool → Response
healthz true = respond status_ok (text_body (bytes "ok\n"))
healthz false = respond status_method_not_allowed no_body

pub data Level : Type 0 where
  level_error level_warn level_info : Level

unfoldable pub level_for_http_status : ℕ → Level
level_for_http_status status =
    if leb status_internal_server_error status
    then level_error
    else if leb status_bad_request status
    then level_warn
    else level_info

-- What a request leaves behind: the answer, its header X-Request-Id, and the level and the identifier
-- of the line in the log. An empty identifier is none.
pub record Observed : Type 0 where
  pub answer : Response
  pub request_id : Text
  pub level : Level
  pub logged_request_id : Text

-- `observeRequests`: the header and what the log is told are set before the handler, which may set
-- each again.
unfoldable pub observe : Text → Response → Observed
unfolding trim_space level_for_http_status
observe header answer =
    let header_request_id = trim_space header in
    record {
      answer = answer;
      request_id = if is_empty answer.request_id then header_request_id else answer.request_id;
      level = level_for_http_status answer.status;
      logged_request_id =
          if is_empty answer.logged_request_id then header_request_id else answer.logged_request_id;
    }

module _ (json : Json) (digest : Text → Text) (credentials : List TokenCredential)
    (registry : ActionRegistry) (messages : Messages) (codec : Codec) (fresh : Fresh)
    (process : Process) where
  -- The handlers below /v1, of which /healthz is none: its case here is not asked for.
  unfoldable pub dispatch : Route → (header_request_id : Text) → Identity → Handler
  unfolding list_runs get_run invoke_action healthz
  dispatch (to_list_runs action status) header identity s = list_runs json action status identity s
  dispatch (to_get_run id) header identity s = get_run json id identity s
  dispatch (to_invoke_action name body) header identity s =
      invoke_action json registry messages codec fresh process
        (record { name = name; header_request_id = header; body = body }) identity s
  dispatch (to_healthz is_get) header identity s = (healthz is_get, s)
  dispatch (unmatched below_v1 answer) header identity s = (answer, s)

  -- The router of `New`, without `observeRequests`: all below /v1 is behind `authenticate`.
  unfoldable pub route_request : Request → Handler
  unfolding dispatch authenticate healthz
  route_request request s = elim request.route [
    | to_healthz is_get ↦ (healthz is_get, s)
    | unmatched false answer ↦ (answer, s)
    | route ↦
        authenticate digest credentials request.authorization
          (dispatch route request.header_request_id) s
  ]
