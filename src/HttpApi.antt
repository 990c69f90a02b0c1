-- ===== src/HttpApi.antt =====
-- internal/httpapi/server.go: the handlers. A handler is given the request as chi and `net/http` take
-- it apart, and answers with a status, a body and the header X-Request-Id; the decoding of JSON is
-- a parameter. The other headers of a response are left out.
pub mod Answers
pub mod Access
pub mod Logging
pub mod Decoding
pub mod Server
use microhook.Prelude.{
  ℕ, Text, not, ◌&&◌, List, [], map, keep, Option, none, some, is_empty, trim_space, ◌==◌,
  if◌then◌else◌, Result, ok, err,
}
use microhook.Config.Registry.{ActionRegistry}
use microhook.Auth.{Identity, TokenCredential, allows_action, authorize_action, authenticate_header}
use microhook.Storage.{StorageError, run_not_found, invalid_run_state, Run}
use microhook.Storage.Rows.{Json}
use microhook.Storage.Repository
use microhook.Execution.{
  ExecError, action_not_found, action_disabled, action_conflict, invalid_mode, store_failed,
  Process, invoke_mode_sync, invoke_mode_async,
}
use microhook.Execution.Runner.{Messages}
use microhook.Execution.Service.{Service, Fresh, invoke, has_action}
unfoldable pub use Answers.{new_run_response}
pub use Answers.{
  status_ok, status_accepted, status_bad_request, status_unauthorized, status_forbidden,
  status_not_found, status_conflict, status_request_entity_too_large, status_internal_server_error,
  RunResponse, Body, Response, respond, json_error, unauthorized, no_body, text_body, run_body,
  runs_body, error_body,
}

-- What `decodeInvokeActionRequest` finds: no more than the limit, one JSON object, its two fields.
pub data Payload : Type 0 where
  too_large malformed : Payload
  payload : (mode : Text) → (input : Text) → Payload

-- What the handlers use of `encoding/json`: the text under "request_id" in an object, and the
-- metadata of a mode and an identifier.
pub record Codec : Type 0 where
  pub input_request_id : Text → Option Text
  pub marshal_metadata : Text → Text → Text

-- The name in the path, the header X-Request-Id, and the body.
pub record InvokeRequest : Type 0 where
  pub name : Text
  pub header_request_id : Text
  pub body : Payload

unfoldable pub extract_request_id : Codec → Text → Text → Text
unfolding trim_space
extract_request_id codec header input =
    let request_id = trim_space header in
    if not (is_empty request_id)
    then request_id
    else if is_empty input
    then []
    else elim (codec.input_request_id input) [ none ↦ [] | some value ↦ trim_space value ]

-- `writeInvocationError`
unfoldable pub invocation_error : ExecError → ℕ
invocation_error action_not_found = status_not_found
invocation_error action_disabled = status_not_found
invocation_error action_conflict = status_conflict
invocation_error invalid_mode = status_bad_request
invocation_error (store_failed invalid_run_state) = status_bad_request
invocation_error _ = status_internal_server_error

abbrev get_run_error : StorageError → ℕ
get_run_error run_not_found = status_not_found
get_run_error _ = status_internal_server_error

abbrev list_runs_error : StorageError → ℕ
list_runs_error invalid_run_state = status_bad_request
list_runs_error _ = status_internal_server_error

-- `setRequestID`, which stands before what is answered afterwards.
unfoldable pub set_request_id : Text → Response → Response
unfolding trim_space
set_request_id given answer =
    let request_id = trim_space given in
    if is_empty request_id
    then answer
    else record answer { request_id = request_id; logged_request_id = request_id }

abbrev pub Handler : Type 0
Handler = Service → Response × Service

-- `authenticate`: the handler behind it is called for an identity only.
unfoldable pub authenticate :
    (Text → Text) → List TokenCredential → Text → (Identity → Handler) → Handler
unfolding authenticate_header
authenticate digest credentials header next s =
    elim (authenticate_header digest credentials header) [
      | err e ↦ (unauthorized, s)
      | ok identity ↦ next identity s
    ]

unfoldable pub get_run_response : Identity → Result StorageError Run → Response
unfolding new_run_response
get_run_response identity (err e) = json_error (get_run_error e)
get_run_response identity (ok run) =
    if not (allows_action identity run.action_name)
    then json_error status_forbidden
    else respond status_ok (run_body (new_run_response run))

unfoldable pub list_runs_response : Identity → Result StorageError (List Run) → Response
unfolding new_run_response
list_runs_response identity (err e) = json_error (list_runs_error e)
list_runs_response identity (ok runs) =
    let filtered = keep (λ run. allows_action identity run.action_name) runs in
    respond status_ok
      (runs_body (map new_run_response (if identity.global then runs else filtered)))

module _ (json : Json) where
  abbrev pub answer_invocation : Text → Result ExecError Run × Service → Response × Service
  answer_invocation mode (err e, s) = (json_error (invocation_error e), s)
  answer_invocation mode (ok run, s) = (
    respond (if mode == invoke_mode_async then status_accepted else status_ok)
        (run_body (new_run_response run)),
    s,
  )

  abbrev identify : Text → Response × Service → Response × Service
  identify request_id (answer, s) = (set_request_id request_id answer, s)

  -- `invokeAction` from the decoded body on.
  unfoldable pub invoke_payload :
      ActionRegistry → Messages → Codec → Fresh → Process → InvokeRequest → Payload → Handler
  unfolding invoke extract_request_id new_run_response set_request_id
  invoke_payload registry messages codec fresh process request too_large s =
      (json_error status_request_entity_too_large, s)
  invoke_payload registry messages codec fresh process request malformed s =
      (json_error status_bad_request, s)
  invoke_payload registry messages codec fresh process request (payload given input) s =
      let mode = trim_space given in
      let request_id = extract_request_id codec request.header_request_id input in
      if not (mode == invoke_mode_sync) && not (mode == invoke_mode_async)
      then (json_error status_bad_request, s)
      else identify request_id (
          answer_invocation mode (
            invoke json registry messages fresh process
              (record {
                action_name = trim_space request.name;
                mode = mode;
                input = input;
                request_metadata = codec.marshal_metadata mode request_id;
                request_id = request_id;
              })
              s))

  unfoldable pub invoke_action :
      ActionRegistry → Messages → Codec → Fresh → Process → InvokeRequest → Identity → Handler
  invoke_action registry messages codec fresh process request identity s =
      let name = trim_space request.name in
      if not (has_action registry name)
      then (json_error status_not_found, s)
      else if not (authorize_action identity name)
      then (json_error status_forbidden, s)
      else invoke_payload registry messages codec fresh process request request.body s

  unfoldable pub get_run : Text → Identity → Handler
  unfolding get_run_response
  get_run id identity s =
      let (r, store') = Repository.get_run json id s.store in
      (get_run_response identity r, record s { store = store' })

  -- The two parameters of the query.
  unfoldable pub list_runs : (action : Text) → (status : Text) → Identity → Handler
  unfolding list_runs_response
  list_runs action status identity s =
      let name = trim_space action in
      if not (is_empty name) && not (allows_action identity name)
      then (json_error status_forbidden, s)
      else (let (r, store') =
            Repository.list_runs json (record { action_name = name; status = status }) s.store in
          (list_runs_response identity r, record s { store = store' }))
