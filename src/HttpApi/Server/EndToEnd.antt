-- ===== src/HttpApi/Server/EndToEnd.antt =====
-- internal/httpapi/server.go and internal/execution: an action that is invoked over HTTP, and its run
-- that is read afterwards.
use microhook.Prelude.{
  ℕ, ◌≡◌, refl, ap, ◌∙◌, Text, true, false, none, some, is_blank, is_empty, trim_space, ok, err,
  Result, eq_refl, Bool-cases, inl, inr, ◌==◌, List,
}
use microhook.Config.{Action}
use microhook.Config.Load.{Config}
use microhook.Config.Load.Loaded.{IsReady}
use microhook.Config.Registry
use microhook.Auth.{Identity, TokenCredential, allows_action, authorize_action, authenticate_header}
use microhook.Storage.{unix, Run}
use microhook.Storage.Tables.{RunRecord, Db, find_run, find_snapshot}
use microhook.Storage.Rows.{Json}
use microhook.Storage.Repository
use microhook.Storage.Repository.Create.{
  Decodes, quiet, get_run_found, decoded_run, snapshot_of-snapshot_row,
}
use microhook.Execution.{ExecError, Process, invoke_mode_sync}
use microhook.Execution.Runner.{Messages, judge, action_snapshot_from_config}
use microhook.Execution.Service.{
  Service, Fresh, InvokeParams, check_invoke, has_action, invoke, is_running,
}
use microhook.Execution.Service.Ending.{on}
use microhook.Execution.Service.Invocation.{check_invoke-split, check_invoke-IsInvocable}
use microhook.Execution.Service.Synchronous.{
  final, final_run, run_of_row-final, fresh_of, invoke-stored,
}
use microhook.HttpApi.{
  Response, RunResponse, respond, run_body, new_run_response, status_ok, Codec, payload,
  extract_request_id, set_request_id, answer_invocation, identify, invoke_action, invoke_payload,
  get_run, get_run_response, authenticate, Handler,
}
use microhook.HttpApi.Server.{Request, Route, to_invoke_action, to_get_run, dispatch, route_request}

set_request_id_same :
    (id : Text) (answer : Response)
    → ((set_request_id id answer).status ≡ answer.status)
      × ((set_request_id id answer).body ≡ answer.body)
unfolding set_request_id
set_request_id_same id answer = elim (Bool-cases (is_empty (trim_space id))) [
  | inl e ↦ rw e (refl, refl)
  | inr e ↦ rw e (refl, refl)
]

-- The parameters that the handler makes of a request.
abbrev pub params_of : Codec → Text → Text → Text → Text → InvokeParams
params_of codec name header mode input =
    let request_id = extract_request_id codec header input in
    record {
      action_name = trim_space name;
      mode = trim_space mode;
      input = input;
      request_metadata = codec.marshal_metadata (trim_space mode) request_id;
      request_id = request_id;
    }

abbrev pub asks : Route → Text → Text → Request
asks route authorization header = record {
  route = route;
  authorization = authorization;
  header_request_id = header;
}

module _ (json : Json) where
  answered :
      (id : Text) (out : Result ExecError Run × Service) (run : Run)
      → out.0 ≡ ok run
      → let got = identify json id (answer_invocation json invoke_mode_sync out) in
        (got.0.status ≡ status_ok)
        × (got.0.body ≡ run_body (new_run_response run))
        × (got.1 ≡ out.1)
  unfolding new_run_response ◌==◌
  answered id (err e, s) run h = cc
  answered id (ok r, s) run h =
      let same : r ≡ run = cc in
      let (status, body) =
        set_request_id_same id (respond status_ok (run_body (new_run_response r))) in
      (status, body ∙ ap (λ q. run_body (new_run_response q)) same, refl)

  module _ (digest : Text → Text) (credentials : List TokenCredential) (c : Config)
      (messages : Messages) (codec : Codec) (process : Process) where
    abbrev pub serve : Fresh → Request → Service → Response × Service
    serve fresh =
        route_request json digest credentials c.action_registry messages codec fresh process

    abbrev handlers : Fresh → Route → Text → Identity → Handler
    handlers fresh = dispatch json digest credentials c.action_registry messages codec fresh process

    module _ (fresh : Fresh) (authorization header : Text) (identity : Identity)
        (known : authenticate_header digest credentials authorization ≡ ok identity) where
      authenticated :
          (next : Identity → Handler) (s : Service)
          → authenticate digest credentials authorization next s ≡ next identity s
      unfolding authenticate
      authenticated next s = rw (authenticate, known) refl

      served_run :
          (id : Text) (run : Run) (s : Service) (db : Db)
          → s.store ≡ quiet db
          → Repository.get_run json id (quiet db) ≡ (ok run, quiet db)
          → allows_action identity run.action_name ≡ true
          → (serve fresh (asks (to_get_run id) authorization header) s).0
            ≡ respond status_ok (run_body (new_run_response run))
      unfolding route_request dispatch get_run get_run_response
      served_run id run s db h found allowed =
          ap (λ r. r.0) (authenticated (handlers fresh (to_get_run id) header) s)
          ∙ rw (h, found, allowed) refl

      served_invocation :
          (name mode input : Text) (s : Service)
          → has_action c.action_registry (trim_space name) ≡ true
          → authorize_action identity (trim_space name) ≡ true
          → trim_space mode ≡ invoke_mode_sync
          → serve fresh (asks (to_invoke_action name (payload mode input)) authorization header) s
            ≡ identify json (extract_request_id codec header input) (
                answer_invocation json invoke_mode_sync (
                  invoke json c.action_registry messages fresh process
                    (params_of codec name header mode input)
                    s))
      unfolding route_request dispatch invoke_action invoke_payload ◌==◌
      served_invocation name mode input s has may sync =
          authenticated (handlers fresh (to_invoke_action name (payload mode input)) header) s
          ∙ rw (has, may, sync) refl

    module _ (id : Text) (now finished : ℕ) (a : Action) (authorization header : Text)
        (identity : Identity) (name mode input : Text) where
      abbrev pub sent : InvokeParams
      sent = params_of codec name header mode input

      -- The run when its process has ended, as it is shown.
      abbrev pub ended_response : RunResponse
      ended_response =
          let v = judge messages a process in
          record {
            id = id;
            action = a.name;
            status = v.status;
            exit_code = v.result.exit_code;
            created_at = unix now;
            started_at = some (unix now);
            finished_at = some (unix finished);
            timed_out = v.result.timed_out;
            request_metadata =
                codec.marshal_metadata (trim_space mode) (extract_request_id codec header input);
            stdout_tail = v.result.stdout_tail;
            stderr_tail = v.result.stderr_tail;
            error_summary = v.result.error_summary;
          }

      abbrev ended_run : Run
      ended_run = final_run json id now a sent messages process finished

      has_action-get :
          Registry.get c.action_registry (trim_space (trim_space name)) ≡ some a
          → has_action c.action_registry (trim_space name) ≡ true
      unfolding has_action
      has_action-get h = rw (has_action, h) refl

      authorize_action-allows :
          trim_space (trim_space name) ≡ a.name
          → allows_action identity a.name ≡ true
          → authorize_action identity (trim_space name) ≡ true
      unfolding authorize_action
      authorize_action-allows e h = ap (allows_action identity) e ∙ h

      -- With a configuration that was loaded, a driver that does not fail, a JSON package that decodes
      -- the snapshot as it encoded it, an identifier that is new and not blank, and times of the
      -- start and the end that are not the zero time: a request of a token that may use the action
      -- and whose invocation passes the checks, synchronously, of an action whose name is free, and
      -- whose process ends and, if it was to be killed, could be, is answered with 200 and the run of
      -- the identifier, with the action, the metadata, the times, and the status, the exit code, the
      -- flag, the tails and the summary of the verdict on the process. A later request of the same
      -- token for the run of this identifier is answered with 200 and the same run.
      pub invoked-shown :
          (db : Db) (s : Service) (again : Fresh) (header' : Text)
          → authenticate_header digest credentials authorization ≡ ok identity
          → allows_action identity a.name ≡ true
          → IsReady c
          → trim_space mode ≡ invoke_mode_sync
          → is_blank id ≡ false
          → check_invoke json c.action_registry sent ≡ ok (a, invoke_mode_sync)
          → Decodes json (action_snapshot_from_config a)
          → find_run id db.runs ≡ none
          → find_snapshot id db.snapshots ≡ none
          → process.finished_now ≡ unix finished
          → (judge messages a process).terminate_failed ≡ false
          → is_running a.name s.reject_running ≡ false
          → let posted =
              serve
                (fresh_of json id now a sent)
                (asks (to_invoke_action name (payload mode input)) authorization header)
                (on db s) in
            (posted.0.status ≡ status_ok)
            × (posted.0.body ≡ run_body ended_response)
            × ((serve again (asks (to_get_run id) authorization header') posted.1).0
                ≡ respond status_ok (run_body ended_response))
      unfolding new_run_response
      invoked-shown db s again header' known allowed ready sync named checked decodes new
            new_snapshot end killed free =
          let invocable = check_invoke-IsInvocable json c sent ready checked in
          let (got, enabled, moded) = check_invoke-split json c.action_registry sent checked in
          let fresh : Fresh = fresh_of json id now a sent in
          let last : RunRecord = final json id now a sent messages process finished in
          let out : Result ExecError Run × Service =
            invoke json c.action_registry messages fresh process sent (on db s) in
          let (db', result, store, records, same) =
            invoke-stored json id now a sent db invocable.ready named c.action_registry checked
              decodes new new_snapshot messages process finished end s free in
          let (status, body, after) =
            answered (extract_request_id codec header input) out ended_run (result ∙ rw killed) in
          let posted =
            served_invocation fresh authorization header identity known name mode input (on db s)
              (has_action-get got) (authorize_action-allows invocable.named allowed) sync in
          let readable = snapshot_of-snapshot_row json id (action_snapshot_from_config a) decodes in
          let found = get_run_found json id db' named (records id ∙ rw (eq_refl id)) (
            decoded_run json last.run last.snapshot readable
              (run_of_row-final json id now a sent messages process finished)) in
          (
            ap (λ r. r.0.status) posted ∙ status,
            ap (λ r. r.0.body) posted ∙ body,
            served_run again authorization header' identity known id ended_run _ db'
                (ap (λ r. r.1.store) posted ∙ ap (λ t. t.store) after ∙ store) found allowed,
          )
