-- ===== src/HttpApi/Answers.antt =====
-- internal/httpapi/server.go: the statuses and the bodies of answers.
use microhook.Prelude.{ℕ, Text, Bool, List, [], Option, ℤ}
use microhook.Storage.{Time, Run}

abbrev pub status_ok : ℕ
status_ok = 200

abbrev pub status_accepted : ℕ
status_accepted = 202

abbrev pub status_bad_request : ℕ
status_bad_request = 400

abbrev pub status_unauthorized : ℕ
status_unauthorized = 401

abbrev pub status_forbidden : ℕ
status_forbidden = 403

abbrev pub status_not_found : ℕ
status_not_found = 404

abbrev pub status_conflict : ℕ
status_conflict = 409

abbrev pub status_request_entity_too_large : ℕ
status_request_entity_too_large = 413

abbrev pub status_internal_server_error : ℕ
status_internal_server_error = 500

-- A run without the snapshot of its action.
pub record RunResponse : Type 0 where
  pub id : Text
  pub action : Text
  pub status : Text
  pub exit_code : Option ℤ
  pub created_at : Time
  pub started_at : Option Time
  pub finished_at : Option Time
  pub timed_out : Bool
  pub request_metadata : Text
  pub stdout_tail : Text
  pub stderr_tail : Text
  pub error_summary : Text

unfoldable pub new_run_response : Run → RunResponse
new_run_response run = record {
  id = run.id;
  action = run.action_name;
  status = run.status;
  exit_code = run.exit_code;
  created_at = run.created_at;
  started_at = run.started_at;
  finished_at = run.finished_at;
  timed_out = run.timed_out;
  request_metadata = run.request_metadata;
  stdout_tail = run.stdout_tail;
  stderr_tail = run.stderr_tail;
  error_summary = run.error_summary;
}

-- An error's body holds a message only, of which the text is left out.
pub data Body : Type 0 where
  no_body : Body
  text_body : Text → Body
  run_body : RunResponse → Body
  runs_body : List RunResponse → Body
  error_body : Body

-- The identifiers are those that the handler sets in the header X-Request-Id and for the line of the
-- log, empty if it sets none.
pub record Response : Type 0 where
  pub status : ℕ
  pub body : Body
  pub request_id : Text
  pub logged_request_id : Text

abbrev pub respond : ℕ → Body → Response
respond status body = record {
  status = status;
  body = body;
  request_id = [];
  logged_request_id = [];
}

abbrev pub json_error : ℕ → Response
json_error status = respond status error_body

abbrev pub unauthorized : Response
unauthorized = json_error status_unauthorized
