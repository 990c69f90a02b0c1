-- ===== src/Tests/Parameters.antt =====
-- Concrete functions for the parameters, and the data of the tests.
use microhook.Prelude.{
  ℕ, Text, bytes, ℤ, pos, true, false, List, [], ◌∷◌, ◌++◌, Map, Option, none, some, ◌==◌, eqb,
  if◌then◌else◌,
}
use microhook.Config.{Action}
use microhook.Config.Normalize.{FileAction, FileConfig}
use microhook.Storage.{unix, ActionSnapshot, CreateRunParams, UpdateRunParams}
use microhook.Storage.Rows.{Json}
use microhook.Storage.Tables.{Db}
use microhook.Execution.{Process, exited}
use microhook.Execution.Runner.{Messages}
use microhook.Execution.Service.{Fresh, InvokeParams, Service}

-- Strings, each followed by a mark that is no byte.
abbrev pub marshal_strings : List Text → Text
marshal_strings [] = []
marshal_strings (s ∷ ss) = s ++ 256 ∷ marshal_strings ss

abbrev pub cons_byte : ℕ → List Text → List Text
cons_byte b [] = (b ∷ []) ∷ []
cons_byte b (s ∷ ss) = (b ∷ s) ∷ ss

abbrev pub unmarshal_strings : Text → List Text
unmarshal_strings [] = []
unmarshal_strings (b ∷ s) =
    let rest = unmarshal_strings s in if eqb b 256 then [] ∷ rest else cons_byte b rest

abbrev pub entries : Map Text → List Text
entries [] = []
entries ((k, v) ∷ m) = k ∷ v ∷ entries m

abbrev pub from_entries : List Text → Map Text
from_entries (k ∷ v ∷ rest) = (k, v) ∷ from_entries rest
from_entries _ = []

abbrev pub json : Json
json = record {
  valid = λ t. true;
  marshal_strings = marshal_strings;
  unmarshal_strings = λ t. some (unmarshal_strings t);
  marshal_map = λ m. marshal_strings (entries m);
  unmarshal_map = λ t. some (from_entries (unmarshal_strings t));
}

-- A digest without collisions.
abbrev pub digest : Text → Text
digest t = t

abbrev pub parse_duration : Text → Option ℤ
parse_duration t = if t == bytes "30s" then some (pos 30000000000) else none

abbrev pub token_value : Text
token_value = bytes "mhv1_AAECAwQFBgcICQoLDA0ODxAREhMUFRYXGBkaGxwdHh8"

abbrev pub deploy_file : FileAction
deploy_file = record {
  name = bytes " deploy ";
  description = [];
  command = bytes "make" ∷ bytes "deploy" ∷ [];
  shell_command = [];
  cwd = [];
  timeout = bytes "30s";
  env = [];
  concurrency_policy = bytes "reject";
  max_output_bytes = some (pos 4);
  enabled = none;
}

abbrev pub file_config : FileConfig
file_config = record {
  server = record { listen = []; log_format = [] };
  tokens = record { name = bytes "ci"; value = token_value; actions = bytes "deploy" ∷ [] } ∷ [];
  storage = record { path = bytes "runs.db"; retention_days = pos 7; max_runs = pos 100 };
  actions = deploy_file ∷ [];
}

abbrev pub deploy : Action
deploy = record {
  name = bytes "deploy";
  description = [];
  mode = bytes "command";
  command = bytes "make" ∷ bytes "deploy" ∷ [];
  shell_command = [];
  cwd = [];
  timeout = pos 30000000000;
  env = (bytes "CI", bytes "1") ∷ [];
  concurrency_policy = bytes "reject";
  max_output_bytes = pos 4;
  enabled = true;
}

abbrev pub snapshot : ActionSnapshot
snapshot = record {
  description = [];
  mode = bytes "command";
  command = bytes "make" ∷ bytes "deploy" ∷ [];
  shell_command = [];
  cwd = [];
  timeout = pos 30000000000;
  env = (bytes "CI", bytes "1") ∷ [];
  concurrency_policy = bytes "reject";
  max_output_bytes = pos 4;
  enabled = true;
}

abbrev pub create_params : CreateRunParams
create_params = record {
  id = bytes "r1";
  action_name = bytes "deploy";
  status = bytes "running";
  created_at = unix 5;
  started_at = some (unix 5);
  request_metadata = [];
  stdout_tail = [];
  stderr_tail = [];
  error_summary = [];
  action_snapshot = snapshot;
}

abbrev pub update_params : UpdateRunParams
update_params = record {
  id = bytes "r1";
  status = bytes "succeeded";
  exit_code = some (pos 0);
  started_at = some (unix 5);
  finished_at = some (unix 9);
  timed_out = false;
  stdout_tail = bytes "done";
  stderr_tail = [];
  error_summary = [];
}

abbrev pub no_runs : Db
no_runs = record { runs = []; snapshots = []; metadata = [] }

abbrev pub messages : Messages
messages = record {
  exited_with = λ code. bytes "exit status";
  timed_out_after = λ timeout. bytes "timed out";
  cancelled_by = λ why. bytes "cancelled";
  start_failed = λ why. bytes "not started";
  terminate_failed = λ why. bytes "not terminated";
  no_command = λ action command. bytes "no command";
}

-- A process that prints "built", in two writes, and exits with 0.
abbrev pub process : Process
process = record {
  start_error = none;
  stdout_writes = bytes "bui" ∷ bytes "lt" ∷ [];
  stderr_writes = [];
  ended = exited none (some (pos 0));
  finished_now = unix 9;
}

abbrev pub fresh : Fresh
fresh = record { run_id = some (bytes "r1"); now = unix 5 }

abbrev pub params : InvokeParams
params = record {
  action_name = bytes " deploy";
  mode = bytes "async";
  input = [];
  request_metadata = [];
  request_id = bytes "q1";
}

abbrev pub idle : Service
idle = record { store = record { db = no_runs; faults = [] }; reject_running = []; pending = [] }
