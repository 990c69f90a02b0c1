-- ===== src/Storage/Rows.antt =====
-- internal/storage/repository.go, the part that does not touch the database: the checks of the
-- parameters, and the conversions between rows and runs. The JSON package is a parameter.
use microhook.Prelude.{
  ℕ, Text, is_neg, Bool, true, false, not, ◌&&◌, ◌||◌, List, [], ◌∷◌, Map, Option, none, some, eqb,
  is_blank, is_empty, trim_space, ◌==◌, if◌then◌else◌, Result, ok, err, ◌>>=◌,
}
use microhook.Storage.{
  Time, zero_time, unix, StorageError, invalid_run_state, zero_timestamp, invalid_json,
  decode_failed, ActionSnapshot, Run, CreateRunParams, UpdateRunParams, run_status_running,
  run_status_succeeded, run_status_failed, run_status_timed_out, run_status_cancelled,
}
use microhook.Storage.Tables.{RunRow, SnapshotRow, RunRecord, UpdateRow}

-- What the store uses of `encoding/json`.
pub record Json : Type 0 where
  pub valid : Text → Bool
  pub marshal_strings : List Text → Text
  pub unmarshal_strings : Text → Option (List Text)
  pub marshal_map : Map Text → Text
  pub unmarshal_map : Text → Option (Map Text)

abbrev pub Checked : Type 0 → Type 0
Checked A = Result StorageError A

abbrev pub require : Bool → StorageError → Checked (Unit {0})
require true e = ok tt
require false e = err e

unfoldable pub is_run_status : Text → Bool
unfolding ◌==◌
is_run_status status =
    status == run_status_running
    || status == run_status_succeeded
    || status == run_status_failed
    || status == run_status_timed_out
    || status == run_status_cancelled

unfoldable pub validate_run_status : Text → Checked (Unit {0})
unfolding is_run_status trim_space
validate_run_status status = require (is_run_status (trim_space status)) invalid_run_state

unfoldable pub validate_action_snapshot : ActionSnapshot → Checked (Unit {0})
validate_action_snapshot a =
    require
      (not (is_blank a.mode)
        && not (is_blank a.concurrency_policy)
        && not (is_neg a.max_output_bytes))
      invalid_run_state

unfoldable pub normalize_time : Time → Checked ℕ
normalize_time zero_time = err zero_timestamp
normalize_time (unix n) = ok n

abbrev map_some : Checked ℕ → Checked (Option ℕ)
map_some (ok n) = ok (some n)
map_some (err e) = err e

unfoldable pub nullable_unix_nano : Option Time → Checked (Option ℕ)
unfolding normalize_time
nullable_unix_nano none = ok none
nullable_unix_nano (some t) = map_some (normalize_time t)

unfoldable pub bool_to_int64 : Bool → ℕ
bool_to_int64 true = 1
bool_to_int64 false = 0

-- `m >> n` of the do blocks.
infixl 5 ◌>>◌
abbrev pub ◌>>◌ : {A : Type 0} → Checked (Unit {0}) → Checked A → Checked A
m >> n = m >>= λ _. n

abbrev pub optional_time : Option ℕ → Option Time
optional_time none = none
optional_time (some n) = some (unix n)

-- `createdAt`, or the time now where it is zero.
abbrev pub or_now : Time → Time → Time
or_now now zero_time = now
or_now now (unix n) = unix n

abbrev decoded_snapshot : SnapshotRow → List Text → Map Text → ActionSnapshot
decoded_snapshot s command env = record {
  description = s.description;
  mode = s.mode;
  command = command;
  shell_command = s.shell_command;
  cwd = s.cwd;
  timeout = s.timeout_nanoseconds;
  env = env;
  concurrency_policy = s.concurrency_policy;
  max_output_bytes = s.max_output_bytes;
  enabled = not (eqb s.enabled 0);
}

abbrev pub run_of_row : RunRow → ActionSnapshot → Run
run_of_row r snapshot = record {
  id = r.id;
  action_name = r.action_name;
  status = r.status;
  exit_code = r.exit_code;
  created_at = unix r.created_at_unix_nano;
  started_at = optional_time r.started_at_unix_nano;
  finished_at = optional_time r.finished_at_unix_nano;
  timed_out = not (eqb r.timed_out 0);
  request_metadata = r.request_metadata_json;
  stdout_tail = r.stdout_tail;
  stderr_tail = r.stderr_tail;
  error_summary = r.error_summary;
  action_snapshot = snapshot;
}

-- The row that a run starts as.
abbrev pub created_row : CreateRunParams → ℕ → Option ℕ → Text → RunRow
created_row p created started metadata = record {
  id = p.id;
  action_name = p.action_name;
  status = p.status;
  exit_code = none;
  created_at_unix_nano = created;
  started_at_unix_nano = started;
  finished_at_unix_nano = none;
  timed_out = 0;
  request_metadata_json = metadata;
  stdout_tail = p.stdout_tail;
  stderr_tail = p.stderr_tail;
  error_summary = p.error_summary;
}

module _ (json : Json) where
  unfoldable pub normalize_raw_json : Text → Checked Text
  normalize_raw_json data' =
      if is_empty data'
      then ok []
      else if not (json.valid data')
      then err invalid_json
      else ok data'

  unfoldable pub snapshot_row : Text → ActionSnapshot → SnapshotRow
  unfolding bool_to_int64
  snapshot_row run_id a = record {
    run_id = run_id;
    description = a.description;
    mode = a.mode;
    command_json = json.marshal_strings a.command;
    shell_command = a.shell_command;
    cwd = a.cwd;
    timeout_nanoseconds = a.timeout;
    env_json = json.marshal_map a.env;
    concurrency_policy = a.concurrency_policy;
    max_output_bytes = a.max_output_bytes;
    enabled = bool_to_int64 a.enabled;
  }

  unfoldable pub snapshot_of : SnapshotRow → Checked ActionSnapshot
  snapshot_of s = elim (json.unmarshal_strings s.command_json) [
    | none ↦ err decode_failed
    | some command ↦ elim (json.unmarshal_map s.env_json) [
      | none ↦ err decode_failed
      | some env ↦ ok (decoded_snapshot s command env)
    ]
  ]

  unfoldable pub run_from_record : RunRecord → Checked Run
  unfolding snapshot_of
  run_from_record r = do snapshot ← snapshot_of r.snapshot; ok (run_of_row r.run snapshot)

  unfoldable pub runs_from_records : List RunRecord → Checked (List Run)
  unfolding run_from_record
  runs_from_records [] = ok []
  runs_from_records (r ∷ rs) = do
    run ← run_from_record r
    runs ← runs_from_records rs
    ok (run ∷ runs)

  -- The checks of `CreateRun`, in order, and the row that it inserts.
  unfoldable pub check_create : Time → CreateRunParams → Checked RunRow
  check_create now p = do
    require (not (is_blank p.id)) invalid_run_state
    require (not (is_blank p.action_name)) invalid_run_state
    validate_run_status p.status
    validate_action_snapshot p.action_snapshot
    created ← normalize_time (or_now now p.created_at)
    started ← nullable_unix_nano p.started_at
    metadata ← normalize_raw_json p.request_metadata
    ok (created_row p created started metadata)

-- The checks of `UpdateRun`, and the columns that it sets.
unfoldable pub check_update : UpdateRunParams → Checked UpdateRow
check_update p = do
  require (not (is_blank p.id)) invalid_run_state
  validate_run_status p.status
  started ← nullable_unix_nano p.started_at
  finished ← nullable_unix_nano p.finished_at
  ok (record {
    status = p.status;
    exit_code = p.exit_code;
    started_at_unix_nano = started;
    finished_at_unix_nano = finished;
    timed_out = bool_to_int64 p.timed_out;
    stdout_tail = p.stdout_tail;
    stderr_tail = p.stderr_tail;
    error_summary = p.error_summary;
  })
