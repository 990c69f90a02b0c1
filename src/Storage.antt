-- ===== src/Storage.antt =====
-- internal/storage/types.go: runs as the program sees them, and the errors of the store.
pub mod Tables
pub mod Session
pub mod Rows
pub mod Repository
pub mod Clones
pub mod Sqlite
use microhook.Prelude.{ℕ, Text, bytes, ℤ, Bool, List, Map, Option}

abbrev pub run_status_running : Text
run_status_running = bytes "running"

abbrev pub run_status_succeeded : Text
run_status_succeeded = bytes "succeeded"

abbrev pub run_status_failed : Text
run_status_failed = bytes "failed"

abbrev pub run_status_timed_out : Text
run_status_timed_out = bytes "timed_out"

abbrev pub run_status_cancelled : Text
run_status_cancelled = bytes "cancelled"

-- A `time.Time`: Go's zero value, or the nanoseconds since 1970. Earlier times are left out, since
-- every other time is read from the clock.
pub data Time : Type 0 where
  zero_time : Time
  unix : ℕ → Time

-- The errors that callers tell apart, and the others: a zero time stamp, a value that is no JSON,
-- a stored value that does not decode, and whatever the database driver returns.
pub data StorageError : Type 0 where
  run_not_found invalid_retention invalid_run_state : StorageError
  zero_timestamp invalid_json decode_failed driver_failed : StorageError

-- `timeout` is in nanoseconds.
pub record ActionSnapshot : Type 0 where
  pub description : Text
  pub mode : Text
  pub command : List Text
  pub shell_command : Text
  pub cwd : Text
  pub timeout : ℤ
  pub env : Map Text
  pub concurrency_policy : Text
  pub max_output_bytes : ℤ
  pub enabled : Bool

pub record Run : Type 0 where
  pub id : Text
  pub action_name : Text
  pub status : Text
  pub exit_code : Option ℤ
  pub created_at : Time
  pub started_at : Option Time
  pub finished_at : Option Time
  pub timed_out : Bool
  pub request_metadata : Text
  pub stdout_tail : Text
  pub stderr_tail : Text
  pub error_summary : Text
  pub action_snapshot : ActionSnapshot

pub record CreateRunParams : Type 0 where
  pub id : Text
  pub action_name : Text
  pub status : Text
  pub created_at : Time
  pub started_at : Option Time
  pub request_metadata : Text
  pub stdout_tail : Text
  pub stderr_tail : Text
  pub error_summary : Text
  pub action_snapshot : ActionSnapshot

pub record UpdateRunParams : Type 0 where
  pub id : Text
  pub status : Text
  pub exit_code : Option ℤ
  pub started_at : Option Time
  pub finished_at : Option Time
  pub timed_out : Bool
  pub stdout_tail : Text
  pub stderr_tail : Text
  pub error_summary : Text

pub record RunFilter : Type 0 where
  pub action_name : Text
  pub status : Text

pub record RetentionPolicy : Type 0 where
  pub max_age : ℤ
  pub max_runs : ℤ

pub record RetentionResult : Type 0 where
  pub deleted_runs : ℕ
  pub pruned_at : Time
