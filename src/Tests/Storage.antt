-- ===== src/Tests/Storage.antt =====
-- One run, from its creation to its end.
use microhook.Prelude.{
  ◌≡◌, refl, Text, ◌⊎◌, bytes, [], ◌∷◌, none, some, true, false, ok, if◌then◌else◌, ◌==◌, pos,
  trim_space,
}
use microhook.Storage.{unix, driver_failed}
use microhook.Storage.Tables
use microhook.Storage.Tables.{RunRow, SnapshotRow, UpdateRow, Db, RunRecord, set_row, delete_runs}
use microhook.Storage.Tables.{find_run, delete_runs_older_than}
use microhook.Storage.Tables.Retention.{passes, is_old, get_run-delete_runs_older_than}
use microhook.Storage.Repository.{apply_retention}
use microhook.Storage.Repository.Retention.{apply_retention-running}
use microhook.Storage.Session.{Store, transaction, ◌>>◌}
use microhook.Storage.Session.Laws.{transaction-err}
use microhook.Storage.Rows.{
  snapshot_of, run_from_record, created_row, snapshot_row, check_create, check_update,
  validate_run_status, validate_action_snapshot, normalize_time, nullable_unix_nano,
  normalize_raw_json, bool_to_int64,
}
use microhook.Storage.Repository.{create_run, get_run, update_run, insert_run}
use microhook.Storage.Repository.Create.{quiet, with_run, created_run, Decodes, create_run-get_run}
use microhook.Storage.Repository.Atomic.{create_run_atomic}
use microhook.Storage.Repository.Update.{updated_run, get_run-update_run}
use microhook.Storage.Tables.{find_record, run_records}
use microhook.Storage.Sqlite.{FileSystem, Driver, open_store}
use microhook.Storage.Sqlite.Handles.{IsOpened, open_store-IsOpened}
use microhook.Tests.Parameters.{json, snapshot, create_params, update_params, no_runs}

abbrev pub row : RunRow
row = created_row create_params 5 (some 5) []

abbrev pub stored_snapshot : SnapshotRow
stored_snapshot = snapshot_row json (bytes "r1") snapshot

abbrev pub one_run : Db
one_run = with_run no_runs row stored_snapshot

decodes : Decodes json snapshot
decodes = record { strings = refl; map = refl }

checked : check_create json (unix 5) create_params ≡ ok row
unfolding check_create trim_space validate_run_status validate_action_snapshot normalize_time
    nullable_unix_nano normalize_raw_json
checked = refl

create_run-get_run_example :
    (create_run json (unix 5) create_params (quiet no_runs)
      ≡ (ok (created_run (unix 5) create_params), quiet one_run))
    × (get_run json (bytes "r1") (quiet one_run)
        ≡ (ok (created_run (unix 5) create_params), quiet one_run))
unfolding Tables.find_run Tables.find_snapshot
create_run-get_run_example =
    create_run-get_run json (unix 5) create_params no_runs row decodes checked refl refl

-- The driver fails at the third call, the insert of the snapshot.
abbrev failing : Store
failing = record { db = no_runs; faults = false ∷ false ∷ true ∷ [] }

create_run_atomic_example :
    ((create_run json (unix 5) create_params failing).1.db ≡ no_runs)
    ⊎ ((r : RunRow) × (check_create json (unix 5) create_params ≡ ok r)
        × ((create_run json (unix 5) create_params failing).1.db
            ≡ with_run no_runs r stored_snapshot))
create_run_atomic_example = create_run_atomic json (unix 5) create_params failing

transaction-err_example :
    (transaction (insert_run row >> insert_run row) (quiet no_runs)).1.db ≡ no_runs
unfolding transaction insert_run Tables.find_run ◌==◌
transaction-err_example =
    transaction-err (insert_run row >> insert_run row) (quiet no_runs) {e = driver_failed} refl

abbrev update_row : UpdateRow
update_row = record {
  status = bytes "succeeded";
  exit_code = some (pos 0);
  started_at_unix_nano = some 5;
  finished_at_unix_nano = some 9;
  timed_out = 0;
  stdout_tail = bytes "done";
  stderr_tail = [];
  error_summary = [];
}

update_checked : check_update update_params ≡ ok update_row
unfolding check_update trim_space validate_run_status nullable_unix_nano bool_to_int64
update_checked = refl

abbrev pub updated : Db
updated = (Tables.update_run (bytes "r1") update_row one_run).0

stored_decodes :
    run_from_record json (record { run = row; snapshot = stored_snapshot })
    ≡ ok (created_run (unix 5) create_params)
unfolding run_from_record snapshot_of snapshot_row bool_to_int64
stored_decodes = refl

get_run-update_run_example :
    (db' : Db) × (update_run update_params (quiet one_run) ≡ (ok tt, quiet db'))
    × ((j : Text)
        → (get_run json j (quiet db')).0 ≡ (
            if bytes "r1" == j
            then ok (updated_run update_params (created_run (unix 5) create_params))
            else (get_run json j (quiet one_run)).0))
unfolding Tables.get_run find_record run_records Tables.find_snapshot snapshot_row ◌==◌
get_run-update_run_example =
    get_run-update_run json update_params update_row one_run
      (record { run = row; snapshot = stored_snapshot }) (created_run (unix 5) create_params)
      update_checked refl stored_decodes

get_run-delete_runs_older_than_example :
    Tables.get_run (bytes "r1") (delete_runs_older_than (bytes "running") 100 updated).0 ≡ (
      if passes (is_old (bytes "running") 100) (find_run (bytes "r1") updated.runs)
      then none
      else Tables.get_run (bytes "r1") updated)
unfolding find_run Tables.update_run ◌==◌
get_run-delete_runs_older_than_example =
    get_run-delete_runs_older_than (bytes "running") 100 (bytes "r1") updated (refl, tt)

-- The run is old and one too many, but it is running.
apply_retention-running_example :
    Tables.get_run
      (bytes "r1")
      (apply_retention
        (λ n. bytes "0")
        1000
        (record { max_age = pos 10; max_runs = pos 1 })
        (quiet one_run)).1.db
    ≡ Tables.get_run (bytes "r1") one_run
unfolding find_run ◌==◌
apply_retention-running_example =
    apply_retention-running (λ n. bytes "0") 1000 (record { max_age = pos 10; max_runs = pos 1 })
      (quiet one_run) (bytes "r1") row (refl, tt) refl refl

-- Two runs that have ended, of which one is to stay.
abbrev ended_row : RunRow
ended_row = record row { status = bytes "succeeded" }

abbrev two_finished : Db
two_finished = record one_run {
  runs = ended_row ∷ record ended_row { id = bytes "r2"; created_at_unix_nano = 7 } ∷ [];
}

abbrev pub file_system : FileSystem
file_system = record { clean = λ path. path; abs = λ path. some path; mkdir_of = λ path. true }

abbrev pub ready_driver : Driver
ready_driver = record { opens = true; pings = true; close_error = none }

-- The schema cannot be made: the second call fails.
abbrev no_schema : Store
no_schema = record { db = one_run; faults = false ∷ true ∷ [] }

open_store-IsOpened_example :
    IsOpened no_schema (open_store file_system ready_driver (bytes "runs.db") no_schema)
open_store-IsOpened_example =
    open_store-IsOpened file_system ready_driver (bytes "runs.db") no_schema
