-- ===== src/Tests/Recovery.antt =====
-- A synchronous invocation, the end of one execution, and a restart that finds it still running.
use microhook.Execution.Service.{Service}
use microhook.Prelude.{
  true, false, ◌∷◌, ◌≡◌, refl, Text, bytes, [], some, ok, err, if◌then◌else◌, ◌==◌, trim_space, All,
  lookup,
}
use microhook.Storage.{unix}
use microhook.Storage.Tables
use microhook.Storage.Tables.{
  RunRecord, Db, list_where, find_run, find_snapshot, find_record, run_records, newest_first,
}
use microhook.Storage.Rows.{snapshot_of, snapshot_row, bool_to_int64}
use microhook.Storage.Tables.{set_row}
use microhook.Storage.Repository.Create.{created_run}
use microhook.Execution.{terminate_failed}
use microhook.Execution.Service.{Pending, run_pending}
use microhook.Execution.Service.Release.{frees}
use microhook.Execution.Service.Ending.{
  IsDecoded, on, ended_record, ended_run, verdict, run_pending-ended,
}
use microhook.Execution.Service.Recovery.{is_running_row}
use microhook.Config.Registry.{get}
use microhook.Storage.Repository.Create.{Decodes, quiet}
use microhook.Execution.Runner.{judge, action_snapshot_from_config}
use microhook.Execution.Service.{
  InvokeParams, check_invoke, invoke, normalize_invoke_mode, is_running,
}
use microhook.Execution.Service.Synchronous.{final, final_run, fresh_of, invoke-stored}
use microhook.Tests.Config.{registry}
use microhook.Tests.Execution.{ready}
use microhook.Tests.Parameters.{
  params, no_runs, json, messages, process, snapshot, create_params, deploy, idle,
}
use microhook.Tests.Storage.{row, stored_snapshot, one_run}

abbrev pub stored_run : RunRecord
stored_run = record { run = row; snapshot = stored_snapshot }

pub decoded : IsDecoded json stored_run
unfolding snapshot_of snapshot_row bool_to_int64 trim_space
decoded = record { named = refl; action = snapshot; readable = refl }

abbrev running : Pending
running = record {
  action = deploy;
  run = created_run (unix 5) create_params;
  input = [];
  request_id = bytes "q1";
  releases = some (bytes "deploy");
}

run_pending-ended_example :
    let v = verdict json messages process running in
    let out = run_pending json messages process running (on one_run idle) in
    (db' : Db) × (out.0 ≡ (
      if v.terminate_failed
      then err terminate_failed
      else ok (ended_run (some 5) 9 v.status v.result stored_run decoded.action)))
    × ((j : Text)
        → Tables.get_run j db' ≡ (
            if bytes "r1" == j
            then some (ended_record (some 5) 9 v.status v.result stored_run)
            else Tables.get_run j one_run))
    × ((name : Text)
        → is_running name out.1.reject_running ≡ (
            if frees name (some (bytes "deploy"))
            then false
            else is_running name idle.reject_running))
    × (out.1.store ≡ quiet db')
    × (out.1.pending ≡ idle.pending)
unfolding Tables.get_run find_record run_records find_snapshot snapshot_row ◌==◌
run_pending-ended_example =
    run_pending-ended json messages process running (some 5) 9 stored_run one_run idle decoded refl
      refl refl refl

readable : All (IsDecoded json) (list_where is_running_row one_run)
unfolding list_where newest_first run_records find_snapshot snapshot_row ◌==◌
readable = (decoded, tt)

abbrev pub sync_params : InvokeParams
sync_params = record params { mode = bytes "sync" }

pub passes : check_invoke json registry sync_params ≡ ok (deploy, bytes "sync")
unfolding check_invoke trim_space get lookup normalize_invoke_mode ◌==◌
passes = refl

pub decodes : Decodes json (action_snapshot_from_config deploy)
unfolding action_snapshot_from_config
decodes = record { strings = refl; map = refl }

invoke-stored_example :
    let v = judge messages deploy process in
    let record_of = final json (bytes "r1") 5 deploy sync_params messages process 9 in
    let out =
      invoke json registry messages
        (fresh_of json (bytes "r1") 5 deploy sync_params)
        process
        sync_params
        (on no_runs idle) in
    (db' : Db) × (out.0 ≡ (
      if v.terminate_failed
      then err terminate_failed
      else ok (final_run json (bytes "r1") 5 deploy sync_params messages process 9)))
    × (out.1.store ≡ quiet db')
    × ((j : Text)
        → Tables.get_run j db'
          ≡ (if bytes "r1" == j then some record_of else Tables.get_run j no_runs))
    × ((name : Text) → is_running name out.1.reject_running ≡ is_running name idle.reject_running)
unfolding is_running lookup find_run find_snapshot trim_space
invoke-stored_example =
    invoke-stored json (bytes "r1") 5 deploy sync_params no_runs ready refl registry passes decodes
      refl refl messages process 9 refl idle refl

-- The first call of the driver fails.
abbrev failing : Service
failing = record idle { store = record { db = one_run; faults = true ∷ [] } }
