-- ===== src/Tests/Tracking.antt =====
-- An execution that is accepted and cut off by a restart.
use mathlib.Core.Option
use microhook.Execution.Service.Tracking.Records.{executions}
use microhook.Config.{Action}
use microhook.Tests.Config.{registry}
use microhook.Tests.Recovery.{passes, sync_params}
use microhook.Execution.Service.{check_invoke, invoke}
use microhook.Execution.Service.Tracking.Invocations.{invoke-Reach}
use microhook.Execution.{ExecError}
use microhook.Prelude.{
  ap, err, Result, sym, ◌∙◌, if◌then◌else◌, eqb, ◌≡◌, refl, Text, bytes, some, ok, trim_space,
  lookup, insert, ◌==◌,
}
use microhook.Storage.{unix}
use microhook.Storage.Tables
use microhook.Storage.Tables.{Db, find_run, find_snapshot}
use microhook.Storage.Rows
use microhook.Storage.Session.{driver, transaction}
use microhook.Storage.Repository
use microhook.Storage.Repository.Create.{created_run}
use microhook.Execution.Runner.{action_snapshot_from_config, action_from_stored_run}
use microhook.Execution.Service.{Pending, Service, accept_action, is_running, recover, new_service}
use microhook.Execution.Service
use microhook.Execution.Service.Creation.{running_params}
use microhook.Execution.Service.Ending.{on}
use microhook.Execution.Service.Exclusion.{started}
use microhook.Execution.Service.Tracking.Accepting.{fresh_at, IsNew, IsTrackedService}
use microhook.Execution.Service.Tracking.Invariant.{
  Reach, cancelled, accepted, next, Reach-IsTracked, Reach-recover,
}
use microhook.Tests.Parameters.{process, params, no_runs, json, messages, deploy, idle}

abbrev initial : Service
initial = on no_runs idle

abbrev accepting : Service.Exec Pending
accepting = accept_action json (fresh_at (bytes "r1") 5) deploy params

new : IsNew json (bytes "r1") deploy initial
unfolding find_run find_snapshot action_snapshot_from_config
new = record { run = refl; snapshot = refl; decodes = record { strings = refl; map = refl } }

abbrev under_way : Pending
under_way =
    let run = created_run (unix 5) (running_params (bytes "r1") 5 deploy params.request_metadata) in
    record {
      action = action_from_stored_run run;
      run = run;
      input = params.input;
      request_id = params.request_id;
      releases = some (bytes "deploy");
    }

taken : accepting initial ≡ (ok under_way, (accepting initial).1)
unfolding accept_action trim_space lookup ◌==◌ Repository.create_run Rows.check_create
    Rows.validate_run_status Rows.validate_action_snapshot action_snapshot_from_config
    Rows.normalize_time Rows.nullable_unix_nano Rows.normalize_raw_json transaction driver
    Repository.insert_run find_run Repository.insert_snapshot Rows.snapshot_row find_snapshot
    Repository.get_run Rows.run_from_record action_from_stored_run Service.begin_reject_action
    Service.finish_reject_action is_running Service.stored Service.accept Service.accept_allow
    Service.accept_reject Service.create_run insert Repository.select_run Tables.get_run
    Tables.insert_run Tables.insert_snapshot Tables.find_record Tables.run_records Rows.snapshot_of
    Rows.bool_to_int64 Rows.is_run_status
taken = refl

abbrev running : Service
running = started under_way (accepting initial).1

reached : Reach json messages initial running
reached = next Reach.start (accepted (bytes "r1") 5 deploy params new taken)

Reach-IsTracked_example : IsTrackedService json running
unfolding Tables.get_run
Reach-IsTracked_example =
    Reach-IsTracked json messages initial running no_runs refl refl tt (λ id. refl) reached

Reach-recover_example :
    (db' : Db) × (recover json (unix 50) (new_service running.store)
      ≡ (ok tt, on db' (new_service running.store)))
    × ((j : Text)
        → Tables.get_run j db' ≡ (
            if eqb (executions j running.pending) 0
            then Tables.get_run j running.store.db
            else Option.map (cancelled 50) (Tables.get_run j running.store.db)))
unfolding Tables.get_run
Reach-recover_example =
    Reach-recover json messages initial running no_runs 50 refl refl tt (λ id. refl) reached

abbrev action_checked : Result ExecError (Action × Text) → Action
action_checked (ok (a, mode)) = a
action_checked (err e) = deploy

new_for :
    (a : Action) (mode : Text)
    → check_invoke json registry sync_params ≡ ok (a, mode)
    → IsNew json (bytes "r1") a initial
new_for a mode h = let here : deploy ≡ a = ap action_checked (sym passes ∙ h) in rw (sym here) new

invoke-Reach_example :
    Reach json messages initial
      (invoke json registry messages (fresh_at (bytes "r1") 5) process sync_params initial).1
invoke-Reach_example =
    invoke-Reach json messages registry (bytes "r1") 5 9 process sync_params refl initial initial
      new_for Reach.start
