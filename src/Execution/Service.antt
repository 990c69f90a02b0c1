-- ===== src/Execution/Service.antt =====
-- internal/execution/service.go and scheduler.go: invocations, and the actions that run one at a
-- time. The parts of the world are arguments: the random identifier, the clock, the process.
pub mod State
pub mod Exclusion
pub mod Invocation
pub mod Release
pub mod Ending
pub mod Recovery
pub mod Creation
pub mod Synchronous
pub mod Tracking
pub mod Faults
use microhook.Prelude.{
  Text, bytes, Bool, true, false, not, ◌||◌, List, [], ◌∷◌, Option, none, some, is_empty,
  trim_space, ◌==◌, if◌then◌else◌, Result, ok, err,
}
use microhook.Config.{Action}
use microhook.Config.Registry
use microhook.Config.Registry.{ActionRegistry}
use microhook.Storage.{Time, Run, UpdateRunParams, run_status_running, run_status_cancelled}
use microhook.Storage.Rows.{Json}
use microhook.Storage.Repository
use microhook.Execution.{
  ExecError, action_not_found, action_disabled, action_conflict, invalid_mode, name_required,
  input_invalid, metadata_invalid, unsupported_policy, no_run_id, terminate_failed, Process,
  invoke_mode_sync, invoke_mode_async,
}
use microhook.Execution.Runner.{
  Messages, ProcessResult, judge, action_snapshot_from_config, action_from_stored_run,
}
unfoldable pub use State.{stored, is_running, begin_reject_action, finish_reject_action}
pub use State.{
  Pending, Service, InvokeParams, Fresh, new_service, Exec, wrap, continue, ◌>>=◌, ◌>>◌, lift,
  require, release,
}

unfoldable pub normalize_invoke_mode : Text → Result ExecError Text
normalize_invoke_mode mode =
    let m = trim_space mode in
    if is_empty m || m == invoke_mode_sync
    then ok invoke_mode_sync
    else if m == invoke_mode_async
    then ok invoke_mode_async
    else err invalid_mode

abbrev pub restarted_run_summary : Text
restarted_run_summary = bytes "service restarted before run completion"

unfoldable pub has_action : ActionRegistry → Text → Bool
unfolding Registry.get trim_space
has_action registry name = elim (Registry.get registry (trim_space name)) [
  | none ↦ false
  | some _ ↦ true
]

module _ (json : Json) where
  abbrev valid_payload : Text → Bool
  valid_payload value = is_empty value || json.valid value

  -- The checks of `Invoke` before the policy: the action and the mode.
  unfoldable pub check_invoke : ActionRegistry → InvokeParams → Result ExecError (Action × Text)
  check_invoke registry p =
      let name = trim_space p.action_name in
      if is_empty name then err name_required else elim (Registry.get registry name) [
        | none ↦ err action_not_found
        | some action ↦
            if not action.enabled
            then err action_disabled
            else if not (valid_payload p.input)
            then err input_invalid
            else if not (valid_payload p.request_metadata)
            then err metadata_invalid
            else elim (normalize_invoke_mode p.mode) [ err e ↦ err e | ok mode ↦ ok (action, mode) ]
      ]

  -- `createRun` with status running, started when it is created.
  unfoldable pub create_run : Fresh → Action → Text → Exec Run
  unfolding stored
  create_run fresh action request_metadata = elim fresh.run_id [
    | none ↦ lift (err no_run_id)
    | some id ↦ stored (
        Repository.create_run json fresh.now (record {
          id = id;
          action_name = action.name;
          status = run_status_running;
          created_at = fresh.now;
          started_at = some fresh.now;
          request_metadata = request_metadata;
          stdout_tail = [];
          stderr_tail = [];
          error_summary = [];
          action_snapshot = action_snapshot_from_config action;
        }))
  ]

  abbrev pub update_params : Run → Text → ProcessResult → UpdateRunParams
  update_params run status result = record {
    id = run.id;
    status = status;
    exit_code = result.exit_code;
    started_at = run.started_at;
    finished_at = some result.finished_at;
    timed_out = result.timed_out;
    stdout_tail = result.stdout_tail;
    stderr_tail = result.stderr_tail;
    error_summary = result.error_summary;
  }

  unfoldable pub finish_run : Run → Text → ProcessResult → Exec Run
  unfolding stored
  finish_run run status result = do
    stored (Repository.update_run (update_params run status result))
    stored (Repository.get_run json run.id)

  unfoldable pub execute : Messages → Process → Run → Action → Exec Run
  unfolding finish_run
  execute messages process run action =
      let verdict = judge messages action process in
      finish_run run verdict.status verdict.result >>= λ finished.
      lift (if verdict.terminate_failed then err terminate_failed else ok finished)

  -- `invokeAllow` and `invokeReject` up to the start of the execution, which is then pending.
  unfoldable pub accept : Fresh → Action → InvokeParams → Option Text → Exec Pending
  unfolding create_run
  accept fresh action p releases = do
    run ← create_run fresh action p.request_metadata
    lift (
        ok (record {
          action = action_from_stored_run run;
          run = run;
          input = p.input;
          request_id = p.request_id;
          releases = releases;
        }))

  unfoldable pub accept_allow : Fresh → Action → InvokeParams → Exec Pending
  unfolding accept
  accept_allow fresh action p = accept fresh action p none

  -- The name is taken first, and freed again where no run could be created.
  abbrev pub free_on_error :
      Text → Result ExecError Pending × Service → Result ExecError Pending × Service
  free_on_error name (ok pending, s) = (ok pending, s)
  free_on_error name (err e, s) = (err e, finish_reject_action name s)

  unfoldable pub accept_reject : Fresh → Action → InvokeParams → Exec Pending
  unfolding accept begin_reject_action finish_reject_action
  accept_reject fresh action p s =
      let (free, s') = begin_reject_action action.name s in
      if free
      then free_on_error action.name (accept fresh action p (some action.name) s')
      else (err action_conflict, s)

  unfoldable pub accept_action : Fresh → Action → InvokeParams → Exec Pending
  unfolding accept_allow accept_reject ◌==◌
  accept_action fresh action p =
      if action.concurrency_policy == bytes "allow"
      then accept_allow fresh action p
      else if action.concurrency_policy == bytes "reject"
      then accept_reject fresh action p
      else lift (err unsupported_policy)

  -- An execution to its end: the run is recorded, then the name is freed, whatever came out.
  unfoldable pub run_pending : Messages → Process → Pending → Exec Run
  unfolding execute finish_reject_action
  run_pending messages process pending s =
      let (r, s') = execute messages process pending.run pending.action s in
      (r, release pending.releases s')

  -- A goroutine of its own: it becomes pending, and the run is returned as it is.
  abbrev pub start_async : Pending → Exec Run
  start_async pending s = (ok pending.run, record s { pending = pending ∷ s.pending })

  -- `Invoke`; the process is that of a synchronous invocation.
  unfoldable pub invoke : ActionRegistry → Messages → Fresh → Process → InvokeParams → Exec Run
  unfolding check_invoke accept_action run_pending
  invoke registry messages fresh process p = do
    (action, mode) ← lift (check_invoke registry p)
    pending ← accept_action fresh action p
    if mode == invoke_mode_async then start_async pending else run_pending messages process pending

  -- The loop of `cancelInterruptedRuns`.
  unfoldable pub cancel_runs : Time → Text → List Run → Exec (Unit {0})
  unfolding finish_run
  cancel_runs now summary [] = lift (ok tt)
  cancel_runs now summary (run ∷ runs) = do
    cancelled ← finish_run run run_status_cancelled (record {
      exit_code = none;
      finished_at = now;
      timed_out = false;
      stdout_tail = [];
      stderr_tail = [];
      error_summary = summary;
    })
    cancel_runs now summary runs

  unfoldable pub recover : Time → Exec (Unit {0})
  unfolding cancel_runs stored
  recover now = do
    runs ←
        stored
          (Repository.list_runs json (record { action_name = []; status = run_status_running }))
    cancel_runs now restarted_run_summary runs
