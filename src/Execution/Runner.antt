-- ===== src/Execution/Runner.antt =====
-- internal/execution/runner.go: what is run, and what is recorded of it. The process itself, the
-- clock and the formatting of numbers and durations are parameters.
pub mod Verdicts
pub mod Statuses
use microhook.Prelude.{
  Text, bytes, ℤ, is_neg, is_pos, Bool, true, false, not, ◌&&◌, ◌||◌, List, [], ◌∷◌, ◌++◌, Option,
  none, some, is_blank, is_empty, trim_space, ◌==◌, if◌then◌else◌,
}
use microhook.Config.{Action, action_mode_command, action_mode_shell}
use microhook.Storage.{
  Time, ActionSnapshot, Run, run_status_succeeded, run_status_failed, run_status_timed_out,
  run_status_cancelled,
}
use microhook.Execution.{Ended, exited, interrupted, Process}
use microhook.Execution.TailBuffer.{new, write_all, to_text}

abbrev pub shell_path : Text
shell_path = bytes "/bin/sh"

-- The program and its arguments, or which of the three errors.
pub data Command : Type 0 where
  exec : Text → List Text → Command
  command_required shell_command_required unsupported_mode : Command

abbrev pub exec_argv : List Text → Command
exec_argv [] = command_required
exec_argv (program ∷ args) = exec program args

unfoldable pub build_command : Action → Command
unfolding ◌==◌ trim_space
build_command a =
    if a.mode == action_mode_command
    then exec_argv a.command
    else if a.mode == action_mode_shell
    then (if is_blank a.shell_command
        then shell_command_required
        else exec shell_path (bytes "-c" ∷ a.shell_command ∷ []))
    else unsupported_mode

-- `slicesClone` and `maps.Clone` copy storage only.
unfoldable pub action_snapshot_from_config : Action → ActionSnapshot
action_snapshot_from_config a = record {
  description = a.description;
  mode = a.mode;
  command = a.command;
  shell_command = a.shell_command;
  cwd = a.cwd;
  timeout = a.timeout;
  env = a.env;
  concurrency_policy = a.concurrency_policy;
  max_output_bytes = a.max_output_bytes;
  enabled = a.enabled;
}

unfoldable pub action_from_snapshot : Text → ActionSnapshot → Action
action_from_snapshot name snapshot = record {
  name = name;
  description = snapshot.description;
  mode = snapshot.mode;
  command = snapshot.command;
  shell_command = snapshot.shell_command;
  cwd = snapshot.cwd;
  timeout = snapshot.timeout;
  env = snapshot.env;
  concurrency_policy = snapshot.concurrency_policy;
  max_output_bytes = snapshot.max_output_bytes;
  enabled = snapshot.enabled;
}

unfoldable pub action_from_stored_run : Run → Action
unfolding action_from_snapshot
action_from_stored_run run = action_from_snapshot run.action_name run.action_snapshot

pub record ProcessResult : Type 0 where
  pub exit_code : Option ℤ
  pub finished_at : Time
  pub timed_out : Bool
  pub stdout_tail : Text
  pub stderr_tail : Text
  pub error_summary : Text

-- The status and the result that `execute` hands to `finishRun`, and whether it then returns the
-- error of `terminateProcessGroup`.
pub record Verdict : Type 0 where
  pub status : Text
  pub result : ProcessResult
  pub terminate_failed : Bool

-- The exit code of a process state that is there; a negative one is that of a signal.
unfoldable pub process_exit_code : Option ℤ → Option ℤ
process_exit_code none = none
process_exit_code (some code) = if is_neg code then none else some code

abbrev is_some : {A : Type 0} → Option A → Bool
is_some none = false
is_some (some a) = true

-- The texts that the code prints around a number, a duration or an error.
pub record Messages : Type 0 where
  pub exited_with : ℤ → Text
  pub timed_out_after : ℤ → Text
  pub cancelled_by : Text → Text
  pub start_failed : Text → Text
  pub terminate_failed : Text → Text
  pub no_command : Action → Command → Text

module _ (messages : Messages) where
  unfoldable pub failure_summary : Text → Option ℤ → Text
  failure_summary wait_err none = wait_err
  failure_summary wait_err (some code) = messages.exited_with code

  -- The arguments: the tails, the exit code, the error of `Wait`.
  unfoldable pub finish_completion : Time → Text → Text → Option ℤ → Option Text → Verdict
  unfolding failure_summary
  finish_completion now stdout stderr exit_code none = record {
    status = run_status_succeeded;
    result = record {
      exit_code = exit_code;
      finished_at = now;
      timed_out = false;
      stdout_tail = stdout;
      stderr_tail = stderr;
      error_summary = [];
    };
    terminate_failed = false;
  }
  finish_completion now stdout stderr exit_code (some wait_err) = record {
    status = run_status_failed;
    result = record {
      exit_code = exit_code;
      finished_at = now;
      timed_out = false;
      stdout_tail = stdout;
      stderr_tail = stderr;
      error_summary = failure_summary wait_err exit_code;
    };
    terminate_failed = false;
  }

  -- The first argument: the timeout; then whether the deadline was exceeded, whether the request
  -- is done, and the text of the error.
  unfoldable pub interrupted_status : ℤ → Bool → Bool → Text → Text × Text
  interrupted_status timeout deadline request_done why =
      if is_pos timeout && deadline && not request_done
      then (run_status_timed_out, messages.timed_out_after timeout)
      else (run_status_cancelled, messages.cancelled_by why)

  -- Two parts, each trimmed, those that are left joined by "; ".
  unfoldable pub join_summary : Text → Text → Text
  unfolding trim_space
  join_summary a b =
      let s = trim_space a in
      let t = trim_space b in
      if is_empty s then t else if is_empty t then s else s ++ bytes "; " ++ t

  abbrev summary_with : Text → Option Text → Text
  summary_with summary none = summary
  summary_with summary (some err) = join_summary summary (messages.terminate_failed err)

  unfoldable pub finish_interrupted :
      Time → Text → Text → ℤ → Option Text → Bool → Bool → Text → Verdict
  unfolding interrupted_status join_summary ◌==◌
  finish_interrupted now stdout stderr timeout terminate_err deadline request_done why =
      let (status, summary) = interrupted_status timeout deadline request_done why in
      record {
        status = status;
        result = record {
          exit_code = none;
          finished_at = now;
          timed_out = status == run_status_timed_out;
          stdout_tail = stdout;
          stderr_tail = stderr;
          error_summary = summary_with summary terminate_err;
        };
        terminate_failed = is_some terminate_err;
      }

  -- The part of `execute` behind the select statements.
  unfoldable pub judge_end : Time → Text → Text → ℤ → Ended → Verdict
  unfolding finish_completion finish_interrupted process_exit_code
  judge_end now stdout stderr timeout (exited wait_err code) =
      finish_completion now stdout stderr (process_exit_code code) wait_err
  judge_end now stdout stderr timeout
        (interrupted kill_err wait_err code deadline request_done why) =
      if not (is_some wait_err) || is_some (process_exit_code code)
      then finish_completion now stdout stderr (process_exit_code code) wait_err
      else finish_interrupted now stdout stderr timeout kill_err deadline request_done why

  abbrev pub not_started : Time → Text → Text → Text → Verdict
  not_started now stdout stderr summary = record {
    status = run_status_failed;
    result = record {
      exit_code = none;
      finished_at = now;
      timed_out = false;
      stdout_tail = stdout;
      stderr_tail = stderr;
      error_summary = summary;
    };
    terminate_failed = false;
  }

  -- The part of `execute` behind `buildCommand`, by the error of `Start`.
  abbrev pub judge_started : Action → Process → Option Text → Verdict
  judge_started a process (some why) =
      not_started process.finished_now [] [] (messages.start_failed why)
  judge_started a process none =
      judge_end process.finished_now
        (to_text (write_all (new a.max_output_bytes) process.stdout_writes))
        (to_text (write_all (new a.max_output_bytes) process.stderr_writes)) a.timeout process.ended

  abbrev pub judge_command : Action → Process → Command → Verdict
  judge_command a process (exec program args) = judge_started a process process.start_error
  judge_command a process failure =
      not_started process.finished_now [] [] (messages.no_command a failure)

  -- `execute` up to its call of `finishRun`: the action that was stored, and the process.
  unfoldable pub judge : Action → Process → Verdict
  unfolding judge_end build_command
  judge a process = judge_command a process (build_command a)
