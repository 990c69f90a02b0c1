-- ===== src/Execution/Runner/Statuses.antt =====
-- internal/execution/runner.go: which status, exit code and error `execute` takes of a process.
use microhook.Prelude.{
  ◌≡◌, ℤ, Bool, false, not, ◌&&◌, ◌||◌, Option, none, ◌==◌, is_pos, if◌then◌else◌,
}
use microhook.Storage.{run_status_failed, run_status_timed_out, run_status_cancelled}
use microhook.Execution.{Ended, exited, interrupted}
use microhook.Execution.Runner.{Verdict, process_exit_code}
use microhook.Execution.Runner.Verdicts.{is_none, wait_error}

-- Whether the process was killed: it was interrupted, and `Wait` gave an error and no exit code.
abbrev pub was_killed : Ended → Bool
was_killed (exited wait_err code) = false
was_killed (interrupted kill_err wait_err code deadline request_done why) =
    not (is_none wait_err) && is_none (process_exit_code code)

-- Whether it was the timeout that interrupted it, and not the end of the request.
abbrev pub is_late : ℤ → Ended → Bool
is_late timeout (exited wait_err code) = false
is_late timeout (interrupted kill_err wait_err code deadline request_done why) =
    is_pos timeout && deadline && not request_done

abbrev pub kill_failed : Ended → Bool
kill_failed (exited wait_err code) = false
kill_failed (interrupted kill_err wait_err code deadline request_done why) = not (is_none kill_err)

abbrev pub code_of : Ended → Option ℤ
code_of (exited wait_err code) = code
code_of (interrupted kill_err wait_err code deadline request_done why) = code

-- What holds of every verdict, `started` telling whether the process was started.
pub record IsStatus (started : Bool) (timeout : ℤ) (ended : Ended) (v : Verdict) : Type 0 where
  pub timed_out :
      (v.status == run_status_timed_out) ≡ (started && was_killed ended && is_late timeout ended)
  pub cancelled :
      (v.status == run_status_cancelled)
      ≡ (started && was_killed ended && not (is_late timeout ended))
  pub failed :
      (v.status == run_status_failed)
      ≡ not (started && (is_none (wait_error ended) || was_killed ended))
  pub terminate_failed : v.terminate_failed ≡ (started && was_killed ended && kill_failed ended)
  pub exit_code : v.result.exit_code ≡ (if started then process_exit_code (code_of ended) else none)
