-- ===== src/Execution/Runner/Verdicts.antt =====
-- What `execute` records of a process, whichever way it ends.
use microhook.Prelude.{
  Option-cases, sym, ◌∙◌, Bool-cases, ℕ, ◌≡◌, ◌≤◌, refl, inl, inr, Text, ℤ, pos_part, Bool, true,
  false, not, ◌&&◌, List, [], ◌∷◌, Option, none, some, arith, length, ◌==◌, is_blank, ok,
  trim_space, is_pos,
}
use microhook.Config.{Action, action_mode_command, action_mode_shell}
use microhook.Config.Normalize.{has_command, has_shell_command, mode_of}
use microhook.Config.Load.Loaded.{IsReadyAction}
use microhook.Storage.{Time, run_status_running, run_status_succeeded, run_status_timed_out}
use microhook.Storage.Rows.{is_run_status, validate_run_status}
use microhook.Execution.{Ended, exited, interrupted, Process}
use microhook.Execution.TailBuffer.Laws.{length-write_all-le}
use microhook.Execution.Runner.{
  Command, exec_argv, exec, build_command, Messages, Verdict, judge, judge_end, finish_completion,
  finish_interrupted, interrupted_status, process_exit_code, judge_started, judge_command,
  not_started,
}

-- Whether a command is one that can be started.
abbrev pub is_exec : Command → Bool
is_exec (exec program args) = true
is_exec _ = false

-- The error of `Wait`, however the select statements came out.
abbrev pub wait_error : Ended → Option Text
wait_error (exited wait_err code) = wait_err
wait_error (interrupted kill_err wait_err code deadline request_done why) = wait_err

abbrev pub is_none : {A : Type 0} → Option A → Bool
is_none none = true
is_none (some a) = false

-- A process that was started, and whose `Wait` gave no error.
abbrev pub is_clean : Action → Process → Bool
is_clean action process =
    is_exec (build_command action)
    && is_none process.start_error
    && is_none (wait_error process.ended)

-- What holds of every verdict, `clean` telling whether it is a success: the status says so, the
-- flag says whether it is a timeout, the run has ended now with a status that the store accepts, and
-- the tails are within the limit.
pub record IsVerdict (clean : Bool) (limit : ℕ) (now : Time) (v : Verdict) : Type 0 where
  pub succeeded : (v.status == run_status_succeeded) ≡ clean
  pub accepted : validate_run_status v.status ≡ ok tt
  pub over : (v.status == run_status_running) ≡ false
  pub finished : v.result.finished_at ≡ now
  pub timed_out : v.result.timed_out ≡ (v.status == run_status_timed_out)
  pub stdout : length v.result.stdout_tail ≤ limit
  pub stderr : length v.result.stderr_tail ≤ limit

module _ (messages : Messages) where
  module _ (now : Time) (out error : Text) (limit : ℕ) (o : length out ≤ limit)
      (e : length error ≤ limit) where
    finish_completion-IsVerdict :
        (code : Option ℤ) (wait_err : Option Text)
        → IsVerdict
            (is_none wait_err)
            limit
            now
            (finish_completion messages now out error code wait_err)
    unfolding finish_completion ◌==◌ validate_run_status is_run_status trim_space
    finish_completion-IsVerdict code none = record {
      succeeded = refl;
      accepted = refl;
      over = refl;
      finished = refl;
      timed_out = refl;
      stdout = o;
      stderr = e;
    }
    finish_completion-IsVerdict code (some why) = record {
      succeeded = refl;
      accepted = refl;
      over = refl;
      finished = refl;
      timed_out = refl;
      stdout = o;
      stderr = e;
    }

    interrupted_status-failed :
        (timeout : ℤ) (deadline request_done : Bool) (why : Text)
        → ((interrupted_status messages timeout deadline request_done why).0
            == run_status_succeeded)
          ≡ false
    unfolding interrupted_status ◌==◌
    interrupted_status-failed timeout deadline request_done why = ground arith

    interrupted_status-over :
        (timeout : ℤ) (deadline request_done : Bool) (why : Text)
        → ((interrupted_status messages timeout deadline request_done why).0 == run_status_running)
          ≡ false
    unfolding interrupted_status ◌==◌
    interrupted_status-over timeout deadline request_done why = ground arith

    interrupted_status-accepted :
        (timeout : ℤ) (deadline request_done : Bool) (why : Text)
        → validate_run_status (interrupted_status messages timeout deadline request_done why).0
          ≡ ok tt
    unfolding interrupted_status validate_run_status is_run_status trim_space
    interrupted_status-accepted timeout deadline request_done why =
        elim (Bool-cases (is_pos timeout && deadline && not request_done)) [
          | inl h ↦ rw h refl
          | inr h ↦ rw h refl
        ]

    finish_interrupted-IsVerdict :
        (timeout : ℤ) (kill_err : Option Text) (deadline request_done : Bool) (why : Text)
        → IsVerdict false limit now
            (finish_interrupted messages now out error timeout kill_err deadline request_done why)
    unfolding finish_interrupted
    finish_interrupted-IsVerdict timeout kill_err deadline request_done why = record {
      succeeded = interrupted_status-failed timeout deadline request_done why;
      accepted = interrupted_status-accepted timeout deadline request_done why;
      over = interrupted_status-over timeout deadline request_done why;
      finished = refl;
      timed_out = refl;
      stdout = o;
      stderr = e;
    }

    judge_end-IsVerdict :
        (timeout : ℤ) (ended : Ended)
        → IsVerdict
            (is_none (wait_error ended))
            limit
            now
            (judge_end messages now out error timeout ended)
    unfolding judge_end
    judge_end-IsVerdict timeout (exited wait_err code) =
        finish_completion-IsVerdict (process_exit_code code) wait_err
    judge_end-IsVerdict timeout (interrupted kill_err none code deadline request_done why) =
        finish_completion-IsVerdict (process_exit_code code) none
    judge_end-IsVerdict timeout (interrupted kill_err (some w) code deadline request_done why) =
        elim (Option-cases (process_exit_code code)) [
          | inl h ↦ rw h (finish_interrupted-IsVerdict timeout kill_err deadline request_done why)
          | inr (c, h) ↦ rw h (finish_completion-IsVerdict (some c) (some w))
        ]

  not_started-IsVerdict :
      (now : Time) (limit : ℕ) (summary : Text)
      → IsVerdict false limit now (not_started messages now [] [] summary)
  unfolding ◌==◌ validate_run_status is_run_status trim_space
  not_started-IsVerdict now limit summary = record {
    succeeded = refl;
    accepted = refl;
    over = refl;
    finished = refl;
    timed_out = refl;
    stdout = omega arith;
    stderr = omega arith;
  }

  module _ (action : Action) (process : Process) where
    abbrev bound : ℕ
    bound = pos_part action.max_output_bytes

    judge_started-IsVerdict :
        (start_error : Option Text)
        → IsVerdict
            (is_none start_error && is_none (wait_error process.ended))
            bound
            process.finished_now
            (judge_started messages action process start_error)
    judge_started-IsVerdict none =
        judge_end-IsVerdict process.finished_now _ _ bound
          (length-write_all-le action.max_output_bytes process.stdout_writes)
          (length-write_all-le action.max_output_bytes process.stderr_writes) action.timeout
          process.ended
    judge_started-IsVerdict (some why) =
        not_started-IsVerdict process.finished_now bound (messages.start_failed why)

    judge_command-IsVerdict :
        (command : Command)
        → IsVerdict
            (is_exec command && is_none process.start_error && is_none (wait_error process.ended))
            bound
            process.finished_now
            (judge_command messages action process command)
    judge_command-IsVerdict (exec program args) = judge_started-IsVerdict process.start_error
    judge_command-IsVerdict Command.command_required =
        not_started-IsVerdict process.finished_now bound _
    judge_command-IsVerdict Command.shell_command_required =
        not_started-IsVerdict process.finished_now bound _
    judge_command-IsVerdict Command.unsupported_mode =
        not_started-IsVerdict process.finished_now bound _

    -- The verdict on a process: the status is "succeeded" exactly where the command could be built
    -- and started and `Wait` gave no error, whatever became of the deadline; the flag `timed_out`
    -- is set exactly with the status "timed_out"; the store accepts the status, which is never
    -- "running"; the run has finished at the time of the end; and neither tail is longer than the
    -- limit.
    pub judge-IsVerdict :
        IsVerdict
          (is_clean action process)
          bound
          process.finished_now
          (judge messages action process)
    unfolding judge
    judge-IsVerdict = judge_command-IsVerdict (build_command action)

not-true : (b : Bool) → not b ≡ true → b ≡ false
not-true true h = sym h
not-true false h = refl

exec_argv-is_exec : (args : List Text) → has_command args ≡ true → is_exec (exec_argv args) ≡ true
unfolding has_command
exec_argv-is_exec [] h = cc
exec_argv-is_exec (a ∷ args) h = refl

-- The command of an action that is ready can be built: neither an empty command nor an unknown
-- mode is left to the runner.
pub build_command-IsReadyAction : (a : Action) → IsReadyAction a → is_exec (build_command a) ≡ true
unfolding build_command mode_of has_shell_command ◌==◌
build_command-IsReadyAction a h =
    let one = h.valid.one_command in
    let mode = h.normal.mode in
    elim (Bool-cases (has_command a.command)) [
      | inl c ↦ elim (Bool-cases (has_shell_command a.shell_command)) [
        | inl d ↦ absurd (one (c ∙ sym d))
        | inr d ↦
            let m : a.mode ≡ action_mode_command = rw (c, d) at mode in
            rw m (exec_argv-is_exec a.command c)
      ]
      | inr c ↦ elim (Bool-cases (has_shell_command a.shell_command)) [
        | inl d ↦
            let m : a.mode ≡ action_mode_shell = rw (c, d) at mode in
            rw (m, not-true (is_blank a.shell_command) d)
        | inr d ↦ absurd (one (c ∙ sym d))
      ]
    ]
