-- ===== src/Execution/Service/Ending.antt =====
-- How an execution ends: what `finishRun` writes, and what is read back.
use microhook.Prelude.{
  ℕ, ◌≡◌, refl, sym, ap, ◌∙◌, Text, false, Option, none, some, is_blank, eq_refl, ◌==◌,
  if◌then◌else◌, ok, err,
}
use microhook.Storage.{unix, ActionSnapshot, Run}
use microhook.Storage.Tables
use microhook.Storage.Tables.{
  RunRow, SnapshotRow, RunRecord, UpdateRow, Db, find_run, find_snapshot, set_row,
}
use microhook.Storage.Tables.Lookups.{join-some, get_run_lem}
use microhook.Storage.Rows.{
  Json, validate_run_status, nullable_unix_nano, normalize_time, bool_to_int64, optional_time,
  check_update, snapshot_of, run_of_row,
}
use microhook.Storage.Repository
use microhook.Storage.Repository.{select_run}
use microhook.Storage.Repository.Create.{quiet, get_run_found, decoded_run}
use microhook.Storage.Repository.Update.{eqb-bool_to_int64, update_run-get_run}
use microhook.Execution.Service.Release.{frees, release_lem}
use microhook.Execution.{terminate_failed, Process}
use microhook.Execution.Runner.{Messages, ProcessResult, Verdict, judge}
use microhook.Execution.Runner.Verdicts.{judge-IsVerdict}
use microhook.Execution.Service.{
  Pending, Service, stored, update_params, finish_run, execute, run_pending, release, is_running,
}

-- A record with an identifier, and a snapshot that can be read.
pub record IsDecoded (json : Json) (r : RunRecord) : Type 0 where
  pub named : is_blank r.run.id ≡ false
  pub action : ActionSnapshot
  pub readable : snapshot_of json r.snapshot ≡ ok action

-- A service on these tables, with a driver that does not fail.
abbrev pub on : Db → Service → Service
on db s = record s { store = quiet db }

-- The columns that are set for a run that was started then and ends with this status and result.
abbrev pub ended_row : Option ℕ → ℕ → Text → ProcessResult → UpdateRow
ended_row started finished status result = record {
  status = status;
  exit_code = result.exit_code;
  started_at_unix_nano = started;
  finished_at_unix_nano = some finished;
  timed_out = bool_to_int64 result.timed_out;
  stdout_tail = result.stdout_tail;
  stderr_tail = result.stderr_tail;
  error_summary = result.error_summary;
}

-- The record of a run that was started then and has ended with this status and result: the other
-- columns, and the snapshot, are those of the record it had.
abbrev pub ended_record : Option ℕ → ℕ → Text → ProcessResult → RunRecord → RunRecord
ended_record started finished status result r = record {
  run = record {
    id = r.run.id;
    action_name = r.run.action_name;
    status = status;
    exit_code = result.exit_code;
    created_at_unix_nano = r.run.created_at_unix_nano;
    started_at_unix_nano = started;
    finished_at_unix_nano = some finished;
    timed_out = bool_to_int64 result.timed_out;
    request_metadata_json = r.run.request_metadata_json;
    stdout_tail = result.stdout_tail;
    stderr_tail = result.stderr_tail;
    error_summary = result.error_summary;
  };
  snapshot = r.snapshot;
}

-- That run, as it is returned.
abbrev pub ended_run : Option ℕ → ℕ → Text → ProcessResult → RunRecord → ActionSnapshot → Run
ended_run started finished status result r action = record {
  id = r.run.id;
  action_name = r.run.action_name;
  status = status;
  exit_code = result.exit_code;
  created_at = unix r.run.created_at_unix_nano;
  started_at = optional_time started;
  finished_at = some (unix finished);
  timed_out = result.timed_out;
  request_metadata = r.run.request_metadata_json;
  stdout_tail = result.stdout_tail;
  stderr_tail = result.stderr_tail;
  error_summary = result.error_summary;
  action_snapshot = action;
}

run_of_row-ended_record :
    (started : Option ℕ) (finished : ℕ) (status : Text) (result : ProcessResult) (r : RunRecord)
    (action : ActionSnapshot)
    → run_of_row (ended_record started finished status result r).run action
      ≡ ended_run started finished status result r action
run_of_row-ended_record started finished status result r action =
    rw (eqb-bool_to_int64 result.timed_out) refl

nullable_unix_nano-optional : (n : Option ℕ) → nullable_unix_nano (optional_time n) ≡ ok n
unfolding nullable_unix_nano normalize_time
nullable_unix_nano-optional none = refl
nullable_unix_nano-optional (some n) = refl

module _ (json : Json) where
  pub check_update-ended_row :
      (run : Run) (started : Option ℕ) (finished : ℕ) (status : Text) (result : ProcessResult)
      → is_blank run.id ≡ false
      → run.started_at ≡ optional_time started
      → result.finished_at ≡ unix finished
      → validate_run_status status ≡ ok tt
      → check_update (update_params json run status result)
        ≡ ok (ended_row started finished status result)
  unfolding check_update nullable_unix_nano normalize_time
  check_update-ended_row run started finished status result named s f v =
      rw (named, v, s, f, nullable_unix_nano-optional started)

  abbrev pub ended : RunRecord → UpdateRow → RunRecord
  ended r row = record { run = set_row row r.run; snapshot = r.snapshot }

  finish_run-done :
      (run : Run) (status : Text) (result : ProcessResult) (db db' : Db) (s : Service) {out : Run}
      → Repository.update_run (update_params json run status result) (quiet db) ≡ (ok tt, quiet db')
      → Repository.get_run json run.id (quiet db') ≡ (ok out, quiet db')
      → finish_run json run status result (on db s) ≡ (ok out, on db' s)
  unfolding finish_run stored
  finish_run-done run status result db db' s h k = rw (h, k)

  -- The run is written and read back, and no other is touched.
  pub finish_run-IsDecoded :
      (run : Run) (status : Text) (result : ProcessResult) (row : UpdateRow) (r : RunRecord)
      (db : Db) (s : Service) (d : IsDecoded json r)
      → run.id ≡ r.run.id
      → Tables.get_run run.id db ≡ some r
      → check_update (update_params json run status result) ≡ ok row
      → let db' = (Tables.update_run run.id row db).0 in
        (finish_run json run status result (on db s)
          ≡ (ok (run_of_row (set_row row r.run) d.action), on db' s))
        × ((j : Text)
            → Tables.get_run j db'
              ≡ (if run.id == j then some (ended r row) else Tables.get_run j db))
  finish_run-IsDecoded run status result row r db s d same found checked =
      let rows = join-some _ _ r (sym (get_run_lem run.id db) ∙ found) in
      let db' : Db = (Tables.update_run run.id row db).0 in
      let updated =
        update_run-get_run (update_params json run status result) row checked db r.run r.snapshot in
      let here : Tables.get_run run.id db' ≡ some (ended r row) =
        (updated run.id rows.0 rows.1).1 ∙ rw (eq_refl run.id) in
      (
        finish_run-done run status result db db' s (updated run.id rows.0 rows.1).0 (
            get_run_found json run.id db' (rw same d.named) here
              (decoded_run json (set_row row r.run) r.snapshot d.readable refl)),
        λ j. (updated j rows.0 rows.1).1,
      )

  module _ (messages : Messages) (process : Process) (p : Pending) where
    abbrev pub verdict : Verdict
    verdict = judge messages p.action process

    -- What is returned and left, the name freed by `release`.
    pub run_pending-release :
        (started : Option ℕ) (finished : ℕ) (r : RunRecord) (db : Db) (s : Service)
        (d : IsDecoded json r)
        → p.run.id ≡ r.run.id
        → p.run.started_at ≡ optional_time started
        → process.finished_now ≡ unix finished
        → Tables.get_run p.run.id db ≡ some r
        → let row = ended_row started finished verdict.status verdict.result in
          let db' = (Tables.update_run p.run.id row db).0 in
          (run_pending json messages process p (on db s) ≡ (
            if verdict.terminate_failed
                then err terminate_failed
                else ok (ended_run started finished verdict.status verdict.result r d.action),
            release p.releases (on db' s),
          ))
          × ((j : Text)
              → Tables.get_run j db' ≡ (
                  if p.run.id == j
                  then some (ended_record started finished verdict.status verdict.result r)
                  else Tables.get_run j db))
    unfolding run_pending execute
    run_pending-release started finished r db s d same start_time end found =
        let v = judge-IsVerdict messages p.action process in
        let checked =
          check_update-ended_row p.run started finished verdict.status verdict.result
            (rw same d.named) start_time (v.finished ∙ end) v.accepted in
        let out =
          finish_run-IsDecoded p.run verdict.status verdict.result _ r db s d same found checked in
        let shown =
          run_of_row-ended_record started finished verdict.status verdict.result r d.action in
        (rw (out.0, shown), out.1)

    -- Where the driver does not fail and the start and the end are no zero times, an execution whose
    -- process ends and whose run is in the tables under an identifier that is not blank, with a
    -- snapshot that can be read: the run is stored with the status, the exit code, the time of the
    -- end, the flag, the tails and the summary of the verdict on the process, and keeps its identifier,
    -- action, time of creation, metadata and snapshot; so it is returned, unless the process group could
    -- not be killed, which is an error; the name that the execution holds, if any, is free and no other is
    -- touched; the executions under way and every other run stay as they were; and the driver still
    -- does not fail.
    pub run_pending-ended :
        (started : Option ℕ) (finished : ℕ) (r : RunRecord) (db : Db) (s : Service)
        (d : IsDecoded json r)
        → p.run.id ≡ r.run.id
        → p.run.started_at ≡ optional_time started
        → process.finished_now ≡ unix finished
        → Tables.get_run p.run.id db ≡ some r
        → let out = run_pending json messages process p (on db s) in
          (db' : Db) × (out.0 ≡ (
            if verdict.terminate_failed
            then err terminate_failed
            else ok (ended_run started finished verdict.status verdict.result r d.action)))
          × ((j : Text)
              → Tables.get_run j db' ≡ (
                  if p.run.id == j
                  then some (ended_record started finished verdict.status verdict.result r)
                  else Tables.get_run j db))
          × ((name : Text)
              → is_running name out.1.reject_running
                ≡ (if frees name p.releases then false else is_running name s.reject_running))
          × (out.1.store ≡ quiet db')
          × (out.1.pending ≡ s.pending)
    run_pending-ended started finished r db s d same start_time end found =
        let (e, records) =
          run_pending-release started finished r db s d same start_time end found in
        let db' : Db =
          (Tables.update_run p.run.id (ended_row started finished verdict.status verdict.result)
            db).0 in
        let left = release_lem p.releases (on db' s) in
        (
          db',
          ap (λ o. o.0) e,
          records,
          λ name. ap (λ o. is_running name o.1.reject_running) e ∙ left.2 name,
          ap (λ o. o.1.store) e ∙ left.0,
          ap (λ o. o.1.pending) e ∙ left.1,
        )
