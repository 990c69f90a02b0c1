-- ===== src/Execution/Service/Synchronous.antt =====
-- A synchronous invocation, from its checks to the run that is stored.
use microhook.Prelude.{
  ℕ, ◌≡◌, refl, sym, ap, ◌∙◌, inl, inr, Text, Bool, true, false, Option, none, some, is_blank,
  eq_iff, insert, Map, ◌==◌, if◌then◌else◌, ok, err, Bool-cases,
}
use microhook.Config.{Action}
use microhook.Config.Registry.{ActionRegistry}
use microhook.Config.Load.Loaded.{IsReadyAction}
use microhook.Storage.{unix, Run}
use microhook.Storage.Tables
use microhook.Storage.Tables.{RunRow, RunRecord, Db, find_run, find_snapshot, set_row}
use microhook.Storage.Rows.{Json, bool_to_int64, snapshot_row, run_of_row}
use microhook.Storage.Repository.Create.{
  Decodes, created_run, quiet, with_run, create_run-get_run, get_run-with_run, get_run-with_run_all,
  snapshot_of-snapshot_row,
}
use microhook.Storage.Repository.Update.{eqb-bool_to_int64}
use microhook.Execution.{terminate_failed, Process, invoke_mode_sync}
use microhook.Execution.Runner.{
  Messages, Verdict, judge, action_snapshot_from_config, action_from_snapshot,
  action_from_stored_run,
}
use microhook.Execution.Service.{
  Fresh, Pending, Service, InvokeParams, is_running, check_invoke, create_run, accept, accept_allow,
  accept_action, invoke, run_pending, stored, release, finish_reject_action,
}
use microhook.Execution.Service.Exclusion.{taken, accept_reject_free}
use microhook.Execution.Service.Exclusion.Counts.{is_running-insert, is_running-delete}
use microhook.Execution.Service.Invocation.{accept_action-IsReadyAction}
use microhook.Execution.Service.Release.{release_lem}
use microhook.Execution.Service.Ending.{IsDecoded, on, run_pending-release}
use microhook.Execution.Service.Creation.{
  running_params, running_row, check_create-IsReadyAction, normalize_raw_json-valid,
  check_invoke-metadata,
}

released :
    (name other : Text) (m : Map Bool)
    → is_running name m ≡ false
    → (if name == other then false else if name == other then true else is_running other m)
      ≡ is_running other m
released name other m free = elim (Bool-cases (name == other)) [
  | inl e ↦ rw e (sym (ap (λ n. is_running n m) (sym ((eq_iff name other).0 e)) ∙ free))
  | inr e ↦ rw e
]

if_again :
    (b : Bool) (x y z : Option RunRecord) {w : Option RunRecord}
    → w ≡ (if b then y else z)
    → (if b then x else w) ≡ (if b then x else z)
if_again true x y z e = refl
if_again false x y z e = e

module _ (json : Json) where
  module _ (id : Text) (now : ℕ) (a : Action) (p : InvokeParams) where
    abbrev stored_run : RunRecord
    stored_run = record {
      run = running_row id now a p.request_metadata;
      snapshot = snapshot_row json id (action_snapshot_from_config a);
    }

    abbrev run_now : Run
    run_now = created_run (unix now) (running_params id now a p.request_metadata)

    abbrev pending_of : Option Text → Pending
    pending_of releases = record {
      action = action_from_stored_run run_now;
      run = run_now;
      input = p.input;
      request_id = p.request_id;
      releases = releases;
    }

    abbrev pub fresh_of : Fresh
    fresh_of = record { run_id = some id; now = unix now }

    -- The record of the run when its process has ended.
    abbrev pub final : Messages → Process → ℕ → RunRecord
    final messages process finished =
        let v = judge messages a process in
        record {
          run = record {
            id = id;
            action_name = a.name;
            status = v.status;
            exit_code = v.result.exit_code;
            created_at_unix_nano = now;
            started_at_unix_nano = some now;
            finished_at_unix_nano = some finished;
            timed_out = bool_to_int64 v.result.timed_out;
            request_metadata_json = p.request_metadata;
            stdout_tail = v.result.stdout_tail;
            stderr_tail = v.result.stderr_tail;
            error_summary = v.result.error_summary;
          };
          snapshot = snapshot_row json id (action_snapshot_from_config a);
        }

    -- That run, as it is returned.
    abbrev pub final_run : Messages → Process → ℕ → Run
    final_run messages process finished =
        let v = judge messages a process in
        record {
          id = id;
          action_name = a.name;
          status = v.status;
          exit_code = v.result.exit_code;
          created_at = unix now;
          started_at = some (unix now);
          finished_at = some (unix finished);
          timed_out = v.result.timed_out;
          request_metadata = p.request_metadata;
          stdout_tail = v.result.stdout_tail;
          stderr_tail = v.result.stderr_tail;
          error_summary = v.result.error_summary;
          action_snapshot = action_snapshot_from_config a;
        }

    pub run_of_row-final :
        (messages : Messages) (process : Process) (finished : ℕ)
        → run_of_row (final messages process finished).run (action_snapshot_from_config a)
          ≡ final_run messages process finished
    run_of_row-final messages process finished =
        rw (eqb-bool_to_int64 (judge messages a process).result.timed_out) refl

    module _ (db : Db) (ready : IsReadyAction a) (named : is_blank id ≡ false)
        (registry : ActionRegistry)
        (checked : check_invoke json registry p ≡ ok (a, invoke_mode_sync))
        (decodes : Decodes json (action_snapshot_from_config a)) (new : find_run id db.runs ≡ none)
        (new_snapshot : find_snapshot id db.snapshots ≡ none) where
      abbrev with_new_run : Db
      with_new_run = with_run db stored_run.run stored_run.snapshot

      accept-IsReadyAction :
          (releases : Option Text) (s : Service)
          → accept json fresh_of a p releases (on db s)
            ≡ (ok (pending_of releases), on with_new_run s)
      unfolding accept create_run stored
      accept-IsReadyAction releases s =
          let valid =
            normalize_raw_json-valid json p.request_metadata
              (check_invoke-metadata json registry p checked) in
          let row = check_create-IsReadyAction json id now a p.request_metadata ready named valid in
          let made =
            create_run-get_run json (unix now) (running_params id now a p.request_metadata) db _
              decodes row new new_snapshot in
          rw made.0

      -- The name is taken, if at all, so that its release leaves the map as it was.
      accept_action-fresh :
          (s : Service)
          → is_running a.name s.reject_running ≡ false
          → (releases : Option Text) × (s' : Service) × (accept_action json fresh_of a p (on db s)
              ≡ (ok (pending_of releases), on with_new_run s'))
            × ((db' : Db) (name : Text)
                → is_running name (release releases (on db' s')).reject_running
                  ≡ is_running name s.reject_running)
      unfolding finish_reject_action accept_allow
      accept_action-fresh s free =
          elim (accept_action-IsReadyAction json fresh_of a p (on db s) ready) [
            | inl allow ↦ (none, s, allow ∙ accept-IsReadyAction none s, λ db' name. refl)
            | inr reject ↦
                let name = a.name in
                let there = accept_reject_free json fresh_of a p (on db s) free in
                (
                  some name,
                  taken json name s,
                  reject ∙ there ∙ rw (accept-IsReadyAction (some name) (taken json name s)),
                  λ db' other.
                      is_running-delete other name (insert name true s.reject_running)
                      ∙ rw (is_running-insert other name s.reject_running)
                          (released name other s.reject_running free),
                )
          ]

      abbrev decoded : IsDecoded json stored_run
      decoded = record {
        named = named;
        action = action_snapshot_from_config a;
        readable = snapshot_of-snapshot_row json id (action_snapshot_from_config a) decodes;
      }

      module _ (messages : Messages) (process : Process) (finished : ℕ)
          (end : process.finished_now ≡ unix finished) where
        abbrev verdict_of : Verdict
        verdict_of = judge messages a process

        abbrev last : RunRecord
        last = final messages process finished

        run_accepted :
            (releases : Option Text) (s : Service)
            → (db' : Db) × (run_pending json messages process
                  (pending_of releases)
                  (on with_new_run s)
                ≡ (
                  if verdict_of.terminate_failed
                      then err terminate_failed
                      else ok (final_run messages process finished),
                  release releases (on db' s),
                ))
              × ((j : Text)
                  → Tables.get_run j db' ≡ (if id == j then some last else Tables.get_run j db))
        unfolding snapshot_row action_from_stored_run action_from_snapshot
            action_snapshot_from_config
        run_accepted releases s =
            let found =
              get_run-with_run stored_run.run stored_run.snapshot db refl new new_snapshot in
            let out =
              run_pending-release json messages process (pending_of releases) (some now) finished
                stored_run with_new_run s decoded refl refl end found in
            let others =
              get_run-with_run_all stored_run.run stored_run.snapshot db refl new new_snapshot in
            (_, out.0, λ j. out.1 j ∙ if_again (id == j) _ _ _ (others j))

        invoked :
            (s s1 : Service) (pending : Pending)
            → accept_action json fresh_of a p s ≡ (ok pending, s1)
            → invoke json registry messages fresh_of process p s
              ≡ run_pending json messages process pending s1
        unfolding invoke ◌==◌
        invoked s s1 pending accepted = rw (checked, accepted)

        -- With a driver that does not fail, a JSON package that decodes the snapshot as it encoded
        -- it, an identifier that is new and not blank, and times of the start and the end that are
        -- not the zero time: after a synchronous invocation that passes the checks, with an action
        -- that is ready and whose name is free, and whose process ends, the run is in the store under
        -- the identifier, with the action, the metadata, the times, and the status, the exit code, the
        -- flag, the tails and the summary of the verdict on the process, and so it is returned, unless
        -- the process group could not be killed, which is an error; every other run is as it was; and
        -- the same names are marked as running as before.
        pub invoke-stored :
            (s : Service)
            → is_running a.name s.reject_running ≡ false
            → let out = invoke json registry messages fresh_of process p (on db s) in
              (db' : Db) × (out.0 ≡ (
                if verdict_of.terminate_failed
                then err terminate_failed
                else ok (final_run messages process finished)))
              × (out.1.store ≡ quiet db')
              × ((j : Text)
                  → Tables.get_run j db' ≡ (if id == j then some last else Tables.get_run j db))
              × ((name : Text)
                  → is_running name out.1.reject_running ≡ is_running name s.reject_running)
        unfolding finish_reject_action
        invoke-stored s free =
            let (releases, s', accepted, same) = accept_action-fresh s free in
            let (db', e, records) = run_accepted releases s' in
            let all = invoked (on db s) (on with_new_run s') (pending_of releases) accepted ∙ e in
            (
              db',
              rw all refl,
              rw all ((release_lem releases (on db' s')).0),
              records,
              λ name. rw all (same db' name),
            )
