-- ===== src/Execution/Service/Tracking/Accepting.antt =====
-- How `invokeAllow` and `invokeReject` accept or refuse an execution where the driver does not fail.
use microhook.Prelude.{
  ℕ, ◌≡◌, refl, sym, ap, ◌∙◌, inl, inr, Text, bytes, Option, none, some, Result, ok, err, ◌==◌,
  Bool-cases, Result-cases, eq_refl, subst,
}
use microhook.Config.{Action}
use microhook.Storage.{Time, CreateRunParams, StorageError, unix, run_status_running}
use microhook.Storage.Tables.{Db, find_run, find_snapshot}
use microhook.Storage.Rows.{Json, check_create, snapshot_row}
use microhook.Storage.Repository
use microhook.Storage.Repository.Create.{
  Decodes, quiet, create_run-get_run, check_create-run_of_row, snapshot_of-snapshot_row,
}
use microhook.Execution.{ExecError}
use microhook.Execution.Runner.{action_snapshot_from_config}
use microhook.Execution.Service.{
  Pending, Service, Fresh, InvokeParams, is_running, create_run, accept, accept_allow,
  accept_reject, accept_action, stored, free_on_error, finish_reject_action,
}
use microhook.Execution.Service.Ending.{on}
use microhook.Execution.Service.Exclusion.{
  started, taken, accept_reject_free, accept_reject_running,
}
use microhook.Execution.Service.Creation.{running_params}
use microhook.Execution.Service.Tracking.Records.{IsTracked, IsTracked-with_run}

abbrev pub fresh_at : Text → ℕ → Fresh
fresh_at id now = record { run_id = some id; now = unix now }

module _ (json : Json) where
  -- The identifier is in neither table, and the snapshot of the action can be read back.
  pub record IsNew (id : Text) (action : Action) (s : Service) : Type 0 where
    pub run : find_run id s.store.db.runs ≡ none
    pub snapshot : find_snapshot id s.store.db.snapshots ≡ none
    pub decodes : Decodes json (action_snapshot_from_config action)

  -- The driver of the store does not fail, and its tables and the executions under way agree.
  abbrev pub IsTrackedService : Service → Type 0
  IsTrackedService s = (db : Db) × (s.store ≡ quiet db) × IsTracked json db s.pending

  abbrev pub Settles : Result ExecError Pending × Service → Type 0
  Settles (ok p, s) = IsTrackedService (started p s)
  Settles (err e, s) = IsTrackedService s

  create_run-refused :
      (now : Time) (p : CreateRunParams) (db : Db) {e : StorageError}
      → check_create json now p ≡ err e
      → Repository.create_run json now p (quiet db) ≡ (err e, quiet db)
  unfolding Repository.create_run
  create_run-refused now p db h = rw h

  accept-Settles :
      (id : Text) (now : ℕ) (action : Action) (params : InvokeParams) (releases : Option Text)
      (db : Db) (s : Service)
      → IsNew id action (on db s)
      → IsTracked json db s.pending
      → Settles (accept json (fresh_at id now) action params releases (on db s))
  unfolding accept create_run stored snapshot_row
  accept-Settles id now action params releases db s new t =
      let values = running_params id now action params.request_metadata in
      elim (Result-cases (check_create json (unix now) values)) [
        | inl (e, bad) ↦ rw (create_run-refused (unix now) values db bad) (db, refl, t)
        | inr (row, good) ↦
            let (described, same, named) = check_create-run_of_row json (unix now) values good in
            let made =
              create_run-get_run json (unix now) values db row new.decodes good new.run
                new.snapshot in
            let status : row.status ≡ run_status_running = ap (λ r. r.status) described in
            let runs = ap (λ v. v == run_status_running) status in
            rw (made.0) (
              _,
              refl,
              IsTracked-with_run json db s.pending _ row _ same new.run new.snapshot refl
                  (runs ∙ eq_refl run_status_running)
                  (record {
                    named = rw same named;
                    action = action_snapshot_from_config action;
                    readable = snapshot_of-snapshot_row json id _ new.decodes;
                  })
                  (now, refl) t,
            )
      ]

  free-Settles :
      (name : Text) (out : Result ExecError Pending × Service)
      → Settles out
      → Settles (free_on_error json name out)
  unfolding finish_reject_action
  free-Settles name (ok p, s) h = h
  free-Settles name (err e, s) h = h

  module _ (id : Text) (now : ℕ) (action : Action) (params : InvokeParams) where
    accept_reject-Settles :
        (db : Db) (s : Service)
        → IsNew id action (on db s)
        → IsTracked json db s.pending
        → Settles (accept_reject json (fresh_at id now) action params (on db s))
    accept_reject-Settles db s new t =
        let name = action.name in
        let fresh = fresh_at id now in
        elim (Bool-cases (is_running name s.reject_running)) [
          | inl runs ↦
              rw (accept_reject_running json fresh action params (on db s) runs) (db, refl, t)
          | inr free ↦ rw (accept_reject_free json fresh action params (on db s) free) (
              free-Settles name _ (
                accept-Settles id now action params (some name) db (taken json name s)
                  (record { run = new.run; snapshot = new.snapshot; decodes = new.decodes }) t))
        ]

    accept_action-Settles :
        (db : Db) (s : Service)
        → IsNew id action (on db s)
        → IsTracked json db s.pending
        → Settles (accept_action json (fresh_at id now) action params (on db s))
    unfolding accept_action accept_allow
    accept_action-Settles db s new t =
        elim (Bool-cases (action.concurrency_policy == bytes "allow")) [
          | inl a ↦ rw a (accept-Settles id now action params none db s new t)
          | inr a ↦ elim (Bool-cases (action.concurrency_policy == bytes "reject")) [
            | inl r ↦ rw (a, r) (accept_reject-Settles db s new t)
            | inr r ↦ rw (a, r) (db, refl, t)
          ]
        ]

  pub on-same : (db : Db) (s : Service) → s.store ≡ quiet db → on db s ≡ s
  on-same db s h = ap (λ store. record s { store = store }) (sym h)

  pub settled :
      (id : Text) (now : ℕ) (action : Action) (params : InvokeParams) (s : Service)
      → IsNew id action s
      → IsTrackedService s
      → Settles (accept_action json (fresh_at id now) action params s)
  settled id now action params s new (db, quiet_store, t) =
      subst
        (λ u. IsNew id action u → Settles (accept_action json (fresh_at id now) action params u))
        (on-same db s quiet_store) (λ n. accept_action-Settles id now action params db s n t) new
