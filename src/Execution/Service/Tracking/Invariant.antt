-- ===== src/Execution/Service/Tracking/Invariant.antt =====
-- internal/execution/scheduler.go and service.go: the executions under way and the stored runs, while
-- executions are accepted, refused and completed in any order and the service is restarted at any
-- time.
use microhook.Prelude.{
  ℕ, ◌≡◌, refl, sym, ap, ◌∙◌, inl, inr, Text, false, List, [], ◌∷◌, ◌++◌, Option, none, some,
  Result, ok, err, if◌then◌else◌, Bool-cases, eqb,
}
use mathlib.Core.Option
use microhook.Config.{Action}
use microhook.Storage.{RetentionPolicy, RetentionResult, Run, unix}
use microhook.Storage.Tables
use microhook.Storage.Tables.{RunRow, RunRecord, Db, find_run, find_snapshot, set_row}
use microhook.Storage.Tables.Retention.{IsUnique}
use microhook.Storage.Tables.Unique.{IsUnique-update_run}
use microhook.Storage.Rows.{Json}
use microhook.Storage.Session.{Store}
use microhook.Storage.Repository.{apply_retention}
use microhook.Storage.Repository.Retention.{apply_retention-ok, apply_retention-Succeeds}
use microhook.Storage.Repository.Create.{quiet}
use microhook.Execution.{ExecError, Process}
use microhook.Execution.Runner.{Messages}
use microhook.Execution.Service.{
  Pending, Service, InvokeParams, accept_action, run_pending, new_service, recover,
  restarted_run_summary,
}
use microhook.Execution.Service.Release.{release_lem}
use microhook.Execution.Service.Ending.{IsDecoded, on, run_pending-release}
use microhook.Execution.Service.Recovery
use microhook.Execution.Service.Recovery.{is_running_row, cancelled_record, recover-restarted}
use microhook.Execution.Runner.Verdicts.{judge-IsVerdict}
use microhook.Execution.Service.Exclusion.{started, ended}
use microhook.Execution.Service.Tracking.Records.{
  IsTracked, IsTracked-apply_retention, executions, runs_in, All-decoded, started-at, running-at,
  get_run-id, IsTracked-ended, IsTracked-restarted,
}
use microhook.Execution.Service.Tracking.Accepting.{
  fresh_at, IsNew, IsTrackedService, on-same, settled,
}

-- The record of a run that a restart has cut off.
abbrev pub cancelled : ℕ → RunRecord → RunRecord
cancelled now = cancelled_record now restarted_run_summary

restarted-executions :
    (now : ℕ) (o : Option RunRecord) (n : ℕ)
    → n ≡ (if runs_in o then 1 else 0)
    → Recovery.restarted now o ≡ (if eqb n 0 then o else Option.map (cancelled now) o)
restarted-executions now none n h = rw h refl
restarted-executions now (some r) n h = elim (Bool-cases (is_running_row r.run)) [
  | inl e ↦ let one : n ≡ 1 = rw e at h in rw (e, one) refl
  | inr e ↦ let zero' : n ≡ 0 = rw e at h in rw (e, zero') refl
]

module _ (json : Json) where
  module _ (messages : Messages) where
    -- A restart may come at any time. It cuts off the executions under way, applies the retention and
    -- recovers.
    pub data Step : Service → Service → Type 0 where
      accepted :
          {s s' : Service} {p : Pending} (id : Text) (now : ℕ) (action : Action)
          (params : InvokeParams)
          → IsNew json id action s
          → accept_action json (fresh_at id now) action params s ≡ (ok p, s')
          → Step s (started p s')
      refused :
          {s s' : Service} {e : ExecError} (id : Text) (now : ℕ) (action : Action)
          (params : InvokeParams)
          → IsNew json id action s
          → accept_action json (fresh_at id now) action params s ≡ (err e, s')
          → Step s s'
      completed :
          {s : Service} (process : Process) (finished : ℕ) (front : List Pending) (p : Pending)
          (rest : List Pending)
          → process.finished_now ≡ unix finished
          → s.pending ≡ front ++ p ∷ rest
          → Step s (ended (front ++ rest) (run_pending json messages process p s).1)
      restarted :
          {s : Service} {result : RetentionResult} {store : Store} (format_int : ℕ → Text) (now : ℕ)
          (policy : RetentionPolicy)
          → apply_retention format_int now policy s.store ≡ (ok result, store)
          → Step s (recover json (unix now) (new_service store)).1

    pub data Reach (initial : Service) : Service → Type 0 where
      start : Reach initial initial
      next : {s s' : Service} → Reach initial s → Step s s' → Reach initial s'

  recovered :
      (now : ℕ) (s : Service) (db : Db)
      → s.store ≡ quiet db
      → IsTracked json db s.pending
      → (db' : Db) × (recover json (unix now) (new_service s.store)
          ≡ (ok tt, on db' (new_service s.store)))
        × ((j : Text) → Tables.get_run j db' ≡ Recovery.restarted now (Tables.get_run j db))
        × IsUnique db'.runs
  recovered now s db quiet_store t = rw (on-same json db (new_service s.store) quiet_store) at (
      recover-restarted json now db (new_service s.store) t.unique
        (All-decoded json db t.unique t.decoded))

  left :
      {ps : List Pending} (out : Result ExecError Run × Service)
      (to : Result ExecError Run × Service)
      → out ≡ to
      → IsTrackedService json (ended ps to.1)
      → IsTrackedService json (ended ps out.1)
  left out to h t = rw h t

  -- The retention and the recovery of a restart succeed.
  pub restarted_service :
      {result : RetentionResult} (s : Service) (store : Store) (format_int : ℕ → Text) (now : ℕ)
      (policy : RetentionPolicy)
      → apply_retention format_int now policy s.store ≡ (ok result, store)
      → IsTrackedService json s
      → (db' : Db) × (recover json (unix now) (new_service store)
          ≡ (ok tt, new_service (quiet db')))
        × IsTracked json db' []
  restarted_service s store format_int now policy h (db, quiet_store, t) =
      let (age, runs) = apply_retention-ok format_int now policy s.store _ h in
      let (result, db1, e) = apply_retention-Succeeds format_int now policy age runs db in
      let same : apply_retention format_int now policy s.store ≡ (ok result, quiet db1) =
        rw quiet_store e in
      let left_store : store ≡ quiet db1 = ap (λ r. r.1) (sym h ∙ same) in
      let tables : (apply_retention format_int now policy s.store).1.db ≡ db1 =
        ap (λ r. r.1.db) same in
      let kept =
        IsTracked-apply_retention json db format_int now policy s.store s.pending
          (ap (λ u. u.db) quiet_store) t in
      let (db', done, read, unique) =
        recovered now (record s { store = store }) db1 left_store (rw tables at kept) in
      (db', done, IsTracked-restarted json db1 now db' unique read)

  module _ (messages : Messages) where
    module _ (process : Process) (finished : ℕ) (end : process.finished_now ≡ unix finished)
        (front : List Pending) (p : Pending) (rest : List Pending) (db : Db) (s : Service) where
      completed_run :
          (r : RunRecord) (begun : ℕ) (d : IsDecoded json r)
          → p.run.id ≡ r.run.id
          → p.run.started_at ≡ some (unix begun)
          → Tables.get_run p.run.id db ≡ some r
          → IsTracked json db (front ++ p ∷ rest)
          → IsTrackedService json
              (ended (front ++ rest) (run_pending json messages process p (on db s)).1)
      completed_run r begun d same at_start found t =
          let v = judge-IsVerdict messages p.action process in
          let (out, read) =
            run_pending-release json messages process p (some begun) finished r db s d same at_start
              end found in
          left _ _ out (
            _,
            (release_lem p.releases _).0,
            IsTracked-ended json db front p rest _ _ (IsUnique-update_run p.run.id _ db t.unique)
                read v.over t,
          )

      completed-IsTracked :
          s.pending ≡ front ++ p ∷ rest
          → IsTracked json db s.pending
          → IsTrackedService json
              (ended (front ++ rest) (run_pending json messages process p (on db s)).1)
      completed-IsTracked here tracked =
          let t : IsTracked json db (front ++ p ∷ rest) = rw here at tracked in
          let (r, found, runs) = running-at json db front p rest t in
          let ((begun, at_start), others) = started-at front p rest t.started in
          completed_run r begun (t.decoded p.run.id r found runs)
            (sym (get_run-id p.run.id db r found)) at_start found t

    Step-IsTracked :
        {s s' : Service} → Step messages s s' → IsTrackedService json s → IsTrackedService json s'
    Step-IsTracked {s} (accepted id now action params new h) t =
        rw h at (settled json id now action params s new t)
    Step-IsTracked {s} (refused id now action params new h) t =
        rw h at (settled json id now action params s new t)
    Step-IsTracked {s} (completed process finished front p rest end here) (db, quiet_store, t) =
        rw (on-same json db s quiet_store) at
          (completed-IsTracked process finished end front p rest db s here t)
    Step-IsTracked {s} (restarted {store = store} format_int now policy h) t =
        let (db', done, kept) = restarted_service s store format_int now policy h t in
        rw done (db', refl, kept)

    -- From a state whose driver does not fail, where no execution is under way, no run has the status
    -- "running" and no two runs have one identifier, in every state that is reached by executions
    -- that are accepted under new identifiers, refused, and completed in any order, and by restarts
    -- at any time, each after its retention: a run has the status "running" where exactly one
    -- execution of it is under way, and where none is, it has not; each such run can be read back,
    -- each execution has the time of its start, the driver still does not fail, and the identifiers
    -- are still unique.
    pub Reach-IsTracked :
        (initial s : Service) (db : Db)
        → initial.store ≡ quiet db
        → initial.pending ≡ []
        → IsUnique db.runs
        → ((id : Text) → runs_in (Tables.get_run id db) ≡ false)
        → Reach messages initial s
        → IsTrackedService json s
    Reach-IsTracked initial _ db quiet_store idle unique none_runs Reach.start = (
      db,
      quiet_store,
      record {
        unique = unique;
        counted = λ id. rw (idle, none_runs id) refl;
        decoded = λ id r found runs.
            let over : is_running_row r.run ≡ false = ap runs_in (sym found) ∙ none_runs id in cc;
        started = rw idle tt;
      },
    )
    Reach-IsTracked initial _ db quiet_store idle unique none_runs (next {s = t} path step) =
        Step-IsTracked step (Reach-IsTracked initial t db quiet_store idle unique none_runs path)

    -- From a state whose driver does not fail, where no execution is under way, no run has the status
    -- "running" and no two runs have one identifier: wherever a restart comes after executions were
    -- accepted under new identifiers, refused and completed in any order, and after other restarts,
    -- its recovery succeeds. It cancels the runs of the executions that were under way, with the
    -- summary of a restart, and leaves every other run as it was.
    pub Reach-recover :
        (initial s : Service) (db : Db) (now : ℕ)
        → initial.store ≡ quiet db
        → initial.pending ≡ []
        → IsUnique db.runs
        → ((id : Text) → runs_in (Tables.get_run id db) ≡ false)
        → Reach messages initial s
        → (db' : Db) × (recover json (unix now) (new_service s.store)
            ≡ (ok tt, on db' (new_service s.store)))
          × ((j : Text)
              → Tables.get_run j db' ≡ (
                  if eqb (executions j s.pending) 0
                  then Tables.get_run j s.store.db
                  else Option.map (cancelled now) (Tables.get_run j s.store.db)))
    Reach-recover initial s db now quiet_store idle unique none_runs path =
        let (here, same, t) = Reach-IsTracked initial s db quiet_store idle unique none_runs path in
        let (db', done, read, still) = recovered now s here same t in
        (db', done, λ j. read j ∙ rw same (restarted-executions now _ _ (t.counted j)))
