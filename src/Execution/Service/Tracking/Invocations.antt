-- ===== src/Execution/Service/Tracking/Invocations.antt =====
-- internal/execution/service.go: a call of `Invoke` is made of steps.
use microhook.Prelude.{
  ℕ, ◌≡◌, refl, sym, ap, ◌∙◌, inl, inr, Text, Bool, true, false, List, [], ◌∷◌, none, some, Option,
  Result, ok, err, ◌==◌, if◌then◌else◌, Result-cases, subst,
}
use microhook.Config.{Action}
use microhook.Config.Registry.{ActionRegistry}
use microhook.Storage.{StorageError, Run, unix}
use microhook.Storage.Rows.{Json}
use microhook.Storage.Repository
use microhook.Execution.{ExecError, Process, invoke_mode_async}
use microhook.Execution.Runner.{Messages, ProcessResult, judge}
use microhook.Execution.Service.{
  Pending, Service, InvokeParams, wrap, stored, check_invoke, accept_action, finish_run, execute,
  run_pending, release, finish_reject_action, invoke, start_async, update_params,
}
use microhook.Execution.Service.{continue as continue_run}
use microhook.Execution.Service.Exclusion.{started, ended}
use microhook.Execution.Service.Tracking.Accepting.{fresh_at, IsNew}
use microhook.Execution.Service.Tracking.Invariant.{Reach, accepted, refused, completed, next}

module _ (json : Json) (messages : Messages) where
  -- What is under way is not looked at by the end of an execution.
  module _ (process : Process) (p : Pending) (ps : List Pending) where
    read_ended :
        (id : Text) (r : Result StorageError (Unit {0})) (s : Service)
        → continue_run (wrap r) (λ u. stored (Repository.get_run json id)) (ended ps s) ≡ (
            let out = continue_run (wrap r) (λ u. stored (Repository.get_run json id)) s in
            (out.0, ended ps out.1))
    unfolding stored
    read_ended id (ok u) s = refl
    read_ended id (err e) s = refl

    finish_run-ended :
        (run : Run) (status : Text) (result : ProcessResult) (s : Service)
        → finish_run json run status result (ended ps s)
          ≡ (let out = finish_run json run status result s in (out.0, ended ps out.1))
    unfolding finish_run stored
    finish_run-ended run status result s =
        let out = Repository.update_run (update_params json run status result) s.store in
        read_ended run.id out.0 (record s { store = out.1 })

    lifted_ended :
        {A B : Type 0} (r : Result ExecError A) (f : A → Result ExecError B) (s : Service)
        → continue_run r (λ a t. (f a, t)) (ended ps s)
          ≡ (let out = continue_run r (λ a t. (f a, t)) s in (out.0, ended ps out.1))
    lifted_ended (ok a) f s = refl
    lifted_ended (err e) f s = refl

    execute-ended :
        (s : Service)
        → execute json messages process p.run p.action (ended ps s)
          ≡ (let out = execute json messages process p.run p.action s in (out.0, ended ps out.1))
    unfolding execute
    execute-ended s =
        let v = judge messages p.action process in
        let out = finish_run json p.run v.status v.result s in
        rw (finish_run-ended p.run v.status v.result s) (lifted_ended out.0 _ out.1)

    release-ended :
        (releases : Option Text) (s : Service)
        → release releases (ended ps s) ≡ ended ps (release releases s)
    unfolding finish_reject_action
    release-ended none s = refl
    release-ended (some name) s = refl

    run_pending-ended_any :
        (s : Service)
        → (run_pending json messages process p (ended ps s)).1
          ≡ ended ps (run_pending json messages process p s).1
    unfolding run_pending
    run_pending-ended_any s =
        let out = execute json messages process p.run p.action s in
        ap (λ r. release p.releases r.1) (execute-ended s) ∙ release-ended p.releases out.1

  module _ (registry : ActionRegistry) (id : Text) (now finished : ℕ) (process : Process)
      (params : InvokeParams) (end : process.finished_now ≡ unix finished) (initial : Service) where
    -- A synchronous execution is one that is accepted and completed at once.
    run_at_once :
        (p : Pending) (s : Service)
        → Reach json messages initial (started p s)
        → Reach json messages initial (run_pending json messages process p s).1
    run_at_once p s path =
        let before = run_pending-ended_any process p (p ∷ s.pending) s in
        let same = run_pending-ended_any process p s.pending s in
        subst (Reach json messages initial) (ap (ended s.pending) before ∙ sym same)
          (next path (completed process finished [] p s.pending end refl))

    going_on :
        (p : Pending) (s : Service) (async : Bool)
        → Reach json messages initial (started p s)
        → Reach json messages initial
            ((if async then start_async json p else run_pending json messages process p) s).1
    going_on p s true path = path
    going_on p s false path = run_at_once p s path

    after_checks :
        (a : Action) (mode : Text) (s : Service)
        → check_invoke json registry params ≡ ok (a, mode)
        → IsNew json id a s
        → Reach json messages initial s
        → Reach json messages initial
            (invoke json registry messages (fresh_at id now) process params s).1
    unfolding invoke
    after_checks a mode s good new path =
        let out = accept_action json (fresh_at id now) a params s in
        elim (Result-cases out.0) [
          | inl (e, h) ↦
              rw (invoke, good, h)
                (next path (refused id now a params new (ap (λ r. (r, out.1)) h)))
          | inr (p, h) ↦
              rw (invoke, good, h)
                (going_on p out.1 (mode == invoke_mode_async)
                  (next path (accepted id now a params new (ap (λ r. (r, out.1)) h))))
        ]

    -- Where the process ends at a time that is not the zero time, and where, if the call passes the
    -- checks, the identifier is new and the JSON package decodes the snapshot of the action as it
    -- encoded it: a call of `Invoke` is made of steps of the relation `Tracking.Invariant.Step`, in
    -- either mode and however it comes out. From a state that is reached by such steps, it leads to
    -- one that is reached by them.
    pub invoke-Reach :
        (s : Service)
        → ((a : Action) (mode : Text)
            → check_invoke json registry params ≡ ok (a, mode)
            → IsNew json id a s)
        → Reach json messages initial s
        → Reach json messages initial
            (invoke json registry messages (fresh_at id now) process params s).1
    unfolding invoke
    invoke-Reach s new path = elim (Result-cases (check_invoke json registry params)) [
      | inl (e, bad) ↦ rw (invoke, bad) path
      | inr (found, good) ↦ after_checks found.0 found.1 s good (new found.0 found.1 good) path
    ]
