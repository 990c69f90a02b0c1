-- ===== src/Execution/Service/Exclusion.antt =====
-- internal/execution/scheduler.go: actions with the policy "reject" run one at a time. The
-- executions of a service interleave; a step accepts one, refuses one, or brings one to its end.
pub mod Counts
pub mod Conflict
use microhook.Prelude.{
  ℕ, suc, ◌+◌, ◌≤◌, ◌≡◌, ◌≢◌, refl, sym, ap, ◌∙◌, ◌⊎◌, inl, inr, Text, bytes, Bool, true, false,
  List, [], ◌∷◌, ◌++◌, Option, none, some, arith, Result, ok, err, Map, lookup, insert, delete,
  ◌==◌, eq_iff, lookup-insert, lookup-delete, if◌then◌else◌, Bool-cases, Result-cases,
}
use microhook.Config.{Action}
use microhook.Config.Normalize.{value_or}
use microhook.Storage.{Run}
use microhook.Storage.Rows.{Json}
use microhook.Execution.{ExecError, action_conflict, unsupported_policy, Process}
use microhook.Execution.Runner.{Messages}
use microhook.Execution.Service.{
  Pending, Service, Fresh, InvokeParams, Exec, is_running, begin_reject_action,
  finish_reject_action, release, create_run, accept, accept_allow, accept_reject, accept_action,
  execute, run_pending, finish_run, stored, continue, free_on_error,
}
use microhook.Execution.Service.Exclusion.Counts.{
  holds, holders, count_taken, count_freed, count_ended, count_kept,
}

abbrev pub started : Pending → Service → Service
started p s = record s { pending = p ∷ s.pending }

abbrev pub ended : List Pending → Service → Service
ended ps s = record s { pending = ps }

module _ (json : Json) (messages : Messages) where
  -- An invocation that is accepted goes on to be executed; its end may come at any later time.
  pub data Step : Service → Service → Type 0 where
    accepted :
        {s s' : Service} {p : Pending} (fresh : Fresh) (action : Action) (params : InvokeParams)
        → accept_action json fresh action params s ≡ (ok p, s')
        → Step s (started p s')
    refused :
        {s s' : Service} {e : ExecError} (fresh : Fresh) (action : Action) (params : InvokeParams)
        → accept_action json fresh action params s ≡ (err e, s')
        → Step s s'
    completed :
        {s : Service} (process : Process) (front : List Pending) (p : Pending) (rest : List Pending)
        → s.pending ≡ front ++ p ∷ rest
        → Step s (ended (front ++ rest) (run_pending json messages process p s).1)

  pub data Reach (initial : Service) : Service → Type 0 where
    start : Reach initial initial
    next : {s s' : Service} → Reach initial s → Step s s' → Reach initial s'

-- The map says of a name that it runs where one execution holds it, and none else does.
pub record IsExclusive (s : Service) : Type 0 where
  pub counted :
      (name : Text) → holders name s.pending ≡ (if is_running name s.reject_running then 1 else 0)

ok_inj : {E A : Type 0} {a b : A} → ◌≡◌ {A = Result E A} (ok a) (ok b) → a ≡ b
ok_inj h = cc

-- What a call of the store leaves alone.
pub record Keeps (s s' : Service) : Type 0 where
  pub map : s'.reject_running ≡ s.reject_running
  pub pending : s'.pending ≡ s.pending

module _ (json : Json) where
  create_run-Keeps :
      (fresh : Fresh) (action : Action) (metadata : Text) (s : Service)
      → Keeps s (create_run json fresh action metadata s).1
  unfolding create_run stored
  create_run-Keeps fresh action metadata s = record { map = ground arith; pending = ground arith }

  -- `accept` touches the store only, and its execution is to free what it was told.
  record IsAccepted (releases : Option Text) (s : Service)
      (out : Result ExecError Pending × Service) : Type 0 where
    keeps : Keeps s out.1
    freed : (p : Pending) → out.0 ≡ ok p → p.releases ≡ releases

  continue-IsAccepted :
      (releases : Option Text) (s : Service) (f : Run → Pending) (r : Result ExecError Run)
      (s' : Service)
      → ((run : Run) → (f run).releases ≡ releases)
      → Keeps s s'
      → IsAccepted releases s (continue r (λ run t. (ok (f run), t)) s')
  continue-IsAccepted releases s f (ok run) s' h k = record {
    keeps = k;
    freed = λ p e. ap (λ q. q.releases) (sym (ok_inj e)) ∙ h run;
  }
  continue-IsAccepted releases s f (err e) s' h k = record { keeps = k; freed = λ p d. cc }

  accept-IsAccepted :
      (fresh : Fresh) (action : Action) (params : InvokeParams) (releases : Option Text)
      (s : Service)
      → IsAccepted releases s (accept json fresh action params releases s)
  unfolding accept
  accept-IsAccepted fresh action params releases s =
      let made = create_run json fresh action params.request_metadata s in
      continue-IsAccepted releases s _ made.0 made.1 (λ run. refl)
        (create_run-Keeps fresh action params.request_metadata s)

  pub execute-Keeps :
      (messages : Messages) (process : Process) (run : Run) (action : Action) (s : Service)
      → Keeps s (execute json messages process run action s).1
  unfolding execute finish_run stored
  execute-Keeps messages process run action s = record {
    map = ground arith;
    pending = ground arith;
  }

  -- What an accepted or refused invocation leaves.
  abbrev Settles : Result ExecError Pending × Service → Type 0
  Settles (ok p, s) = IsExclusive (started p s)
  Settles (err e, s) = IsExclusive s

  abbrev pub taken : Text → Service → Service
  taken name s = record s { reject_running = insert name true s.reject_running }

  pub accept_reject_running :
      (fresh : Fresh) (action : Action) (params : InvokeParams) (s : Service)
      → is_running action.name s.reject_running ≡ true
      → accept_reject json fresh action params s ≡ (err action_conflict, s)
  unfolding accept_reject
  accept_reject_running fresh action params s h = rw (begin_reject_action, h)

  pub accept_reject_free :
      (fresh : Fresh) (action : Action) (params : InvokeParams) (s : Service)
      → is_running action.name s.reject_running ≡ false
      → accept_reject json fresh action params s
        ≡ free_on_error json action.name
            (accept json fresh action params (some action.name) (taken action.name s))
  unfolding accept_reject
  accept_reject_free fresh action params s h = rw (begin_reject_action, h)

  accept-Settles :
      (s : Service) (out : Result ExecError Pending × Service)
      → IsAccepted none s out
      → IsExclusive s
      → Settles out
  accept-Settles s (ok p, s') h k = record {
    counted = λ name.
        rw (h.keeps.map, h.keeps.pending, h.freed p refl, holders, holds)
          (omega (arith, k.counted name));
  }
  accept-Settles s (err e, s') h k = record {
    counted = λ name. rw (h.keeps.map, h.keeps.pending) (k.counted name);
  }

  free-Settles :
      (name : Text) (s : Service) (out : Result ExecError Pending × Service)
      → is_running name s.reject_running ≡ false
      → IsAccepted (some name) (taken name s) out
      → IsExclusive s
      → Settles (free_on_error json name out)
  unfolding finish_reject_action
  free-Settles name s (ok p, s') f h k = record {
    counted = λ other.
        rw (h.keeps.map, h.keeps.pending, h.freed p refl)
          (count_taken name other s.reject_running s.pending f (k.counted other));
  }
  free-Settles name s (err e, s') f h k = record {
    counted = λ other.
        rw (h.keeps.map, h.keeps.pending)
          (count_freed name other s.reject_running s.pending f (k.counted other));
  }

  accept_reject-Settles :
      (fresh : Fresh) (action : Action) (params : InvokeParams) (s : Service)
      → IsExclusive s
      → Settles (accept_reject json fresh action params s)
  accept_reject-Settles fresh action params s k =
      let name = action.name in
      elim (Bool-cases (is_running name s.reject_running)) [
        | inl runs ↦ rw (accept_reject_running fresh action params s runs) k
        | inr free ↦ rw (accept_reject_free fresh action params s free) (
            free-Settles name s _ free
              (accept-IsAccepted fresh action params (some name) (taken name s)) k)
      ]

  accept_action-Settles :
      (fresh : Fresh) (action : Action) (params : InvokeParams) (s : Service)
      → IsExclusive s
      → Settles (accept_action json fresh action params s)
  unfolding accept_action accept_allow
  accept_action-Settles fresh action params s k =
      elim (Bool-cases (action.concurrency_policy == bytes "allow")) [
        | inl a ↦ rw a (accept-Settles s _ (accept-IsAccepted fresh action params none s) k)
        | inr a ↦ elim (Bool-cases (action.concurrency_policy == bytes "reject")) [
          | inl r ↦ rw (a, r) (accept_reject-Settles fresh action params s k)
          | inr r ↦ rw (a, r) k
        ]
      ]

  module _ (messages : Messages) where
    release-IsExclusive :
        (front : List Pending) (p : Pending) (rest : List Pending) (s s' : Service)
        (name : Option Text)
        → p.releases ≡ name
        → s.pending ≡ front ++ p ∷ rest
        → s'.reject_running ≡ s.reject_running
        → IsExclusive s
        → IsExclusive (ended (front ++ rest) (release name s'))
    unfolding finish_reject_action
    release-IsExclusive front p rest s s' none r e m k = record {
      counted = λ other. rw m (count_kept other front p rest r ∙ rw⁻¹ e (k.counted other));
    }
    release-IsExclusive front p rest s s' (some name) r e m k = record {
      counted = λ other.
          rw m (count_ended name other s.reject_running front p rest r (rw⁻¹ e (k.counted other)));
    }

    pub Step-IsExclusive :
        {s s' : Service} → Step json messages s s' → IsExclusive s → IsExclusive s'
    unfolding run_pending
    Step-IsExclusive (accepted fresh action params h) k =
        rw h at (accept_action-Settles fresh action params _ k)
    Step-IsExclusive (refused fresh action params h) k =
        rw h at (accept_action-Settles fresh action params _ k)
    Step-IsExclusive {s} (completed process front p rest e) k =
        release-IsExclusive front p rest s _ p.releases refl e
          (execute-Keeps messages process p.run p.action s).map k

    -- In every state that is reached from one where nothing runs, the map of running names and the
    -- executions under way agree: a name is marked where exactly one execution of it is under way
    -- that will free it, and not where there is none. So no two of them hold the
    -- same name.
    pub Reach-IsExclusive :
        (initial s : Service)
        → initial.pending ≡ []
        → initial.reject_running ≡ []
        → Reach json messages initial s
        → IsExclusive s
    unfolding is_running lookup
    Reach-IsExclusive initial _ p m start = record { counted = λ name. rw (p, m) }
    Reach-IsExclusive initial _ p m (next {s = t} path step) =
        Step-IsExclusive step (Reach-IsExclusive initial t p m path)
