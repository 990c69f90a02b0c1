-- ===== src/Execution/Service/State.antt =====
-- internal/execution/service.go and scheduler.go: the state of a service, and the chains of calls on
-- it that end at an error.
use microhook.Prelude.{
  Text, Bool, true, false, List, [], Map, Option, none, some, lookup, insert, delete, if◌then◌else◌,
  Result, ok, err,
}
use microhook.Config.{Action}
use microhook.Config.Normalize.{value_or}
use microhook.Storage.{Time, StorageError, Run}
use microhook.Storage.Session.{Op, Store}
use microhook.Execution.{ExecError, store_failed}

-- An execution that was started and has not finished: the stored action, its run, the input, the
-- request's identifier, and the name that `finish` frees, if the action runs one at a time.
pub record Pending : Type 0 where
  pub action : Action
  pub run : Run
  pub input : Text
  pub request_id : Text
  pub releases : Option Text

-- `reject_running` is the mutex-guarded map; `pending` are the executions under way.
pub record Service : Type 0 where
  pub store : Store
  pub reject_running : Map Bool
  pub pending : List Pending

pub record InvokeParams : Type 0 where
  pub action_name : Text
  pub mode : Text
  pub input : Text
  pub request_metadata : Text
  pub request_id : Text

-- What `newRunID` and `now` give to an invocation.
pub record Fresh : Type 0 where
  pub run_id : Option Text
  pub now : Time

-- `New`
abbrev pub new_service : Store → Service
new_service store = record { store = store; reject_running = []; pending = [] }

abbrev pub Exec : Type 0 → Type 0
Exec A = Service → Result ExecError A × Service

module _ {A B : Type 0} where
  abbrev pub continue : Result ExecError A → (A → Exec B) → Exec B
  continue (ok a) f s = f a s
  continue (err e) f s = (err e, s)

  infixl 5 ◌>>=◌
  abbrev pub ◌>>=◌ : Exec A → (A → Exec B) → Exec B
  ◌>>=◌ m f s = let (r, s') = m s in continue r f s'

infixl 5 ◌>>◌
abbrev pub ◌>>◌ : {B : Type 0} → Exec (Unit {0}) → Exec B → Exec B
m >> n = m >>= λ _. n

module _ {A : Type 0} where
  abbrev pub lift : Result ExecError A → Exec A
  lift r s = (r, s)

  abbrev pub wrap : Result StorageError A → Result ExecError A
  wrap (ok a) = ok a
  wrap (err e) = err (store_failed e)

  -- A call of the store, whose error is wrapped.
  unfoldable pub stored : Op A → Exec A
  stored op s = let (r, store') = op s.store in (wrap r, record s { store = store' })

abbrev pub require : Bool → ExecError → Result ExecError (Unit {0})
require true e = ok tt
require false e = err e

-- `s.rejectRunning[name]`
unfoldable pub is_running : Text → Map Bool → Bool
unfolding lookup
is_running name m = value_or false (lookup name m)

-- `beginRejectAction`
unfoldable pub begin_reject_action : Text → Service → Bool × Service
unfolding is_running insert
begin_reject_action name s =
    if is_running name s.reject_running
    then (false, s)
    else (true, record s { reject_running = insert name true s.reject_running })

-- `finishRejectAction`
unfoldable pub finish_reject_action : Text → Service → Service
unfolding delete
finish_reject_action name s = record s { reject_running = delete name s.reject_running }

abbrev pub release : Option Text → Service → Service
release none s = s
release (some name) s = finish_reject_action name s
