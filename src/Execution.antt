-- ===== src/Execution.antt =====
-- internal/execution: what a service keeps, its errors, and what the outside world decides.
pub mod TailBuffer
pub mod Runner
pub mod Environment
pub mod Service
pub mod RunId
pub mod Interrupt
use microhook.Prelude.{Text, bytes, ℤ, List, Bool, Option}
use microhook.Storage.{StorageError, Time}

abbrev pub invoke_mode_sync : Text
invoke_mode_sync = bytes "sync"

abbrev pub invoke_mode_async : Text
invoke_mode_async = bytes "async"

-- `store_failed` wraps an error of the store, `no_run_id` one of the random source.
pub data ExecError : Type 0 where
  action_not_found action_disabled action_conflict invalid_mode : ExecError
  name_required input_invalid metadata_invalid unsupported_policy no_run_id : ExecError
  store_failed : StorageError → ExecError
  terminate_failed : ExecError

-- How the select statements of `execute` come out. `exited`: the process ended, with the error of
-- `Wait` and the exit code of its state. `interrupted`: the context was done first; then the error
-- of killing the process group, those two again, whether the context of the execution ran into its
-- deadline, whether that of the request is done, and the text of the former's error.
pub data Ended : Type 0 where
  exited : Option Text → Option ℤ → Ended
  interrupted : Option Text → Option Text → Option ℤ → Bool → Bool → Text → Ended

-- What a process does: the error of `Start`, if any; what it writes; how it ends; and the time that
-- the clock shows then.
pub record Process : Type 0 where
  pub start_error : Option Text
  pub stdout_writes : List Text
  pub stderr_writes : List Text
  pub ended : Ended
  pub finished_now : Time
