-- ===== src/Execution/Service/Faults.antt =====
-- internal/execution: an execution whose database fails when it ends.
use microhook.Prelude.{ℕ, ◌≡◌, ◌⊎◌, Result, ok}
use microhook.Storage.{StorageError, UpdateRunParams}
use microhook.Storage.Tables
use microhook.Storage.Tables.{Db, UpdateRow}
use microhook.Storage.Rows.{Json, check_update}
use microhook.Storage.Repository
use microhook.Execution.{Process}
use microhook.Execution.Runner.{Messages, judge}
use microhook.Execution.Service.{continue as continue_run}
use microhook.Execution.Service.{Pending, Service, update_params}

-- The tables are as they were, or the columns of a run were set as the parameters say.
abbrev pub IsUpdated : UpdateRunParams → Db → Db → Type 0
IsUpdated p before after =
    (after ≡ before)
    ⊎ ((row : UpdateRow) × (check_update p ≡ ok row)
        × (after ≡ (Tables.update_run p.id row before).0))

abbrev set_columns : UpdateRunParams → UpdateRow → Db → Result StorageError ℕ × Db
set_columns p row db = let (db', n) = Tables.update_run p.id row db in (ok n, db')

module _ (json : Json) where
  module _ (messages : Messages) (process : Process) (p : Pending) where
    abbrev pub ended_params : UpdateRunParams
    ended_params =
        let v = judge messages p.action process in update_params json p.run v.status v.result
