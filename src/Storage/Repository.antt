-- ===== src/Storage/Repository.antt =====
-- internal/storage/repository.go: the operations of the store, as sequences of driver calls. The
-- time that `time.Now` gives is an argument, and so are the JSON package and the decimal numbers of
-- `strconv`.
pub mod Create
pub mod Atomic
pub mod Retention
pub mod Reads
pub mod Update
use microhook.Prelude.{
  ℕ, ◌+◌, ◌-◌, Text, bytes, pos_part, is_neg, is_pos, Bool, true, false, not, ◌&&◌, ◌||◌, List,
  Option, none, some, eqb, is_blank, is_empty, trim_space, ◌==◌, if◌then◌else◌, Result, ok, err,
}
use microhook.Storage.{
  Time, zero_time, unix, StorageError, run_not_found, invalid_run_state, invalid_retention,
  driver_failed, decode_failed, Run, CreateRunParams, UpdateRunParams, RunFilter, RetentionPolicy,
  RetentionResult, run_status_running,
}
use microhook.Storage.Tables
use microhook.Storage.Tables.{RunRow, SnapshotRow, RunRecord, Db}
use microhook.Storage.Session.{Op, Store, lift, driver, transaction, ◌>>=◌, ◌>>◌}
use microhook.Storage.Rows.{
  Json, Checked, require, validate_run_status, snapshot_row, run_from_record, runs_from_records,
  check_create, check_update,
}

abbrev pub none_as : StorageError → Option Db → Db → Checked (Unit {0}) × Db
none_as e none db = (err e, db)
none_as e (some db') db = (ok tt, db')

unfoldable pub insert_run : RunRow → Op (Unit {0})
unfolding driver Tables.insert_run
insert_run row = driver (λ db. none_as driver_failed (Tables.insert_run row db) db)

unfoldable pub insert_snapshot : SnapshotRow → Op (Unit {0})
unfolding driver Tables.insert_snapshot
insert_snapshot row = driver (λ db. none_as driver_failed (Tables.insert_snapshot row db) db)

abbrev pub select_statement : Text → Db → Checked RunRecord × Db
select_statement id db =
    (elim (Tables.get_run id db) [ none ↦ err run_not_found | some r ↦ ok r ], db)

unfoldable pub select_run : Text → Op RunRecord
unfolding driver Tables.get_run
select_run id = driver (select_statement id)

abbrev pub retention_last_pruned_at_key : Text
retention_last_pruned_at_key = bytes "retention_last_pruned_at_unix_nano"

unfoldable pub update_run : UpdateRunParams → Op (Unit {0})
update_run p = do
  row ← lift (check_update p)
  affected ← driver (λ db. let (db', n) = Tables.update_run p.id row db in (ok n, db'))
  lift (require (not (eqb affected 0)) run_not_found)

-- The switch of `ListRuns`, on the trimmed filter.
unfoldable pub list_statement : (action_name : Text) → (status : Text) → Db → List RunRecord
unfolding Tables.list_runs Tables.list_runs_by_action_name Tables.list_runs_by_status
    Tables.list_runs_by_action_name_and_status
list_statement action_name status db =
    if not (is_empty action_name) && not (is_empty status)
    then Tables.list_runs_by_action_name_and_status action_name status db
    else if not (is_empty action_name)
    then Tables.list_runs_by_action_name action_name db
    else if not (is_empty status)
    then Tables.list_runs_by_status status db
    else Tables.list_runs db

module _ (json : Json) where
  unfoldable pub get_run : Text → Op Run
  unfolding select_run
  get_run id = do
    lift (require (not (is_blank id)) invalid_run_state)
    r ← select_run id
    lift (run_from_record json r)

  unfoldable pub create_run : Time → CreateRunParams → Op Run
  create_run now p = do
    row ← lift (check_create json now p)
    transaction (insert_run row >> insert_snapshot (snapshot_row json p.id p.action_snapshot))
    get_run p.id

  unfoldable pub list_runs : RunFilter → Op (List Run)
  list_runs f = do
    let action_name = trim_space f.action_name
    let status = trim_space f.status
    lift (if is_empty status then ok tt else validate_run_status status)
    records ← driver (λ db. (ok (list_statement action_name status db), db))
    lift (runs_from_records json records)

-- A statement that deletes, where its test is set.
abbrev pub delete_if : Bool → (Db → Db × ℕ) → Op ℕ
delete_if true delete = driver (λ db. let (db', n) = delete db in (ok n, db'))
delete_if false delete = lift (ok 0)

unfoldable pub set_metadata : Text → Text → Op (Unit {0})
set_metadata key value = driver (λ db. (ok tt, Tables.set_metadata key value db))

module _ (format_int : ℕ → Text) where
  -- `created < now - max_age` in whole numbers; a cutoff before 1970 deletes nothing.
  unfoldable pub prune : ℕ → RetentionPolicy → Op ℕ
  unfolding set_metadata
  prune now policy = do
    old ←
        delete_if (is_pos policy.max_age)
          (Tables.delete_runs_older_than run_status_running (now - pos_part policy.max_age))
    over ←
        delete_if (is_pos policy.max_runs)
          (Tables.delete_runs_overflow run_status_running (pos_part policy.max_runs))
    set_metadata retention_last_pruned_at_key (format_int now)
    lift (ok (old + over))

  unfoldable pub apply_retention : ℕ → RetentionPolicy → Op RetentionResult
  unfolding prune transaction
  apply_retention now policy = do
    lift (require (not (is_neg policy.max_age || is_neg policy.max_runs)) invalid_retention)
    deleted ← transaction (prune now policy)
    lift (ok (record { deleted_runs = deleted; pruned_at = unix now }))

-- `getMetadata`: `sql.ErrNoRows` is no error here.
unfoldable pub get_metadata : Text → Op (Option Text)
get_metadata key = driver (λ db. (ok (Tables.get_metadata key db), db))

unfoldable pub last_retention_prune_at : (Text → Option ℕ) → Op (Option Time)
last_retention_prune_at parse_int = do
  value ← get_metadata retention_last_pruned_at_key
  lift (elim value [
    | none ↦ ok none
    | some text ↦ elim (parse_int text) [ none ↦ err decode_failed | some n ↦ ok (some (unix n)) ]
  ])
