-- ===== src/Storage/Tables.antt =====
-- The tables of internal/storage/sql/storage_schemas.sql and the statements of
-- internal/storage/sqlc/storage_queries.sql.go, as functions on the rows.
pub mod Lookups
pub mod Order
pub mod Listing
pub mod Retention
pub mod Newest
pub mod Overflow
pub mod Unique
use microhook.Prelude.{
  ℕ, ◌+◌, Text, ℤ, pos, Bool, true, false, not, ◌&&◌, List, [], ◌∷◌, ◌++◌, Map, Option, none, some,
  eqb, ltb, length, drop, keep, contains, map, insert, lookup, text_le, ◌==◌, if◌then◌else◌,
}

-- `microhook_runs`
pub record RunRow : Type 0 where
  pub id : Text
  pub action_name : Text
  pub status : Text
  pub exit_code : Option ℤ
  pub created_at_unix_nano : ℕ
  pub started_at_unix_nano : Option ℕ
  pub finished_at_unix_nano : Option ℕ
  pub timed_out : ℕ
  pub request_metadata_json : Text
  pub stdout_tail : Text
  pub stderr_tail : Text
  pub error_summary : Text

-- `microhook_action_snapshots`
pub record SnapshotRow : Type 0 where
  pub run_id : Text
  pub description : Text
  pub mode : Text
  pub command_json : Text
  pub shell_command : Text
  pub cwd : Text
  pub timeout_nanoseconds : ℤ
  pub env_json : Text
  pub concurrency_policy : Text
  pub max_output_bytes : ℤ
  pub enabled : ℕ

pub record Db : Type 0 where
  pub runs : List RunRow
  pub snapshots : List SnapshotRow
  pub metadata : Map Text

-- A row of the view `microhook_run_records`.
pub record RunRecord : Type 0 where
  pub run : RunRow
  pub snapshot : SnapshotRow

-- The columns that `UpdateRun` sets.
pub record UpdateRow : Type 0 where
  pub status : Text
  pub exit_code : Option ℤ
  pub started_at_unix_nano : Option ℕ
  pub finished_at_unix_nano : Option ℕ
  pub timed_out : ℕ
  pub stdout_tail : Text
  pub stderr_tail : Text
  pub error_summary : Text

unfoldable pub find_run : Text → List RunRow → Option RunRow
find_run id [] = none
find_run id (r ∷ rs) = if r.id == id then some r else find_run id rs

unfoldable pub find_snapshot : Text → List SnapshotRow → Option SnapshotRow
find_snapshot id [] = none
find_snapshot id (s ∷ ss) = if s.run_id == id then some s else find_snapshot id ss

-- The primary key refuses a second row of one id.
unfoldable pub insert_run : RunRow → Db → Option Db
insert_run row db = elim (find_run row.id db.runs) [
  | some _ ↦ none
  | none ↦ some (record db { runs = db.runs ++ row ∷ [] })
]

-- So does that of the snapshots, and the foreign key wants a run of that id.
unfoldable pub insert_snapshot : SnapshotRow → Db → Option Db
insert_snapshot row db = elim (find_run row.run_id db.runs) [
  | none ↦ none
  | some _ ↦ elim (find_snapshot row.run_id db.snapshots) [
    | some _ ↦ none
    | none ↦ some (record db { snapshots = db.snapshots ++ row ∷ [] })
  ]
]

abbrev pub set_row : UpdateRow → RunRow → RunRow
set_row u r = record r {
  status = u.status;
  exit_code = u.exit_code;
  started_at_unix_nano = u.started_at_unix_nano;
  finished_at_unix_nano = u.finished_at_unix_nano;
  timed_out = u.timed_out;
  stdout_tail = u.stdout_tail;
  stderr_tail = u.stderr_tail;
  error_summary = u.error_summary;
}

-- `UPDATE … WHERE id = …`: the rows, and how many were affected.
unfoldable pub update_rows : Text → UpdateRow → List RunRow → List RunRow × ℕ
update_rows id u [] = ([], 0)
update_rows id u (r ∷ rs) =
    let (rows, affected) = update_rows id u rs in
    if r.id == id then (set_row u r ∷ rows, affected + 1) else (r ∷ rows, affected)

unfoldable pub update_run : Text → UpdateRow → Db → Db × ℕ
unfolding update_rows
update_run id u db =
    let (rows, affected) = update_rows id u db.runs in (record db { runs = rows }, affected)

-- The view joins each run with the snapshot of its id, of which the primary key allows one.
unfoldable pub run_records : List SnapshotRow → List RunRow → List RunRecord
unfolding find_snapshot
run_records ss [] = []
run_records ss (r ∷ rs) = elim (find_snapshot r.id ss) [
  | none ↦ run_records ss rs
  | some s ↦ record { run = r; snapshot = s } ∷ run_records ss rs
]

unfoldable pub find_record : Text → List RunRecord → Option RunRecord
find_record id [] = none
find_record id (r ∷ rs) = if r.run.id == id then some r else find_record id rs

-- `none` is `sql.ErrNoRows`.
unfoldable pub get_run : Text → Db → Option RunRecord
unfolding find_record run_records
get_run id db = find_record id (run_records db.snapshots db.runs)

-- `ORDER BY created_at_unix_nano DESC, id DESC`
unfoldable pub not_older : RunRow → RunRow → Bool
not_older a b =
    if ltb b.created_at_unix_nano a.created_at_unix_nano
    then true
    else if ltb a.created_at_unix_nano b.created_at_unix_nano
    then false
    else text_le b.id a.id

module _ {ℓ} {A : Type ℓ} (row : A → RunRow) where
  unfoldable pub insert_by_age : A → List A → List A
  unfolding not_older
  insert_by_age a [] = a ∷ []
  insert_by_age a (b ∷ bs) =
      let rest = insert_by_age a bs in if not_older (row a) (row b) then a ∷ b ∷ bs else b ∷ rest

  unfoldable pub newest_first : List A → List A
  unfolding insert_by_age
  newest_first [] = []
  newest_first (a ∷ as') = insert_by_age a (newest_first as')

abbrev pub run_of : RunRecord → RunRow
run_of r = r.run

-- `SELECT … WHERE …` on the view, in the order of its statements.
unfoldable pub list_where : (RunRow → Bool) → Db → List RunRecord
unfolding newest_first run_records keep
list_where wanted db =
    newest_first run_of (keep (λ r. wanted r.run) (run_records db.snapshots db.runs))

unfoldable pub list_runs : Db → List RunRecord
unfolding list_where
list_runs = list_where (λ r. true)

unfoldable pub list_runs_by_action_name : Text → Db → List RunRecord
unfolding list_where
list_runs_by_action_name action_name = list_where (λ r. r.action_name == action_name)

unfoldable pub list_runs_by_status : Text → Db → List RunRecord
unfolding list_where
list_runs_by_status status = list_where (λ r. r.status == status)

unfoldable pub list_runs_by_action_name_and_status : Text → Text → Db → List RunRecord
unfolding list_where
list_runs_by_action_name_and_status action_name status =
    list_where (λ r. r.action_name == action_name && r.status == status)

-- `DELETE … WHERE id IN (…)`, which cascades to the snapshots: what is left, and how many runs went.
unfoldable pub delete_runs : List Text → Db → Db × ℕ
unfolding keep contains
delete_runs ids db = (
  record db {
    runs = keep (λ r. not (contains ids r.id)) db.runs;
    snapshots = keep (λ s. not (contains ids s.run_id)) db.snapshots;
  },
  length (keep (λ r. contains ids r.id) db.runs),
)

unfoldable pub delete_runs_older_than : Text → ℕ → Db → Db × ℕ
unfolding delete_runs
delete_runs_older_than excluded_status created_before db =
    delete_runs
      (map (λ r. r.id)
        (keep (λ r. not (r.status == excluded_status) && ltb r.created_at_unix_nano created_before)
          db.runs))
      db

-- `LIMIT -1 OFFSET max_runs`
unfoldable pub delete_runs_overflow : Text → ℕ → Db → Db × ℕ
unfolding delete_runs newest_first
delete_runs_overflow excluded_status max_runs db =
    delete_runs
      (map (λ r. r.id)
        (drop max_runs
          (newest_first (λ r. r) (keep (λ r. not (r.status == excluded_status)) db.runs))))
      db

-- `ON CONFLICT(key) DO UPDATE`
unfoldable pub set_metadata : Text → Text → Db → Db
unfolding insert
set_metadata key value db = record db { metadata = insert key value db.metadata }

unfoldable pub get_metadata : Text → Db → Option Text
unfolding lookup
get_metadata key db = lookup key db.metadata
