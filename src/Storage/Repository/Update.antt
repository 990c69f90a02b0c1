-- ===== src/Storage/Repository/Update.antt =====
-- What `UpdateRun` changes, and what it leaves.
use microhook.Prelude.{
  ◌≡◌, refl, sym, ap, ◌∙◌, Text, none, some, arith, ok, err, eq_refl, eq_iff, Bool-cases, inl, inr,
  ◌==◌, if◌then◌else◌, ℕ, Option, Bool, true, false, not, eqb, is_blank, >>=-eq-ok, Option-cases,
}
use microhook.Storage.{
  StorageError, ActionSnapshot, Run, invalid_run_state, run_not_found, UpdateRunParams,
}
use microhook.Storage.Tables
use microhook.Storage.Tables.{
  RunRow, SnapshotRow, RunRecord, UpdateRow, Db, find_run, find_snapshot, set_row, update_rows,
}
use microhook.Storage.Tables.Lookups.{
  join-some, get_run_lem, find_run-update_rows, update_rows-none, update_rows-some,
}
use microhook.Storage.Session.{driver}
use microhook.Storage.Rows.{
  Json, Checked, require, validate_run_status, nullable_unix_nano, bool_to_int64, optional_time,
  check_update, snapshot_of, run_of_row, run_from_record,
}
use microhook.Storage.Repository.{update_run, get_run, select_run}
use microhook.Storage.Repository.Create.{
  quiet, nullable_unix_nano-optional_time, get_run_found, decoded_run,
}

module _ (p : UpdateRunParams) (row : UpdateRow) (checked : check_update p ≡ ok row) where
  -- With parameters that pass the checks and a driver that does not fail, an update of a run that
  -- is not there is an error, and nothing changes.
  pub update_run_missing :
      (db : Db)
      → find_run p.id db.runs ≡ none
      → update_run p (quiet db) ≡ (err run_not_found, quiet db)
  unfolding update_run driver Tables.update_run
  update_run_missing db h = ground (arith, update_rows-none p.id row db.runs)

  -- The rows of an update.
  pub update_run-get_run :
      (db : Db) (r : RunRow) (s : SnapshotRow) (j : Text)
      → find_run p.id db.runs ≡ some r
      → find_snapshot p.id db.snapshots ≡ some s
      → let db' = (Tables.update_run p.id row db).0 in
        (update_run p (quiet db) ≡ (ok tt, quiet db'))
        × (Tables.get_run j db' ≡ (
            if p.id == j
            then some (record { run = set_row row r; snapshot = s })
            else Tables.get_run j db))
  unfolding update_run driver Tables.update_run
  update_run-get_run db r s j found snapshot = (
    ground (arith, update_rows-some p.id row db.runs r found),
    get_run_lem j _ ∙ elim (Bool-cases (p.id == j)) [
      | inl e ↦
          let same = (eq_iff p.id j).0 e in
          rw (find_run-update_rows p.id j row db.runs, ← same, eq_refl p.id, found, snapshot)
      | inr e ↦ rw (find_run-update_rows p.id j row db.runs, e) (sym (get_run_lem j db))
    ],
  )

-- What is written of a flag is read back.
pub eqb-bool_to_int64 : (b : Bool) → not (eqb (bool_to_int64 b) 0) ≡ b
unfolding bool_to_int64
eqb-bool_to_int64 true = refl
eqb-bool_to_int64 false = refl

-- The run that an update with these parameters makes of a run.
abbrev pub updated_run : UpdateRunParams → Run → Run
updated_run p run = record {
  id = run.id;
  action_name = run.action_name;
  status = p.status;
  exit_code = p.exit_code;
  created_at = run.created_at;
  started_at = p.started_at;
  finished_at = p.finished_at;
  timed_out = p.timed_out;
  request_metadata = run.request_metadata;
  stdout_tail = p.stdout_tail;
  stderr_tail = p.stderr_tail;
  error_summary = p.error_summary;
  action_snapshot = run.action_snapshot;
}

-- Columns that passed the checks make the run that the parameters describe.
check_update-run_of_row :
    (p : UpdateRunParams) (r : RunRow) (a : ActionSnapshot) {row : UpdateRow}
    → check_update p ≡ ok row
    → (run_of_row (set_row row r) a ≡ updated_run p (run_of_row r a)) × (is_blank p.id ≡ false)
unfolding check_update
check_update-run_of_row p r a {row} h =
    let (_, named, h1) = >>=-eq-ok (require (not (is_blank p.id)) _) _ h in
    let (_, _, h2) = >>=-eq-ok (validate_run_status p.status) _ h1 in
    let (started, from, h3) = >>=-eq-ok (nullable_unix_nano p.started_at) _ h2 in
    let (finished, to, h4) = >>=-eq-ok (nullable_unix_nano p.finished_at) _ h3 in
    row_facts (sym (ok-injective h4)) (nullable_unix_nano-optional_time _ from)
      (nullable_unix_nano-optional_time _ to) (require-ok (is_blank p.id) invalid_run_state named)
  where
    ok-injective : {u v : UpdateRow} → ◌≡◌ {A = Checked UpdateRow} (ok u) (ok v) → u ≡ v
    ok-injective e = cc

    require-ok : (b : Bool) (e : StorageError) {u : Unit {0}} → require (not b) e ≡ ok u → b ≡ false
    require-ok true e h = cc
    require-ok false e h = refl

    row_facts :
        {started finished : Option ℕ}
        → row ≡ record {
          status = p.status;
          exit_code = p.exit_code;
          started_at_unix_nano = started;
          finished_at_unix_nano = finished;
          timed_out = bool_to_int64 p.timed_out;
          stdout_tail = p.stdout_tail;
          stderr_tail = p.stderr_tail;
          error_summary = p.error_summary;
        }
        → optional_time started ≡ p.started_at
        → optional_time finished ≡ p.finished_at
        → is_blank p.id ≡ false
        → (run_of_row (set_row row r) a ≡ updated_run p (run_of_row r a)) × (is_blank p.id ≡ false)
    row_facts e from to named = rw (e, from, to, eqb-bool_to_int64 p.timed_out) (refl, named)

module _ (json : Json) where
  -- What is read of an identifier is told by its record.
  get_run-same :
      (j : Text) (db db' : Db)
      → Tables.get_run j db' ≡ Tables.get_run j db
      → (get_run json j (quiet db')).0 ≡ (get_run json j (quiet db)).0
  unfolding get_run select_run driver
  get_run-same j db db' h = elim (Bool-cases (is_blank j)) [
    | inl e ↦ rw e refl
    | inr e ↦ elim (Option-cases (Tables.get_run j db)) [
      | inl none_there ↦ rw (e, h, none_there) refl
      | inr (r, there) ↦ rw (e, h, there) refl
    ]
  ]

  -- With parameters that pass the checks and a driver that does not fail, an update of a run that can
  -- be read succeeds. Read afterwards, the run has the status, the exit code, the times, the flag, the
  -- tails and the summary of the parameters, and its identifier, action, time of creation, metadata
  -- and snapshot are as they were; whatever is read of another identifier is as it was.
  pub get_run-update_run :
      (p : UpdateRunParams) (row : UpdateRow) (db : Db) (r : RunRecord) (run : Run)
      → check_update p ≡ ok row
      → Tables.get_run p.id db ≡ some r
      → run_from_record json r ≡ ok run
      → (db' : Db) × (update_run p (quiet db) ≡ (ok tt, quiet db'))
        × ((j : Text)
            → (get_run json j (quiet db')).0
              ≡ (if p.id == j then ok (updated_run p run) else (get_run json j (quiet db)).0))
  unfolding run_from_record
  get_run-update_run p row db r run checked found decoded =
      let rows : (find_run p.id db.runs ≡ some r.run)
          × (find_snapshot p.id db.snapshots ≡ some r.snapshot) =
        join-some _ _ r (sym (get_run_lem p.id db) ∙ found) in
      let (a, readable, same) = >>=-eq-ok (snapshot_of json r.snapshot) _ decoded in
      let (described, named) = check_update-run_of_row p r.run a checked in
      let updated = update_run-get_run p row checked db r.run r.snapshot in
      let db' : Db = (Tables.update_run p.id row db).0 in
      let was : run_of_row r.run a ≡ run = cc in
      let here : Tables.get_run p.id db'
          ≡ some (record { run = set_row row r.run; snapshot = r.snapshot }) =
        (updated p.id rows.0 rows.1).1 ∙ rw (eq_refl p.id) in
      let read = get_run_found json p.id db' named here (
        decoded_run json (set_row row r.run) r.snapshot readable
          (described ∙ ap (updated_run p) was)) in
      (
        db',
        (updated p.id rows.0 rows.1).0,
        λ j. elim (Bool-cases (p.id == j)) [
          | inl e ↦ rw e (
              ap (λ k. (get_run json k (quiet db')).0) (sym ((eq_iff p.id j).0 e))
              ∙ ap (λ u. u.0) read)
          | inr e ↦ rw e (get_run-same j db db' ((updated j rows.0 rows.1).1 ∙ rw e))
        ],
      )
