-- ===== src/Storage/Repository/Create.antt =====
-- What `CreateRun` stores, and what `GetRun` reads back.
use microhook.Prelude.{
  ℕ, ◌≡◌, refl, sym, ◌∙◌, Text, Bool, true, false, not, [], ◌∷◌, ◌++◌, Option, none, some, arith,
  is_blank, ok, >>=-eq-ok, ap, inl, inr, Bool-cases, ◌==◌, if◌then◌else◌, eq_refl, eq_iff,
}
use microhook.Storage.{
  Time, zero_time, unix, StorageError, invalid_run_state, ActionSnapshot, Run, CreateRunParams,
}
use microhook.Storage.Tables
use microhook.Storage.Tables.{RunRow, SnapshotRow, RunRecord, Db, find_run, find_snapshot}
use microhook.Storage.Tables.Lookups.{
  get_run_lem, find_run-append, find_run-append_other, find_snapshot-append_other,
  find_snapshot-append,
}
use microhook.Storage.Session.{Store, driver, transaction, ◌>>◌}
use microhook.Storage.Rows.{
  Json, Checked, require, validate_run_status, validate_action_snapshot, or_now, optional_time,
  normalize_time, nullable_unix_nano, normalize_raw_json, snapshot_row, snapshot_of, run_of_row,
  run_from_record, created_row, check_create, bool_to_int64,
}
use microhook.Storage.Repository.{create_run, get_run, select_run, insert_run, insert_snapshot}

-- The run that a call with these parameters creates.
abbrev pub created_run : Time → CreateRunParams → Run
created_run now p = record {
  id = p.id;
  action_name = p.action_name;
  status = p.status;
  exit_code = none;
  created_at = or_now now p.created_at;
  started_at = p.started_at;
  finished_at = none;
  timed_out = false;
  request_metadata = p.request_metadata;
  stdout_tail = p.stdout_tail;
  stderr_tail = p.stderr_tail;
  error_summary = p.error_summary;
  action_snapshot = p.action_snapshot;
}

normalize_time-unix : (t : Time) {n : ℕ} → normalize_time t ≡ ok n → unix n ≡ t
unfolding normalize_time
normalize_time-unix zero_time h = cc
normalize_time-unix (unix m) h = cc

pub nullable_unix_nano-optional_time :
    (t : Option Time) {o : Option ℕ} → nullable_unix_nano t ≡ ok o → optional_time o ≡ t
unfolding nullable_unix_nano
nullable_unix_nano-optional_time none h = ground arith
nullable_unix_nano-optional_time (some zero_time) h = cc
nullable_unix_nano-optional_time (some (unix m)) h = ground arith

-- What was marshalled is read back.
pub record Decodes (json : Json) (a : ActionSnapshot) : Type 0 where
  pub strings : json.unmarshal_strings (json.marshal_strings a.command) ≡ some a.command
  pub map : json.unmarshal_map (json.marshal_map a.env) ≡ some a.env

module _ (json : Json) where
  normalize_raw_json-eq : (m : Text) {n : Text} → normalize_raw_json json m ≡ ok n → n ≡ m
  unfolding normalize_raw_json
  normalize_raw_json-eq [] h = ground arith
  normalize_raw_json-eq (b ∷ m) h = ground arith

  pub snapshot_of-snapshot_row :
      (id : Text) (a : ActionSnapshot)
      → Decodes json a
      → snapshot_of json (snapshot_row json id a) ≡ ok a
  unfolding snapshot_of snapshot_row bool_to_int64
  snapshot_of-snapshot_row id a d = ground (arith, d.strings, d.map)

  -- A row that passed the checks stands for the run that the parameters describe.
  pub check_create-run_of_row :
      (now : Time) (p : CreateRunParams) {row : RunRow}
      → check_create json now p ≡ ok row
      → (run_of_row row p.action_snapshot ≡ created_run now p)
        × (row.id ≡ p.id)
        × (is_blank p.id ≡ false)
  unfolding check_create
  check_create-run_of_row now p {row} h =
      let (_, named, h1) = >>=-eq-ok (require (not (is_blank p.id)) _) _ h in
      let (_, _, h2) = >>=-eq-ok (require (not (is_blank p.action_name)) _) _ h1 in
      let (_, _, h3) = >>=-eq-ok (validate_run_status p.status) _ h2 in
      let (_, _, h4) = >>=-eq-ok (validate_action_snapshot p.action_snapshot) _ h3 in
      let (created, at, h5) = >>=-eq-ok (normalize_time (or_now now p.created_at)) _ h4 in
      let (started, from, h6) = >>=-eq-ok (nullable_unix_nano p.started_at) _ h5 in
      let (metadata, given, h7) = >>=-eq-ok (normalize_raw_json json p.request_metadata) _ h6 in
      row_facts (sym (ok-injective h7)) (normalize_time-unix _ at)
        (nullable_unix_nano-optional_time _ from) (normalize_raw_json-eq _ given)
        (require-ok (is_blank p.id) invalid_run_state named)
    where
      ok-injective : {r q : RunRow} → ◌≡◌ {A = Checked RunRow} (ok r) (ok q) → r ≡ q
      ok-injective e = cc

      require-ok :
          (b : Bool) (e : StorageError) {u : Unit {0}} → require (not b) e ≡ ok u → b ≡ false
      require-ok true e h = cc
      require-ok false e h = refl

      row_facts :
          {created : ℕ} {started : Option ℕ} {metadata : Text}
          → row ≡ created_row p created started metadata
          → unix created ≡ or_now now p.created_at
          → optional_time started ≡ p.started_at
          → metadata ≡ p.request_metadata
          → is_blank p.id ≡ false
          → (run_of_row row p.action_snapshot ≡ created_run now p)
            × (row.id ≡ p.id)
            × (is_blank p.id ≡ false)
      row_facts e at from given named = rw (e, at, from, given) (refl, refl, named)

-- A store whose driver does not fail.
abbrev pub quiet : Db → Store
quiet db = record { db = db; faults = [] }

-- The tables with one more run.
abbrev pub with_run : Db → RunRow → SnapshotRow → Db
with_run db row snapshot = record db {
  runs = db.runs ++ row ∷ [];
  snapshots = db.snapshots ++ snapshot ∷ [];
}

module _ (row : RunRow) (snapshot : SnapshotRow) (db : Db) (same : row.id ≡ snapshot.run_id)
    (new : find_run snapshot.run_id db.runs ≡ none)
    (new_snapshot : find_snapshot snapshot.run_id db.snapshots ≡ none) where
  inserted_run : Tables.insert_run row db ≡ some (record db { runs = db.runs ++ row ∷ [] })
  unfolding Tables.insert_run
  inserted_run = ground arith

  inserted_snapshot :
      Tables.insert_snapshot snapshot (record db { runs = db.runs ++ row ∷ [] })
      ≡ some (with_run db row snapshot)
  unfolding Tables.insert_snapshot
  inserted_snapshot =
      ground (arith, find_run-append snapshot.run_id db.runs row new, eq_iff row.id snapshot.run_id)

  pub get_run-with_run :
      Tables.get_run snapshot.run_id (with_run db row snapshot)
      ≡ some (record { run = row; snapshot = snapshot })
  get_run-with_run =
      get_run_lem snapshot.run_id (with_run db row snapshot)
      ∙ rw (
        find_run-append snapshot.run_id db.runs row new,
        find_snapshot-append snapshot.run_id db.snapshots snapshot new_snapshot,
        same,
        eq_refl snapshot.run_id,
      )

  -- The new record, and every other as it was.
  pub get_run-with_run_all :
      (j : Text)
      → Tables.get_run j (with_run db row snapshot) ≡ (
          if snapshot.run_id == j
          then some (record { run = row; snapshot = snapshot })
          else Tables.get_run j db)
  get_run-with_run_all j = elim (Bool-cases (snapshot.run_id == j)) [
    | inl e ↦
        let here = (eq_iff snapshot.run_id j).0 e in
        rw e (ap (λ k. Tables.get_run k (with_run db row snapshot)) (sym here) ∙ get_run-with_run)
    | inr e ↦
        let apart : (row.id == j) ≡ false = rw same e in
        rw e (
          get_run_lem j (with_run db row snapshot)
          ∙ rw
              (
                find_run-append_other j db.runs row apart,
                find_snapshot-append_other j db.snapshots snapshot e,
              )
              (sym (get_run_lem j db)))
  ]

  transaction_lem :
      transaction (insert_run row >> insert_snapshot snapshot) (quiet db)
      ≡ (ok tt, quiet (with_run db row snapshot))
  unfolding transaction insert_run insert_snapshot
  transaction_lem = ground (arith, inserted_run, inserted_snapshot)

module _ (json : Json) where
  -- Where the driver does not fail, a run of a record that decodes is found.
  pub get_run_found :
      (id : Text) (db : Db) {r : RunRecord} {run : Run}
      → is_blank id ≡ false
      → Tables.get_run id db ≡ some r
      → run_from_record json r ≡ ok run
      → get_run json id (quiet db) ≡ (ok run, quiet db)
  unfolding get_run select_run driver
  get_run_found id db h e d = ground arith

  pub decoded_run :
      (row : RunRow) (snapshot : SnapshotRow) {a : ActionSnapshot} {run : Run}
      → snapshot_of json snapshot ≡ ok a
      → run_of_row row a ≡ run
      → run_from_record json (record { run = row; snapshot = snapshot }) ≡ ok run
  unfolding run_from_record
  decoded_run row snapshot e f = ground arith

  -- With a driver that does not fail, a JSON package that decodes the snapshot's command and
  -- environment as it encoded them, and parameters that pass the checks, a run of a new identifier is
  -- created as the parameters say, and is read back so afterwards.
  pub create_run-get_run :
      (now : Time) (p : CreateRunParams) (db : Db) (row : RunRow)
      → Decodes json p.action_snapshot
      → check_create json now p ≡ ok row
      → find_run p.id db.runs ≡ none
      → find_snapshot p.id db.snapshots ≡ none
      → let s' = quiet (with_run db row (snapshot_row json p.id p.action_snapshot)) in
        (create_run json now p (quiet db) ≡ (ok (created_run now p), s'))
        × (get_run json p.id s' ≡ (ok (created_run now p), s'))
  unfolding create_run snapshot_row
  create_run-get_run now p db row decodes checked new new_snapshot =
      let snapshot = snapshot_row json p.id p.action_snapshot in
      let (described, same, named) = check_create-run_of_row json now p checked in
      let decoded = snapshot_of-snapshot_row json p.id p.action_snapshot decodes in
      let read =
        get_run_found p.id (with_run db row snapshot) named
          (get_run-with_run row snapshot db same new new_snapshot)
          (decoded_run row snapshot decoded described) in
      (ground (arith, transaction_lem row snapshot db same new new_snapshot), read)
