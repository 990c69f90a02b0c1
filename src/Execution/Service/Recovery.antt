-- ===== src/Execution/Service/Recovery.antt =====
-- What a restart does to the runs that were left running.
use microhook.Prelude.{
  ℕ, ◌≡◌, refl, sym, ap, ◌∙◌, inl, inr, Text, Bool, true, false, List, [], ◌∷◌, Option, none, some,
  arith, trim_space, ◌==◌, eq_iff, if◌then◌else◌, ok, All, Bool-cases, Option-cases,
}
use microhook.Storage.{Time, unix, Run, run_status_running, run_status_cancelled}
use microhook.Storage.Tables
use microhook.Storage.Tables.{
  RunRow, RunRecord, UpdateRow, Db, find_record, run_records, set_row, list_where,
}
use microhook.Storage.Tables.Listing.{
  IsDistinct, only, only-some, All-find_record, list_where-IsDistinct, find_record-list_where,
}
use microhook.Storage.Tables.Retention.{IsUnique}
use microhook.Storage.Tables.Unique.{IsUnique-update_run}
use microhook.Storage.Session.{driver}
use microhook.Storage.Rows.{
  Json, bool_to_int64, validate_run_status, is_run_status, run_of_row, run_from_record,
  runs_from_records,
}
use microhook.Storage.Repository
use microhook.Storage.Repository.{list_statement}
use microhook.Storage.Repository.Create.{quiet}
use microhook.Execution.Service.{Service, stored, cancel_runs, recover, restarted_run_summary}
use microhook.Execution.Runner.{ProcessResult}
use microhook.Execution.Service.Ending.{
  IsDecoded, on, ended_row, finish_run-IsDecoded, check_update-ended_row,
}

-- What is recorded of an execution that a restart cut off.
abbrev pub cut_off : Time → Text → ProcessResult
cut_off now summary = record {
  exit_code = none;
  finished_at = now;
  timed_out = false;
  stdout_tail = [];
  stderr_tail = [];
  error_summary = summary;
}

abbrev pub cancelled_row : ℕ → Text → RunRow → UpdateRow
cancelled_row now summary r =
    ended_row r.started_at_unix_nano now run_status_cancelled (cut_off (unix now) summary)

-- The record of a run that is cancelled now with this summary.
abbrev pub cancelled_record : ℕ → Text → RunRecord → RunRecord
cancelled_record now summary r = record {
  run = record {
    id = r.run.id;
    action_name = r.run.action_name;
    status = run_status_cancelled;
    exit_code = none;
    created_at_unix_nano = r.run.created_at_unix_nano;
    started_at_unix_nano = r.run.started_at_unix_nano;
    finished_at_unix_nano = some now;
    timed_out = 0;
    request_metadata_json = r.run.request_metadata_json;
    stdout_tail = [];
    stderr_tail = [];
    error_summary = summary;
  };
  snapshot = r.snapshot;
}

abbrev is_some : {A : Type 0} → Option A → Bool
is_some none = false
is_some (some a) = true

-- The record of a run that is told to be cancelled.
abbrev cancelled_if : Bool → ℕ → Text → Option RunRecord → Option RunRecord
cancelled_if b now summary none = none
cancelled_if b now summary (some r) = some (if b then cancelled_record now summary r else r)

cancelled-accepted : validate_run_status run_status_cancelled ≡ ok tt
unfolding validate_run_status is_run_status trim_space
cancelled-accepted = refl

abbrev pub is_running_row : RunRow → Bool
is_running_row r = r.status == run_status_running

-- What a restart makes of the record of a run, if there is one.
abbrev pub restarted : ℕ → Option RunRecord → Option RunRecord
restarted now none = none
restarted now (some r) =
    some (if is_running_row r.run then cancelled_record now restarted_run_summary r else r)

module _ (json : Json) where
  abbrev runs_of : (rs : List RunRecord) → All (IsDecoded json) rs → List Run
  runs_of [] d = []
  runs_of (r ∷ rs) (d, ds) = run_of_row r.run d.action ∷ runs_of rs ds

  abbrev IsIn : Db → RunRecord → Type 0
  IsIn db r = Tables.get_run r.run.id db ≡ some r

  IsIn-kept :
      (id : Text) (other : Option RunRecord) (db db' : Db) (rs : List RunRecord)
      → find_record id rs ≡ none
      → ((j : Text) → Tables.get_run j db' ≡ (if id == j then other else Tables.get_run j db))
      → All (IsIn db) rs
      → All (IsIn db') rs
  unfolding find_record
  IsIn-kept id other db db' [] new kept h = tt
  IsIn-kept id other db db' (r ∷ rs) new kept (here, h) = elim (Bool-cases (r.run.id == id)) [
    | inl e ↦ let found : some r ≡ none = rw e at new in cc
    | inr e ↦
        let gone : find_record id rs ≡ none = rw e at new in
        let apart : (id == r.run.id) ≡ false =
          ground (arith, eq_iff id r.run.id, eq_iff r.run.id id) in
        let same : Tables.get_run r.run.id db' ≡ Tables.get_run r.run.id db =
          kept r.run.id ∙ rw apart in
        (same ∙ here, IsIn-kept id other db db' rs gone kept h)
  ]

  module _ (now : ℕ) (summary : Text) (s : Service) where
    abbrev cancelled : RunRecord → RunRecord
    cancelled = cancelled_record now summary

    cancelled_if-step :
        (j : Text) (r : RunRecord) (rs : List RunRecord) (db db' : Db) {out : Option RunRecord}
        → find_record r.run.id rs ≡ none
        → Tables.get_run r.run.id db ≡ some r
        → Tables.get_run j db' ≡ (if r.run.id == j then some (cancelled r) else Tables.get_run j db)
        → out ≡ cancelled_if (is_some (find_record j rs)) now summary (Tables.get_run j db')
        → out ≡ cancelled_if (is_some (find_record j (r ∷ rs))) now summary (Tables.get_run j db)
    unfolding find_record
    cancelled_if-step j r rs db db' new here kept h = elim (Bool-cases (r.run.id == j)) [
      | inl e ↦
          let same : r.run.id ≡ j = (eq_iff r.run.id j).0 e in
          let gone : find_record j rs ≡ none = ap (λ k. find_record k rs) (sym same) ∙ new in
          let before : Tables.get_run j db ≡ some r =
            ap (λ k. Tables.get_run k db) (sym same) ∙ here in
          let after : Tables.get_run j db' ≡ some (cancelled r) = rw e at kept in
          h ∙ rw (e, gone, before, after)
      | inr e ↦
          let after : Tables.get_run j db' ≡ Tables.get_run j db = rw e at kept in h ∙ rw (e, after)
    ]

    cancel_runs-IsDistinct :
        (rs : List RunRecord) (db : Db) (d : All (IsDecoded json) rs)
        → IsDistinct rs
        → All (IsIn db) rs
        → (db' : Db) × (cancel_runs json (unix now) summary (runs_of rs d) (on db s)
            ≡ (ok tt, on db' s))
          × ((j : Text)
              → Tables.get_run j db'
                ≡ cancelled_if (is_some (find_record j rs)) now summary (Tables.get_run j db))
          × (IsUnique db.runs → IsUnique db'.runs)
    unfolding cancel_runs find_record bool_to_int64
    cancel_runs-IsDistinct [] db d u i = (
      db,
      refl,
      λ j. elim (Option-cases (Tables.get_run j db)) [ inl e ↦ rw e | inr (r, e) ↦ rw e ],
      λ unique. unique,
    )
    cancel_runs-IsDistinct (r ∷ rs) db (d, ds) (new, u) (i, is) =
        let run : Run = run_of_row r.run d.action in
        let row = cancelled_row now summary r.run in
        let db1 : Db = (Tables.update_run r.run.id row db).0 in
        let out =
          finish_run-IsDecoded json run run_status_cancelled (cut_off (unix now) summary) row r db s
            d refl i
            (check_update-ended_row json run r.run.started_at_unix_nano now run_status_cancelled
              (cut_off (unix now) summary) d.named refl refl cancelled-accepted) in
        let (db', e, f, g) =
          cancel_runs-IsDistinct rs db1 ds u
            (IsIn-kept r.run.id (some (cancelled r)) db db1 rs new out.1 is) in
        (
          db',
          rw (out.0) e,
          λ j. cancelled_if-step j r rs db db1 new i (out.1 j) (f j),
          λ unique. g (IsUnique-update_run r.run.id row db unique),
        )

  decoded-runs_of :
      (rs : List RunRecord) (d : All (IsDecoded json) rs)
      → runs_from_records json rs ≡ ok (runs_of rs d)
  unfolding runs_from_records run_from_record
  decoded-runs_of [] d = refl
  decoded-runs_of (r ∷ rs) (d, ds) = rw (d.readable, decoded-runs_of rs ds)

  list_runs-running :
      (db : Db) (d : All (IsDecoded json) (list_where is_running_row db))
      → Repository.list_runs json
          (record { action_name = []; status = run_status_running })
          (quiet db)
        ≡ (ok (runs_of (list_where is_running_row db) d), quiet db)
  unfolding Repository.list_runs list_statement driver Tables.list_runs_by_status
      validate_run_status is_run_status trim_space
  list_runs-running db d = rw (decoded-runs_of (list_where is_running_row db) d)

  cancelled_if-restarted :
      (now : ℕ) (o : Option RunRecord)
      → cancelled_if (is_some (only is_running_row o)) now restarted_run_summary o ≡ restarted now o
  cancelled_if-restarted now none = refl
  cancelled_if-restarted now (some r) = elim (Bool-cases (is_running_row r.run)) [
    | inl e ↦ rw e
    | inr e ↦ rw e
  ]

  -- Where the driver does not fail, no two runs have one identifier, and every run with the status
  -- "running" has an identifier that is not blank and a snapshot that can be read, the recovery
  -- succeeds: each of these runs is cancelled now, with the summary of a restart, every other run stays
  -- as it was, and the identifiers are still unique.
  pub recover-restarted :
      (now : ℕ) (db : Db) (s : Service)
      → IsUnique db.runs
      → All (IsDecoded json) (list_where is_running_row db)
      → (db' : Db) × (recover json (unix now) (on db s) ≡ (ok tt, on db' s))
        × ((j : Text) → Tables.get_run j db' ≡ restarted now (Tables.get_run j db))
        × IsUnique db'.runs
  unfolding recover stored
  recover-restarted now db s u d =
      let rs = list_where is_running_row db in
      let listed = λ (j : Text). (find_record-list_where is_running_row j db u).0 in
      let distinct = list_where-IsDistinct is_running_row db u in
      let present : All (IsIn db) rs =
        All-find_record (IsIn db) rs distinct
          (λ r e. only-some is_running_row _ r (sym (listed r.run.id) ∙ e)) in
      let (db', e, f, g) =
        cancel_runs-IsDistinct now restarted_run_summary s rs db d distinct present in
      (
        db',
        rw (list_runs-running db d) e,
        λ j. f j ∙ rw (listed j) (cancelled_if-restarted now (Tables.get_run j db)),
        g u,
      )
