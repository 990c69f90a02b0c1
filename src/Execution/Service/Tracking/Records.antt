-- ===== src/Execution/Service/Tracking/Records.antt =====
-- The executions under way and the runs that the tables say are running, and what a new run, the end
-- of an execution and a restart do to them.
use microhook.Prelude.{
  ℕ, ◌+◌, ◌≡◌, refl, sym, ap, ◌∙◌, inl, inr, Text, Bool, true, false, List, [], ◌∷◌, ◌++◌, Option,
  none, some, arith, ◌==◌, eq_iff, if◌then◌else◌, Bool-cases, All, eq_refl,
}
use microhook.Storage.{RetentionPolicy, unix}
use microhook.Storage.Tables
use microhook.Storage.Tables.{
  RunRow, SnapshotRow, RunRecord, Db, find_run, find_snapshot, list_where,
}
use microhook.Storage.Tables.Lookups.{join-some, get_run_lem, find_run-id}
use microhook.Storage.Tables.Retention.{IsUnique}
use microhook.Storage.Tables.Listing.{
  only-some, only-wanted, All-find_record, list_where-IsDistinct, find_record-list_where,
}
use microhook.Storage.Tables.Unique.{IsUnique-append}
use microhook.Storage.Rows.{Json}
use microhook.Storage.Session.{Store}
use microhook.Storage.Repository.{apply_retention}
use microhook.Storage.Repository.Retention.{apply_retention-IsPruned, apply_retention-running}
use microhook.Storage.Repository.Create.{with_run, get_run-with_run_all}
use microhook.Execution.Service.{Pending}
use microhook.Execution.Service.Ending.{IsDecoded}
use microhook.Execution.Service.Recovery.{is_running_row, restarted}

-- How many of the executions under way are of the run of an identifier.
abbrev pub executions : Text → List Pending → ℕ
executions id [] = 0
executions id (p ∷ ps) = (if p.run.id == id then 1 else 0) + executions id ps

-- Whether there is a record, and its status is "running".
abbrev pub runs_in : Option RunRecord → Bool
runs_in none = false
runs_in (some r) = is_running_row r.run

abbrev pub IsStarted : Pending → Type 0
IsStarted p = (n : ℕ) × (p.run.started_at ≡ some (unix n))

-- Every run with the status "running" can be read back.
abbrev pub AreDecoded : Json → Db → Type 0
AreDecoded json db =
    (id : Text) (r : RunRecord)
    → Tables.get_run id db ≡ some r
    → is_running_row r.run ≡ true
    → IsDecoded json r

-- A run has the status "running" where exactly one execution of it is under way, and no other where
-- there is none; it can be read back.
pub record IsTracked (json : Json) (db : Db) (ps : List Pending) : Type 0 where
  pub unique : IsUnique db.runs
  pub counted : (id : Text) → executions id ps ≡ (if runs_in (Tables.get_run id db) then 1 else 0)
  pub decoded : AreDecoded json db
  pub started : All IsStarted ps

executions-append :
    (id : Text) (ps qs : List Pending)
    → executions id (ps ++ qs) ≡ executions id ps + executions id qs
executions-append id [] qs = omega arith
executions-append id (p ∷ ps) qs = omega (arith, executions-append id ps qs)

pub started-at :
    (front : List Pending) (p : Pending) (rest : List Pending)
    → All IsStarted (front ++ p ∷ rest)
    → IsStarted p × All IsStarted (front ++ rest)
started-at [] p rest h = h
started-at (q ∷ front) p rest (here, h) =
    let (found, others) = started-at front p rest h in (found, (here, others))

runs_in-true :
    (o : Option RunRecord)
    → runs_in o ≡ true
    → (r : RunRecord) × (o ≡ some r) × (is_running_row r.run ≡ true)
runs_in-true none h = cc
runs_in-true (some r) h = (r, refl, h)

pub get_run-id :
    (id : Text) (db : Db) (r : RunRecord) → Tables.get_run id db ≡ some r → r.run.id ≡ id
get_run-id id db r h =
    find_run-id id db.runs r.run (join-some _ _ r (sym (get_run_lem id db) ∙ h)).0

pub running_kept :
    (format_int : ℕ → Text) (now : ℕ) (policy : RetentionPolicy) (s : Store)
    → IsUnique s.db.runs
    → (j : Text) → runs_in (Tables.get_run j s.db) ≡ true
    → Tables.get_run j (apply_retention format_int now policy s).1.db ≡ Tables.get_run j s.db
running_kept format_int now policy s unique j runs =
    let (r, found, status) = runs_in-true (Tables.get_run j s.db) runs in
    apply_retention-running format_int now policy s j r.run unique
      (join-some _ _ r (sym (get_run_lem j s.db) ∙ found)).0 status

module _ (json : Json) (db : Db) where
  get_run-new : (id : Text) → find_run id db.runs ≡ none → Tables.get_run id db ≡ none
  get_run-new id new = get_run_lem id db ∙ rw new

  pub IsTracked-with_run :
      (ps : List Pending) (p : Pending) (row : RunRow) (snapshot : SnapshotRow)
      → row.id ≡ snapshot.run_id
      → find_run snapshot.run_id db.runs ≡ none
      → find_snapshot snapshot.run_id db.snapshots ≡ none
      → p.run.id ≡ snapshot.run_id
      → is_running_row row ≡ true
      → IsDecoded json (record { run = row; snapshot = snapshot })
      → IsStarted p
      → IsTracked json db ps
      → IsTracked json (with_run db row snapshot) (p ∷ ps)
  IsTracked-with_run ps p row snapshot same new new_snapshot named runs d s t =
      let read = get_run-with_run_all row snapshot db same new new_snapshot in
      record {
        unique = IsUnique-append db.runs row (rw same new) t.unique;
        counted = λ j. elim (Bool-cases (snapshot.run_id == j)) [
          | inl e ↦
              let here = (eq_iff snapshot.run_id j).0 e in
              let gone : Tables.get_run j db ≡ none =
                ap (λ k. Tables.get_run k db) (sym here) ∙ get_run-new snapshot.run_id new in
              let count : executions j ps ≡ 0 = t.counted j ∙ rw gone in
              rw (read j, named, e, runs) (omega (arith, count))
          | inr e ↦ rw (read j, named, e) (omega (arith, t.counted j))
        ];
        decoded = λ j r found r_runs. elim (Bool-cases (snapshot.run_id == j)) [
          | inl e ↦
              let there : some (record { run = row; snapshot = snapshot }) ≡ some r =
                sym (read j ∙ rw e) ∙ found in
              let equal : record { run = row; snapshot = snapshot } ≡ r = cc in rw (sym equal) d
          | inr e ↦ t.decoded j r (sym (read j ∙ rw e) ∙ found) r_runs
        ];
        started = (s, t.started);
      }

  pub IsTracked-ended :
      (front : List Pending) (p : Pending) (rest : List Pending) (r : RunRecord) (db' : Db)
      → IsUnique db'.runs
      → ((j : Text)
          → Tables.get_run j db' ≡ (if p.run.id == j then some r else Tables.get_run j db))
      → is_running_row r.run ≡ false
      → IsTracked json db (front ++ p ∷ rest)
      → IsTracked json db' (front ++ rest)
  IsTracked-ended front p rest r db' u read over t = record {
    unique = u;
    counted = λ j.
        let before = executions-append j front (p ∷ rest) in
        let after = executions-append j front rest in
        let count = t.counted j in
        elim (Bool-cases (p.run.id == j)) [
          | inl e ↦ rw (read j, e, over) (ground arith)
          | inr e ↦ rw (read j, e) (ground arith)
        ];
    decoded = λ j q found runs. elim (Bool-cases (p.run.id == j)) [
      | inl e ↦
          let there : some r ≡ some q = sym (read j ∙ rw e) ∙ found in
          let other : is_running_row q.run ≡ false = sym (ap runs_in there) ∙ over in cc
      | inr e ↦ t.decoded j q (sym (read j ∙ rw e) ∙ found) runs
    ];
    started = (started-at front p rest t.started).1;
  }

  -- The run of an execution under way.
  pub running-at :
      (front : List Pending) (p : Pending) (rest : List Pending)
      → IsTracked json db (front ++ p ∷ rest)
      → (r : RunRecord) × (Tables.get_run p.run.id db ≡ some r) × (is_running_row r.run ≡ true)
  running-at front p rest t =
      let here = executions-append p.run.id front (p ∷ rest) in
      let count = t.counted p.run.id in
      let same = eq_refl p.run.id in
      let runs : runs_in (Tables.get_run p.run.id db) ≡ true = ground arith in
      runs_in-true (Tables.get_run p.run.id db) runs

  -- What a statement that lists the running runs lists can be read back.
  pub All-decoded :
      IsUnique db.runs → AreDecoded json db → All (IsDecoded json) (list_where is_running_row db)
  All-decoded unique decoded =
      All-find_record (IsDecoded json) _ (list_where-IsDistinct is_running_row db unique) (λ r e.
        let listed = sym ((find_record-list_where is_running_row r.run.id db unique).0) ∙ e in
        decoded r.run.id r (only-some is_running_row _ r listed)
          (only-wanted is_running_row _ r listed))

  -- The retention leaves the runs of the executions under way.
  pub IsTracked-apply_retention :
      (format_int : ℕ → Text) (now : ℕ) (policy : RetentionPolicy) (s : Store) (ps : List Pending)
      → s.db ≡ db
      → IsTracked json db ps
      → IsTracked json (apply_retention format_int now policy s).1.db ps
  IsTracked-apply_retention format_int now policy s ps same tracked =
      let t : IsTracked json s.db ps = rw same tracked in
      let pruned = apply_retention-IsPruned format_int now policy s t.unique in
      let after = (apply_retention format_int now policy s).1.db in
      let kept = λ (j : Text). running_kept format_int now policy s t.unique j in
      record {
        unique = pruned.unique;
        counted = λ j. elim (pruned.kept_or_gone j) [
          | inl e ↦ rw e (t.counted j)
          | inr e ↦ elim (Bool-cases (runs_in (Tables.get_run j s.db))) [
            | inl runs ↦ rw (kept j runs) (t.counted j)
            | inr over ↦ rw e (t.counted j ∙ rw over refl)
          ]
        ];
        decoded = λ j r found runs. elim (pruned.kept_or_gone j) [
          | inl e ↦ t.decoded j r (sym e ∙ found) runs
          | inr e ↦ let gone : none ≡ some r = sym e ∙ found in cc
        ];
        started = t.started;
      }

  runs_in-restarted : (now : ℕ) (o : Option RunRecord) → runs_in (restarted now o) ≡ false
  unfolding ◌==◌
  runs_in-restarted now none = refl
  runs_in-restarted now (some r) = elim (Bool-cases (is_running_row r.run)) [
    | inl e ↦ rw e
    | inr e ↦ rw e e
  ]

  pub IsTracked-restarted :
      (now : ℕ) (db' : Db)
      → IsUnique db'.runs
      → ((j : Text) → Tables.get_run j db' ≡ restarted now (Tables.get_run j db))
      → IsTracked json db' []
  IsTracked-restarted now db' u read =
      let none_runs =
        λ (j : Text). ap runs_in (read j) ∙ runs_in-restarted now (Tables.get_run j db) in
      record {
        unique = u;
        counted = λ j. rw (none_runs j);
        decoded = λ j r found runs.
            let over : is_running_row r.run ≡ false = ap runs_in (sym found) ∙ none_runs j in cc;
        started = tt;
      }
