-- ===== src/Storage/Repository/Retention.antt =====
-- What `ApplyRetention` never deletes.
use microhook.Prelude.{
  ℕ, ◌+◌, ◌-◌, ◌≡◌, refl, sym, ◌∙◌, ◌⊎◌, inl, inr, none, Bool-cases, Text, Bool, true, false, not,
  ok, err, Result, ap, ◌||◌, is_neg, is_pos, pos_part, Option, some, contains, List, ◌==◌,
}
use microhook.Storage.{
  unix, StorageError, RetentionPolicy, RetentionResult, invalid_retention, run_status_running,
}
use microhook.Storage.Tables
use microhook.Storage.Tables.{RunRow, RunRecord, Db, find_run, find_snapshot, delete_runs}
use microhook.Storage.Tables.Lookups.{get_run-delete_runs, get_run_lem, find_run-keep}
use microhook.Storage.Tables.Retention.{
  IsUnique, IsUnique-keep, is_old, contains-keep, overflow, contains-overflow,
}
use microhook.Storage.Session.{Store, driver, lift, transaction}
use microhook.Storage.Session.Quiet.{Succeeds, driver-Succeeds, transaction-Succeeds}
use microhook.Storage.Session.Invariants.{Keeps, >>=-Keeps, driver-Keeps, transaction-Keeps}
use microhook.Storage.Rows.{require}
use microhook.Storage.Repository.{
  apply_retention, prune, set_metadata, delete_if, retention_last_pruned_at_key,
}

-- A predicate on the tables that the statements of the retention keep, the retention keeps.
module _ (P : Db → Type 0)
    (old : (before : ℕ) (db : Db)
      → P db
      → P (Tables.delete_runs_older_than run_status_running before db).0)
    (over : (n : ℕ) (db : Db) → P db → P (Tables.delete_runs_overflow run_status_running n db).0)
    (marked : (key value : Text) (db : Db) → P db → P (Tables.set_metadata key value db)) where
  delete_if-Keeps :
      (b : Bool) (delete : Db → Db × ℕ)
      → ((db : Db) → P db → P (delete db).0)
      → Keeps P (delete_if b delete)
  delete_if-Keeps true delete k s h = driver-Keeps P _ k s h
  delete_if-Keeps false delete k s h = h

  set_metadata-Keeps : (key value : Text) → Keeps P (set_metadata key value)
  unfolding set_metadata
  set_metadata-Keeps key value = driver-Keeps P _ (marked key value)

  module _ (format_int : ℕ → Text) (now : ℕ) (policy : RetentionPolicy) where
    prune-Keeps : Keeps P (prune format_int now policy)
    unfolding prune
    prune-Keeps =
        >>=-Keeps P (delete_if (is_pos policy.max_age) _) _
          (delete_if-Keeps (is_pos policy.max_age) _ (old (now - pos_part policy.max_age)))
          λ m.
            >>=-Keeps P (delete_if (is_pos policy.max_runs) _) _
              (delete_if-Keeps (is_pos policy.max_runs) _ (over (pos_part policy.max_runs)))
              λ n. >>=-Keeps P (set_metadata _ _) _ (set_metadata-Keeps _ _) (λ u s h. h)

    apply_retention-Keeps : Keeps P (apply_retention format_int now policy)
    unfolding apply_retention
    apply_retention-Keeps =
        >>=-Keeps P
          (lift (require (not (is_neg policy.max_age || is_neg policy.max_runs)) invalid_retention))
          _ (λ s h. h)
          λ u.
            >>=-Keeps P (transaction (prune format_int now policy)) _
              (transaction-Keeps P (prune format_int now policy) prune-Keeps) (λ deleted s h. h)

get_run-set_metadata :
    (key value j : Text) (db : Db)
    → Tables.get_run j (Tables.set_metadata key value db) ≡ Tables.get_run j db
unfolding Tables.set_metadata
get_run-set_metadata key value j db = get_run_lem j _ ∙ sym (get_run_lem j db)

IsUnique-set_metadata :
    (key value : Text) (db : Db)
    → IsUnique db.runs
    → IsUnique (Tables.set_metadata key value db).runs
unfolding Tables.set_metadata
IsUnique-set_metadata key value db h = h

find_run-set_metadata :
    (key value j : Text) (db : Db)
    → find_run j (Tables.set_metadata key value db).runs ≡ find_run j db.runs
unfolding Tables.set_metadata
find_run-set_metadata key value j db = refl

module _ (j : Text) (r : RunRow) (record_of : Option RunRecord) where
  -- The tables hold a row, under an id that no other row has, and a record of it.
  record Holds (db : Db) : Type 0 where
    unique : IsUnique db.runs
    found : find_run j db.runs ≡ some r
    same : Tables.get_run j db ≡ record_of

  delete_runs-Holds :
      (ids : List Text) (db : Db) → contains ids j ≡ false → Holds db → Holds (delete_runs ids db).0
  unfolding delete_runs
  delete_runs-Holds ids db out h = record {
    unique = IsUnique-keep ids db.runs h.unique;
    found = find_run-keep ids j db.runs ∙ rw out h.found;
    same = get_run-delete_runs ids j db ∙ rw out h.same;
  }

  module _ (status : (r.status == run_status_running) ≡ true) where
    old-Holds :
        (before : ℕ) (db : Db)
        → Holds db
        → Holds (Tables.delete_runs_older_than run_status_running before db).0
    unfolding Tables.delete_runs_older_than
    old-Holds before db h =
        delete_runs-Holds _ db
          (contains-keep (is_old run_status_running before) j db.runs h.unique
            ∙ rw (h.found, status))
          h

    overflow-Holds :
        (n : ℕ) (db : Db) → Holds db → Holds (Tables.delete_runs_overflow run_status_running n db).0
    unfolding Tables.delete_runs_overflow
    overflow-Holds n db h =
        delete_runs-Holds (overflow run_status_running n db.runs) db
          (contains-overflow run_status_running n j db.runs r h.unique h.found status) h

    set_metadata-Holds :
        (key value : Text) (db : Db) → Holds db → Holds (Tables.set_metadata key value db)
    set_metadata-Holds key value db h = record {
      unique = IsUnique-set_metadata key value db h.unique;
      found = find_run-set_metadata key value j db ∙ h.found;
      same = get_run-set_metadata key value j db ∙ h.same;
    }

-- No run is changed: each is as it was or gone.
pub record IsPruned (before db : Db) : Type 0 where
  pub unique : IsUnique db.runs
  pub kept_or_gone :
      (j : Text) → (Tables.get_run j db ≡ Tables.get_run j before) ⊎ (Tables.get_run j db ≡ none)

delete_runs-IsPruned :
    (ids : List Text) (before db : Db) → IsPruned before db → IsPruned before (delete_runs ids db).0
unfolding delete_runs
delete_runs-IsPruned ids before db h = record {
  unique = IsUnique-keep ids db.runs h.unique;
  kept_or_gone = λ j. elim (Bool-cases (contains ids j)) [
    | inl e ↦ inr (get_run-delete_runs ids j db ∙ rw e)
    | inr e ↦
        let same : Tables.get_run j (delete_runs ids db).0 ≡ Tables.get_run j db =
          get_run-delete_runs ids j db ∙ rw e in
        rw same (h.kept_or_gone j)
  ];
}

-- Whatever the policy and wherever the driver fails, the retention changes no run, and keeps their
-- identifiers unique.
pub apply_retention-IsPruned :
    (format_int : ℕ → Text) (now : ℕ) (policy : RetentionPolicy) (s : Store)
    → IsUnique s.db.runs
    → IsPruned s.db (apply_retention format_int now policy s).1.db
unfolding Tables.delete_runs_older_than Tables.delete_runs_overflow
apply_retention-IsPruned format_int now policy s unique =
    apply_retention-Keeps (IsPruned s.db) (λ before db. delete_runs-IsPruned _ s.db db)
      (λ n db. delete_runs-IsPruned _ s.db db)
      (λ key value db h. record {
        unique = IsUnique-set_metadata key value db h.unique;
        kept_or_gone = λ j. rw (get_run-set_metadata key value j db) (h.kept_or_gone j);
      })
      format_int now policy s (record { unique = unique; kept_or_gone = λ j. inl refl })

-- Whatever the policy, and wherever the driver fails, the retention leaves a run that is running as
-- it was, if no two runs have one id.
pub apply_retention-running :
    (format_int : ℕ → Text) (now : ℕ) (policy : RetentionPolicy) (s : Store) (j : Text) (r : RunRow)
    → IsUnique s.db.runs
    → find_run j s.db.runs ≡ some r
    → (r.status == run_status_running) ≡ true
    → Tables.get_run j (apply_retention format_int now policy s).1.db ≡ Tables.get_run j s.db
apply_retention-running format_int now policy s j r unique found status =
    let here = Tables.get_run j s.db in
    let kept =
      apply_retention-Keeps (Holds j r here) (old-Holds j r here status)
        (overflow-Holds j r here status) (set_metadata-Holds j r here status) format_int now policy
        s (record { unique = unique; found = found; same = refl }) in
    kept.same

delete_if-Succeeds : (b : Bool) (delete : Db → Db × ℕ) → Succeeds (delete_if b delete)
delete_if-Succeeds true delete = driver-Succeeds (λ db. (delete db).1) (λ db. (delete db).0)
delete_if-Succeeds false delete = λ db. (0, db, refl)

prune-Succeeds :
    (format_int : ℕ → Text) (now : ℕ) (policy : RetentionPolicy)
    → Succeeds (prune format_int now policy)
unfolding prune set_metadata driver
prune-Succeeds format_int now policy db =
    let old = Tables.delete_runs_older_than run_status_running (now - pos_part policy.max_age) in
    let over = Tables.delete_runs_overflow run_status_running (pos_part policy.max_runs) in
    let (m, db1, e1) = delete_if-Succeeds (is_pos policy.max_age) old db in
    let (n, db2, e2) = delete_if-Succeeds (is_pos policy.max_runs) over db1 in
    (
      m + n,
      Tables.set_metadata retention_last_pruned_at_key (format_int now) db2,
      rw e1 (rw e2 refl),
    )

-- Where the driver does not fail and the policy has no negative limit, the retention succeeds.
pub apply_retention-Succeeds :
    (format_int : ℕ → Text) (now : ℕ) (policy : RetentionPolicy)
    → is_neg policy.max_age ≡ false
    → is_neg policy.max_runs ≡ false
    → Succeeds (apply_retention format_int now policy)
unfolding apply_retention
apply_retention-Succeeds format_int now policy age runs db =
    let body = prune format_int now policy in
    let (n, db', e) = transaction-Succeeds body (prune-Succeeds format_int now policy) db in
    (record { deleted_runs = n; pruned_at = unix now }, db', rw (age, runs) (rw e refl))

err-ok :
    {s s' : Store} {e : StorageError} {result : RetentionResult}
    → ◌≡◌ {A = Result StorageError RetentionResult × Store} (err e, s) (ok result, s')
    → ⊥
err-ok h =
    let first : ◌≡◌ {A = Result StorageError RetentionResult} (err _) (ok _) = ap (λ r. r.0) h in cc

-- Only with such a policy does it succeed.
pub apply_retention-ok :
    (format_int : ℕ → Text) (now : ℕ) (policy : RetentionPolicy) (s s' : Store)
    {result : RetentionResult}
    → apply_retention format_int now policy s ≡ (ok result, s')
    → (is_neg policy.max_age ≡ false) × (is_neg policy.max_runs ≡ false)
unfolding apply_retention
apply_retention-ok format_int now policy s s' {result} h =
    elim (Bool-cases (is_neg policy.max_age)) [
      | inl a ↦
          let bad : (err invalid_retention, s) ≡ (ok result, s') = rw a at h in absurd (err-ok bad)
      | inr a ↦ elim (Bool-cases (is_neg policy.max_runs)) [
        | inl n ↦
            let bad : (err invalid_retention, s) ≡ (ok result, s') = rw (a, n) at h in
            absurd (err-ok bad)
        | inr n ↦ (a, n)
      ]
    ]
