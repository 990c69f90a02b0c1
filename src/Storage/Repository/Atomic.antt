-- ===== src/Storage/Repository/Atomic.antt =====
-- Transactions under a driver that fails anywhere.
use microhook.Prelude.{
  ◌≡◌, refl, ◌⊎◌, inl, inr, ap, ◌∙◌, Result-cases, [], ◌∷◌, ◌++◌, Option, none, some, arith, ok,
}
use microhook.Storage.{Time, driver_failed, Run, CreateRunParams}
use microhook.Storage.Tables
use microhook.Storage.Tables.{RunRow, SnapshotRow, Db}
use microhook.Storage.Session.{Op, Store, continue, transaction, ◌>>◌}
use microhook.Storage.Session.Laws.{>>=-db, >>=-ok, driver-ok, transaction-ok, transaction-err}
use microhook.Storage.Rows.{Json, snapshot_row, check_create}
use microhook.Storage.Repository.{create_run, get_run, insert_run, insert_snapshot, none_as}
use microhook.Storage.Repository.Reads.{get_run-db}
use microhook.Storage.Repository.Create.{with_run}

insert_run-some :
    (row : RunRow) (db : Db) {db' : Db}
    → Tables.insert_run row db ≡ some db'
    → db' ≡ record db { runs = db.runs ++ row ∷ [] }
unfolding Tables.insert_run
insert_run-some row db h = ground arith

insert_snapshot-some :
    (row : SnapshotRow) (db : Db) {db' : Db}
    → Tables.insert_snapshot row db ≡ some db'
    → db' ≡ record db { snapshots = db.snapshots ++ row ∷ [] }
unfolding Tables.insert_snapshot
insert_snapshot-some row db h = ground arith

none_as-ok :
    (o : Option Db) (db : Db)
    → (none_as driver_failed o db).0 ≡ ok tt
    → (db' : Db) × (o ≡ some db') × ((none_as driver_failed o db).1 ≡ db')
none_as-ok none db h = cc
none_as-ok (some db') db h = (db', refl, refl)

insert_run-ok :
    (row : RunRow) (s : Store)
    → (insert_run row s).0 ≡ ok tt
    → (insert_run row s).1.db ≡ record s.db { runs = s.db.runs ++ row ∷ [] }
unfolding insert_run
insert_run-ok row s h =
    let (ran, after) = driver-ok (λ db. none_as driver_failed (Tables.insert_run row db) db) s h in
    let (db', inserted, same) = none_as-ok (Tables.insert_run row s.db) s.db ran in
    after ∙ same ∙ insert_run-some row s.db inserted

insert_snapshot-ok :
    (row : SnapshotRow) (s : Store)
    → (insert_snapshot row s).0 ≡ ok tt
    → (insert_snapshot row s).1.db ≡ record s.db { snapshots = s.db.snapshots ++ row ∷ [] }
unfolding insert_snapshot
insert_snapshot-ok row s h =
    let (ran, after) =
      driver-ok (λ db. none_as driver_failed (Tables.insert_snapshot row db) db) s h in
    let (db', inserted, same) = none_as-ok (Tables.insert_snapshot row s.db) s.db ran in
    after ∙ same ∙ insert_snapshot-some row s.db inserted

inserts-ok :
    (row : RunRow) (snapshot : SnapshotRow) (s : Store)
    → (transaction (insert_run row >> insert_snapshot snapshot) s).0 ≡ ok tt
    → (transaction (insert_run row >> insert_snapshot snapshot) s).1.db ≡ with_run s.db row snapshot
inserts-ok row snapshot s h =
    let (begun, same, ran, after) =
      transaction-ok (insert_run row >> insert_snapshot snapshot) s h in
    let (_, first, rest) = >>=-ok (insert_run row) (λ _. insert_snapshot snapshot) begun ran in
    let middle = insert_run-ok row begun first in
    let last = insert_snapshot-ok snapshot (insert_run row begun).1 (rw rest at ran) in
    after ∙ ap (λ r. r.1.db) rest ∙ last ∙ rw (middle, same)

module _ (json : Json) (now : Time) (p : CreateRunParams) (s : Store) where
  abbrev after : Store
  after = (create_run json now p s).1

  abbrev steps : RunRow → Op Run
  steps row =
      transaction (insert_run row >> insert_snapshot (snapshot_row json p.id p.action_snapshot))
      >> get_run json p.id

  -- Wherever the driver fails, `CreateRun` leaves the tables as they were, or with the whole run:
  -- its row and its snapshot. An error may follow the insert, when the run is not read back.
  pub create_run_atomic :
      (after.db ≡ s.db)
      ⊎ ((row : RunRow) × (check_create json now p ≡ ok row)
          × (after.db ≡ with_run s.db row (snapshot_row json p.id p.action_snapshot)))
  unfolding create_run
  create_run_atomic = elim (Result-cases (check_create json now p)) [
    | inl (e, bad) ↦ inl (ap (λ c. (continue c steps s).1.db) bad)
    | inr (row, good) ↦
        let inserts =
          insert_run row >> insert_snapshot (snapshot_row json p.id p.action_snapshot) in
        let read =
          >>=-db (transaction inserts) (λ _. get_run json p.id) s (λ _ t. get_run-db json p.id t) in
        elim (Result-cases (transaction inserts s).0) [
          | inl (e, failed) ↦
              inl
                (ap (λ c. (continue c steps s).1.db) good ∙ read ∙ transaction-err inserts s failed)
          | inr (u, done) ↦
              inr (
                row,
                good,
                ap (λ c. (continue c steps s).1.db) good ∙ read ∙ inserts-ok row _ s done,
              )
        ]
  ]
