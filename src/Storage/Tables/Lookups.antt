-- ===== src/Storage/Tables/Lookups.antt =====
-- What a run's record is after each statement.
use microhook.Prelude.{
  ◌≡◌, refl, sym, ap, ◌∙◌, Text, false, not, List, [], ◌∷◌, ◌++◌, Option, none, some, arith, keep,
  contains, ◌==◌, eq_iff, eqb, if◌then◌else◌, Option-cases, Bool-cases, inl, inr,
}
use microhook.Storage.Tables.{
  RunRow, SnapshotRow, RunRecord, UpdateRow, Db, find_run, find_snapshot, find_record, run_records,
  get_run, set_row, update_rows, delete_runs,
}

abbrev pub join : Option RunRow → Option SnapshotRow → Option RunRecord
join (some r) (some s) = some (record { run = r; snapshot = s })
join _ _ = none

pub join-some :
    (a : Option RunRow) (b : Option SnapshotRow) (r : RunRecord)
    → join a b ≡ some r
    → (a ≡ some r.run) × (b ≡ some r.snapshot)
join-some none b r h = cc
join-some (some a) none r h = cc
join-some (some a) (some b) r h = (cc, cc)

pub find_record-run_records :
    (id : Text) (ss : List SnapshotRow) (rs : List RunRow)
    → find_record id (run_records ss rs) ≡ join (find_run id rs) (find_snapshot id ss)
unfolding find_record run_records find_run
find_record-run_records id ss [] = refl
find_record-run_records id ss (r ∷ rs) = elim (Bool-cases (r.id == id)) [
  | inl e ↦
      let same = (eq_iff r.id id).0 e in
      ground (arith, same, find_record-run_records id ss rs, Option-cases (find_snapshot id ss))
  | inr e ↦ ground (arith, find_record-run_records id ss rs)
]

-- The view has a record exactly where both tables have a row.
pub get_run_lem :
    (id : Text) (db : Db)
    → get_run id db ≡ join (find_run id db.runs) (find_snapshot id db.snapshots)
unfolding get_run
get_run_lem id db = find_record-run_records id db.snapshots db.runs

pub find_run-id : (id : Text) (rs : List RunRow) (r : RunRow) → find_run id rs ≡ some r → r.id ≡ id
unfolding find_run
find_run-id id [] r h = cc
find_run-id id (q ∷ rs) r h = elim (Bool-cases (q.id == id)) [
  | inl e ↦
      let same : some q ≡ some r = rw e at h in
      let here : q ≡ r = cc in ap (λ k. k.id) (sym here) ∙ (eq_iff q.id id).0 e
  | inr e ↦ find_run-id id rs r (rw e at h)
]

pub find_run-append :
    (id : Text) (rs : List RunRow) (r : RunRow)
    → find_run id rs ≡ none
    → find_run id (rs ++ r ∷ []) ≡ (if r.id == id then some r else none)
unfolding find_run
find_run-append id [] r h = refl
find_run-append id (q ∷ rs) r h = ground (arith, find_run-append id rs r)

pub find_snapshot-append :
    (id : Text) (ss : List SnapshotRow) (s : SnapshotRow)
    → find_snapshot id ss ≡ none
    → find_snapshot id (ss ++ s ∷ []) ≡ (if s.run_id == id then some s else none)
unfolding find_snapshot
find_snapshot-append id [] s h = refl
find_snapshot-append id (q ∷ ss) s h = ground (arith, find_snapshot-append id ss s)

pub find_run-append_other :
    (id : Text) (rs : List RunRow) (r : RunRow)
    → (r.id == id) ≡ false
    → find_run id (rs ++ r ∷ []) ≡ find_run id rs
unfolding find_run
find_run-append_other id [] r h = ground arith
find_run-append_other id (q ∷ rs) r h = ground (arith, find_run-append_other id rs r)

pub find_snapshot-append_other :
    (id : Text) (ss : List SnapshotRow) (s : SnapshotRow)
    → (s.run_id == id) ≡ false
    → find_snapshot id (ss ++ s ∷ []) ≡ find_snapshot id ss
unfolding find_snapshot
find_snapshot-append_other id [] s h = ground arith
find_snapshot-append_other id (q ∷ ss) s h = ground (arith, find_snapshot-append_other id ss s)

abbrev pub map_row : (RunRow → RunRow) → Option RunRow → Option RunRow
map_row f none = none
map_row f (some r) = some (f r)

pub find_run-update_rows :
    (id j : Text) (u : UpdateRow) (rs : List RunRow)
    → find_run j (update_rows id u rs).0
      ≡ (if id == j then map_row (set_row u) (find_run j rs) else find_run j rs)
unfolding find_run update_rows
find_run-update_rows id j u [] = ground arith
find_run-update_rows id j u (r ∷ rs) =
    ground (arith, find_run-update_rows id j u rs, eq_iff r.id id, eq_iff r.id j, eq_iff id j)

pub update_rows-none :
    (id : Text) (u : UpdateRow) (rs : List RunRow)
    → find_run id rs ≡ none
    → update_rows id u rs ≡ (rs, 0)
unfolding find_run update_rows
update_rows-none id u [] h = refl
update_rows-none id u (r ∷ rs) h = ground (arith, update_rows-none id u rs)

pub update_rows-some :
    (id : Text) (u : UpdateRow) (rs : List RunRow) (r : RunRow)
    → find_run id rs ≡ some r
    → eqb (update_rows id u rs).1 0 ≡ false
unfolding find_run update_rows
update_rows-some id u [] r h = cc
update_rows-some id u (q ∷ rs) r h = ground (arith, update_rows-some id u rs r)

pub find_run-keep :
    (ids : List Text) (j : Text) (rs : List RunRow)
    → find_run j (keep (λ r. not (contains ids r.id)) rs)
      ≡ (if contains ids j then none else find_run j rs)
unfolding find_run keep
find_run-keep ids j [] = ground arith
find_run-keep ids j (r ∷ rs) = ground (arith, find_run-keep ids j rs, eq_iff r.id j)

pub find_snapshot-keep :
    (ids : List Text) (j : Text) (ss : List SnapshotRow)
    → find_snapshot j (keep (λ s. not (contains ids s.run_id)) ss)
      ≡ (if contains ids j then none else find_snapshot j ss)
unfolding find_snapshot keep
find_snapshot-keep ids j [] = ground arith
find_snapshot-keep ids j (s ∷ ss) = ground (arith, find_snapshot-keep ids j ss, eq_iff s.run_id j)

-- A delete takes away the records of the given ids, and no other.
pub get_run-delete_runs :
    (ids : List Text) (j : Text) (db : Db)
    → get_run j (delete_runs ids db).0 ≡ (if contains ids j then none else get_run j db)
unfolding delete_runs
get_run-delete_runs ids j db =
    get_run_lem j (delete_runs ids db).0
    ∙ ground (
      arith,
      find_run-keep ids j db.runs,
      find_snapshot-keep ids j db.snapshots,
      get_run_lem j db,
    )
