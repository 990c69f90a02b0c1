-- ===== src/Storage/Tables/Listing.antt =====
-- What the list statements list.
use microhook.Prelude.{
  All, eq_refl, sym, ◌≡◌, refl, ap, ◌∙◌, inl, inr, Text, Bool, true, List, [], ◌∷◌, Option, none,
  some, arith, keep, ◌==◌, eq_iff, if◌then◌else◌, Bool-cases, Option-cases,
}
use microhook.Storage.Tables.{
  RunRow, RunRecord, SnapshotRow, Db, find_snapshot, find_record, run_records, get_run,
  insert_by_age, newest_first, not_older, run_of, list_where,
}
use microhook.Storage.Tables.Lookups.{join, find_record-run_records}
use microhook.Storage.Tables.Retention.{IsUnique}
use microhook.Storage.Tables.Order.{IsNewestFirst, newest_first-IsNewestFirst}

-- No two records have one id.
abbrev pub IsDistinct : List RunRecord → Type 0
IsDistinct [] = Unit
IsDistinct (r ∷ rs) = (find_record r.run.id rs ≡ none) × IsDistinct rs

abbrev pub only : (RunRow → Bool) → Option RunRecord → Option RunRecord
only wanted none = none
only wanted (some r) = if wanted r.run then some r else none

find_record-insert_by_age :
    (j : Text) (r : RunRecord) (rs : List RunRecord)
    → find_record r.run.id rs ≡ none
    → find_record j (insert_by_age run_of r rs) ≡ find_record j (r ∷ rs)
unfolding insert_by_age find_record
find_record-insert_by_age j r [] h = refl
find_record-insert_by_age j r (q ∷ rs) h = ground (
  arith,
  find_record-insert_by_age j r rs,
  eq_iff q.run.id r.run.id,
  eq_iff q.run.id j,
  eq_iff r.run.id j,
)

find_record-newest_first :
    (j : Text) (rs : List RunRecord)
    → IsDistinct rs
    → find_record j (newest_first run_of rs) ≡ find_record j rs
unfolding newest_first find_record
find_record-newest_first j [] d = refl
find_record-newest_first j (r ∷ rs) (new, d) =
    find_record-insert_by_age j r (newest_first run_of rs)
      (find_record-newest_first r.run.id rs d ∙ new)
    ∙ rw (find_record-newest_first j rs d)

find_record-keep :
    (wanted : RunRow → Bool) (j : Text) (rs : List RunRecord)
    → IsDistinct rs
    → find_record j (keep (λ r. wanted r.run) rs) ≡ only wanted (find_record j rs)
unfolding keep find_record
find_record-keep wanted j [] d = refl
find_record-keep wanted j (r ∷ rs) (new, d) =
    let rest = find_record-keep wanted j rs d in
    elim (Bool-cases (r.run.id == j)) [
      | inl e ↦
          let gone : find_record j rs ≡ none = rw ((eq_iff r.run.id j).0 e) at new in ground arith
      | inr e ↦ ground arith
    ]

keep-IsDistinct :
    (wanted : RunRow → Bool) (rs : List RunRecord)
    → IsDistinct rs
    → IsDistinct (keep (λ r. wanted r.run) rs)
unfolding keep
keep-IsDistinct wanted [] d = tt
keep-IsDistinct wanted (r ∷ rs) (new, d) =
    let rest = keep-IsDistinct wanted rs d in
    elim (Bool-cases (wanted r.run)) [
      | inl e ↦ rw e (find_record-keep wanted r.run.id rs d ∙ rw new, rest)
      | inr e ↦ rw e rest
    ]

run_records-IsDistinct :
    (ss : List SnapshotRow) (rs : List RunRow) → IsUnique rs → IsDistinct (run_records ss rs)
unfolding run_records
run_records-IsDistinct ss [] u = tt
run_records-IsDistinct ss (r ∷ rs) (new, u) =
    let rest = run_records-IsDistinct ss rs u in
    let gone : find_record r.id (run_records ss rs) ≡ none =
      find_record-run_records r.id ss rs ∙ ap (λ o. join o (find_snapshot r.id ss)) new in
    elim (Option-cases (find_snapshot r.id ss)) [
      | inl e ↦ rw (e, run_records) rest
      | inr (s, e) ↦ rw (e, run_records) (gone, rest)
    ]

insert_by_age-IsDistinct :
    (r : RunRecord) (rs : List RunRecord)
    → find_record r.run.id rs ≡ none
    → IsDistinct rs
    → IsDistinct (insert_by_age run_of r rs)
unfolding insert_by_age find_record
insert_by_age-IsDistinct r [] h d = (refl, tt)
insert_by_age-IsDistinct r (q ∷ rs) h (new, d) = elim (Bool-cases (q.run.id == r.run.id)) [
  | inl e ↦ let found : some q ≡ none = rw e at h in cc
  | inr e ↦
      let gone : find_record r.run.id rs ≡ none = rw e at h in
      let still : find_record q.run.id (insert_by_age run_of r rs) ≡ none =
        find_record-insert_by_age q.run.id r rs gone
        ∙ ground (arith, eq_iff q.run.id r.run.id, eq_iff r.run.id q.run.id) in
      let rest = insert_by_age-IsDistinct r rs gone d in
      elim (Bool-cases (not_older r.run q.run)) [
        | inl o ↦ rw o (h, (new, d))
        | inr o ↦ rw o (still, rest)
      ]
]

newest_first-IsDistinct :
    (rs : List RunRecord) → IsDistinct rs → IsDistinct (newest_first run_of rs)
unfolding newest_first
newest_first-IsDistinct [] d = tt
newest_first-IsDistinct (r ∷ rs) (new, d) =
    insert_by_age-IsDistinct r (newest_first run_of rs)
      (find_record-newest_first r.run.id rs d ∙ new) (newest_first-IsDistinct rs d)

pub list_where-IsDistinct :
    (wanted : RunRow → Bool) (db : Db) → IsUnique db.runs → IsDistinct (list_where wanted db)
unfolding list_where
list_where-IsDistinct wanted db u =
    newest_first-IsDistinct _
      (keep-IsDistinct wanted _ (run_records-IsDistinct db.snapshots db.runs u))

pub find_record-list_where :
    (wanted : RunRow → Bool) (j : Text) (db : Db)
    → IsUnique db.runs
    → (find_record j (list_where wanted db) ≡ only wanted (get_run j db))
      × IsNewestFirst run_of (list_where wanted db)
unfolding list_where get_run
find_record-list_where wanted j db u =
    let records = run_records db.snapshots db.runs in
    let distinct = run_records-IsDistinct db.snapshots db.runs u in
    (
      find_record-newest_first j (keep (λ r. wanted r.run) records)
            (keep-IsDistinct wanted records distinct)
          ∙ find_record-keep wanted j records distinct,
      newest_first-IsNewestFirst run_of (keep (λ r. wanted r.run) records),
    )

pub only-some :
    (wanted : RunRow → Bool) (o : Option RunRecord) (r : RunRecord)
    → only wanted o ≡ some r
    → o ≡ some r
only-some wanted none r h = cc
only-some wanted (some q) r h = ground arith

pub only-wanted :
    (wanted : RunRow → Bool) (o : Option RunRecord) (r : RunRecord)
    → only wanted o ≡ some r
    → wanted r.run ≡ true
only-wanted wanted none r h = cc
only-wanted wanted (some q) r h = elim (Bool-cases (wanted q.run)) [
  | inl e ↦
      let same : some q ≡ some r = rw e at h in
      let here : q ≡ r = cc in ap (λ k. wanted k.run) (sym here) ∙ e
  | inr e ↦ let gone : none ≡ some r = rw e at h in cc
]

-- In a list with distinct ids, each record is the one of its id.
pub All-find_record :
    (P : RunRecord → Type 0) (rs : List RunRecord)
    → IsDistinct rs
    → ((r : RunRecord) → find_record r.run.id rs ≡ some r → P r)
    → All P rs
unfolding find_record
All-find_record P [] u h = tt
All-find_record P (r ∷ rs) (new, u) h = (
  h r (rw (eq_refl r.run.id)),
  All-find_record P rs u (λ q e. h q (elim (Bool-cases (r.run.id == q.run.id)) [
    | inl same ↦
        let gone : find_record q.run.id rs ≡ none =
          ap (λ k. find_record k rs) (sym ((eq_iff r.run.id q.run.id).0 same)) ∙ new in
        cc
    | inr other ↦ rw other e
  ])),
)
