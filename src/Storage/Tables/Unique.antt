-- ===== src/Storage/Tables/Unique.antt =====
-- The inserts and updates of runs keep their identifiers unique.
use microhook.Prelude.{
  ◌≡◌, refl, ◌∙◌, ap, inl, inr, Text, false, List, [], ◌∷◌, ◌++◌, none, some, arith, ◌==◌, eq_iff,
  Bool-cases,
}
use microhook.Storage.Tables
use microhook.Storage.Tables.{RunRow, UpdateRow, Db, find_run, set_row, update_rows}
use microhook.Storage.Tables.Lookups.{map_row, find_run-update_rows, find_run-append_other}
use microhook.Storage.Tables.Retention.{IsUnique}

pub IsUnique-append :
    (rs : List RunRow) (row : RunRow)
    → find_run row.id rs ≡ none
    → IsUnique rs
    → IsUnique (rs ++ row ∷ [])
unfolding find_run
IsUnique-append [] row new u = (refl, tt)
IsUnique-append (r ∷ rs) row new (here, u) = elim (Bool-cases (r.id == row.id)) [
  | inl e ↦ let found : some r ≡ none = rw e at new in cc
  | inr e ↦
      let gone : find_run row.id rs ≡ none = rw e at new in
      let apart : (row.id == r.id) ≡ false =
        ground (arith, eq_iff row.id r.id, eq_iff r.id row.id) in
      (find_run-append_other r.id rs row apart ∙ here, IsUnique-append rs row gone u)
]

still_none :
    (id j : Text) (u : UpdateRow) (rs : List RunRow)
    → find_run j rs ≡ none
    → find_run j (update_rows id u rs).0 ≡ none
still_none id j u rs h = find_run-update_rows id j u rs ∙ ground (arith, ap (map_row (set_row u)) h)

pub IsUnique-update_rows :
    (id : Text) (u : UpdateRow) (rs : List RunRow) → IsUnique rs → IsUnique (update_rows id u rs).0
unfolding update_rows
IsUnique-update_rows id u [] h = tt
IsUnique-update_rows id u (r ∷ rs) (new, h) =
    let rest = IsUnique-update_rows id u rs h in
    let gone = still_none id r.id u rs new in
    elim (Bool-cases (r.id == id)) [ inl e ↦ rw e (gone, rest) | inr e ↦ rw e (gone, rest) ]

pub IsUnique-update_run :
    (id : Text) (u : UpdateRow) (db : Db)
    → IsUnique db.runs
    → IsUnique (Tables.update_run id u db).0.runs
unfolding Tables.update_run
IsUnique-update_run id u db h = IsUnique-update_rows id u db.runs h
