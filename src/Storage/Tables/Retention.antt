-- ===== src/Storage/Tables/Retention.antt =====
-- Which runs the two statements of the retention delete.
use microhook.Prelude.{
  ℕ, ◌≡◌, refl, ◌∙◌, inl, inr, Text, Bool, true, false, not, ◌&&◌, List, [], ◌∷◌, Option, none,
  some, arith, map, keep, contains, drop, zero, suc, ltb, ◌==◌, eq_iff, if◌then◌else◌, Bool-cases,
}
use microhook.Storage.Tables.{
  RunRow, Db, find_run, get_run, delete_runs_older_than, newest_first, insert_by_age,
}
use microhook.Storage.Tables.Lookups.{get_run-delete_runs, find_run-keep}

-- No two rows have one id, which the primary key sees to.
abbrev pub IsUnique : List RunRow → Type 0
IsUnique [] = Unit
IsUnique (r ∷ rs) = (find_run r.id rs ≡ none) × IsUnique rs

abbrev pub passes : (RunRow → Bool) → Option RunRow → Bool
passes p none = false
passes p (some r) = p r

abbrev pub ids_of : List RunRow → List Text
ids_of rs = map (λ r. r.id) rs

pub contains-keep :
    (p : RunRow → Bool) (j : Text) (rs : List RunRow)
    → IsUnique rs
    → contains (ids_of (keep p rs)) j ≡ passes p (find_run j rs)
unfolding contains keep find_run
contains-keep p j [] u = refl
contains-keep p j (r ∷ rs) (new, u) =
    let rest = contains-keep p j rs u in
    elim (Bool-cases (r.id == j)) [
      | inl e ↦
          let same = (eq_iff r.id j).0 e in
          let gone : find_run j rs ≡ none = rw same at new in ground arith
      | inr e ↦ ground arith
    ]

pub IsUnique-keep :
    (ids : List Text) (rs : List RunRow)
    → IsUnique rs
    → IsUnique (keep (λ r. not (contains ids r.id)) rs)
unfolding keep
IsUnique-keep ids [] u = tt
IsUnique-keep ids (r ∷ rs) (new, u) =
    let rest = IsUnique-keep ids rs u in
    let still = find_run-keep ids r.id rs in
    elim (Bool-cases (contains ids r.id)) [
      | inl e ↦ rw e rest
      | inr e ↦ rw e (still ∙ rw (e, new), rest)
    ]

abbrev pub is_old : Text → ℕ → RunRow → Bool
is_old excluded_status created_before r =
    not (r.status == excluded_status) && ltb r.created_at_unix_nano created_before

-- The first statement deletes the run of an id where its status is not the excluded one and it was
-- created before the given time, and no other run.
pub get_run-delete_runs_older_than :
    (excluded_status : Text) (created_before : ℕ) (j : Text) (db : Db)
    → IsUnique db.runs
    → get_run j (delete_runs_older_than excluded_status created_before db).0 ≡ (
        if passes (is_old excluded_status created_before) (find_run j db.runs)
        then none
        else get_run j db)
unfolding delete_runs_older_than
get_run-delete_runs_older_than excluded_status created_before j db u =
    let old = is_old excluded_status created_before in
    get_run-delete_runs (ids_of (keep old db.runs)) j db ∙ rw (contains-keep old j db.runs u)

pub contains-drop :
    (n : ℕ) (j : Text) (rs : List RunRow)
    → contains (ids_of rs) j ≡ false
    → contains (ids_of (drop n rs)) j ≡ false
unfolding contains
contains-drop zero j rs h = h
contains-drop (suc n) j [] h = refl
contains-drop (suc n) j (r ∷ rs) h = contains-drop n j rs (ground arith)

pub contains-insert_by_age :
    (j : Text) (r : RunRow) (rs : List RunRow)
    → contains (ids_of (insert_by_age (λ q. q) r rs)) j ≡ contains (ids_of (r ∷ rs)) j
unfolding insert_by_age contains
contains-insert_by_age j r [] = refl
contains-insert_by_age j r (q ∷ rs) = ground (arith, contains-insert_by_age j r rs)

pub contains-newest_first :
    (j : Text) (rs : List RunRow)
    → contains (ids_of (newest_first (λ q. q) rs)) j ≡ contains (ids_of rs) j
unfolding newest_first contains
contains-newest_first j [] = refl
contains-newest_first j (r ∷ rs) =
    contains-insert_by_age j r (newest_first (λ q. q) rs) ∙ rw (contains-newest_first j rs)

-- The ids that the second statement deletes.
abbrev pub overflow : Text → ℕ → List RunRow → List Text
overflow excluded_status max_runs rs =
    ids_of
      (drop max_runs (newest_first (λ r. r) (keep (λ r. not (r.status == excluded_status)) rs)))

pub contains-overflow :
    (excluded_status : Text) (max_runs : ℕ) (j : Text) (rs : List RunRow) (r : RunRow)
    → IsUnique rs
    → find_run j rs ≡ some r
    → (r.status == excluded_status) ≡ true
    → contains (overflow excluded_status max_runs rs) j ≡ false
contains-overflow excluded_status max_runs j rs r u found status =
    let others = λ (q : RunRow). not (q.status == excluded_status) in
    contains-drop max_runs j (newest_first (λ q. q) (keep others rs))
      (contains-newest_first j (keep others rs) ∙ contains-keep others j rs u ∙ rw (found, status))
