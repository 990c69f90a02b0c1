-- ===== src/Storage/Tables/Newest.antt =====
-- What `OFFSET` leaves out of a list in the order of age: the first rows, told by their ids.
use microhook.Prelude.{
  ℕ, ◌≡◌, refl, ap, sym, ◌∙◌, inl, inr, Text, Bool, false, not, ◌&&◌, List, [], ◌∷◌, arith, keep,
  contains, drop, take, zero, suc, ◌==◌, eq_iff, Bool-cases,
}
use microhook.Storage.Tables.{RunRow, find_run, newest_first, insert_by_age, not_older}
use microhook.Storage.Tables.Retention.{
  IsUnique, passes, ids_of, contains-keep, contains-drop, contains-insert_by_age,
  contains-newest_first,
}

-- No two of the listed rows have one id.
abbrev IsApart : List RunRow → Type 0
IsApart [] = Unit
IsApart (r ∷ rs) = (contains (ids_of rs) r.id ≡ false) × IsApart rs

IsApart-keep : (p : RunRow → Bool) (rs : List RunRow) → IsUnique rs → IsApart (keep p rs)
unfolding keep
IsApart-keep p [] u = tt
IsApart-keep p (r ∷ rs) (new, u) =
    let rest = IsApart-keep p rs u in
    let gone : contains (ids_of (keep p rs)) r.id ≡ false =
      contains-keep p r.id rs u ∙ rw new refl in
    elim (Bool-cases (p r)) [ inl e ↦ rw e (gone, rest) | inr e ↦ rw e rest ]

IsApart-insert_by_age :
    (r : RunRow) (rs : List RunRow)
    → contains (ids_of rs) r.id ≡ false
    → IsApart rs
    → IsApart (insert_by_age (λ q. q) r rs)
unfolding insert_by_age contains
IsApart-insert_by_age r [] h u = (refl, tt)
IsApart-insert_by_age r (q ∷ rs) h (new, u) =
    let apart : (q.id == r.id) ≡ false = ground arith in
    let later : contains (ids_of rs) r.id ≡ false = ground arith in
    let others : IsApart (q ∷ rs) = (new, u) in
    let rest = IsApart-insert_by_age r rs later u in
    let turned : (r.id == q.id) ≡ false = ground (arith, eq_iff r.id q.id, eq_iff q.id r.id) in
    elim (Bool-cases (not_older r q)) [
      | inl e ↦ rw e (h, others)
      | inr e ↦ rw e (contains-insert_by_age q.id r rs ∙ rw (turned, new) refl, rest)
    ]

IsApart-newest_first : (rs : List RunRow) → IsApart rs → IsApart (newest_first (λ q. q) rs)
unfolding newest_first
IsApart-newest_first [] u = tt
IsApart-newest_first (r ∷ rs) (new, u) =
    IsApart-insert_by_age r _ (contains-newest_first r.id rs ∙ new) (IsApart-newest_first rs u)

contains-drop-take :
    (n : ℕ) (j : Text) (rs : List RunRow)
    → IsApart rs
    → contains (ids_of (drop n rs)) j
      ≡ (contains (ids_of rs) j && not (contains (ids_of (take n rs)) j))
unfolding contains
contains-drop-take zero j rs u = ground arith
contains-drop-take (suc n) j [] u = refl
contains-drop-take (suc n) j (r ∷ rs) (new, u) = elim (Bool-cases (r.id == j)) [
  | inl e ↦
      let same : r.id ≡ j = (eq_iff r.id j).0 e in
      let gone : contains (ids_of rs) j ≡ false = ap (contains (ids_of rs)) (sym same) ∙ new in
      contains-drop n j rs gone ∙ rw e refl
  | inr e ↦ contains-drop-take n j rs u ∙ rw e refl
]

-- The ids behind the first `n` of the wanted rows are those of the other wanted rows.
pub contains-drop-newest_first :
    (p : RunRow → Bool) (n : ℕ) (j : Text) (rs : List RunRow)
    → IsUnique rs
    → let sorted = newest_first (λ (r : RunRow). r) (keep p rs) in
      contains (ids_of (drop n sorted)) j
      ≡ (passes p (find_run j rs) && not (contains (ids_of (take n sorted)) j))
contains-drop-newest_first p n j rs u =
    let sorted = newest_first (λ (r : RunRow). r) (keep p rs) in
    let listed : contains (ids_of sorted) j ≡ passes p (find_run j rs) =
      contains-newest_first j (keep p rs) ∙ contains-keep p j rs u in
    contains-drop-take n j sorted (IsApart-newest_first (keep p rs) (IsApart-keep p rs u))
    ∙ rw listed refl
