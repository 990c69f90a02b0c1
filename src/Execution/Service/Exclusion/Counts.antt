-- ===== src/Execution/Service/Exclusion/Counts.antt =====
-- Counts of the executions that hold a name, and what taking and freeing a name does to them.
use microhook.Prelude.{
  ℕ, ◌+◌, ◌≡◌, ap, Text, Bool, true, false, List, [], ◌∷◌, ◌++◌, Option, none, some, arith, Map,
  insert, delete, ◌==◌, eq_iff, lookup-insert, lookup-delete, if◌then◌else◌,
}
use microhook.Execution.Service.{Pending, is_running}

abbrev pub holds : Text → Option Text → ℕ
holds name none = 0
holds name (some held) = if held == name then 1 else 0

-- How many of the executions under way hold a name.
abbrev pub holders : Text → List Pending → ℕ
holders name [] = 0
holders name (p ∷ ps) = holds name p.releases + holders name ps

pub is_running-insert :
    (j k : Text) (m : Map Bool)
    → is_running j (insert k true m) ≡ (if k == j then true else is_running j m)
unfolding is_running
is_running-insert j k m = ground (arith, lookup-insert k j true m)

pub is_running-delete :
    (j k : Text) (m : Map Bool)
    → is_running j (delete k m) ≡ (if k == j then false else is_running j m)
unfolding is_running
is_running-delete j k m = ground (arith, lookup-delete k j m)

pub holders-append :
    (name : Text) (ps qs : List Pending)
    → holders name (ps ++ qs) ≡ holders name ps + holders name qs
holders-append name [] qs = omega arith
holders-append name (p ∷ ps) qs = omega (arith, holders-append name ps qs)

pub count_taken :
    (name other : Text) (m : Map Bool) (ps : List Pending)
    → is_running name m ≡ false
    → holders other ps ≡ (if is_running other m then 1 else 0)
    → holds other (some name) + holders other ps
      ≡ (if is_running other (insert name true m) then 1 else 0)
count_taken name other m ps f k =
    rw (is_running-insert other name m)
      (ground (arith, eq_iff name other, ap (λ n. is_running n m)))

-- A name taken for nothing.
pub count_freed :
    (name other : Text) (m : Map Bool) (ps : List Pending)
    → is_running name m ≡ false
    → holders other ps ≡ (if is_running other m then 1 else 0)
    → holders other ps ≡ (if is_running other (delete name (insert name true m)) then 1 else 0)
count_freed name other m ps f k =
    rw (is_running-delete other name (insert name true m), is_running-insert other name m)
      (ground (arith, eq_iff name other))

pub count_ended :
    (name other : Text) (m : Map Bool) (front : List Pending) (p : Pending) (rest : List Pending)
    → p.releases ≡ some name
    → holders other (front ++ p ∷ rest) ≡ (if is_running other m then 1 else 0)
    → holders other (front ++ rest) ≡ (if is_running other (delete name m) then 1 else 0)
count_ended name other m front p rest r k =
    let before = holders-append other front (p ∷ rest) in
    let after = holders-append other front rest in
    let held = ap (holds other) r in
    rw (is_running-delete other name m) (ground (arith, eq_iff name other))

pub count_kept :
    (other : Text) (front : List Pending) (p : Pending) (rest : List Pending)
    → p.releases ≡ none
    → holders other (front ++ rest) ≡ holders other (front ++ p ∷ rest)
count_kept other front p rest r = omega (
  arith,
  holders-append other front (p ∷ rest),
  holders-append other front rest,
  ap (holds other) r,
)
