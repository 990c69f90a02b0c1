-- ===== src/Storage/Session.antt =====
-- Calls of the database driver, any of which may fail, and transactions (`database/sql`, as
-- internal/storage/repository.go uses it). Which calls fail is given as a list of Booleans.
pub mod Laws
pub mod Invariants
pub mod Quiet
use microhook.Prelude.{Bool, true, false, List, [], ◌∷◌, Result, ok, err}
use microhook.Storage.{StorageError, driver_failed}
use microhook.Storage.Tables.{Db}

pub record Store : Type 0 where
  pub db : Db
  pub faults : List Bool

abbrev pub Op : Type 0 → Type 0
Op A = Store → Result StorageError A × Store

module _ {A B : Type 0} where
  abbrev pub continue : Result StorageError A → (A → Op B) → Op B
  continue (ok a) f s = f a s
  continue (err e) f s = (err e, s)

  infixl 5 ◌>>=◌
  abbrev pub ◌>>=◌ : Op A → (A → Op B) → Op B
  ◌>>=◌ m f s = let (r, s') = m s in continue r f s'

infixl 5 ◌>>◌
abbrev pub ◌>>◌ : {B : Type 0} → Op (Unit {0}) → Op B → Op B
m >> n = m >>= λ _. n

module _ {A : Type 0} where
  abbrev pub lift : Result StorageError A → Op A
  lift r s = (r, s)

  abbrev pub driver_at :
      (Db → Result StorageError A × Db) → Db → List Bool → Result StorageError A × Store
  driver_at run db [] = let (r, db') = run db in (r, record { db = db'; faults = [] })
  driver_at run db (true ∷ faults) = (err driver_failed, record { db = db; faults = faults })
  driver_at run db (false ∷ faults) =
      let (r, db') = run db in (r, record { db = db'; faults = faults })

  -- One call: a fault, or the statement.
  unfoldable pub driver : (Db → Result StorageError A × Db) → Op A
  driver run s = driver_at run s.db s.faults

abbrev pub begin_or_commit : Op (Unit {0})
begin_or_commit = driver (λ db. (ok tt, db))

module _ {A : Type 0} where
  -- After an error in the body, or in the commit, the tables are those of the beginning.
  abbrev pub settle : Db → Result StorageError A × Store → Result StorageError A × Store
  settle before (ok a, s) = (ok a, s)
  settle before (err e, s) = (err e, record s { db = before })

  abbrev pub bracket : Op A → Op A
  bracket body = begin_or_commit >>= λ _. body >>= λ a. begin_or_commit >>= λ _. lift (ok a)

  unfoldable pub transaction : Op A → Op A
  transaction body s = settle s.db (bracket body s)
