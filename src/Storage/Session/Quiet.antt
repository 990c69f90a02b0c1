-- ===== src/Storage/Session/Quiet.antt =====
-- Chains of calls of a driver that does not fail.
use microhook.Prelude.{◌≡◌, refl, [], ok}
use microhook.Storage.Tables.{Db}
use microhook.Storage.Session.{Store, Op, driver, transaction}

abbrev calm : Db → Store
calm db = record { db = db; faults = [] }

module _ {A : Type 0} where
  -- The operation succeeds on any tables.
  abbrev pub Succeeds : Op A → Type 0
  Succeeds op = (db : Db) → (a : A) × (db' : Db) × (op (calm db) ≡ (ok a, calm db'))

  pub driver-Succeeds :
      (value : Db → A) (after : Db → Db) → Succeeds (driver (λ db. (ok (value db), after db)))
  unfolding driver
  driver-Succeeds value after db = (value db, after db, refl)

module _ {A : Type 0} where
  pub transaction-Succeeds : (body : Op A) → Succeeds body → Succeeds (transaction body)
  unfolding transaction driver
  transaction-Succeeds body h db = let (a, db', e) = h db in (a, db', rw e refl)
