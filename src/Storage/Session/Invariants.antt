-- ===== src/Storage/Session/Invariants.antt =====
-- Whatever the driver does: a property of the tables that each call keeps is kept by a whole chain.
use microhook.Prelude.{Bool, true, false, List, [], ◌∷◌, Result, ok, err}
use microhook.Storage.{StorageError}
use microhook.Storage.Tables.{Db}
use microhook.Storage.Session.{
  Store, Op, continue, ◌>>=◌, driver, driver_at, begin_or_commit, bracket, settle, transaction,
}

module _ (P : Db → Type 0) where
  -- The operation keeps `P`.
  module _ {A : Type 0} where
    abbrev pub Keeps : Op A → Type 0
    Keeps op = (s : Store) → P s.db → P (op s).1.db

  module _ {A B : Type 0} where
    continue-Keeps :
        (r : Result StorageError A) (f : A → Op B) (s : Store)
        → ((a : A) → Keeps (f a))
        → P s.db
        → P (continue r f s).1.db
    continue-Keeps (ok a) f s k h = k a s h
    continue-Keeps (err e) f s k h = h

    pub >>=-Keeps : (m : Op A) (f : A → Op B) → Keeps m → ((a : A) → Keeps (f a)) → Keeps (m >>= f)
    >>=-Keeps m f k l s h = continue-Keeps (m s).0 f (m s).1 l (k s h)

  module _ {A : Type 0} where
    driver_at-Keeps :
        (run : Db → Result StorageError A × Db) (db : Db) (faults : List Bool)
        → ((d : Db) → P d → P (run d).1)
        → P db
        → P (driver_at run db faults).1.db
    driver_at-Keeps run db [] k h = k db h
    driver_at-Keeps run db (true ∷ faults) k h = h
    driver_at-Keeps run db (false ∷ faults) k h = k db h

    pub driver-Keeps :
        (run : Db → Result StorageError A × Db)
        → ((d : Db) → P d → P (run d).1)
        → Keeps (driver run)
    unfolding driver
    driver-Keeps run k s h = driver_at-Keeps run s.db s.faults k h

    settle-Keeps :
        (before : Db) (out : Result StorageError A × Store)
        → P before
        → P out.1.db
        → P (settle before out).1.db
    settle-Keeps before (ok a, s) b h = h
    settle-Keeps before (err e, s) b h = b

  begin_or_commit-Keeps : Keeps begin_or_commit
  begin_or_commit-Keeps = driver-Keeps (λ db. (ok tt, db)) (λ d h. h)

  module _ {A : Type 0} where
    pub transaction-Keeps : (body : Op A) → Keeps body → Keeps (transaction body)
    unfolding transaction
    transaction-Keeps body k s h = settle-Keeps s.db (bracket body s) h (
        >>=-Keeps begin_or_commit _ begin_or_commit-Keeps
          (λ _.
            >>=-Keeps body _ k
              (λ a. >>=-Keeps begin_or_commit _ begin_or_commit-Keeps (λ _ t p. p)))
          s h)
