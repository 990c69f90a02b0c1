-- ===== src/Storage/Session/Laws.antt =====
-- Taking apart a sequence of driver calls that succeeded, and transactions that did not.
use microhook.Prelude.{◌≡◌, refl, ◌∙◌, ap, Bool, true, false, List, [], ◌∷◌, Result, ok, err}
use microhook.Storage.{StorageError}
use microhook.Storage.Tables.{Db}
use microhook.Storage.Session.{
  Store, Op, continue, ◌>>=◌, lift, driver, driver_at, begin_or_commit, settle, bracket,
  transaction,
}

module _ {A B : Type 0} where
  continue-ok :
      (r : Result StorageError A) (f : A → Op B) (s : Store) {b : B}
      → (continue r f s).0 ≡ ok b
      → (a : A) × (r ≡ ok a) × (continue r f s ≡ f a s)
  continue-ok (ok a) f s h = (a, refl, refl)
  continue-ok (err e) f s h = cc

  -- The steps of a sequence that succeeded.
  pub >>=-ok :
      (m : Op A) (f : A → Op B) (s : Store) {b : B}
      → ((m >>= f) s).0 ≡ ok b
      → (a : A) × ((m s).0 ≡ ok a) × ((m >>= f) s ≡ f a (m s).1)
  >>=-ok m f s h = let (r, s') = m s in continue-ok r f s' h

  continue-db :
      (r : Result StorageError A) (f : A → Op B) (s : Store)
      → ((a : A) (t : Store) → (f a t).1.db ≡ t.db)
      → (continue r f s).1.db ≡ s.db
  continue-db (ok a) f s h = h a s
  continue-db (err e) f s h = refl

  -- A step followed by steps that only read.
  pub >>=-db :
      (m : Op A) (f : A → Op B) (s : Store)
      → ((a : A) (t : Store) → (f a t).1.db ≡ t.db)
      → ((m >>= f) s).1.db ≡ (m s).1.db
  >>=-db m f s h = let (r, s') = m s in continue-db r f s' h

module _ {A : Type 0} where
  driver_at-ok :
      (run : Db → Result StorageError A × Db) (db : Db) (faults : List Bool) {a : A}
      → (driver_at run db faults).0 ≡ ok a
      → ((run db).0 ≡ ok a) × ((driver_at run db faults).1.db ≡ (run db).1)
  driver_at-ok run db [] h = (h, refl)
  driver_at-ok run db (true ∷ faults) h = cc
  driver_at-ok run db (false ∷ faults) h = (h, refl)

  -- A call that succeeded ran its statement.
  pub driver-ok :
      (run : Db → Result StorageError A × Db) (s : Store) {a : A}
      → (driver run s).0 ≡ ok a
      → ((run s.db).0 ≡ ok a) × ((driver run s).1.db ≡ (run s.db).1)
  unfolding driver
  driver-ok run s h = driver_at-ok run s.db s.faults h

  driver_at-db :
      (run : Db → Result StorageError A × Db) (db : Db) (faults : List Bool)
      → (run db).1 ≡ db
      → (driver_at run db faults).1.db ≡ db
  driver_at-db run db [] h = h
  driver_at-db run db (true ∷ faults) h = refl
  driver_at-db run db (false ∷ faults) h = h

  -- A call of a statement that only reads leaves the tables alone, failing or not.
  pub driver-db :
      (run : Db → Result StorageError A × Db) (s : Store)
      → (run s.db).1 ≡ s.db
      → (driver run s).1.db ≡ s.db
  unfolding driver
  driver-db run s h = driver_at-db run s.db s.faults h

begin_or_commit-db : (s : Store) → (begin_or_commit s).1.db ≡ s.db
begin_or_commit-db s = driver-db (λ db. (ok tt, db)) s refl

module _ {A : Type 0} where
  settle-err :
      (before : Db) (r : Result StorageError A × Store) {e : StorageError}
      → (settle before r).0 ≡ err e
      → (settle before r).1.db ≡ before
  settle-err before (ok a, s) h = cc
  settle-err before (err e, s) h = refl

  -- A transaction that fails, in its body or at its ends, leaves the tables as they were.
  pub transaction-err :
      (body : Op A) (s : Store) {e : StorageError}
      → (transaction body s).0 ≡ err e
      → (transaction body s).1.db ≡ s.db
  unfolding transaction
  transaction-err body s h = settle-err s.db _ h

  settle-ok :
      (before : Db) (r : Result StorageError A × Store) {a : A}
      → (settle before r).0 ≡ ok a
      → (r.0 ≡ ok a) × (settle before r ≡ r)
  settle-ok before (ok a, s) h = (h, refl)
  settle-ok before (err e, s) h = cc

  -- One that succeeds has the effect of its body.
  pub transaction-ok :
      (body : Op A) (s : Store) {a : A}
      → (transaction body s).0 ≡ ok a
      → (begun : Store) × (begun.db ≡ s.db)
        × ((body begun).0 ≡ ok a)
        × ((transaction body s).1.db ≡ (body begun).1.db)
  unfolding transaction
  transaction-ok body s {a} h =
      let begun = (begin_or_commit s).1 in
      let (ran, settled) = settle-ok s.db (bracket body s) h in
      let (_, _, from_begin) = >>=-ok begin_or_commit _ s ran in
      let (a', finished, from_body) = >>=-ok body _ begun (rw from_begin at ran) in
      let committed =
        >>=-ok begin_or_commit (λ _. lift (ok a')) (body begun).1
          (rw from_body at (rw from_begin at ran)) in
      let whole = settled ∙ from_begin ∙ from_body ∙ committed.2 in
      (
        begun,
        begin_or_commit-db s,
        finished ∙ (rw whole at h),
        ap (λ r. r.1.db) whole ∙ begin_or_commit-db (body begun).1,
      )
