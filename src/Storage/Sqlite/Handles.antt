-- ===== src/Storage/Sqlite/Handles.antt =====
-- No pool is left open, and no run is touched.
use microhook.Prelude.{
  ◌≡◌, refl, inl, inr, Text, bytes, Bool, true, false, ◌&&◌, eqb, ◌≤◌, ◌||◌, Option, none, some,
  is_empty, trim_space, ◌==◌, Result, ok, err, arith, Bool-cases,
}
use microhook.Storage.{StorageError}
use microhook.Storage.Session.{Store, driver}
use microhook.Storage.Session.Invariants.{driver-Keeps, transaction-Keeps}
use microhook.Storage.Sqlite.{
  FileSystem, Driver, Handle, Opened, close, initialize, after_initialize, open_pool, open_at,
  open_store,
}

abbrev pub is_ok : {E A : Type 0} → Result E A → Bool
is_ok (ok a) = true
is_ok (err e) = false

-- A pool that was opened and not closed.
abbrev pub is_open : Handle → Bool
is_open h = h.opened && eqb h.closes 0

-- What holds of every outcome: the pool is open exactly on success, it is closed at most once, and
-- the rows are those that were there.
pub record IsOpened (before : Store) (o : Opened) : Type 0 where
  pub left_open : is_open o.handle ≡ is_ok o.result
  pub closed_once : o.handle.closes ≤ 1
  pub rows : o.store.db ≡ before.db

initialize-db : (s : Store) → (initialize s).1.db ≡ s.db
unfolding initialize
initialize-db s =
    transaction-Keeps (λ db. db ≡ s.db) (driver (λ db. (ok tt, db)))
      (driver-Keeps (λ db. db ≡ s.db) (λ db. (ok tt, db)) (λ d h. h)) s refl

after_initialize-IsOpened :
    (d : Driver) (path : Text) (before : Store) (r : Result StorageError (Unit {0}) × Store)
    → r.1.db ≡ before.db
    → IsOpened before (after_initialize d path r)
unfolding close
after_initialize-IsOpened d path before (err e, store) h = record {
  left_open = refl;
  closed_once = omega arith;
  rows = h;
}
after_initialize-IsOpened d path before (ok u, store) h = record {
  left_open = refl;
  closed_once = omega arith;
  rows = h;
}

open_pool-IsOpened :
    (d : Driver) (path : Text) (store : Store) → IsOpened store (open_pool d path store)
unfolding close
open_pool-IsOpened d path store = elim (Bool-cases d.opens) [
  | inr e ↦ rw e (record { left_open = refl; closed_once = omega arith; rows = refl })
  | inl e ↦ elim (Bool-cases d.pings) [
    | inr p ↦ rw (e, p) (record { left_open = refl; closed_once = omega arith; rows = refl })
    | inl p ↦
        let opened : open_pool d path store ≡ after_initialize d path (initialize store) =
          rw (e, p) in
        rw opened (after_initialize-IsOpened d path store (initialize store) (initialize-db store))
  ]
]

module _ (fs : FileSystem) (d : Driver) where
  open_at-IsOpened : (path : Option Text) (store : Store) → IsOpened store (open_at fs d path store)
  open_at-IsOpened none store = record { left_open = refl; closed_once = omega arith; rows = refl }
  open_at-IsOpened (some path) store = elim (Bool-cases (fs.mkdir_of path)) [
    | inl e ↦
        let made : open_at fs d (some path) store ≡ open_pool d path store = rw e in
        rw made (open_pool-IsOpened d path store)
    | inr e ↦ rw e (record { left_open = refl; closed_once = omega arith; rows = refl })
  ]

  -- However the opening of a store ends, the pool is left open exactly if it succeeds, is closed at
  -- most once, and no row of the tables is lost or added, wherever the driver fails.
  pub open_store-IsOpened :
      (path : Text) (store : Store) → IsOpened store (open_store fs d path store)
  unfolding open_store
  open_store-IsOpened path store =
      let clean = fs.clean (trim_space path) in
      elim (Bool-cases (clean == bytes "." || is_empty clean)) [
        | inl e ↦ rw e (record { left_open = refl; closed_once = omega arith; rows = refl })
        | inr e ↦
            let opened : open_store fs d path store ≡ open_at fs d (fs.abs clean) store = rw e in
            rw opened (open_at-IsOpened (fs.abs clean) store)
      ]
