-- ===== src/Storage/Sqlite.antt =====
-- internal/storage/sqlite.go: a store is opened, its tables are made, and it is closed. What the file
-- system and the database driver answer is given; the text of the DSN is left out.
pub mod Handles
use microhook.Prelude.{
  ℕ, ◌+◌, Text, bytes, Bool, true, false, ◌||◌, Option, none, some, is_empty, trim_space, ◌==◌,
  if◌then◌else◌, Result, ok, err,
}
use microhook.Storage.{StorageError}
use microhook.Storage.Session.{Op, Store, driver, transaction}

-- `filepath.Clean`, `filepath.Abs`, and whether `os.MkdirAll` makes the directory of a path.
pub record FileSystem : Type 0 where
  pub clean : Text → Text
  pub abs : Text → Option Text
  pub mkdir_of : Text → Bool

-- What `sql.Open`, `PingContext` and `Close` answer: whether they succeed, and the error of the last.
pub record Driver : Type 0 where
  pub opens : Bool
  pub pings : Bool
  pub close_error : Option Text

-- The pool that `sql.Open` gives, if it does: how often it was closed.
pub record Handle : Type 0 where
  pub opened : Bool
  pub closes : ℕ

abbrev pub no_handle : Handle
no_handle = record { opened = false; closes = 0 }

abbrev pub new_handle : Handle
new_handle = record { opened = true; closes = 0 }

-- The last two come with the error of `Close`.
pub data OpenError : Type 0 where
  path_required resolve_failed mkdir_failed open_failed : OpenError
  ping_failed : Option Text → OpenError
  initialize_failed : StorageError → Option Text → OpenError

-- `Store.Close`, which returns the error of the pool.
unfoldable pub close : Handle → Handle
close h = record h { closes = h.closes + 1 }

-- The script of the schema creates what is missing: the rows that are there stay.
unfoldable pub initialize : Op (Unit {0})
unfolding transaction driver
initialize = transaction (driver (λ db. (ok tt, db)))

pub record Opened : Type 0 where
  pub result : Result OpenError Text
  pub handle : Handle
  pub store : Store

abbrev refuse : OpenError → Store → Opened
refuse e store = record { result = err e; handle = no_handle; store = store }

module _ (driver : Driver) (path : Text) where
  -- `Open` from the ping on.
  abbrev pub after_initialize : Result StorageError (Unit {0}) × Store → Opened
  after_initialize (err e, store) = record {
    result = err (initialize_failed e driver.close_error);
    handle = close new_handle;
    store = store;
  }
  after_initialize (ok u, store) = record { result = ok path; handle = new_handle; store = store }

  abbrev pub open_pool : Store → Opened
  open_pool store =
      if driver.opens
      then (if driver.pings then after_initialize (initialize store) else record {
        result = err (ping_failed driver.close_error);
        handle = close new_handle;
        store = store;
      })
      else refuse open_failed store

module _ (fs : FileSystem) (driver : Driver) where
  abbrev pub open_at : Option Text → Store → Opened
  open_at none store = refuse resolve_failed store
  open_at (some path) store =
      if fs.mkdir_of path then open_pool driver path store else refuse mkdir_failed store

  unfoldable pub open_store : Text → Store → Opened
  unfolding initialize close
  open_store path store =
      let clean = fs.clean (trim_space path) in
      if clean == bytes "." || is_empty clean
      then refuse path_required store
      else open_at (fs.abs clean) store
