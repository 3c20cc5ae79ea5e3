-- ===== src/Pnp/Open.antt =====
-- src/pnp/db.rs: `AllocationDb::open`. The file system and the opening of a connection are an
-- interface; each of its calls is made at most once, so that its result is a value.
use cyphal_service.Common.{Option, none, some, [], ◌∷◌, ◌++◌, Text, text, Result, ok, err}

pub record Files (Conn : Type 0) : Type 0 where
  -- `Path::parent`.
  pub parent : Text → Option Text
  pub create_dir_all : Text → Result (Unit {0}) Text
  pub open_connection : Text → Result Conn Text
  -- `execute_batch` of the statement that creates the table unless it is there.
  pub create_table : Conn → Result (Unit {0}) Text × Conn

abbrev pub directory_error : Text → Text → Text
directory_error dir e = text "Cannot create DB directory " ++ (dir ++ (text ": " ++ e))

abbrev pub connection_error : Text → Text → Text
connection_error path e = text "Cannot open DB at " ++ (path ++ (text ": " ++ e))

abbrev pub table_error : Text → Text
table_error e = text "Cannot create allocation table: " ++ e

module _ {Conn : Type 0} (files : Files Conn) where
  -- The directory of the path, where it names one.
  unfoldable pub make_directory : Option Text → Result (Unit {0}) Text
  make_directory none = ok tt
  make_directory (some []) = ok tt
  make_directory (some (c ∷ cs)) = elim (files.create_dir_all (c ∷ cs)) [
    | ok u ↦ ok tt
    | err e ↦ err (directory_error (c ∷ cs) e)
  ]

  -- `AllocationDb::open`.
  unfoldable pub open_db : Text → Result Conn Text
  unfolding make_directory
  open_db path = elim (make_directory (files.parent path)) [
    | err e ↦ err e
    | ok u ↦ elim (files.open_connection path) [
      | err e ↦ err (connection_error path e)
      | ok conn ↦ elim (files.create_table conn).0 [
        | err e ↦ err (table_error e)
        | ok u ↦ ok (files.create_table conn).1
      ]
    ]
  ]
