-- ===== src/Cloud/Database.antt =====
-- Cloud/src/database_manager.py: the module's engine, and Cloud/init_db.py, which sets the tables
-- up. The file system and SQLAlchemy are parameters; texts are lists of code points.
use auto_robotic_arms.Base.{ℕ, Bool, List, [], ◌∷◌, ◌++◌, Option, none, some}
use auto_robotic_arms.Wire.{codes}
use auto_robotic_arms.Python.{Exception, Result, ok, err, ◌>>=◌}

-- `os.path.abspath`, `os.path.join`, `os.makedirs(..., exist_ok=True)`, `create_engine` with the WAL
-- listener, and `create_all` of the tables on an engine or on None.
pub record Platform : Type 1 where
  pub Engine : Type 0
  pub abspath : List ℕ → List ℕ
  pub join : List ℕ → List ℕ → List ℕ
  pub makedirs : List ℕ → Result (Unit {0})
  pub create_engine : List ℕ → Engine
  pub create_all : Option Engine → Result (Unit {0})

-- "storage_chunks", "production_node.db" and "sqlite:///"
abbrev pub default_dir : List ℕ
default_dir =
    b's' ∷ b't' ∷ b'o' ∷ b'r' ∷ b'a' ∷ b'g' ∷ b'e' ∷ b'_' ∷ b'c' ∷ b'h' ∷ b'u' ∷ b'n' ∷ b'k' ∷ b's'
    ∷ []

abbrev pub database_file : List ℕ
database_file =
    b'p' ∷ b'r' ∷ b'o' ∷ b'd' ∷ b'u' ∷ b'c' ∷ b't' ∷ b'i' ∷ b'o' ∷ b'n' ∷ b'_' ∷ b'n' ∷ b'o' ∷ b'd'
    ∷ b'e' ∷ b'.' ∷ b'd' ∷ b'b' ∷ []

abbrev pub url_scheme : List ℕ
url_scheme = b's' ∷ b'q' ∷ b'l' ∷ b'i' ∷ b't' ∷ b'e' ∷ b':' ∷ b'/' ∷ b'/' ∷ b'/' ∷ []

-- `os.getenv("TELEMETRY_STORAGE_DIR", ...)`
abbrev pub database_dir : Option (List ℕ) → List ℕ
database_dir none = default_dir
database_dir (some dir) = dir

pub data InitReport : Type 0 where
  compiled : Bool → InitReport
  dropped : Exception → InitReport

module _ (h : Platform) where
  abbrev pub database_path : Option (List ℕ) → List ℕ
  database_path env = h.join (h.abspath (database_dir env)) database_file

  -- What the import leaves in `_engine`; it raises where the directory cannot be made.
  unfoldable pub import_module : Option (List ℕ) → Result (Option h.Engine)
  import_module env = h.makedirs (h.abspath (database_dir env)) >>= λ _.
      ok (some (h.create_engine (url_scheme ++ database_path env)))

  -- `get_engine` has no other branch: without an engine it ends and returns None.
  unfoldable pub get_engine : Option h.Engine → Option h.Engine
  get_engine none = none
  get_engine (some engine) = some engine

  unfoldable pub initialize_database : Option h.Engine → Result (Unit {0})
  initialize_database cached = h.create_all (get_engine cached)

  -- What Cloud/init_db.py reports: the tables are there, with whether the file is seen, or what was
  -- raised.
  unfoldable pub init_db : (List ℕ → Bool) → Option (List ℕ) → Option h.Engine → InitReport
  init_db exists env cached = elim (initialize_database cached) [
    | ok _ ↦ compiled (exists (database_path env))
    | err e ↦ dropped e
  ]

  -- `get_db_session`: a session on the cached engine, which the caller gets.
  unfoldable pub get_db_session {ℓ} :
      {Session : Type ℓ} → (Option h.Engine → Session) → Option h.Engine → Session
  get_db_session open_session cached = open_session (get_engine cached)

-- The listener on every new connection of the engine; `execute` is the cursor's.
unfoldable pub activate_sqlite_wal_mode {ℓ} :
    {Connection : Type ℓ} → (List ℕ → Connection → Connection) → Connection → Connection
activate_sqlite_wal_mode execute connection = execute (codes "PRAGMA cache_size=-64000;") (
    execute (codes "PRAGMA synchronous=NORMAL;")
      (execute (codes "PRAGMA journal_mode=WAL;") connection))
