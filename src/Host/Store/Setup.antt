-- ===== src/Host/Store/Setup.antt =====
-- The set-up of the host application's database: `initialize_database` of
-- Hardware/host_app/src/database_manager.py, over SQLite as a parameter, and the configuration table
-- of Hardware/host_app/src/models.py, which no code reads or writes. Times are whole microseconds.
use Prim.Native.String.{String}
use auto_robotic_arms.Base.{ℕ}
use auto_robotic_arms.Python.{Result, ◌>>=◌}
use auto_robotic_arms.Floats.{Floats}

-- A row of `NodeConfiguration`; `parameter_name` is unique.
pub record NodeConfiguration (f : Floats) : Type 0 where
  pub id : ℕ
  pub parameter_name : String
  pub parameter_value : f.Float
  pub updated_at : ℕ

-- The three PRAGMAs, and the creation of the tables.
pub data Statement : Type 0 where
  auto_vacuum_full create_all journal_mode_wal synchronous_normal : Statement

-- What a statement does to the database, or that it raises.
module _ {Database : Type 0} (execute : Statement → Database → Result Database) where
  unfoldable pub initialize_database : Database → Result Database
  initialize_database db = do
    vacuumed ← execute auto_vacuum_full db
    created ← execute create_all vacuumed
    logged ← execute journal_mode_wal created
    execute synchronous_normal logged
