-- ===== src/Cloud/Telemetry.antt =====
-- The two tables of Cloud/src/models.py. A telemetry table (`TelemetryIngressQueue`) lists its rows
-- by ascending `record_id`, the order of the primary key; times are whole microseconds.
use Prim.Native.String.{String}
use auto_robotic_arms.Base.{
  ℕ, Bool, true, false, ◌||◌, List, [], ◌∷◌, Option, none, ◌==◌, if◌then◌else◌,
}
use auto_robotic_arms.Floats.{Floats}

-- The texts 'PENDING', 'PROCESSING' and 'SYNCED' that the code writes.
pub data SyncStatus : Type 0 where
  pending processing synced : SyncStatus

pub record TelemetryRow : Type 0 where
  pub record_id : ℕ
  pub timestamp : ℕ
  pub system_state : String
  pub schema_version : ℕ
  pub left_arm_protobuf_blob : List ℕ
  pub right_arm_protobuf_blob : List ℕ
  pub watchdog_ms : ℕ
  pub sync_status : SyncStatus

abbrev pub is_pending : SyncStatus → Bool
is_pending pending = true
is_pending _ = false

abbrev pub is_processing : SyncStatus → Bool
is_processing processing = true
is_processing _ = false

-- `select(...).where(sync_status == ...)`
unfoldable pub where_status : (SyncStatus → Bool) → List TelemetryRow → List TelemetryRow
where_status test [] = []
where_status test (r ∷ rows) =
    if test r.sync_status then r ∷ where_status test rows else where_status test rows

unfoldable pub has_id : ℕ → List TelemetryRow → Bool
has_id id [] = false
has_id id (r ∷ rows) = r.record_id == id || has_id id rows

-- `for r in records: r.sync_status = ...` and the commit: the rows of the table with their ids.
unfoldable pub mark : List TelemetryRow → SyncStatus → List TelemetryRow → List TelemetryRow
mark records status [] = []
mark records status (r ∷ rows) =
    (if has_id r.record_id records then record r { sync_status = status } else r)
    ∷ mark records status rows

-- A row of `node_configurations`; the id is none until the database gives one.
pub record NodeConfiguration (f : Floats) : Type 0 where
  pub config_id : Option ℕ
  pub profile_name : String
  pub left_base_clamp : f.Float
  pub left_shoulder_clamp : f.Float
  pub left_elbow_clamp : f.Float
  pub right_base_clamp : f.Float
  pub right_shoulder_clamp : f.Float
  pub right_elbow_clamp : f.Float
  pub updated_at : ℕ

-- The defaults behind a profile's name, at a time.
abbrev pub default_configuration : (f : Floats) → String → ℕ → NodeConfiguration f
default_configuration f profile_name now = record {
  config_id = none;
  profile_name = profile_name;
  left_base_clamp = f.lit 1800 10;
  left_shoulder_clamp = f.lit 1800 10;
  left_elbow_clamp = f.lit 1800 10;
  right_base_clamp = f.lit 1800 10;
  right_shoulder_clamp = f.lit 1800 10;
  right_elbow_clamp = f.lit 1800 10;
  updated_at = now;
}
