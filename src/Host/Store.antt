-- ===== src/Host/Store.antt =====
-- Hardware/host_app/src/database_manager.py: the telemetry table of the host application
-- (`TelemetryIngressQueue` of Hardware/host_app/src/models.py) and its pruning. A table lists its
-- rows by ascending `id`, the primary key; SQLite gives a new row the largest id plus one. The
-- column `timestamp` is left out.
pub mod Retention
pub mod Setup
use Prim.Native.String.{String}
use auto_robotic_arms.Base.{
  ℕ, zero, suc, ◌+◌, Bool, true, false, List, [], ◌∷◌, ◌++◌, Option, none, some, ltb, ◌==◌,
  if◌then◌else◌, length, take, map, ℤ, pos,
}
use auto_robotic_arms.Joints.{Angles}
use auto_robotic_arms.Floats.{Floats}

abbrev pub max_telemetry_rows : ℕ
max_telemetry_rows = 50_000

abbrev pub prune_batch_size : ℕ
prune_batch_size = 5_000

module _ (f : Floats) where
  pub record TelemetryRecord : Type 0 where
    pub id : ℕ
    pub target_x : f.Float
    pub target_y : f.Float
    pub target_z : f.Float
    pub base_angle : ℤ
    pub shoulder_angle : ℤ
    pub elbow_angle : ℤ
    pub status : String
    pub checksum_sent : String

module _ (f : Floats) where
  -- `session.get` and `session.delete` of one id; nothing where no row has it.
  unfoldable pub delete_id : ℕ → List (TelemetryRecord f) → List (TelemetryRecord f)
  delete_id id [] = []
  delete_id id (r ∷ rows) = let rest = delete_id id rows in if r.id == id then rows else r ∷ rest

  -- The loop over `oldest_ids`.
  unfoldable pub delete_ids : List ℕ → List (TelemetryRecord f) → List (TelemetryRecord f)
  delete_ids [] rows = rows
  delete_ids (id ∷ ids) rows = delete_ids ids (delete_id id rows)

  unfoldable pub prune_old_telemetry : List (TelemetryRecord f) → List (TelemetryRecord f)
  prune_old_telemetry rows =
      let oldest_ids = map (λ r. r.id) (take prune_batch_size rows) in
      if ltb max_telemetry_rows (length rows) then delete_ids oldest_ids rows else rows

  unfoldable pub next_id : List (TelemetryRecord f) → ℕ
  next_id [] = 1
  next_id (r ∷ []) = r.id + 1
  next_id (r ∷ q ∷ rows) = next_id (q ∷ rows)

  -- The record of a call; without angles they are 0.
  abbrev pub telemetry_record :
      f.Float × f.Float × f.Float → Option Angles → String → String → ℕ → TelemetryRecord f
  telemetry_record (x, y, z) none status checksum id = record {
    id = id;
    target_x = x;
    target_y = y;
    target_z = z;
    base_angle = pos 0;
    shoulder_angle = pos 0;
    elbow_angle = pos 0;
    status = status;
    checksum_sent = checksum;
  }
  telemetry_record (x, y, z) (some a) status checksum id = record {
    id = id;
    target_x = x;
    target_y = y;
    target_z = z;
    base_angle = a.base;
    shoulder_angle = a.shoulder;
    elbow_angle = a.elbow;
    status = status;
    checksum_sent = checksum;
  }

  unfoldable pub log_telemetry_state :
      f.Float × f.Float × f.Float
      → Option Angles
      → String
      → String
      → List (TelemetryRecord f)
      → List (TelemetryRecord f)
  log_telemetry_state target angles status checksum rows =
      prune_old_telemetry
        (rows ++ telemetry_record target angles status checksum (next_id rows) ∷ [])
