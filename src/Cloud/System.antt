-- ===== src/Cloud/System.antt =====
-- The cloud layer as a whole: the orchestrator of Cloud/src/conductor_host.py and the worker of
-- Cloud/src/cloud_sync.py over one telemetry table.
pub mod Accounts
pub mod Landing
pub mod Delivery
pub mod Drained
use auto_robotic_arms.Base.{
  ℕ, ◌≤◌, ◌<◌, ◌≡◌, ◌≢◌, ◌⊎◌, Bool, true, false, List, [], ◌∷◌, ◌++◌, map, length, drop, ltb, leb,
  ◌%◌, pos, if◌then◌else◌, Distinct,
}
use auto_robotic_arms.Floats.{Floats}
use auto_robotic_arms.Python.{ok}
use auto_robotic_arms.Cloud.Telemetry.{TelemetryRow, pending}
use auto_robotic_arms.Cloud.Conductor.{
  Snapshot, ConductorOrchestrator, Action, produces, flushes, stops, act, run, number,
  validate_arm_telemetry, snapshot_at,
}
use auto_robotic_arms.Cloud.Sync.{
  CloudSyncWorker, Surroundings, boot_stale_record_sweep, sync_cycle, triggered, raw_buffer,
}
use auto_robotic_arms.Cloud.Sync.Cases.{batch_of}
use auto_robotic_arms.Cloud.Sync.History.{ids, restarted}

-- A snapshot as a new row: `TelemetryIngressQueue(...)` in `_producer_loop`, with its id.
abbrev pub row_of : ℕ → Snapshot → TelemetryRow
row_of id x = record {
  record_id = id;
  timestamp = x.timestamp;
  system_state = "NOMINAL";
  schema_version = 1;
  left_arm_protobuf_blob = x.left_arm_protobuf_blob;
  right_arm_protobuf_blob = [];
  watchdog_ms = 3000;
  sync_status = pending;
}

-- The rows of a batch, `db_records`, under the ids that the database gives them.
abbrev pub rows_of : List ℕ → List Snapshot → List TelemetryRow
rows_of (id ∷ ids) (x ∷ xs) = row_of id x ∷ rows_of ids xs
rows_of ids xs = []

-- What the flusher has committed between two states: the end of the later database.
abbrev pub inserted : ConductorOrchestrator → ConductorOrchestrator → List Snapshot
inserted c c' = drop (length c.database) c'.database

pub record CloudSystem : Type 0 where
  pub conductor : ConductorOrchestrator
  pub worker : CloudSyncWorker

-- The ids of new rows, as the database chooses them: one for each, and none that is in the table or
-- given twice.
pub record Numbers (new : List Snapshot) (table : List TelemetryRow) (keys : List ℕ) : Type 0 where
  pub fits : length keys ≡ length new
  pub fresh : Distinct (ids (table ++ rows_of keys new))

-- The cycle comes to the upload: the circuit is closed, a batch is due and not empty, and it packs.
pub record Uploads (compress : List ℕ → List ℕ) (e : Surroundings) (w : CloudSyncWorker)
    : Type 0 where
  pub closed : w.circuit_open_until ≤ e.now
  pub due : triggered compress e.now w ≡ true
  pub some_rows : 0 < length (batch_of w)
  pub raw : List ℕ
  pub packs : raw_buffer (batch_of w) ≡ ok raw

module _ (f : Floats) (serialize : f.Float → f.Float → f.Float → List ℕ) where
  -- Which snapshot an action offers that is to be kept: the producer's, while the threads run, if it
  -- is valid and the queue has room.
  unfoldable pub kept_of : Action → ConductorOrchestrator → List Snapshot
  kept_of (produces now) c =
      let valid =
        validate_arm_telemetry f
          (number (f.add (f.lit 900 10) (f.of_int (pos (c.simulated_step % 45)))))
          (number (f.lit 450 10)) (number (f.lit 1200 10)) in
      if c.shutdown_event
      then []
      else if leb 100 (length c.telemetry_queue)
      then []
      else if valid
      then snapshot_at f serialize now c.simulated_step ∷ []
      else []
  kept_of (flushes succeeds) c = []
  kept_of stops c = []

  unfoldable pub kept_of_all : List Action → ConductorOrchestrator → List Snapshot
  kept_of_all [] c = []
  kept_of_all (a ∷ actions) c = kept_of a c ++ kept_of_all actions (act f serialize a c)

module _ (f : Floats) (serialize : f.Float → f.Float → f.Float → List ℕ)
    (compress : List ℕ → List ℕ) where
  -- An action of the conductor's threads, with its commit in the table; a cycle of the worker, with
  -- actions of the conductor while its upload runs; a sweep; and a restart of the worker. The list
  -- is of the snapshots to be kept that the step offers.
  pub data Step (s : CloudSystem) : List Snapshot → CloudSystem → Type 0 where
    acts :
        (a : Action) (keys : List ℕ)
        → Numbers (inserted s.conductor (act f serialize a s.conductor)) s.worker.table keys
        → Step s (kept_of f serialize a s.conductor) (record {
          conductor = act f serialize a s.conductor;
          worker = record s.worker {
            table =
                s.worker.table
                ++ rows_of keys (inserted s.conductor (act f serialize a s.conductor));
          };
        })
    cycles :
        (e : Surroundings) (during : List Action) (keys : List ℕ)
        → Numbers (inserted s.conductor (run f serialize during s.conductor)) s.worker.table keys
        → e.arrivals ≡ rows_of keys (inserted s.conductor (run f serialize during s.conductor))
        → ((during ≡ []) ⊎ Uploads compress e s.worker)
        → Step s (kept_of_all f serialize during s.conductor) (record {
          conductor = run f serialize during s.conductor;
          worker = (sync_cycle compress e s.worker).1;
        })
    sweeps : Step s [] (record s { worker = (boot_stale_record_sweep s.worker).1 })
    restarts : (now : ℕ) → Step s [] (record s { worker = restarted now s.worker })

  -- With nothing taken in, an empty table and an empty bucket.
  pub record IsNew (s : CloudSystem) : Type 0 where
    pub queue : s.conductor.telemetry_queue ≡ []
    pub batch : s.conductor.batch ≡ []
    pub database : s.conductor.database ≡ []
    pub table : s.worker.table ≡ []
    pub bucket : s.worker.bucket ≡ []

  -- `kept` are the snapshots to be kept that all steps together have offered, in order.
  pub data Reach : List Snapshot → CloudSystem → Type 0 where
    starts : (s : CloudSystem) → IsNew s → Reach [] s
    later :
        {kept : List Snapshot} {s : CloudSystem} {new : List Snapshot} {s' : CloudSystem}
        → Reach kept s
        → Step s new s'
        → Reach (kept ++ new) s'
