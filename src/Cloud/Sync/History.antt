-- ===== src/Cloud/Sync/History.antt =====
-- The life of a table under `CloudSyncWorker` of Cloud/src/cloud_sync.py: cycles and sweeps, rows
-- that the conductor commits between them, and restarts of the process.
use auto_robotic_arms.Base.{ℕ, ◌≡◌, true, List, [], ◌++◌, map, All, Distinct}
use auto_robotic_arms.Cloud.Telemetry.{TelemetryRow, is_pending}
use auto_robotic_arms.Cloud.Sync.{
  CloudSyncWorker, Surroundings, boot_stale_record_sweep, sync_cycle,
}

-- The state that `__init__` sets, over the table and the bucket that are there.
abbrev pub restarted : ℕ → CloudSyncWorker → CloudSyncWorker
restarted now w = record w {
  last_flush_time = now;
  consecutive_failures = 0;
  circuit_open_until = 0;
}

abbrev pub ids : List TelemetryRow → List ℕ
ids = map (λ r. r.record_id)

-- Rows as the conductor commits them: PENDING, under ids that the table does not have yet.
pub record Arrives (table rows : List TelemetryRow) : Type 0 where
  pub waiting : All (λ r. is_pending r.sync_status ≡ true) rows
  pub fresh : Distinct (ids (table ++ rows))

module _ (compress : List ℕ → List ℕ) where
  pub data Step (w : CloudSyncWorker) : CloudSyncWorker → Type 0 where
    cycles : (e : Surroundings) → Arrives w.table e.arrivals → Step w (sync_cycle compress e w).1
    sweeps : Step w (boot_stale_record_sweep w).1
    commits :
        (rows : List TelemetryRow)
        → Arrives w.table rows
        → Step w (record w { table = w.table ++ rows })
    restarts : (now : ℕ) → Step w (restarted now w)

module _ (compress : List ℕ → List ℕ) where
  -- From an empty table and an empty bucket.
  pub data Reach : CloudSyncWorker → Type 0 where
    starts : (w : CloudSyncWorker) → w.table ≡ [] → w.bucket ≡ [] → Reach w
    later : {w w' : CloudSyncWorker} → Reach w → Step compress w w' → Reach w'
