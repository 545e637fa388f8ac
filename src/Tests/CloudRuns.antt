-- ===== src/Tests/CloudRuns.antt =====
-- The sync worker of Cloud/src/cloud_sync.py at a concrete table.
use auto_robotic_arms.Base.{
  ℕ, ◌+◌, ◌≤◌, ◌^◌, ◌<◌, ◌≡◌, refl, true, false, List, [], ◌∷◌, some, arith, length, All, Any,
}
use auto_robotic_arms.Python.{ok}
use auto_robotic_arms.Cloud.Telemetry.{TelemetryRow, pending, synced, where_status, has_id, mark}
use auto_robotic_arms.Cloud.Sync.{
  CloudSyncWorker, Surroundings, accepted, refused, returned, length_header, raw_buffer,
  query_pending_batch, after_upload, upload, ship, triggered, sync_cycle,
}
use auto_robotic_arms.Cloud.Sync.Framing.{read_frames, blob_of, raw_buffer_roundtrip}
use auto_robotic_arms.Cloud.Sync.Rows.{Settled, cycle_settles}
use auto_robotic_arms.Cloud.Sync.Cases.{batch_of}
use auto_robotic_arms.Cloud.Sync.History.{Arrives, Reach, starts, later, cycles, commits}
use auto_robotic_arms.Cloud.Sync.Chunks.{is_synced}
use auto_robotic_arms.Cloud.Sync.Delivered.{synced_delivered}
use auto_robotic_arms.Cloud.Sync.Backlog.{backlog, IsSmall}
use auto_robotic_arms.Cloud.Sync.Breaker.{circuit_trips}

abbrev row : ℕ → List ℕ → TelemetryRow
row id blob = record {
  record_id = id;
  timestamp = 1_000;
  system_state = "NOMINAL";
  schema_version = 1;
  left_arm_protobuf_blob = blob;
  right_arm_protobuf_blob = [];
  watchdog_ms = 42;
  sync_status = pending;
}

abbrev rows : List TelemetryRow
rows =
    record (row 1 (7 ∷ [])) { sync_status = synced }
    ∷ row 2 (8 ∷ 9 ∷ [])
    ∷ row 3 []
    ∷ row 4 (1 ∷ [])
    ∷ []

-- Two rows make a batch, and the next failure is the third.
abbrev worker : CloudSyncWorker
worker = record {
  batch_size_threshold = 2;
  batch_time_threshold = 30;
  max_consecutive_failures = 3;
  circuit_cooldown = 60;
  last_flush_time = 0;
  consecutive_failures = 2;
  circuit_open_until = 0;
  table = rows;
  bucket = [];
}

abbrev meeting : Surroundings
meeting = record {
  now = 10;
  later = 12;
  arrivals = row 5 (2 ∷ []) ∷ [];
  answer = accepted;
  stored_anyway = false;
}

abbrev denied : Surroundings
denied = record meeting { answer = refused }

-- The chunk as it is.
abbrev stored : List ℕ → List ℕ
stored chunk = chunk

rows-Settled : All Settled rows
rows-Settled = (refl, (refl, (refl, (refl, tt))))

is_due : triggered stored 10 worker ≡ true
unfolding triggered where_status
is_due = refl

some_rows : 0 < length (batch_of worker)
unfolding where_status
some_rows = omega arith

small_rows : All (λ r. length (blob_of r) < 2 ^ 32) (batch_of worker)
unfolding where_status
small_rows = (omega arith, (omega arith, tt))

cycle_ships : (sync_cycle stored meeting worker).0 ≡ returned 2
unfolding sync_cycle query_pending_batch triggered ship upload after_upload where_status has_id mark
    raw_buffer length_header
cycle_ships = refl

raw_buffer_roundtrip_example :
    (raw : List ℕ) × (raw_buffer (row 2 (8 ∷ 9 ∷ []) ∷ row 3 [] ∷ []) ≡ ok raw)
    × (read_frames 2 raw ≡ some ((8 ∷ 9 ∷ []) ∷ [] ∷ []))
raw_buffer_roundtrip_example =
    raw_buffer_roundtrip (row 2 (8 ∷ 9 ∷ []) ∷ row 3 [] ∷ []) (omega arith, (omega arith, tt))

cycle_settles_example : All Settled (sync_cycle stored meeting worker).1.table
cycle_settles_example = cycle_settles stored meeting worker 2 rows-Settled (refl, tt) cycle_ships

circuit_trips_example :
    sync_cycle stored (record denied { now = 50 }) (sync_cycle stored denied worker).1
    ≡ (returned 0, (sync_cycle stored denied worker).1)
circuit_trips_example =
    circuit_trips stored denied (record denied { now = 50 }) worker (omega arith) is_due some_rows
      small_rows refl (omega arith) (omega arith)

-- A table that two rows come to, a cycle that ships them, a third row, and a restart.
abbrev empty_worker : CloudSyncWorker
empty_worker = record worker { table = [] }

abbrev new_rows : List TelemetryRow
new_rows = row 1 (7 ∷ []) ∷ row 2 (8 ∷ []) ∷ []

abbrev filled : CloudSyncWorker
filled = record empty_worker { table = new_rows }

new_rows-Arrives : Arrives [] new_rows
new_rows-Arrives = record { waiting = (refl, (refl, tt)); fresh = ground arith }

meeting-Arrives : Arrives new_rows meeting.arrivals
meeting-Arrives = record { waiting = (refl, tt); fresh = ground arith }

shipped_reached : Reach stored (sync_cycle stored meeting filled).1
shipped_reached =
    later (later (starts empty_worker refl refl) (commits new_rows new_rows-Arrives))
      (cycles meeting meeting-Arrives)

shipped : (sync_cycle stored meeting filled).0 ≡ returned 2
unfolding sync_cycle query_pending_batch triggered ship upload after_upload where_status has_id mark
    raw_buffer length_header
shipped = refl

-- Three cycles, each thirty microseconds after the one before.
abbrev at_time : ℕ → Surroundings
at_time t = record {
  now = t;
  later = t + 1;
  arrivals = [];
  answer = accepted;
  stored_anyway = false;
}

rows-IsSmall : All IsSmall rows
rows-IsSmall = (omega arith, (omega arith, (omega arith, (omega arith, tt))))

three_wait : backlog rows ≤ 3
unfolding where_status
three_wait = omega arith

synced_delivered_example :
    All
      (λ r.
        is_synced r.sync_status ≡ true
        → Any
            (λ chunk.
              (records : List TelemetryRow) × (raw : List ℕ) × (raw_buffer records ≡ ok raw)
              × (chunk ≡ stored raw)
              × Any (λ q. blob_of q ≡ blob_of r) records)
            (sync_cycle stored meeting filled).1.bucket)
      (sync_cycle stored meeting filled).1.table
synced_delivered_example = synced_delivered stored shipped_reached
