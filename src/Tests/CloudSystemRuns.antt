-- ===== src/Tests/CloudSystemRuns.antt =====
-- A snapshot on its way from the producer of Cloud/src/conductor_host.py into the bucket of
-- Cloud/src/cloud_sync.py.
use auto_robotic_arms.Base.{
  ℕ, ◌+◌, ◌≤◌, ◌≡◌, refl, ◌⊎◌, inr, true, false, List, [], ◌∷◌, ◌++◌, length, All, Any, arith, ℤ,
  pos, pos_part, ◌+ℤ◌,
}
use auto_robotic_arms.Python.{ok}
use auto_robotic_arms.Cloud.Telemetry.{TelemetryRow, synced, where_status, has_id, mark}
use auto_robotic_arms.Cloud.Conductor.{
  Snapshot, ConductorOrchestrator, Action, produces, flushes, act, run, produce, flush, put_nowait,
  snapshot_at, validate_arm_telemetry,
}
use auto_robotic_arms.Cloud.Sync.{
  CloudSyncWorker, Surroundings, accepted, length_header, raw_buffer, query_pending_batch,
  after_upload, upload, ship, triggered, sync_cycle,
}
use auto_robotic_arms.Cloud.Sync.Framing.{blob_of}
use auto_robotic_arms.Cloud.Sync.Chunks.{is_synced}
use auto_robotic_arms.Cloud.Sync.Payloads.{payloads}
use auto_robotic_arms.Cloud.System.{
  row_of, CloudSystem, acts, cycles, Reach, starts, later, kept_of, kept_of_all,
}
use auto_robotic_arms.Cloud.System.Landing.{Stores}
use auto_robotic_arms.Cloud.System.Delivery.{IsSnapshot, snapshots_delivered}
use auto_robotic_arms.Cloud.System.Drained.{IsStored, committed_delivered}
use auto_robotic_arms.Cloud.Sync.Drained.{run_cycles}
use auto_robotic_arms.Cloud.Sync.Backlog.{backlog}
use auto_robotic_arms.Tests.Numbers.{whole_numbers}

-- The three angles as bytes, and chunks as they are.
abbrev as_blob : ℤ → ℤ → ℤ → List ℕ
as_blob a b c = pos_part a ∷ pos_part b ∷ pos_part c ∷ []

abbrev as_is : List ℕ → List ℕ
as_is chunk = chunk

abbrev new_system : CloudSystem
new_system = record {
  conductor = record {
    telemetry_queue = [];
    shutdown_event = false;
    simulated_step = 0;
    batch = [];
    flushing = true;
    database = [];
  };
  worker = record {
    batch_size_threshold = 1;
    batch_time_threshold = 30;
    max_consecutive_failures = 3;
    circuit_cooldown = 60;
    last_flush_time = 0;
    consecutive_failures = 0;
    circuit_open_until = 0;
    table = [];
    bucket = [];
  };
}

abbrev first_snapshot : Snapshot
first_snapshot = record {
  timestamp = 5;
  left_arm_protobuf_blob = as_blob (pos 90) (pos 45) (pos 120);
}

-- Made while the upload of the first runs.
abbrev second_snapshot : Snapshot
second_snapshot = record {
  timestamp = 9;
  left_arm_protobuf_blob = as_blob (pos 91) (pos 45) (pos 120);
}

abbrev with_row : CloudSyncWorker
with_row = record new_system.worker { table = row_of 1 first_snapshot ∷ [] }

abbrev soon : Surroundings
soon = record {
  now = 10;
  later = 12;
  arrivals = row_of 2 second_snapshot ∷ [];
  answer = accepted;
  stored_anyway = false;
}

abbrev produced : ConductorOrchestrator
produced = act whole_numbers as_blob (produces 5) new_system.conductor

abbrev collected : ConductorOrchestrator
collected = act whole_numbers as_blob (flushes true) produced

abbrev committed : ConductorOrchestrator
committed = act whole_numbers as_blob (flushes true) collected

-- The snapshot is committed, and its row waits.
abbrev waiting : CloudSystem
waiting = record { conductor = committed; worker = with_row }

waiting_reached : Reach whole_numbers as_blob as_is (first_snapshot ∷ []) waiting
unfolding act produce flush put_nowait snapshot_at validate_arm_telemetry kept_of ◌+ℤ◌
waiting_reached =
    later
      (later
        (later
          (starts new_system
            (record { queue = refl; batch = refl; database = refl; table = refl; bucket = refl }))
          (acts (produces 5) [] (record { fits = refl; fresh = tt })))
        (acts (flushes true) [] (record { fits = refl; fresh = tt })))
      (acts (flushes true) (1 ∷ []) (record { fits = refl; fresh = ground arith }))

abbrev meanwhile : List Action
meanwhile = produces 9 ∷ flushes true ∷ flushes true ∷ []

abbrev committed_again : ConductorOrchestrator
committed_again = run whole_numbers as_blob meanwhile committed

abbrev delivered : CloudSystem
delivered = record { conductor = committed_again; worker = (sync_cycle as_is soon with_row).1 }

delivered_reached :
    Reach whole_numbers as_blob as_is (first_snapshot ∷ second_snapshot ∷ []) delivered
unfolding run sync_cycle query_pending_batch triggered ship upload after_upload where_status has_id
    mark raw_buffer length_header act produce flush put_nowait snapshot_at validate_arm_telemetry
    kept_of kept_of_all ◌+ℤ◌
delivered_reached = later waiting_reached (
    cycles soon meanwhile (2 ∷ []) (record { fits = refl; fresh = ground arith }) refl
      (inr (record {
        closed = omega arith;
        due = refl;
        some_rows = omega arith;
        raw = 0 ∷ 0 ∷ 0 ∷ 3 ∷ 90 ∷ 45 ∷ 120 ∷ [];
        packs = refl;
      })))

-- The first row is there, marked SYNCED, and its blob is in the bucket; the second row waits.
delivered_test :
    (delivered.worker.table
      ≡ record (row_of 1 first_snapshot) { sync_status = synced } ∷ row_of 2 second_snapshot ∷ [])
    × (delivered.worker.bucket ≡ (0 ∷ 0 ∷ 0 ∷ 3 ∷ 90 ∷ 45 ∷ 120 ∷ []) ∷ [])
unfolding sync_cycle query_pending_batch triggered ship upload after_upload where_status has_id mark
    raw_buffer length_header
delivered_test = (refl, refl)

snapshots_delivered_example :
    ((lost : List Snapshot) × (first_snapshot ∷ second_snapshot ∷ []
        ≡ committed_again.database
          ++ (lost ++ (committed_again.batch ++ committed_again.telemetry_queue)))
      × ((lost ≡ []) ⊎ ((committed_again.flushing ≡ false) × (length lost ≤ 10))))
    × Stores committed_again.database (payloads delivered.worker.table)
    × All (IsSnapshot whole_numbers as_blob as_is) delivered.worker.table
    × All
        (λ r.
          is_synced r.sync_status ≡ true
          → Any
              (λ chunk.
                (records : List TelemetryRow) × (raw : List ℕ) × (raw_buffer records ≡ ok raw)
                × (chunk ≡ as_is raw)
                × Any (λ q. blob_of q ≡ blob_of r) records)
              delivered.worker.bucket)
        delivered.worker.table
snapshots_delivered_example = snapshots_delivered whole_numbers as_blob as_is delivered_reached

abbrev accepted_at : ℕ → Surroundings
accepted_at t = record {
  now = t;
  later = t + 1;
  arrivals = [];
  answer = accepted;
  stored_anyway = false;
}

one_waits : backlog with_row.table ≤ 2
unfolding where_status
one_waits = omega arith

committed_delivered_example :
    All
      (λ x.
        IsStored whole_numbers as_blob as_is
          (run_cycles as_is (accepted_at 30 ∷ accepted_at 61 ∷ []) with_row).bucket
          x.left_arm_protobuf_blob)
      committed.database
committed_delivered_example =
    committed_delivered whole_numbers as_blob as_is (accepted_at 30 ∷ accepted_at 61 ∷ []) waiting
      waiting_reached (omega arith) (refl, tt) (omega arith, tt)
      (omega arith, omega arith, refl, refl, (omega arith, omega arith, refl, refl, tt)) one_waits
