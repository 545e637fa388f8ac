-- ===== src/Cloud/System/Drained.antt =====
-- The snapshots of Cloud/src/conductor_host.py on their way into the bucket, once the uploads of
-- Cloud/src/cloud_sync.py are accepted.
use auto_robotic_arms.Base.{
  ℕ, ◌≤◌, ◌≡◌, refl, ap, sym, subst, inl, true, List, [], ◌∷◌, append-nil, length, All, Any,
  Distinct,
}
use auto_robotic_arms.Floats.{Floats}
use auto_robotic_arms.Python.{ok}
use auto_robotic_arms.Cloud.Telemetry.{TelemetryRow}
use auto_robotic_arms.Cloud.Conductor.{Snapshot, run}
use auto_robotic_arms.Cloud.Sync.{Surroundings, raw_buffer, sync_cycle}
use auto_robotic_arms.Cloud.Sync.Framing.{blob_of}
use auto_robotic_arms.Cloud.Sync.Chunks.{is_synced}
use auto_robotic_arms.Cloud.Sync.Rows.{Settled}
use auto_robotic_arms.Cloud.Sync.Backlog.{backlog, IsSmall}
use auto_robotic_arms.Cloud.Sync.Payloads.{payloads}
use auto_robotic_arms.Cloud.Sync.History.{ids}
use auto_robotic_arms.Cloud.Sync.Delivered.{Reach-IsKept, synced_delivered}
use auto_robotic_arms.Cloud.Sync.Drained.{run_cycles, Spaced, cycles_drain}
use auto_robotic_arms.Cloud.System.{CloudSystem, Step, cycles, Reach, later, kept_of_all}
use auto_robotic_arms.Cloud.System.Landing.{Stores, drop-all}
use auto_robotic_arms.Cloud.System.Delivery.{Reach-IsCoupled, Reach-worker}

module _ (f : Floats) (serialize : f.Float → f.Float → f.Float → List ℕ)
    (compress : List ℕ → List ℕ) where
  -- One of the objects of a bucket has the blob in a chunk.
  abbrev pub IsStored : List (List ℕ) → List ℕ → Type 0
  IsStored bucket blob =
      Any
        (λ chunk.
          (records : List TelemetryRow) × (raw : List ℕ) × (raw_buffer records ≡ ok raw)
          × (chunk ≡ compress raw)
          × Any (λ q. blob_of q ≡ blob) records)
        bucket

  -- A cycle in which nothing arrives, with the conductor still.
  quiet_cycle :
      (e : Surroundings) (s : CloudSystem)
      → e.arrivals ≡ []
      → Distinct (ids s.worker.table)
      → Step f serialize compress s [] (record s { worker = (sync_cycle compress e s.worker).1 })
  unfolding run kept_of_all
  quiet_cycle e s quiet distinct =
      let none_new = drop-all s.conductor.database in
      cycles e [] []
        (record {
          fits = sym (ap length none_new);
          fresh = subst (λ t. Distinct (ids t)) (sym (append-nil s.worker.table)) distinct;
        })
        quiet (inl refl)

  cycles-Reach :
      (es : List Surroundings) (period flushed open_until : ℕ) (kept : List Snapshot)
      (s : CloudSystem)
      → Spaced period flushed open_until es
      → Reach f serialize compress kept s
      → Reach f serialize compress kept (record s { worker = run_cycles compress es s.worker })
  cycles-Reach [] period flushed open_until kept s spaced r = r
  cycles-Reach (e ∷ es) period flushed open_until kept s spaced r =
      let (late, closed, granted, quiet, rest) = spaced in
      let distinct = (Reach-IsKept compress (Reach-worker f serialize compress r)).distinct in
      let s' = record s { worker = (sync_cycle compress e s.worker).1 } in
      cycles-Reach es period e.later open_until kept s' rest (
        subst (λ k. Reach f serialize compress k s') (append-nil kept)
          (later r (quiet_cycle e s quiet distinct)))

  -- The snapshots of rows that are all marked SYNCED.
  Stores-IsStored :
      (bucket : List (List ℕ)) (xs : List Snapshot) (rows : List TelemetryRow)
      → Stores xs (payloads rows)
      → All (λ r. is_synced r.sync_status ≡ true) rows
      → All (λ r. is_synced r.sync_status ≡ true → IsStored bucket (blob_of r)) rows
      → All (λ x. IsStored bucket x.left_arm_protobuf_blob) xs
  Stores-IsStored bucket [] rows h done kept = tt
  Stores-IsStored bucket (x ∷ xs) (r ∷ rows) h done kept = (
    subst (IsStored bucket) (ap (λ q. q.left_arm_protobuf_blob) h.0) (kept.0 done.0),
    Stores-IsStored bucket xs rows h.1 done.1 kept.1,
  )
  Stores-IsStored bucket (x ∷ xs) [] h done kept = elim h [ ]

  -- Everything that the conductor has committed reaches the bucket. From any state that the cloud
  -- layer reaches with no row PROCESSING, blobs under 4 GiB and batches of at least one row: as
  -- many cycles of the worker as rows are pending, or more, each starting when the batch time has
  -- passed since the one before, with the circuit closed, the upload accepted and no row coming
  -- meanwhile, leave the blob of every committed snapshot in a chunk in the bucket.
  pub committed_delivered :
      (es : List Surroundings) {kept : List Snapshot} (s : CloudSystem)
      → Reach f serialize compress kept s
      → 1 ≤ s.worker.batch_size_threshold
      → All Settled s.worker.table
      → All IsSmall s.worker.table
      → Spaced s.worker.batch_time_threshold s.worker.last_flush_time s.worker.circuit_open_until es
      → backlog s.worker.table ≤ length es
      → All
          (λ x. IsStored (run_cycles compress es s.worker).bucket x.left_arm_protobuf_blob)
          s.conductor.database
  committed_delivered es {kept} s r some_size settled small spaced long =
      let r' =
        cycles-Reach es s.worker.batch_time_threshold s.worker.last_flush_time
          s.worker.circuit_open_until kept s spaced r in
      let w' = run_cycles compress es s.worker in
      Stores-IsStored w'.bucket s.conductor.database w'.table
        (Reach-IsCoupled f serialize compress r').table
        (cycles_drain compress es s.worker some_size settled small spaced long)
        (synced_delivered compress (Reach-worker f serialize compress r'))
