-- ===== src/Cloud/System/Delivery.antt =====
-- What becomes of the snapshots of Cloud/src/conductor_host.py in the table and in the bucket of
-- Cloud/src/cloud_sync.py.
use auto_robotic_arms.Base.{
  ℕ, ◌≤◌, ◌≡◌, arith, length, refl, sym, subst, ◌⊎◌, inl, true, false, List, [], ◌∷◌, ◌++◌,
  append-nil, All, Any,
}
use auto_robotic_arms.Floats.{Floats}
use auto_robotic_arms.Python.{ok}
use auto_robotic_arms.Cloud.Telemetry.{TelemetryRow}
use auto_robotic_arms.Cloud.Conductor.{Snapshot, ConductorOrchestrator, act, run}
use auto_robotic_arms.Cloud.Conductor.Order.{IsProduced, act-IsBounded, run-IsBounded}
use auto_robotic_arms.Cloud.Conductor.Pipeline.{IsBounded}
use auto_robotic_arms.Cloud.Conductor.Produced.{IsMade, act-IsMade, run-IsMade}
use auto_robotic_arms.Cloud.Conductor.Accounts.{Accounts}
use auto_robotic_arms.Cloud.Sync.{raw_buffer}
use auto_robotic_arms.Cloud.Sync.Framing.{blob_of}
use auto_robotic_arms.Cloud.Sync.Chunks.{is_synced}
use auto_robotic_arms.Cloud.Sync.Delivered.{synced_delivered}
use auto_robotic_arms.Cloud.Sync.Payloads.{payload, payloads, payloads-append, sweep_keeps}
use auto_robotic_arms.Cloud.Sync.History.{Arrives}
use auto_robotic_arms.Cloud.Sync.History as History
use auto_robotic_arms.Cloud.System.{
  row_of, rows_of, inserted, CloudSystem, Numbers, Step, acts, cycles, sweeps, restarts, Reach,
  starts, later,
}
use auto_robotic_arms.Cloud.System.Accounts.{
  inserted_lem, act-Accounts, run-Accounts, act-Extends, run-Extends,
}
use auto_robotic_arms.Cloud.System.Landing.{Stores, rows_of-Stores, Numbers-Arrives, cycle_lands}

-- `Stores` does not look at the statuses.
Stores-payloads :
    (xs : List Snapshot) (rows : List TelemetryRow) → Stores xs rows → Stores xs (payloads rows)
Stores-payloads [] [] h = tt
Stores-payloads (x ∷ xs) (r ∷ rows) h = (h.0, Stores-payloads xs rows h.1)
Stores-payloads [] (r ∷ rows) h = elim h [ ]
Stores-payloads (x ∷ xs) [] h = elim h [ ]

Stores-append :
    (xs ys : List Snapshot) (rows more : List TelemetryRow)
    → Stores xs rows
    → Stores ys more
    → Stores (xs ++ ys) (rows ++ more)
Stores-append [] ys [] more h k = k
Stores-append (x ∷ xs) ys (r ∷ rows) more h k = (h.0, Stores-append xs ys rows more h.1 k)
Stores-append [] ys (r ∷ rows) more h k = elim h [ ]
Stores-append (x ∷ xs) ys [] more h k = elim h [ ]

module _ (f : Floats) (serialize : f.Float → f.Float → f.Float → List ℕ)
    (compress : List ℕ → List ℕ) where
  -- The table is the conductor's database, all in it has been produced, and what has been kept is
  -- accounted for.
  pub record IsCoupled (kept : List Snapshot) (s : CloudSystem) : Type 0 where
    pub table : Stores s.conductor.database (payloads s.worker.table)
    made : IsMade f serialize s.conductor
    accounts : Accounts kept s.conductor
    bounded : IsBounded s.conductor

  -- New rows behind the table, new snapshots behind the database.
  inserted-Stores :
      (c c' : ConductorOrchestrator) (table : List TelemetryRow) (keys : List ℕ)
      → c'.database ≡ c.database ++ inserted c c'
      → Stores c.database (payloads table)
      → Numbers (inserted c c') table keys
      → Stores c'.database (payloads (table ++ rows_of keys (inserted c c')))
  inserted-Stores c c' table keys grows h n =
      let new = inserted c c' in
      let rows = rows_of keys new in
      subst (λ d. Stores d (payloads (table ++ rows))) (sym grows)
        (subst (Stores (c.database ++ new)) (sym (payloads-append table rows)) (
          Stores-append c.database new (payloads table) (payloads rows) h
            (Stores-payloads new rows (rows_of-Stores keys new n.fits))))

  Step-IsCoupled :
      {kept : List Snapshot} {s : CloudSystem} {new : List Snapshot} {s' : CloudSystem}
      → Step f serialize compress s new s'
      → IsCoupled kept s
      → IsCoupled (kept ++ new) s'
  Step-IsCoupled {kept} {s = s} (acts a keys n) h =
      let c' = act f serialize a s.conductor in
      record {
        table =
            inserted-Stores s.conductor c' s.worker.table keys
              (inserted_lem s.conductor c' (act-Extends f serialize a s.conductor)) h.table n;
        made = act-IsMade f serialize a s.conductor h.made;
        accounts = act-Accounts f serialize a kept s.conductor h.bounded h.accounts;
        bounded = act-IsBounded f serialize a s.conductor h.bounded;
      }
  Step-IsCoupled {kept} {s = s} (cycles e during keys n arrived meets) h =
      let c' = run f serialize during s.conductor in
      record {
        table =
            subst (Stores c'.database)
              (sym
                (cycle_lands compress f serialize e during keys s.conductor s.worker arrived meets))
              (subst (λ rows. Stores c'.database (payloads (s.worker.table ++ rows))) (sym arrived)
                (inserted-Stores s.conductor c' s.worker.table keys
                  (inserted_lem s.conductor c' (run-Extends f serialize during s.conductor)) h.table
                  n));
        made = run-IsMade f serialize during s.conductor h.made;
        accounts = run-Accounts f serialize during kept s.conductor h.bounded h.accounts;
        bounded = run-IsBounded f serialize during s.conductor h.bounded;
      }
  Step-IsCoupled {kept} {s = s} sweeps h = record {
    table = subst (Stores s.conductor.database) (sym (sweep_keeps s.worker)) h.table;
    made = h.made;
    accounts = subst (λ k. Accounts k s.conductor) (sym (append-nil kept)) h.accounts;
    bounded = h.bounded;
  }
  Step-IsCoupled {kept} {s = s} (restarts now) h = record {
    table = h.table;
    made = h.made;
    accounts = subst (λ k. Accounts k s.conductor) (sym (append-nil kept)) h.accounts;
    bounded = h.bounded;
  }

  pub Reach-IsCoupled :
      {kept : List Snapshot} {s : CloudSystem}
      → Reach f serialize compress kept s
      → IsCoupled kept s
  Reach-IsCoupled (starts s new) = record {
    table =
        subst (λ d. Stores d (payloads s.worker.table)) (sym new.database)
          (subst (λ t. Stores [] (payloads t)) (sym new.table) tt);
    made = record {
      database = subst (All (IsProduced f serialize)) (sym new.database) tt;
      batch = subst (All (IsProduced f serialize)) (sym new.batch) tt;
      queue = subst (All (IsProduced f serialize)) (sym new.queue) tt;
    };
    accounts = ([], λ i. sym new.database i ++ (sym new.batch i ++ sym new.queue i), inl refl);
    bounded = record {
      queue = subst (λ q. length q ≤ 100) (sym new.queue) (omega arith);
      batch = subst (λ q. length q ≤ 10) (sym new.batch) (omega arith);
    };
  }
  Reach-IsCoupled (later r s) = Step-IsCoupled s (Reach-IsCoupled r)

  -- The worker's part of a history.
  pub Reach-worker :
      {kept : List Snapshot} {s : CloudSystem}
      → Reach f serialize compress kept s
      → History.Reach compress s.worker
  Reach-worker (starts s new) = History.starts s.worker new.table new.bucket
  Reach-worker (later {s = s} r (acts a keys n)) =
      let new = inserted s.conductor (act f serialize a s.conductor) in
      History.later (Reach-worker r)
        (History.commits (rows_of keys new) (Numbers-Arrives new s.worker.table keys n))
  Reach-worker (later {s = s} r (cycles e during keys n arrived meets)) =
      let new = inserted s.conductor (run f serialize during s.conductor) in
      History.later (Reach-worker r) (
        History.cycles e (
          subst (Arrives s.worker.table) (sym arrived) (Numbers-Arrives new s.worker.table keys n)))
  Reach-worker (later r sweeps) = History.later (Reach-worker r) History.sweeps
  Reach-worker (later r (restarts now)) = History.later (Reach-worker r) (History.restarts now)

  -- The row of a snapshot that the producer made.
  pub record IsSnapshot (r : TelemetryRow) : Type 0 where
    pub snapshot : Snapshot
    pub produced : IsProduced f serialize snapshot
    pub row : payload r ≡ row_of r.record_id snapshot

  rows-IsSnapshot :
      (xs : List Snapshot) (rows : List TelemetryRow)
      → Stores xs (payloads rows)
      → All (IsProduced f serialize) xs
      → All IsSnapshot rows
  rows-IsSnapshot [] [] h made = tt
  rows-IsSnapshot (x ∷ xs) (r ∷ rows) h made =
      (record { snapshot = x; produced = made.0; row = h.0 }, rows-IsSnapshot xs rows h.1 made.1)
  rows-IsSnapshot [] (r ∷ rows) h made = elim h [ ]
  rows-IsSnapshot (x ∷ xs) [] h made = elim h [ ]

  -- From the start of the cloud layer, in every history of the producer's, the flusher's and the
  -- worker's steps, failed commits, refused uploads, sweeps and restarts of the worker included:
  -- the valid snapshots that the producer made while it was not told to stop and the queue had room
  -- are, in their order, none missing and none twice, those in the database, those of a batch that
  -- a failed commit has lost, those in the batch and those in the queue; none is lost as long as
  -- the flusher has not ended, and ten at most after that. Apart from their statuses the rows of the table are the snapshots in
  -- the database, in that order, none missing and none twice. Each row holds a snapshot that the
  -- producer made, and where it is marked SYNCED, a chunk in the bucket has its blob.
  pub snapshots_delivered :
      {kept : List Snapshot} {s : CloudSystem}
      → Reach f serialize compress kept s
      → ((lost : List Snapshot) × (kept
            ≡ s.conductor.database ++ (lost ++ (s.conductor.batch ++ s.conductor.telemetry_queue)))
          × ((lost ≡ []) ⊎ ((s.conductor.flushing ≡ false) × (length lost ≤ 10))))
        × Stores s.conductor.database (payloads s.worker.table)
        × All IsSnapshot s.worker.table
        × All
            (λ r.
              is_synced r.sync_status ≡ true
              → Any
                  (λ chunk.
                    (records : List TelemetryRow) × (raw : List ℕ) × (raw_buffer records ≡ ok raw)
                    × (chunk ≡ compress raw)
                    × Any (λ q. blob_of q ≡ blob_of r) records)
                  s.worker.bucket)
            s.worker.table
  snapshots_delivered {s} r =
      let h = Reach-IsCoupled r in
      (
        h.accounts,
        h.table,
        rows-IsSnapshot s.conductor.database s.worker.table h.table h.made.database,
        synced_delivered compress (Reach-worker r),
      )
