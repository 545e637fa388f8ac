-- ===== src/Cloud/Sync/Delivered.antt =====
-- The rows that are marked SYNCED, against the objects in the bucket.
use auto_robotic_arms.Base.{
  ℕ, ◌≡◌, refl, ap, sym, subst, ◌∙◌, true, List, [], ◌∷◌, ◌++◌, All, All-append, Any, Distinct,
}
use auto_robotic_arms.Python.{ok}
use auto_robotic_arms.Cloud.Telemetry.{
  TelemetryRow, pending, processing, synced, is_processing, where_status,
}
use auto_robotic_arms.Cloud.Sync.{
  CloudSyncWorker, Answer, accepted, refused, broken, Surroundings, boot_stale_record_sweep,
  raw_buffer, after_upload, upload, sync_cycle,
}
use auto_robotic_arms.Cloud.Sync.Framing.{blob_of}
use auto_robotic_arms.Cloud.Sync.History.{
  ids, Arrives, Step, cycles, sweeps, commits, restarts, Reach, starts, later,
}
use auto_robotic_arms.Cloud.Sync.Coverage.{
  ids-mark, ids-append, Covered, Covered-pick, Covered-arrivals, Covered-mark,
}
use auto_robotic_arms.Cloud.Sync.Cases.{batch_of, acquire, cycle_by}
use auto_robotic_arms.Cloud.Sync.Chunks.{
  is_synced, Delivered, mark-unsynced, mark-synced, perhaps_more, arrivals-Delivered,
}

module _ (compress : List ℕ → List ℕ) where
  -- The ids are those of distinct rows, and what is marked SYNCED is stored.
  pub record IsKept (w : CloudSyncWorker) : Type 0 where
    pub distinct : Distinct (ids w.table)
    pub delivered : All (Delivered compress w.bucket) w.table

  module _ (e : Surroundings) (w : CloudSyncWorker) (kept : IsKept w)
      (comes : Arrives w.table e.arrivals) where
    abbrev batch : List TelemetryRow
    batch = batch_of w

    abbrev acquired : CloudSyncWorker
    acquired = acquire batch w

    Distinct-acquired : Distinct (ids acquired.table)
    Distinct-acquired = subst Distinct (sym (ids-mark batch processing w.table)) kept.distinct

    Distinct-joined : Distinct (ids (acquired.table ++ e.arrivals))
    Distinct-joined =
        subst Distinct
          (ids-append w.table e.arrivals
            ∙ ap (λ t. t ++ ids e.arrivals) (sym (ids-mark batch processing w.table))
            ∙ sym (ids-append acquired.table e.arrivals))
          comes.fresh

    acquired-IsKept : IsKept acquired
    acquired-IsKept = record {
      distinct = Distinct-acquired;
      delivered = mark-unsynced compress w.bucket batch processing w.table refl kept.delivered;
    }

    joined-Delivered : All (Delivered compress w.bucket) (acquired.table ++ e.arrivals)
    joined-Delivered =
        All-append (Delivered compress w.bucket) acquired.table e.arrivals acquired-IsKept.delivered
          (arrivals-Delivered compress w.bucket e.arrivals comes.waiting)

    joined-Covered : All (Covered batch) (acquired.table ++ e.arrivals)
    joined-Covered =
        All-append (Covered batch) acquired.table e.arrivals
          (Covered-mark batch batch processing w.table
            (Covered-pick w.batch_size_threshold w.table kept.distinct))
          (Covered-arrivals w.batch_size_threshold w.table e.arrivals comes.fresh)

    after_upload-IsKept :
        (a : Answer) (raw : List ℕ)
        → raw_buffer batch ≡ ok raw
        → IsKept (after_upload a e batch (upload compress (record e { answer = a }) raw acquired)).1
    unfolding after_upload upload
    after_upload-IsKept accepted raw packed = record {
      distinct =
          subst Distinct (sym (ids-mark batch synced (acquired.table ++ e.arrivals)))
            Distinct-joined;
      delivered =
          mark-synced compress w.bucket batch raw (acquired.table ++ e.arrivals) packed
            joined-Covered joined-Delivered;
    }
    after_upload-IsKept refused raw packed = record {
      distinct =
          subst Distinct (sym (ids-mark batch pending (acquired.table ++ e.arrivals)))
            Distinct-joined;
      delivered =
          mark-unsynced compress
            (after_upload refused e batch
              (upload compress (record e { answer = refused }) raw acquired)).1.bucket
            batch pending (acquired.table ++ e.arrivals) refl
            (perhaps_more compress e.stored_anyway w.bucket (compress raw ∷ [])
              (acquired.table ++ e.arrivals) joined-Delivered);
    }
    after_upload-IsKept broken raw packed = record {
      distinct = Distinct-joined;
      delivered =
          perhaps_more compress e.stored_anyway w.bucket (compress raw ∷ [])
            (acquired.table ++ e.arrivals) joined-Delivered;
    }

    cycle-IsKept : IsKept (sync_cycle compress e w).1
    cycle-IsKept =
        cycle_by compress (λ c. IsKept c.1) e w kept (λ _. acquired-IsKept) (λ x. acquired-IsKept)
          (after_upload-IsKept e.answer)

  Step-IsKept : {w w' : CloudSyncWorker} → Step compress w w' → IsKept w → IsKept w'
  Step-IsKept {w} (cycles e comes) kept = cycle-IsKept e w kept comes
  Step-IsKept {w} sweeps kept =
      unfold boot_stale_record_sweep in
      record {
        distinct =
            subst Distinct (sym (ids-mark (where_status is_processing w.table) pending w.table))
              kept.distinct;
        delivered =
            mark-unsynced compress w.bucket (where_status is_processing w.table) pending w.table
              refl kept.delivered;
      }
  Step-IsKept {w} (commits rows comes) kept = record {
    distinct = comes.fresh;
    delivered =
        All-append (Delivered compress w.bucket) w.table rows kept.delivered
          (arrivals-Delivered compress w.bucket rows comes.waiting);
  }
  Step-IsKept (restarts now) kept = record { distinct = kept.distinct; delivered = kept.delivered }

  pub Reach-IsKept : {w : CloudSyncWorker} → Reach compress w → IsKept w
  Reach-IsKept (starts w empty new) = record {
    distinct = subst (λ t. Distinct (ids t)) (sym empty) tt;
    delivered = subst (λ t. All (Delivered compress w.bucket) t) (sym empty) tt;
  }
  Reach-IsKept (later r s) = Step-IsKept s (Reach-IsKept r)

  -- In every history of cycles, sweeps, restarts and newly committed rows, whatever the object store
  -- answers, a row that is marked SYNCED stands in the bucket: one of the objects is the compressed
  -- chunk of rows among which one has the row's blob. No row is marked without having been stored.
  pub synced_delivered :
      {w : CloudSyncWorker}
      → Reach compress w
      → All
          (λ r.
            is_synced r.sync_status ≡ true
            → Any
                (λ chunk.
                  (records : List TelemetryRow) × (raw : List ℕ) × (raw_buffer records ≡ ok raw)
                  × (chunk ≡ compress raw)
                  × Any (λ q. blob_of q ≡ blob_of r) records)
                w.bucket)
          w.table
  synced_delivered r = (Reach-IsKept r).delivered
