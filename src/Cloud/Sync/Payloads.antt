-- ===== src/Cloud/Sync/Payloads.antt =====
-- The rows of a cycle and of the sweep without their statuses.
use auto_robotic_arms.Base.{
  ℕ, ◌≡◌, refl, ap, ◌∙◌, ◌⊎◌, inl, inr, Bool, true, false, List, [], ◌∷◌, ◌++◌, if◌then◌else◌, map,
}
use auto_robotic_arms.Cloud.Telemetry.{
  TelemetryRow, SyncStatus, pending, processing, synced, is_processing, where_status, has_id, mark,
}
use auto_robotic_arms.Cloud.Sync.{
  CloudSyncWorker, Answer, accepted, refused, broken, Surroundings, boot_stale_record_sweep,
  after_upload, upload, sync_cycle,
}
use auto_robotic_arms.Cloud.Sync.Cases.{batch_of, cycle_by}

-- A row without its status.
abbrev pub payload : TelemetryRow → TelemetryRow
payload r = record r { sync_status = pending }

abbrev pub payloads : List TelemetryRow → List TelemetryRow
payloads = map payload

mark-payload :
    (b : Bool) (s : SyncStatus) (r : TelemetryRow)
    → payload (if b then record r { sync_status = s } else r) ≡ payload r
mark-payload true s r = refl
mark-payload false s r = refl

payloads-mark :
    (records : List TelemetryRow) (s : SyncStatus) (rows : List TelemetryRow)
    → payloads (mark records s rows) ≡ payloads rows
unfolding mark
payloads-mark records s [] = refl
payloads-mark records s (r ∷ rows) =
    λ i. mark-payload (has_id r.record_id records) s r i ∷ payloads-mark records s rows i

pub payloads-append : (xs ys : List TelemetryRow) → payloads (xs ++ ys) ≡ payloads xs ++ payloads ys
payloads-append [] ys = refl
payloads-append (x ∷ xs) ys = ap (λ r. payload x ∷ r) (payloads-append xs ys)

closed-payloads :
    (records : List TelemetryRow) (s : SyncStatus) (rows arrivals : List TelemetryRow)
    → payloads (mark records s (mark records processing rows ++ arrivals))
      ≡ payloads rows ++ payloads arrivals
closed-payloads records s rows arrivals =
    payloads-mark records s (mark records processing rows ++ arrivals)
    ∙ payloads-append (mark records processing rows) arrivals
    ∙ ap (λ t. t ++ payloads arrivals) (payloads-mark records processing rows)

module _ (compress : List ℕ → List ℕ) where
  abbrev Kept : Surroundings → CloudSyncWorker → CloudSyncWorker → Type 0
  Kept e w w' =
      (payloads w'.table ≡ payloads w.table)
      ⊎ (payloads w'.table ≡ payloads w.table ++ payloads e.arrivals)

  pub after_upload-joins :
      (a : Answer) (e : Surroundings) (raw : List ℕ) (records : List TelemetryRow)
      (w : CloudSyncWorker)
      → let (_, w') =
          after_upload a e records
            (upload compress e raw (record w { table = mark records processing w.table })) in
        payloads w'.table ≡ payloads w.table ++ payloads e.arrivals
  unfolding after_upload upload
  after_upload-joins accepted e raw records w = closed-payloads records synced w.table e.arrivals
  after_upload-joins refused e raw records w = closed-payloads records pending w.table e.arrivals
  after_upload-joins broken e raw records w =
      payloads-append (mark records processing w.table) e.arrivals
      ∙ ap (λ t. t ++ payloads e.arrivals) (payloads-mark records processing w.table)

  -- A cycle loses no row, adds none of its own and changes nothing but statuses: apart from the
  -- statuses the table is what it was, or that with the rows that arrived behind it.
  pub cycle_keeps :
      (e : Surroundings) (w : CloudSyncWorker)
      → (payloads (sync_cycle compress e w).1.table ≡ payloads w.table)
        ⊎ (payloads (sync_cycle compress e w).1.table ≡ payloads w.table ++ payloads e.arrivals)
  cycle_keeps e w =
      cycle_by compress (λ c. Kept e w c.1) e w (inl refl)
        (λ _. inl (payloads-mark (batch_of w) processing w.table))
        (λ x. inl (payloads-mark (batch_of w) processing w.table))
        (λ raw packed. inr (after_upload-joins e.answer e raw (batch_of w) w))

-- Apart from the statuses the sweep keeps the table.
pub sweep_keeps :
    (w : CloudSyncWorker) → payloads (boot_stale_record_sweep w).1.table ≡ payloads w.table
unfolding boot_stale_record_sweep
sweep_keeps w = payloads-mark (where_status is_processing w.table) pending w.table
