-- ===== src/Cloud/Sync/Cases.antt =====
-- A cycle by cases: idle, without a batch, with a batch that cannot be packed, or with an upload.
use auto_robotic_arms.Base.{
  ℕ, ◌≡◌, refl, Bool, true, false, List, [], ◌∷◌, ltb, if◌then◌else◌, take,
}
use auto_robotic_arms.Python.{Exception, Result, ok, err}
use auto_robotic_arms.Cloud.Telemetry.{TelemetryRow, processing, is_pending, where_status, mark}
use auto_robotic_arms.Cloud.Sync.{
  CloudSyncWorker, Surroundings, CycleResult, returned, raised, query_pending_batch, raw_buffer,
  after_upload, upload, ship, sync_cycle, triggered, send_chunk,
}

-- The batch of a cycle, and the worker that has acquired it.
abbrev pub batch_of : CloudSyncWorker → List TelemetryRow
batch_of w = take w.batch_size_threshold (where_status is_pending w.table)

abbrev pub acquire : List TelemetryRow → CloudSyncWorker → CloudSyncWorker
acquire records w = record w { table = mark records processing w.table }

module _ {ℓ} (compress : List ℕ → List ℕ) (P : CycleResult × CloudSyncWorker → Type ℓ) where
  send_by :
      (chunk : Result (List ℕ)) (e : Surroundings) (records : List TelemetryRow)
      (w : CloudSyncWorker)
      → ((x : Exception) → P (raised x, w))
      → ((raw : List ℕ)
          → chunk ≡ ok raw
          → P (after_upload e.answer e records (upload compress e raw w)))
      → P (send_chunk compress chunk e records w)
  send_by (err x) e records w failed sent = failed x
  send_by (ok raw) e records w failed sent = sent raw refl

  ship_by :
      (e : Surroundings) (records : List TelemetryRow) (w : CloudSyncWorker)
      → (records ≡ [] → P (returned 0, w))
      → ((x : Exception) → P (raised x, w))
      → ((raw : List ℕ)
          → raw_buffer records ≡ ok raw
          → P (after_upload e.answer e records (upload compress e raw w)))
      → P (ship compress e records w)
  unfolding ship
  ship_by e [] w none failed sent = none refl
  ship_by e (r ∷ records) w none failed sent =
      send_by (raw_buffer (r ∷ records)) e (r ∷ records) w failed sent

  gated :
      (opened due : Bool) (idle shipped : CycleResult × CloudSyncWorker)
      → P idle
      → P shipped
      → P (if opened then idle else if due then shipped else idle)
  gated true due idle shipped hi hs = hi
  gated false true idle shipped hi hs = hs
  gated false false idle shipped hi hs = hi

  pub cycle_by :
      (e : Surroundings) (w : CloudSyncWorker)
      → P (returned 0, w)
      → (batch_of w ≡ [] → P (returned 0, acquire (batch_of w) w))
      → ((x : Exception) → P (raised x, acquire (batch_of w) w))
      → ((raw : List ℕ)
          → raw_buffer (batch_of w) ≡ ok raw
          → P (
              after_upload e.answer e
                (batch_of w)
                (upload compress e raw (acquire (batch_of w) w))))
      → P (sync_cycle compress e w)
  unfolding sync_cycle query_pending_batch
  cycle_by e w idle none failed sent =
      gated (ltb e.now w.circuit_open_until) (triggered compress e.now w) (returned 0, w)
        (ship compress e (batch_of w) (acquire (batch_of w) w)) idle
        (ship_by e (batch_of w) (acquire (batch_of w) w) none failed sent)
