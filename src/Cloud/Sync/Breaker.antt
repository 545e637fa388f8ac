-- ===== src/Cloud/Sync/Breaker.antt =====
-- The circuit breaker of a cycle, and a cycle that comes to its upload.
use auto_robotic_arms.Base.{
  ℕ, ◌+◌, ◌^◌, ◌≤◌, ◌<◌, ◌≡◌, refl, true, false, List, [], ◌∷◌, arith, ltb, leb, length, All,
}
use auto_robotic_arms.Python.{Result, ok}
use auto_robotic_arms.Cloud.Telemetry.{TelemetryRow, processing, mark}
use auto_robotic_arms.Cloud.Sync.Framing.{blob_of, raw_buffer_roundtrip}
use auto_robotic_arms.Cloud.Sync.{
  CloudSyncWorker, refused, Surroundings, returned, query_pending_batch, raw_buffer, after_upload,
  upload, ship, sync_cycle, triggered, send_chunk,
}
use auto_robotic_arms.Cloud.Sync.Cases.{batch_of}

module _ (compress : List ℕ → List ℕ) where
  -- Under an open circuit a cycle changes nothing.
  pub open_circuit_blocks :
      (e : Surroundings) (w : CloudSyncWorker)
      → e.now < w.circuit_open_until
      → sync_cycle compress e w ≡ (returned 0, w)
  unfolding sync_cycle
  open_circuit_blocks e w h =
      let still : ltb e.now w.circuit_open_until ≡ true = ground arith in rw still

  send_chunk-ok :
      (chunk : Result (List ℕ)) (raw : List ℕ) (e : Surroundings) (records : List TelemetryRow)
      (w : CloudSyncWorker)
      → chunk ≡ ok raw
      → send_chunk compress chunk e records w
        ≡ after_upload e.answer e records (upload compress e raw w)
  send_chunk-ok chunk raw e records w h = rw h refl

  ship-ok :
      (records : List TelemetryRow) (raw : List ℕ) (e : Surroundings) (w : CloudSyncWorker)
      → 0 < length records
      → raw_buffer records ≡ ok raw
      → ship compress e records w ≡ after_upload e.answer e records (upload compress e raw w)
  unfolding ship
  ship-ok [] raw e w some_rows h = absurd (omega arith)
  ship-ok (r ∷ records) raw e w some_rows h =
      send_chunk-ok (raw_buffer (r ∷ records)) raw e (r ∷ records) w h

  -- A cycle that ships, with the circuit closed and a trigger set.
  pub cycle-ships :
      (e : Surroundings) (w : CloudSyncWorker) (raw : List ℕ)
      → w.circuit_open_until ≤ e.now
      → triggered compress e.now w ≡ true
      → 0 < length (batch_of w)
      → raw_buffer (batch_of w) ≡ ok raw
      → sync_cycle compress e w
        ≡ after_upload e.answer e
            (batch_of w)
            (upload compress e raw (record w { table = mark (batch_of w) processing w.table }))
  unfolding sync_cycle query_pending_batch
  cycle-ships e w raw closed due some_rows packed =
      let shut : ltb e.now w.circuit_open_until ≡ false = ground arith in
      rw (shut, due)
        (ship-ok (batch_of w) raw e (record w { table = mark (batch_of w) processing w.table })
          some_rows packed)

  -- A refused batch that brings the failures to the limit opens the circuit: the next cycle that
  -- starts before the cooldown has passed returns 0 and changes nothing.
  pub circuit_trips :
      (e e' : Surroundings) (w : CloudSyncWorker)
      → w.circuit_open_until ≤ e.now
      → triggered compress e.now w ≡ true
      → 0 < length (batch_of w)
      → All (λ r. length (blob_of r) < 2 ^ 32) (batch_of w)
      → e.answer ≡ refused
      → w.max_consecutive_failures ≤ w.consecutive_failures + 1
      → e'.now < e.later + w.circuit_cooldown
      → sync_cycle compress e' (sync_cycle compress e w).1
        ≡ (returned 0, (sync_cycle compress e w).1)
  circuit_trips e e' w closed due some_rows small denied tripped early =
      let (raw, packed, read) = raw_buffer_roundtrip (batch_of w) small in
      let shipped = cycle-ships e w raw closed due some_rows packed in
      let limit : leb w.max_consecutive_failures (w.consecutive_failures + 1) ≡ true =
        ground arith in
      let opened : (sync_cycle compress e w).1.circuit_open_until ≡ e.later + w.circuit_cooldown =
        unfold after_upload upload in (rw (shipped, denied, limit) refl) in
      open_circuit_blocks e' (sync_cycle compress e w).1 (rw opened early)
