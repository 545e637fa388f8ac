-- ===== src/Cloud/Sync.antt =====
-- `CloudSyncWorker` of Cloud/src/cloud_sync.py. What the worker meets during a cycle is given by
-- `Surroundings`: the clock, the rows that other threads add meanwhile, and the object store.
-- `gzip.compress` is a parameter.
pub mod Framing
pub mod Cases
pub mod Rows
pub mod Payloads
pub mod Breaker
pub mod History
pub mod Coverage
pub mod Chunks
pub mod Delivered
pub mod Backlog
pub mod Drained
use auto_robotic_arms.Base.{
  ℕ, zero, suc, ◌+◌, ◌*◌, ◌/◌, ◌%◌, ◌^◌, Bool, true, false, not, ◌&&◌, ◌||◌, List, [], ◌∷◌, ◌++◌,
  Option, none, some, ltb, leb, if◌then◌else◌, length, take, pos, leb_ℤ, sub_ℕ,
}
use auto_robotic_arms.Python.{Exception, unexpected_error, Result, ok, err, checked, ◌>>=◌}
use auto_robotic_arms.Cloud.Telemetry.{
  TelemetryRow, pending, processing, synced, is_pending, is_processing, where_status, mark,
}

-- The worker's configuration and state, its table, and the objects in the bucket.
pub record CloudSyncWorker : Type 0 where
  pub batch_size_threshold : ℕ
  pub batch_time_threshold : ℕ
  pub max_consecutive_failures : ℕ
  pub circuit_cooldown : ℕ
  pub last_flush_time : ℕ
  pub consecutive_failures : ℕ
  pub circuit_open_until : ℕ
  pub table : List TelemetryRow
  pub bucket : List (List ℕ)

-- `put_object` returns, raises ClientError or BotoCoreError, or raises something else.
pub data Answer : Type 0 where
  accepted refused broken : Answer

pub record Surroundings : Type 0 where
  pub now : ℕ
  -- `time.time()` after the upload
  pub later : ℕ
  -- rows committed by the flusher while the upload runs
  pub arrivals : List TelemetryRow
  pub answer : Answer
  -- a request that raises may have stored its object all the same
  pub stored_anyway : Bool

pub data CycleResult : Type 0 where
  returned : ℕ → CycleResult
  raised : Exception → CycleResult

-- `boot_stale_record_sweep`
unfoldable pub boot_stale_record_sweep : CloudSyncWorker → ℕ × CloudSyncWorker
boot_stale_record_sweep w =
    let orphaned = where_status is_processing w.table in
    (length orphaned, record w { table = mark orphaned pending w.table })

-- `query_pending_batch`: the oldest pending rows, up to the threshold, marked PROCESSING.
unfoldable pub query_pending_batch : CloudSyncWorker → List TelemetryRow × CloudSyncWorker
query_pending_batch w =
    let records = take w.batch_size_threshold (where_status is_pending w.table) in
    (records, record w { table = mark records processing w.table })

-- `len(blob).to_bytes(4, byteorder="big")`
unfoldable pub length_header : ℕ → Option (List ℕ)
length_header n =
    if ltb n (2 ^ 32)
    then some (n / 2 ^ 24 ∷ n / 2 ^ 16 % 256 ∷ n / 2 ^ 8 % 256 ∷ n % 256 ∷ [])
    else none

-- The buffer of `assemble_gzip_chunk`, before compression.
unfoldable pub raw_buffer : List TelemetryRow → Result (List ℕ)
raw_buffer [] = ok []
raw_buffer (r ∷ records) = do
  header ← checked (length_header (length r.left_arm_protobuf_blob))
  rest ← raw_buffer records
  ok (header ++ (r.left_arm_protobuf_blob ++ rest))

abbrev stores : Answer → Bool → Bool
stores accepted anyway = true
stores _ anyway = anyway

-- The branches behind the upload. An exception that is not caught leaves the batch PROCESSING.
unfoldable pub after_upload :
    Answer → Surroundings → List TelemetryRow → CloudSyncWorker → CycleResult × CloudSyncWorker
after_upload accepted e records w = (
  returned (length records),
  record w {
    table = mark records synced w.table;
    consecutive_failures = 0;
    last_flush_time = e.later;
  },
)
after_upload refused e records w =
    let failures = w.consecutive_failures + 1 in
    (
      returned 0,
      record w {
        table = mark records pending w.table;
        consecutive_failures = failures;
        circuit_open_until =
            if leb w.max_consecutive_failures failures
            then e.later + w.circuit_cooldown
            else w.circuit_open_until;
      },
    )
after_upload broken e records w = (raised unexpected_error, w)

module _ (compress : List ℕ → List ℕ) where
  -- `upload_chunk_to_s3` of the assembled chunk, with the rows that arrive meanwhile.
  unfoldable pub upload : Surroundings → List ℕ → CloudSyncWorker → CloudSyncWorker
  upload e raw w = record w {
    table = w.table ++ e.arrivals;
    bucket = if stores e.answer e.stored_anyway then w.bucket ++ compress raw ∷ [] else w.bucket;
  }

  abbrev send_chunk :
      Result (List ℕ)
      → Surroundings
      → List TelemetryRow
      → CloudSyncWorker
      → CycleResult × CloudSyncWorker
  send_chunk (err x) e records w = (raised x, w)
  send_chunk (ok raw) e records w = after_upload e.answer e records (upload e raw w)

  -- The cycle once a batch is acquired.
  unfoldable pub ship :
      Surroundings → List TelemetryRow → CloudSyncWorker → CycleResult × CloudSyncWorker
  ship e [] w = (returned 0, w)
  ship e (r ∷ records) w = send_chunk (raw_buffer (r ∷ records)) e (r ∷ records) w

  unfoldable pub triggered : ℕ → CloudSyncWorker → Bool
  triggered now w =
      let pending_count = length (where_status is_pending w.table) in
      leb w.batch_size_threshold pending_count
      || (leb_ℤ (pos w.batch_time_threshold) (sub_ℕ now w.last_flush_time) && ltb 0 pending_count)

  unfoldable pub sync_cycle : Surroundings → CloudSyncWorker → CycleResult × CloudSyncWorker
  sync_cycle e w =
      let (records, w') = query_pending_batch w in
      if ltb e.now w.circuit_open_until
      then (returned 0, w)
      else if triggered e.now w
      then ship e records w'
      else (returned 0, w)
