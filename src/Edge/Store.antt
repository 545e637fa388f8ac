-- ===== src/Edge/Store.antt =====
-- `DatabaseManager` of Software/edge-orchestrator/database_manager.py: callers that put rows into a
-- bounded queue, and the worker thread that writes them in batches, as steps between which the
-- threads may switch. The table lists its committed rows by ascending id.
pub mod Batches
pub mod Shutdown
use Prim.Native.String.{String}
use mathlib.Core.List.{reverse}
use auto_robotic_arms.Base.{
  ℕ, zero, suc, ◌+◌, Bool, true, false, List, [], ◌∷◌, ◌++◌, Option, none, some, ltb, if◌then◌else◌,
  length, take, ℤ, pos, negsuc,
}

-- The tuple that `log_telemetry` queues; the timestamp is the text of the clock.
pub record TelemetryTuple : Type 0 where
  pub timestamp : String
  pub joint_1 : ℤ
  pub joint_2 : ℤ
  pub joint_3 : ℤ
  pub checksum : String
  pub status_code : String
  pub source : String

abbrev pub queue_maxsize : ℕ
queue_maxsize = 10_000

abbrev pub max_batch : ℕ
max_batch = 50

-- The queue, in which `none` is the poison pill; `running`; the worker's batch, whether its loop
-- goes on, the rows of its open transaction, and the committed rows.
pub record DatabaseManager : Type 0 where
  pub queue : List (Option TelemetryTuple)
  pub running : Bool
  pub batch : List TelemetryTuple
  pub working : Bool
  pub uncommitted : List TelemetryTuple
  pub table : List TelemetryTuple

-- `__init__`, on an empty file.
abbrev pub new_manager : DatabaseManager
new_manager = record {
  queue = [];
  running = true;
  batch = [];
  working = true;
  uncommitted = [];
  table = [];
}

-- `log_telemetry`: a full queue drops the row.
unfoldable pub log_telemetry : TelemetryTuple → DatabaseManager → DatabaseManager
log_telemetry row s =
    if ltb (length s.queue) queue_maxsize then record s { queue = s.queue ++ some row ∷ [] } else s

-- `shutdown` sets the flag, and then puts the pill as soon as there is room.
unfoldable pub clear_running : DatabaseManager → DatabaseManager
clear_running s = record s { running = false }

unfoldable pub put_pill : DatabaseManager → DatabaseManager
put_pill s =
    if ltb (length s.queue) queue_maxsize then record s { queue = s.queue ++ none ∷ [] } else s

-- A write of a batch: the transaction is committed, or an exception leaves the first `k` rows of
-- the batch in the open transaction.
pub data Write : Type 0 where
  committed : Write
  raised : ℕ → Write

-- `while self.running or not self.queue.empty()`
abbrev loop_test : List (Option TelemetryTuple) → DatabaseManager → DatabaseManager
loop_test [] s = record s { working = if s.running then s.working else false }
loop_test (_ ∷ _) s = s

abbrev write_batch : Write → DatabaseManager → DatabaseManager
write_batch committed s =
    loop_test s.queue
      (record s { table = s.table ++ (s.uncommitted ++ s.batch); uncommitted = []; batch = [] })
write_batch (raised k) s =
    loop_test s.queue (record s { uncommitted = s.uncommitted ++ take k s.batch; batch = [] })

-- `get(timeout=0.5)` for the first row of a batch.
abbrev first_item : List (Option TelemetryTuple) → DatabaseManager → DatabaseManager
first_item [] s = loop_test [] s
first_item (none ∷ rest) s = record s { queue = rest; working = false }
first_item (some row ∷ rest) s = record s { queue = rest; batch = row ∷ [] }

-- `get_nowait` for a further one; the pill ends the batch, which is written.
abbrev next_item : Write → List (Option TelemetryTuple) → DatabaseManager → DatabaseManager
next_item w [] s = write_batch w s
next_item w (none ∷ rest) s = write_batch w (record s { queue = rest; running = false })
next_item w (some row ∷ rest) s = record s { queue = rest; batch = s.batch ++ row ∷ [] }

abbrev batch_step : Write → List TelemetryTuple → DatabaseManager → DatabaseManager
batch_step w [] s = first_item s.queue s
batch_step w (_ ∷ _) s =
    let more = next_item w s.queue s in
    let written = write_batch w s in if ltb (length s.batch) max_batch then more else written

-- One step of `_worker_loop`.
unfoldable pub work : Write → DatabaseManager → DatabaseManager
work w s = let next = batch_step w s.batch s in if s.working then next else s

-- What the threads do, in some order.
pub data Action : Type 0 where
  logs : TelemetryTuple → Action
  clears pills : Action
  works : Write → Action

unfoldable pub act : Action → DatabaseManager → DatabaseManager
act (logs row) s = log_telemetry row s
act clears s = clear_running s
act pills s = put_pill s
act (works w) s = work w s

unfoldable pub run : List Action → DatabaseManager → DatabaseManager
run [] s = s
run (a ∷ actions) s = run actions (act a s)

-- `get_recent_telemetry`: the committed rows, the newest first, without their ids. SQLite reads a
-- negative limit as none; while the worker has not made the table, there are no rows.
unfoldable pub get_recent_telemetry : Bool → ℤ → DatabaseManager → List TelemetryTuple
get_recent_telemetry table_exists (pos limit) s =
    if table_exists then take limit (reverse s.table) else []
get_recent_telemetry table_exists (negsuc _) s = if table_exists then reverse s.table else []
