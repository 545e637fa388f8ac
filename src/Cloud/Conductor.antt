-- ===== src/Cloud/Conductor.antt =====
-- `ConductorOrchestrator` of Cloud/src/conductor_host.py: the producer and the flusher over the
-- bounded queue, as steps between which the threads may switch. The protobuf serialization is a
-- parameter; times are whole microseconds.
pub mod Pipeline
pub mod Order
pub mod Drain
pub mod Produced
pub mod Accounts
use auto_robotic_arms.Base.{
  ℕ, zero, suc, ◌+◌, ◌%◌, Bool, true, false, ◌&&◌, List, [], ◌∷◌, ◌++◌, ltb, leb, if◌then◌else◌,
  length, pos,
}
use auto_robotic_arms.Floats.{Floats}
use auto_robotic_arms.Python.{Result, ok, err}

-- What is passed as a joint: a number, or something that is none.
pub data Joint (f : Floats) : Type 0 where
  number : f.Float → Joint f
  other : Joint f

-- The fields of a snapshot that vary; the others are constants of the code: NOMINAL, version 1, no
-- right arm, 3000 ms and PENDING.
pub record Snapshot : Type 0 where
  pub timestamp : ℕ
  pub left_arm_protobuf_blob : List ℕ

abbrev pub queue_max_size : ℕ
queue_max_size = 100

abbrev pub flush_batch_size : ℕ
flush_batch_size = 10

-- The queue, the shutdown event, the producer's counter, the flusher's batch, whether the flusher
-- still runs, and the rows it has committed.
pub record ConductorOrchestrator : Type 0 where
  pub telemetry_queue : List Snapshot
  pub shutdown_event : Bool
  pub simulated_step : ℕ
  pub batch : List Snapshot
  pub flushing : Bool
  pub database : List Snapshot

-- `put_nowait`: a full queue drops the new snapshot.
unfoldable pub put_nowait : Snapshot → List Snapshot → List Snapshot
put_nowait snapshot q = if ltb (length q) queue_max_size then q ++ snapshot ∷ [] else q

module _ (f : Floats) where
  abbrev joint_valid : Joint f → Bool
  joint_valid (number v) = f.le (f.lit 0 10) v && f.le v (f.lit 1800 10)
  joint_valid other = false

  unfoldable pub validate_arm_telemetry : Joint f → Joint f → Joint f → Bool
  validate_arm_telemetry base shoulder elbow =
      joint_valid base && (joint_valid shoulder && joint_valid elbow)

  module _ (serialize : f.Float → f.Float → f.Float → List ℕ) where
    -- The snapshot of one round of `_producer_loop`.
    unfoldable pub snapshot_at : ℕ → ℕ → Snapshot
    snapshot_at now step = record {
      timestamp = now;
      left_arm_protobuf_blob =
          serialize (f.add (f.lit 900 10) (f.of_int (pos (step % 45)))) (f.lit 450 10)
            (f.lit 1200 10);
    }

    -- One round of `_producer_loop`.
    unfoldable pub produce : ℕ → ConductorOrchestrator → ConductorOrchestrator
    produce now s =
        let valid =
          validate_arm_telemetry
            (number (f.add (f.lit 900 10) (f.of_int (pos (s.simulated_step % 45)))))
            (number (f.lit 450 10)) (number (f.lit 1200 10)) in
        let s' = record s { simulated_step = s.simulated_step + 1 } in
        if s.shutdown_event
        then s
        else if valid
        then record s' {
          telemetry_queue = put_nowait (snapshot_at now s.simulated_step) s.telemetry_queue;
        }
        else s'

-- The head of the flusher's loop: it ends once it is told to and the queue is empty.
abbrev next_batch : List Snapshot → ConductorOrchestrator → ConductorOrchestrator
next_batch [] s = record s { flushing = if s.shutdown_event then false else s.flushing }
next_batch (_ ∷ _) s = s

-- The commit of a batch, which succeeds or raises; a failure ends the flusher and the batch is gone.
abbrev commit : Bool → List Snapshot → ConductorOrchestrator → ConductorOrchestrator
commit succeeds [] s = next_batch s.telemetry_queue s
commit true (b ∷ rest) s =
    next_batch s.telemetry_queue (record s { database = s.database ++ b ∷ rest; batch = [] })
commit false (b ∷ rest) s = record s { batch = []; shutdown_event = true; flushing = false }

-- `get`: an item, or nothing before the timeout, which closes the batch.
abbrev collect : Bool → List Snapshot → ConductorOrchestrator → ConductorOrchestrator
collect succeeds [] s = commit succeeds s.batch s
collect succeeds (x ∷ rest) s = record s { telemetry_queue = rest; batch = s.batch ++ x ∷ [] }

-- One step of `_flusher_loop`.
unfoldable pub flush : Bool → ConductorOrchestrator → ConductorOrchestrator
flush succeeds s =
    let collected = collect succeeds s.telemetry_queue s in
    let committed = commit succeeds s.batch s in
    if s.flushing
    then (if ltb (length s.batch) flush_batch_size then collected else committed)
    else s

-- `start`: the tables, which may raise, then the threads.
unfoldable pub start :
    Result (Unit {0}) → ConductorOrchestrator → Result (Unit {0}) × ConductorOrchestrator
start (ok initialized) s = (ok initialized, record s { flushing = true })
start (err e) s = (err e, s)

-- `stop`, up to the joins of the threads.
unfoldable pub stop : ConductorOrchestrator → ConductorOrchestrator
stop s = record s { shutdown_event = true }

-- What the threads do, in some order.
pub data Action : Type 0 where
  produces : ℕ → Action
  flushes : Bool → Action
  stops : Action

module _ (f : Floats) (serialize : f.Float → f.Float → f.Float → List ℕ) where
  unfoldable pub act : Action → ConductorOrchestrator → ConductorOrchestrator
  act (produces now) s = produce f serialize now s
  act (flushes succeeds) s = flush succeeds s
  act stops s = stop s

  unfoldable pub run : List Action → ConductorOrchestrator → ConductorOrchestrator
  run [] s = s
  run (a ∷ actions) s = run actions (act a s)
