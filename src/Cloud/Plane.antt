-- ===== src/Cloud/Plane.antt =====
-- `ConnectionManager` of Cloud/src/control_plane.py. A connection is a number. The protobuf
-- decoding is a parameter; while the manager waits for a client, others may join and leave.
pub mod Pool
pub mod Access
pub mod Session
use auto_robotic_arms.Base.{
  ℕ, Bool, true, false, List, [], ◌∷◌, ◌++◌, Option, none, some, ◌==◌, if◌then◌else◌,
}
use auto_robotic_arms.Python.{Exception, value_error, unexpected_error, Result, ok, err}

-- How `wait_for(send_json(...))` ends: it returns; it raises WebSocketDisconnect, TimeoutError or
-- RuntimeError; or it raises something else.
pub data Delivery : Type 0 where
  delivered lagging failed : Delivery

pub data Event : Type 0 where
  joins leaves : ℕ → Event

-- What the manager meets at a client: the events while it waits, and the end of the send.
pub record Meeting : Type 0 where
  pub meanwhile : List Event
  pub delivery : Delivery

-- `list.remove`: the first occurrence.
unfoldable pub remove : ℕ → List ℕ → List ℕ
remove c [] = []
remove c (x ∷ xs) = let rest = remove c xs in if x == c then xs else x ∷ rest

unfoldable pub connect : ℕ → List ℕ → List ℕ
connect c active_connections = active_connections ++ c ∷ []

-- `disconnect`: nothing where the connection is not in the pool, as `remove` has it.
unfoldable pub disconnect : ℕ → List ℕ → List ℕ
disconnect c active_connections = remove c active_connections

unfoldable pub happen : List Event → List ℕ → List ℕ
happen [] pool = pool
happen (joins c ∷ events) pool = happen events (connect c pool)
happen (leaves c ∷ events) pool = happen events (disconnect c pool)

-- What a broadcast leaves: how it ends, the pool, and the clients it has sent to.
pub record Broadcast : Type 0 where
  pub result : Result (Unit {0})
  pub pool : List ℕ
  pub attempts : List ℕ

module _ (meet : ℕ → Meeting) where
  abbrev attempted : ℕ → Broadcast → Broadcast
  attempted c b = record b { attempts = c ∷ b.attempts }

  -- The `try` around a send, and the rest of the loop.
  abbrev after_delivery : Delivery → ℕ → List ℕ → (List ℕ → Broadcast) → Broadcast
  after_delivery delivered c pool next = next pool
  after_delivery lagging c pool next = next (disconnect c pool)
  after_delivery failed c pool next = record {
    result = err unexpected_error;
    pool = pool;
    attempts = [];
  }

  -- The loop over the copy of the pool.
  unfoldable pub broadcast_loop : List ℕ → List ℕ → Broadcast
  broadcast_loop [] pool = record { result = ok tt; pool = pool; attempts = [] }
  broadcast_loop (c ∷ rest) pool = attempted c (
      after_delivery (meet c).delivery c (happen (meet c).meanwhile pool)
        (λ p. broadcast_loop rest p))

module _ {Message : Type 0} (decode : List ℕ → Option Message) (meet : ℕ → Meeting) where
  abbrev broadcast_decoded : Option Message → List ℕ → Broadcast
  broadcast_decoded none pool = record { result = err value_error; pool = pool; attempts = [] }
  broadcast_decoded (some _) pool = broadcast_loop meet pool pool

  -- Without clients the blob is not decoded.
  unfoldable pub broadcast_telemetry : List ℕ → List ℕ → Broadcast
  broadcast_telemetry binary_blob [] = record { result = ok tt; pool = []; attempts = [] }
  broadcast_telemetry binary_blob (c ∷ rest) = broadcast_decoded (decode binary_blob) (c ∷ rest)
