-- ===== src/Cloud/Plane/Session.antt =====
-- One client of the WebSocket route of Cloud/src/control_plane.py, while the pool changes by others.
use auto_robotic_arms.Base.{ℕ, Bool, true, false, List, [], ◌∷◌}
use auto_robotic_arms.Python.{Result, ok, err, unexpected_error}
use auto_robotic_arms.Cloud.Plane.{Event, connect, disconnect, happen}

-- How a `receive_text` ends, with what happens to the pool meanwhile: a text comes, or
-- WebSocketDisconnect is raised, or something else.
pub data Receipt : Type 0 where
  text disconnected broken : List Event → Receipt

-- The loop: how the route ends, or that it still waits, and the pool.
abbrev pub receive_loop : ℕ → List Receipt → List ℕ → Result Bool × List ℕ
receive_loop c [] pool = (ok false, pool)
receive_loop c (text events ∷ more) pool = receive_loop c more (happen events pool)
receive_loop c (disconnected events ∷ _) pool = (ok true, disconnect c (happen events pool))
receive_loop c (broken events ∷ _) pool = (err unexpected_error, happen events pool)

-- `websocket_telemetry_endpoint` after the handshake.
unfoldable pub websocket_telemetry_endpoint : ℕ → List Receipt → List ℕ → Result Bool × List ℕ
websocket_telemetry_endpoint c receipts pool = receive_loop c receipts (connect c pool)
