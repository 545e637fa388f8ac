-- ===== src/Tests/PlaneRuns.antt =====
-- A broadcast of the cloud control plane at a concrete pool.
use auto_robotic_arms.Base.{
  ℕ, true, ◌≡◌, none, refl, List, [], ◌∷◌, Option, some, ◌==◌, if◌then◌else◌, arith,
}
use auto_robotic_arms.Python.{ok, err, unexpected_error}
use auto_robotic_arms.Cloud.Plane.{
  delivered, lagging, Meeting, joins, connect, disconnect, remove, happen, broadcast_telemetry,
}
use auto_robotic_arms.Cloud.Plane.Pool.{broadcast_reaches}
use auto_robotic_arms.Cloud.Plane.Access.{
  default_key, manual_override, command_received, verify_api_key,
}
use auto_robotic_arms.Cloud.Plane.Session.{text, disconnected, broken, websocket_telemetry_endpoint}

-- The second client is too slow.
abbrev meeting : ℕ → Meeting
meeting c = record { meanwhile = []; delivery = if c == 2 then lagging else delivered }

abbrev whole_blob : List ℕ → Option (List ℕ)
whole_blob blob = some blob

broadcast_reaches_example :
    broadcast_telemetry whole_blob meeting (8 ∷ []) (1 ∷ 2 ∷ 3 ∷ [])
    ≡ record { result = ok tt; pool = 1 ∷ 3 ∷ []; attempts = 1 ∷ 2 ∷ 3 ∷ [] }
broadcast_reaches_example =
    broadcast_reaches meeting whole_blob (8 ∷ []) (1 ∷ 2 ∷ 3 ∷ []) (8 ∷ []) refl
      ((ground arith, (ground arith, tt)), ((ground arith, tt), (tt, tt)))
      ((refl, λ e. cc), ((refl, λ e. cc), ((refl, λ e. cc), tt)))

abbrev command : ℕ
command = 7

default_accepted : manual_override none (some default_key) command ≡ command_received command
unfolding manual_override verify_api_key
default_accepted = refl

-- The client leaves the pool where its socket is closed, and stays where something else is raised.
session_test :
    websocket_telemetry_endpoint 4 (text (joins 5 ∷ []) ∷ disconnected [] ∷ []) (3 ∷ [])
    ≡ (ok true, 3 ∷ 5 ∷ [])
unfolding websocket_telemetry_endpoint connect disconnect remove happen
session_test = refl

broken_session_test :
    websocket_telemetry_endpoint 4 (broken [] ∷ []) (3 ∷ []) ≡ (err unexpected_error, 3 ∷ 4 ∷ [])
unfolding websocket_telemetry_endpoint connect happen
broken_session_test = refl
