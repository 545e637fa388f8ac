-- ===== src/Tests/ScriptRuns.antt =====
-- The bench scripts on a fresh board.
use auto_robotic_arms.Base.{ℕ, ◌≡◌, ◌≢◌, refl, true, false, List, [], ◌∷◌, some, pos, negsuc}
use auto_robotic_arms.Joints.{Angles, centred}
use auto_robotic_arms.Python.{envelope_violation, Result, ok, err}
use auto_robotic_arms.Firmware.{packet_parser_init}
use auto_robotic_arms.Host.Scripts.{Port, send_frame, try_block, warn, sanity_check}
use auto_robotic_arms.Handshake.{Board, board_link, as_bytes, IsLive, fresh_board}
use auto_robotic_arms.Handshake.Scripts.{
  saturated, Aims, send_frame_moves, last_solved, try_block_moves, sanity_check_warns,
}

fresh_board-IsLive : IsLive fresh_board
unfolding packet_parser_init
fresh_board-IsLive = record { waiting = refl; quiet = refl; moving = refl }

abbrev opened : Port board_link
opened = record { device = fresh_board; closed = false }

abbrev beyond : Angles
beyond = record { base = negsuc 9; shoulder = pos 250; elbow = pos 30 }

send_frame_moves_example :
    let (answered, port') = send_frame board_link beyond opened in
    (answered ≡ true) × Aims (saturated beyond) port'.device × (port'.closed ≡ false)
send_frame_moves_example = send_frame_moves beyond opened fresh_board-IsLive

abbrev two_targets : List (Result Angles)
two_targets = ok beyond ∷ err envelope_violation ∷ []

try_block_moves_example :
    let (r, port') = try_block board_link two_targets opened in
    (port'.closed ≡ true)
    × (r ≢ err envelope_violation)
    × IsLive port'.device
    × (port'.device.mcu.target_angles ≡ as_bytes (last_solved centred two_targets))
try_block_moves_example = try_block_moves two_targets opened fresh_board-IsLive

-- A line of everything that is unread.
abbrev read_unread : Board → List ℕ × Board
read_unread b = (b.answers, record b { answers = [] })

read_unread-silent : (c : Board) → c.answers ≡ [] → read_unread c ≡ ([], c)
read_unread-silent c e = rw e refl

sanity_check_warns_example :
    sanity_check board_link read_unread (some fresh_board) ≡ (warn, some fresh_board)
sanity_check_warns_example =
    sanity_check_warns read_unread fresh_board read_unread-silent fresh_board-IsLive
