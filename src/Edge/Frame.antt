-- ===== src/Edge/Frame.antt =====
-- `build_option_a_frame` of Software/edge-orchestrator/orchestrator_node.py.
pub mod Parity
use auto_robotic_arms.Base.{ℕ, List, [], ◌∷◌, ◌++◌, ltb, if◌then◌else◌, length}
use auto_robotic_arms.Wire.{str_int, hex02, xor_from}
use auto_robotic_arms.Joints.{Angles, saturate}
use auto_robotic_arms.Python.{Result, ok, err, value_error}

-- `f"@{cmd},{j1},{j2},{j3}"`, the joints clamped; the start mark is part of it.
unfoldable pub option_a_payload : List ℕ → Angles → List ℕ
option_a_payload cmd a =
    b'@'
    ∷ (cmd
        ++ b','
          ∷ (str_int (saturate a.base)
              ++ b',' ∷ (str_int (saturate a.shoulder) ++ b',' ∷ str_int (saturate a.elbow))))

unfoldable pub build_option_a_frame : List ℕ → Angles → Result (List ℕ)
unfolding option_a_payload
build_option_a_frame cmd a =
    let payload = option_a_payload cmd a in
    let checksum = xor_from 0 payload in
    if ltb 24 (length payload)
    then err value_error
    else ok (payload ++ b'*' ∷ (hex02 checksum ++ 10 ∷ []))
