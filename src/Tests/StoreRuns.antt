-- ===== src/Tests/StoreRuns.antt =====
-- The table of the host application and the threads of the cloud conductor at concrete inputs.
use auto_robotic_arms.Base.{
  ℕ, ◌≤◌, ◌<◌, ◌≡◌, refl, ◌⊎◌, true, false, List, [], ◌∷◌, ◌++◌, none, some, arith, length, drop,
  All, ℤ, pos,
}
use auto_robotic_arms.Joints.{centred}
use auto_robotic_arms.Tests.Numbers.{whole_numbers}
use auto_robotic_arms.Host.Store.{TelemetryRecord, next_id, telemetry_record, log_telemetry_state}
use auto_robotic_arms.Host.Store.Retention.{IsStore, log_outcome}
use auto_robotic_arms.Cloud.Conductor.{
  Snapshot, ConductorOrchestrator, Action, produces, flushes, stops, run,
}
use auto_robotic_arms.Cloud.Conductor.Pipeline.{taken_in}
use auto_robotic_arms.Cloud.Conductor.Order.{IsProduced, run_keeps}
use auto_robotic_arms.Cloud.Conductor.Drain.{flush_steps, stop_drains}

abbrev target : ℤ × ℤ × ℤ
target = (pos 10, pos 5, pos 3)

abbrev receipts : List (TelemetryRecord whole_numbers)
receipts =
    telemetry_record whole_numbers target (some centred) "NOMINAL" "65" 3
    ∷ telemetry_record whole_numbers target none "BLOCKED" "65" 4
    ∷ []

receipts-IsStore : IsStore whole_numbers receipts
receipts-IsStore = record { bounded = omega arith; rising = (omega arith, (omega arith, tt)) }

log_outcome_example :
    let row =
      telemetry_record whole_numbers target none "FAULT" "00" (next_id whole_numbers receipts) in
    let rows' = log_telemetry_state whole_numbers target none "FAULT" "00" receipts in
    ((length receipts < 50_000) × (rows' ≡ receipts ++ row ∷ []))
    ⊎ ((50_000 ≤ length receipts) × (rows' ≡ drop 5_000 receipts ++ row ∷ []))
log_outcome_example = log_outcome whole_numbers target none "FAULT" "00" receipts

abbrev serialized : ℤ → ℤ → ℤ → List ℕ
serialized base shoulder elbow = 1 ∷ 2 ∷ []

abbrev snapshot : ℕ → Snapshot
snapshot n = record { timestamp = n; left_arm_protobuf_blob = n ∷ [] }

abbrev pipeline : ConductorOrchestrator
pipeline = record {
  telemetry_queue = snapshot 3 ∷ snapshot 4 ∷ [];
  shutdown_event = false;
  simulated_step = 4;
  batch = snapshot 2 ∷ [];
  flushing = true;
  database = snapshot 1 ∷ [];
}

abbrev mixed_actions : List Action
mixed_actions = produces 5 ∷ flushes true ∷ produces 6 ∷ flushes true ∷ stops ∷ flushes true ∷ []

run_keeps_example :
    (new : List Snapshot) × (taken_in (run whole_numbers serialized mixed_actions pipeline)
      ≡ snapshot 1 ∷ snapshot 2 ∷ snapshot 3 ∷ snapshot 4 ∷ new)
    × All (IsProduced whole_numbers serialized) new
run_keeps_example =
    run_keeps whole_numbers serialized mixed_actions pipeline
      ((λ e. cc), ((λ e. cc), ((λ e. cc), ((λ e. cc), ((λ e. cc), ((λ e. cc), tt))))))

abbrev stopped_pipeline : ConductorOrchestrator
stopped_pipeline = record pipeline { shutdown_event = true }

stop_drains_example :
    ((flush_steps 6 stopped_pipeline).flushing ≡ false)
    × ((flush_steps 6 stopped_pipeline).database
        ≡ snapshot 1 ∷ snapshot 2 ∷ snapshot 3 ∷ snapshot 4 ∷ [])
stop_drains_example = stop_drains 6 stopped_pipeline refl refl (omega arith)
