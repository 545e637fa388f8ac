-- ===== src/Tests/WorkerRuns.antt =====
-- The telemetry store of the edge node at concrete inputs.
use auto_robotic_arms.Base.{ℕ, ◌≡◌, refl, false, List, [], ◌∷◌, none, some, arith, All, pos, ℤ}
use auto_robotic_arms.Edge.Store.{
  TelemetryTuple, DatabaseManager, new_manager, committed, logs, clears, pills, works, run,
}
use auto_robotic_arms.Edge.Store.Batches.{taken_in, store_keeps}
use auto_robotic_arms.Edge.Store.Shutdown.{work_steps, shutdown_drains}

abbrev row : ℕ → TelemetryTuple
row n = record {
  timestamp = "2026-01-01T00:00:00+00:00";
  joint_1 = pos n;
  joint_2 = pos 90;
  joint_3 = pos 90;
  checksum = "65";
  status_code = "K";
  source = "DISPATCH";
}

abbrev Middle : ℤ → Type 0
Middle j = j ≡ pos 90

abbrev busy_manager : DatabaseManager
busy_manager = record new_manager { queue = some (row 2) ∷ some (row 3) ∷ []; batch = row 1 ∷ [] }

store_keeps_example :
    (new : List TelemetryTuple) × (taken_in
        (run (logs (row 4) ∷ works committed ∷ clears ∷ pills ∷ works committed ∷ []) busy_manager)
      ≡ row 1 ∷ row 2 ∷ row 3 ∷ new)
    × All (λ r. Middle r.joint_2) new
store_keeps_example =
    store_keeps (λ r. Middle r.joint_2)
      (logs (row 4) ∷ works committed ∷ clears ∷ pills ∷ works committed ∷ []) busy_manager
      (refl, ((refl, tt), (tt, (tt, ((refl, tt), tt)))))

abbrev closing_manager : DatabaseManager
closing_manager = record busy_manager {
  queue = some (row 2) ∷ some (row 3) ∷ none ∷ [];
  running = false;
}

shutdown_drains_example :
    ((work_steps 8 closing_manager).working ≡ false)
    × ((work_steps 8 closing_manager).table ≡ row 1 ∷ row 2 ∷ row 3 ∷ [])
shutdown_drains_example = shutdown_drains 8 closing_manager refl refl refl refl (omega arith)
