-- ===== src/Cloud/System/Landing.antt =====
-- The rows that the conductor commits, in the table of Cloud/src/cloud_sync.py.
use auto_robotic_arms.Base.{
  ℕ, ◌≡◌, refl, ap, sym, ◌∙◌, ◌⊎◌, inl, inr, true, List, [], ◌∷◌, ◌++◌, append-nil, length, drop,
  All, arith,
}
use auto_robotic_arms.Floats.{Floats}
use auto_robotic_arms.Cloud.Telemetry.{TelemetryRow, is_pending}
use auto_robotic_arms.Cloud.Conductor.{Snapshot, ConductorOrchestrator, Action, run}
use auto_robotic_arms.Cloud.Sync.{CloudSyncWorker, Surroundings, sync_cycle}
use auto_robotic_arms.Cloud.Sync.Cases.{batch_of}
use auto_robotic_arms.Cloud.Sync.Payloads.{
  payload, payloads, payloads-append, cycle_keeps, after_upload-joins,
}
use auto_robotic_arms.Cloud.Sync.Breaker.{cycle-ships}
use auto_robotic_arms.Cloud.Sync.History.{Arrives}
use auto_robotic_arms.Cloud.System.{row_of, rows_of, inserted, Numbers, Uploads}

-- The rows are those of the snapshots, one by one, apart from their statuses.
abbrev pub Stores : List Snapshot → List TelemetryRow → Type 0
Stores [] [] = Unit
Stores (x ∷ xs) (r ∷ rows) = (payload r ≡ row_of r.record_id x) × Stores xs rows
Stores [] (r ∷ rows) = ⊥
Stores (x ∷ xs) [] = ⊥

pub rows_of-Stores :
    (keys : List ℕ) (xs : List Snapshot) → length keys ≡ length xs → Stores xs (rows_of keys xs)
rows_of-Stores [] [] h = tt
rows_of-Stores (k ∷ keys) (x ∷ xs) h = (refl, rows_of-Stores keys xs (omega (arith, h)))
rows_of-Stores [] (x ∷ xs) h = absurd (omega (arith, h))
rows_of-Stores (k ∷ keys) [] h = absurd (omega (arith, h))

rows_of-waiting :
    (keys : List ℕ) (xs : List Snapshot)
    → All (λ r. is_pending r.sync_status ≡ true) (rows_of keys xs)
rows_of-waiting [] xs = tt
rows_of-waiting (k ∷ keys) [] = tt
rows_of-waiting (k ∷ keys) (x ∷ xs) = (refl, rows_of-waiting keys xs)

pub Numbers-Arrives :
    (new : List Snapshot) (table : List TelemetryRow) (keys : List ℕ)
    → Numbers new table keys
    → Arrives table (rows_of keys new)
Numbers-Arrives new table keys n = record { waiting = rows_of-waiting keys new; fresh = n.fresh }

-- Nothing is inserted by no action.
pub drop-all : (xs : List Snapshot) → drop (length xs) xs ≡ []
drop-all [] = refl
drop-all (x ∷ xs) = drop-all xs

rows_of-nil : (keys : List ℕ) → rows_of keys [] ≡ []
rows_of-nil [] = refl
rows_of-nil (k ∷ keys) = refl

idle_inserted :
    (f : Floats) (serialize : f.Float → f.Float → f.Float → List ℕ) (c : ConductorOrchestrator)
    → inserted c (run f serialize [] c) ≡ []
unfolding run
idle_inserted f serialize c = drop-all c.database

module _ (compress : List ℕ → List ℕ) where
  -- A cycle that comes to the upload has the arrivals in its table, and changes nothing but
  -- statuses.
  cycle_joins :
      (e : Surroundings) (w : CloudSyncWorker)
      → Uploads compress e w
      → payloads (sync_cycle compress e w).1.table ≡ payloads (w.table ++ e.arrivals)
  cycle_joins e w u =
      ap (λ p. payloads p.1.table)
        (cycle-ships compress e w u.raw u.closed u.due u.some_rows u.packs)
      ∙ after_upload-joins compress e.answer e u.raw (batch_of w) w
      ∙ sym (payloads-append w.table e.arrivals)

  cycle_quiet :
      (e : Surroundings) (w : CloudSyncWorker)
      → e.arrivals ≡ []
      → payloads (sync_cycle compress e w).1.table ≡ payloads (w.table ++ e.arrivals)
  cycle_quiet e w quiet = elim (cycle_keeps compress e w) [
    | inl same ↦
        same
        ∙ ap payloads (sym (append-nil w.table))
        ∙ ap (λ t. payloads (w.table ++ t)) (sym quiet)
    | inr joined ↦ joined ∙ sym (payloads-append w.table e.arrivals)
  ]

  -- The table after a cycle with actions of the conductor in it.
  pub cycle_lands :
      (f : Floats) (serialize : f.Float → f.Float → f.Float → List ℕ) (e : Surroundings)
      (during : List Action) (keys : List ℕ) (c : ConductorOrchestrator) (w : CloudSyncWorker)
      → e.arrivals ≡ rows_of keys (inserted c (run f serialize during c))
      → ((during ≡ []) ⊎ Uploads compress e w)
      → payloads (sync_cycle compress e w).1.table ≡ payloads (w.table ++ e.arrivals)
  cycle_lands f serialize e during keys c w arrived (inr u) = cycle_joins e w u
  cycle_lands f serialize e during keys c w arrived (inl still) = cycle_quiet e w (
      arrived
      ∙ ap (λ a. rows_of keys (inserted c (run f serialize a c))) still
      ∙ ap (rows_of keys) (idle_inserted f serialize c)
      ∙ rows_of-nil keys)
