-- ===== src/Cloud/Sync/Rows.antt =====
-- The rows that a cycle and the sweep leave as PROCESSING.
use auto_robotic_arms.Base.{
  ℕ, ◌≡◌, refl, ap, sym, subst, ◌⊎◌, inl, inr, Bool, true, false, List, [], ◌∷◌, ◌++◌, arith, ◌==◌,
  if◌then◌else◌, All, All-append, All-imp,
}
use auto_robotic_arms.Cloud.Telemetry.{
  TelemetryRow, SyncStatus, pending, processing, synced, is_processing, where_status, has_id, mark,
}
use auto_robotic_arms.Cloud.Sync.{
  CloudSyncWorker, Answer, accepted, refused, broken, Surroundings, returned,
  boot_stale_record_sweep, after_upload, upload, sync_cycle,
}
use auto_robotic_arms.Cloud.Sync.Cases.{batch_of, cycle_by}

-- The row is not PROCESSING.
abbrev pub Settled : TelemetryRow → Type 0
Settled r = is_processing r.sync_status ≡ false

mark-append :
    (records : List TelemetryRow) (s : SyncStatus) (xs ys : List TelemetryRow)
    → mark records s (xs ++ ys) ≡ mark records s xs ++ mark records s ys
unfolding mark
mark-append records s [] ys = refl
mark-append records s (x ∷ xs) ys =
    ap (λ r. (if has_id x.record_id records then record x { sync_status = s } else x) ∷ r)
      (mark-append records s xs ys)

-- A row that is settled, or is about to be as one of the batch.
abbrev IsFree : List TelemetryRow → TelemetryRow → Type 0
IsFree records r = Settled r ⊎ (has_id r.record_id records ≡ true)

row-IsFree :
    (records : List TelemetryRow) (s : SyncStatus) (r : TelemetryRow) (b : Bool)
    → has_id r.record_id records ≡ b
    → Settled r
    → IsFree records (if b then record r { sync_status = s } else r)
row-IsFree records s r true e h = inr e
row-IsFree records s r false e h = inl h

mark-IsFree :
    (records : List TelemetryRow) (s : SyncStatus) (rows : List TelemetryRow)
    → All Settled rows
    → All (IsFree records) (mark records s rows)
unfolding mark
mark-IsFree records s [] h = tt
mark-IsFree records s (r ∷ rows) h =
    (row-IsFree records s r (has_id r.record_id records) refl h.0, mark-IsFree records s rows h.1)

settle_row :
    (records : List TelemetryRow) (s : SyncStatus) (r : TelemetryRow) (b : Bool)
    → has_id r.record_id records ≡ b
    → is_processing s ≡ false
    → IsFree records r
    → Settled (if b then record r { sync_status = s } else r)
settle_row records s r true e hs h = hs
settle_row records s r false e hs (inl h) = h
settle_row records s r false e hs (inr h) = absurd (cc (h, e))

mark-Settled :
    (records : List TelemetryRow) (s : SyncStatus) (rows : List TelemetryRow)
    → is_processing s ≡ false
    → All (IsFree records) rows
    → All Settled (mark records s rows)
unfolding mark
mark-Settled records s [] hs h = tt
mark-Settled records s (r ∷ rows) hs h = (
  settle_row records s r (has_id r.record_id records) refl hs h.0,
  mark-Settled records s rows hs h.1,
)

mark-nil : (s : SyncStatus) (rows : List TelemetryRow) → mark [] s rows ≡ rows
unfolding mark has_id
mark-nil s [] = refl
mark-nil s (r ∷ rows) = ap (λ t. r ∷ t) (mark-nil s rows)

arrivals-IsFree : (records rows : List TelemetryRow) → All Settled rows → All (IsFree records) rows
arrivals-IsFree records [] h = tt
arrivals-IsFree records (r ∷ rows) h = (inl h.0, arrivals-IsFree records rows h.1)

-- The rows after a batch was taken, rows arrived, and the batch was given its last status.
closed-Settled :
    (records : List TelemetryRow) (s : SyncStatus) (rows arrivals : List TelemetryRow)
    → is_processing s ≡ false
    → All Settled rows
    → All Settled arrivals
    → All Settled (mark records s (mark records processing rows ++ arrivals))
closed-Settled records s rows arrivals hs h ha =
    mark-Settled records s (mark records processing rows ++ arrivals) hs (
      All-append (IsFree records) (mark records processing rows) arrivals
        (mark-IsFree records processing rows h) (arrivals-IsFree records arrivals ha))

module _ (compress : List ℕ → List ℕ) where
  after_upload-Settled :
      (a : Answer) (e : Surroundings) (raw : List ℕ) (records : List TelemetryRow)
      (w : CloudSyncWorker) (n : ℕ)
      → All Settled w.table
      → All Settled e.arrivals
      → (after_upload a e records
          (upload compress e raw (record w { table = mark records processing w.table }))).0
        ≡ returned n
      → All Settled
          (after_upload a e records
            (upload compress e raw (record w { table = mark records processing w.table }))).1.table
  unfolding after_upload upload
  after_upload-Settled accepted e raw records w n h ha q =
      closed-Settled records synced w.table e.arrivals refl h ha
  after_upload-Settled refused e raw records w n h ha q =
      closed-Settled records pending w.table e.arrivals refl h ha
  after_upload-Settled broken e raw records w n h ha q = absurd (cc (q))

  -- Where no row of the table or of the arrivals was PROCESSING, none is after a cycle that returns.
  pub cycle_settles :
      (e : Surroundings) (w : CloudSyncWorker) (n : ℕ)
      → All Settled w.table
      → All Settled e.arrivals
      → (sync_cycle compress e w).0 ≡ returned n
      → All Settled (sync_cycle compress e w).1.table
  cycle_settles e w n h ha =
      let untouched = subst (All Settled) (sym (mark-nil processing w.table)) h in
      cycle_by compress (λ c. c.0 ≡ returned n → All Settled c.1.table) e w (λ q. h)
        (λ none q. subst (λ b. All Settled (mark b processing w.table)) (sym none) untouched)
        (λ x q. absurd (cc (q)))
        (λ raw packed q. after_upload-Settled e.answer e raw (batch_of w) w n h ha q)

more-IsFree :
    (records : List TelemetryRow) (q r : TelemetryRow) → IsFree records r → IsFree (q ∷ records) r
unfolding has_id
more-IsFree records q r (inl h) = inl h
more-IsFree records q r (inr h) = inr (ground (arith, h))

id_found :
    (records : List TelemetryRow) (r : TelemetryRow) → has_id r.record_id (r ∷ records) ≡ true
unfolding has_id
id_found records r = let same : (r.record_id == r.record_id) ≡ true = ground arith in rw same

sweep_row :
    (rest rows : List TelemetryRow) (r : TelemetryRow) (b : Bool)
    → is_processing r.sync_status ≡ b
    → All (IsFree rest) rows
    → All (IsFree (if b then r ∷ rest else rest)) (r ∷ rows)
sweep_row rest rows r true e h = (inr (id_found rest r), All-imp (λ q. more-IsFree rest r q) rows h)
sweep_row rest rows r false e h = (inl e, h)

orphans-IsFree : (rows : List TelemetryRow) → All (IsFree (where_status is_processing rows)) rows
unfolding where_status
orphans-IsFree [] = tt
orphans-IsFree (r ∷ rows) =
    sweep_row (where_status is_processing rows) rows r (is_processing r.sync_status) refl
      (orphans-IsFree rows)

-- The sweep leaves no row PROCESSING, whatever the table held.
pub sweep_settles : (w : CloudSyncWorker) → All Settled (boot_stale_record_sweep w).1.table
unfolding boot_stale_record_sweep
sweep_settles w =
    mark-Settled (where_status is_processing w.table) pending w.table refl (orphans-IsFree w.table)
