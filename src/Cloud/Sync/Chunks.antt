-- ===== src/Cloud/Sync/Chunks.antt =====
-- Rows of Cloud/src/cloud_sync.py against the objects in the bucket, and what a mark does to them.
use auto_robotic_arms.Base.{
  ℕ, ◌≡◌, refl, inl, Bool, true, false, List, [], ◌∷◌, ◌++◌, if◌then◌else◌, All, All-imp, Any,
  Any-append_left, Any-append_right,
}
use auto_robotic_arms.Python.{ok}
use auto_robotic_arms.Cloud.Telemetry.{
  TelemetryRow, SyncStatus, pending, processing, synced, is_pending, has_id, mark,
}
use auto_robotic_arms.Cloud.Sync.{raw_buffer}
use auto_robotic_arms.Cloud.Sync.Framing.{blob_of}
use auto_robotic_arms.Cloud.Sync.Coverage.{Covered}

abbrev pub is_synced : SyncStatus → Bool
is_synced synced = true
is_synced _ = false

-- A row stands in an object of the bucket: some object is the compressed chunk of rows among which
-- one has its blob.
module _ (compress : List ℕ → List ℕ) where
  abbrev pub IsChunkWith : TelemetryRow → List ℕ → Type 0
  IsChunkWith r chunk =
      (records : List TelemetryRow) × (raw : List ℕ) × (raw_buffer records ≡ ok raw)
      × (chunk ≡ compress raw)
      × Any (λ q. blob_of q ≡ blob_of r) records

  abbrev pub Delivered : List (List ℕ) → TelemetryRow → Type 0
  Delivered bucket r = is_synced r.sync_status ≡ true → Any (IsChunkWith r) bucket

  pub Delivered-unsynced :
      (bucket : List (List ℕ)) (r : TelemetryRow)
      → is_synced r.sync_status ≡ false
      → Delivered bucket r
  Delivered-unsynced bucket r h e = absurd (cc (h, e))

  pub Delivered-more :
      (bucket more : List (List ℕ)) (r : TelemetryRow)
      → Delivered bucket r
      → Delivered (bucket ++ more) r
  Delivered-more bucket more r h e = Any-append_left (IsChunkWith r) bucket more (h e)

  -- A mark other than SYNCED.
  unsynced_row :
      (bucket : List (List ℕ)) (s : SyncStatus) (r : TelemetryRow) (b : Bool)
      → is_synced s ≡ false
      → Delivered bucket r
      → Delivered bucket (if b then record r { sync_status = s } else r)
  unsynced_row bucket s r true hs h e = absurd (cc (hs, e))
  unsynced_row bucket s r false hs h e = h e

  pub mark-unsynced :
      (bucket : List (List ℕ)) (records : List TelemetryRow) (s : SyncStatus)
      (rows : List TelemetryRow)
      → is_synced s ≡ false
      → All (Delivered bucket) rows
      → All (Delivered bucket) (mark records s rows)
  unfolding mark
  mark-unsynced bucket records s [] hs h = tt
  mark-unsynced bucket records s (r ∷ rows) hs h = (
    unsynced_row bucket s r (has_id r.record_id records) hs h.0,
    mark-unsynced bucket records s rows hs h.1,
  )

  -- SYNCED, for rows whose batch is stored.
  synced_row :
      (bucket : List (List ℕ)) (batch : List TelemetryRow) (raw : List ℕ) (r : TelemetryRow)
      (b : Bool)
      → has_id r.record_id batch ≡ b
      → raw_buffer batch ≡ ok raw
      → Covered batch r
      → Delivered bucket r
      → Delivered (bucket ++ compress raw ∷ []) (if b then record r { sync_status = synced } else r)
  synced_row bucket batch raw r true e packed covered h = λ stored.
      Any-append_right (IsChunkWith (record r { sync_status = synced })) bucket (compress raw ∷ [])
        (inl (batch, raw, packed, refl, covered e))
  synced_row bucket batch raw r false e packed covered h =
      Delivered-more bucket (compress raw ∷ []) r h

  pub mark-synced :
      (bucket : List (List ℕ)) (batch : List TelemetryRow) (raw : List ℕ) (rows : List TelemetryRow)
      → raw_buffer batch ≡ ok raw
      → All (Covered batch) rows
      → All (Delivered bucket) rows
      → All (Delivered (bucket ++ compress raw ∷ [])) (mark batch synced rows)
  unfolding mark
  mark-synced bucket batch raw [] packed c h = tt
  mark-synced bucket batch raw (r ∷ rows) packed c h = (
    synced_row bucket batch raw r (has_id r.record_id batch) refl packed c.0 h.0,
    mark-synced bucket batch raw rows packed c.1 h.1,
  )

  pub perhaps_more :
      (b : Bool) (bucket more : List (List ℕ)) (rows : List TelemetryRow)
      → All (Delivered bucket) rows
      → All (Delivered (if b then bucket ++ more else bucket)) rows
  perhaps_more true bucket more rows h = All-imp (λ r. Delivered-more bucket more r) rows h
  perhaps_more false bucket more rows h = h

  pub arrivals-Delivered :
      (bucket : List (List ℕ)) (rows : List TelemetryRow)
      → All (λ r. is_pending r.sync_status ≡ true) rows
      → All (Delivered bucket) rows
  arrivals-Delivered bucket rows =
      All-imp (λ r h. Delivered-unsynced bucket r (pending_unsynced r.sync_status h)) rows
    where
      pending_unsynced : (s : SyncStatus) → is_pending s ≡ true → is_synced s ≡ false
      pending_unsynced pending h = refl
      pending_unsynced processing h = refl
      pending_unsynced synced h = cc
