-- ===== src/Cloud/Sync/Backlog.antt =====
-- The pending rows of the table of Cloud/src/cloud_sync.py, counted, and what the marks of a batch
-- do to their number.
use auto_robotic_arms.Base.{
  ℕ, ◌⊎◌, zero, suc, ◌^◌, ◌≤◌, ◌<◌, ◌≡◌, refl, sym, subst, ap, ◌∙◌, inl, inr, Bool, true, false,
  List, [], ◌∷◌, arith, ◌==◌, if◌then◌else◌, length, take, All, Bool-cases,
}
use auto_robotic_arms.Cloud.Telemetry.{
  TelemetryRow, SyncStatus, is_pending, where_status, has_id, mark,
}
use auto_robotic_arms.Cloud.Sync.Framing.{blob_of}
use auto_robotic_arms.Cloud.Sync.Coverage.{pick}

abbrev pub backlog : List TelemetryRow → ℕ
backlog rows = length (where_status is_pending rows)

abbrev marked : SyncStatus → TelemetryRow → Bool → TelemetryRow
marked s r b = if b then record r { sync_status = s } else r

-- The backlog of a row and the rest.
abbrev pub plus_row : Bool → ℕ → ℕ
plus_row b n = if b then suc n else n

pub backlog-cons :
    (r : TelemetryRow) (rows : List TelemetryRow)
    → backlog (r ∷ rows) ≡ plus_row (is_pending r.sync_status) (backlog rows)
unfolding where_status
backlog-cons r rows = elim (Bool-cases (is_pending r.sync_status)) [
  | inl e ↦ rw e refl
  | inr e ↦ rw e refl
]

row_no_more :
    (s : SyncStatus) (r : TelemetryRow) (b : Bool) (n m : ℕ)
    → is_pending s ≡ false
    → n ≤ m
    → plus_row (is_pending (marked s r b).sync_status) n ≤ plus_row (is_pending r.sync_status) m
row_no_more s r true n m hs h = rw hs (ground arith)
row_no_more s r false n m hs h = ground arith

-- A mark other than PENDING adds no pending row.
pub mark_no_more :
    (records : List TelemetryRow) (s : SyncStatus) (rows : List TelemetryRow)
    → is_pending s ≡ false
    → backlog (mark records s rows) ≤ backlog rows
unfolding mark
mark_no_more records s [] hs = unfold where_status in omega arith
mark_no_more records s (r ∷ rows) hs =
    let b = has_id r.record_id records in
    let rest =
      row_no_more s r b (backlog (mark records s rows)) (backlog rows) hs
        (mark_no_more records s rows hs) in
    omega (arith, rest, backlog-cons (marked s r b) (mark records s rows), backlog-cons r rows)

marked-gone :
    (s : SyncStatus) (r : TelemetryRow) (b : Bool)
    → is_pending s ≡ false
    → (b ≡ true) ⊎ (is_pending r.sync_status ≡ false)
    → is_pending (marked s r b).sync_status ≡ false
marked-gone s r true hs h = hs
marked-gone s r false hs (inl h) = absurd (cc)
marked-gone s r false hs (inr h) = h

first-picked :
    (n : ℕ) (r : TelemetryRow) (rows : List TelemetryRow)
    → is_pending r.sync_status ≡ true
    → has_id r.record_id (pick (suc n) (r ∷ rows)) ≡ true
unfolding where_status has_id
first-picked n r rows waits =
    let same : (r.record_id == r.record_id) ≡ true = ground arith in rw (waits, same) refl

pick-skips :
    (n : ℕ) (r : TelemetryRow) (rows : List TelemetryRow)
    → is_pending r.sync_status ≡ false
    → pick n (r ∷ rows) ≡ pick n rows
unfolding where_status
pick-skips n r rows done = rw done refl

-- A mark of the batch takes a pending row away where there is one.
pub pick_less :
    (n : ℕ) (s : SyncStatus) (rows : List TelemetryRow)
    → is_pending s ≡ false
    → 0 < backlog rows
    → backlog (mark (pick (suc n) rows) s rows) < backlog rows
unfolding mark
pick_less n s [] hs some_rows = absurd (unfold where_status in (omega (arith, some_rows)))
pick_less n s (r ∷ rows) hs some_rows =
    let batch = pick (suc n) (r ∷ rows) in
    let b = has_id r.record_id batch in
    let after = backlog-cons (marked s r b) (mark batch s rows) in
    elim (Bool-cases (is_pending r.sync_status)) [
      | inl waits ↦
          let gone = marked-gone s r b hs (inl (first-picked n r rows waits)) in
          let now : backlog (marked s r b ∷ mark batch s rows) ≡ backlog (mark batch s rows) =
            after ∙ ap (λ c. plus_row c (backlog (mark batch s rows))) gone in
          let before : backlog (r ∷ rows) ≡ suc (backlog rows) =
            backlog-cons r rows ∙ ap (λ c. plus_row c (backlog rows)) waits in
          omega (arith, now, before, mark_no_more batch s rows hs)
      | inr done ↦
          let gone = marked-gone s r b hs (inr done) in
          let now : backlog (marked s r b ∷ mark batch s rows) ≡ backlog (mark batch s rows) =
            after ∙ ap (λ c. plus_row c (backlog (mark batch s rows))) gone in
          let before : backlog (r ∷ rows) ≡ backlog rows =
            backlog-cons r rows ∙ ap (λ c. plus_row c (backlog rows)) done in
          let rest =
            subst (λ p. backlog (mark p s rows) < backlog rows)
              (sym (pick-skips (suc n) r rows done))
              (pick_less n s rows hs (subst (λ k. 0 < k) before some_rows)) in
          omega (arith, now, before, rest)
    ]

-- Blobs under 4 GiB.
abbrev pub IsSmall : TelemetryRow → Type 0
IsSmall r = length (blob_of r) < 2 ^ 32

pub mark-IsSmall :
    (records : List TelemetryRow) (s : SyncStatus) (rows : List TelemetryRow)
    → All IsSmall rows
    → All IsSmall (mark records s rows)
unfolding mark
mark-IsSmall records s [] h = tt
mark-IsSmall records s (r ∷ rows) h =
    (marked-IsSmall (has_id r.record_id records) h.0, mark-IsSmall records s rows h.1)
  where
    marked-IsSmall : (b : Bool) → IsSmall r → IsSmall (marked s r b)
    marked-IsSmall true small = small
    marked-IsSmall false small = small

pub pick-IsSmall : (n : ℕ) (rows : List TelemetryRow) → All IsSmall rows → All IsSmall (pick n rows)
unfolding where_status
pick-IsSmall zero [] h = tt
pick-IsSmall (suc n) [] h = tt
pick-IsSmall n (r ∷ rows) h = picked n (is_pending r.sync_status) (λ m. pick-IsSmall m rows h.1)
  where
    picked :
        (m : ℕ) (b : Bool)
        → ((k : ℕ) → All IsSmall (pick k rows))
        → All IsSmall
            (take m (if b then r ∷ where_status is_pending rows else where_status is_pending rows))
    picked zero b rest = tt
    picked (suc k) true rest = (h.0, rest k)
    picked (suc k) false rest = rest (suc k)

pub length-pick :
    (n : ℕ) (rows : List TelemetryRow) → 0 < backlog rows → 0 < length (pick (suc n) rows)
length-pick n rows h = nonempty (where_status is_pending rows) h
  where
    nonempty : (rs : List TelemetryRow) → 0 < length rs → 0 < length (take (suc n) rs)
    nonempty [] h = h
    nonempty (r ∷ rs) h = omega arith
