-- ===== src/Cloud/Sync/Coverage.antt =====
-- The rows that `mark` touches, by their ids: those of the batch and no others.
use auto_robotic_arms.Base.{
  ℕ, ◌≡◌, ◌≢◌, refl, ap, sym, subst, inl, inr, Bool, true, false, List, [], ◌∷◌, ◌++◌, arith, zero,
  suc, ◌==◌, if◌then◌else◌, take, All, Any, Distinct, Distinct-apart,
}
use auto_robotic_arms.Cloud.Telemetry.{
  TelemetryRow, SyncStatus, is_pending, where_status, has_id, mark,
}
use auto_robotic_arms.Cloud.Sync.Framing.{blob_of}
use auto_robotic_arms.Cloud.Sync.History.{ids}

pub ids-mark :
    (records : List TelemetryRow) (s : SyncStatus) (rows : List TelemetryRow)
    → ids (mark records s rows) ≡ ids rows
unfolding mark
ids-mark records s [] = refl
ids-mark records s (r ∷ rows) =
    λ i. same_id (has_id r.record_id records) i ∷ ids-mark records s rows i
  where
    same_id : (b : Bool) → (if b then record r { sync_status = s } else r).record_id ≡ r.record_id
    same_id true = refl
    same_id false = refl

pub ids-append : (xs ys : List TelemetryRow) → ids (xs ++ ys) ≡ ids xs ++ ids ys
ids-append [] ys = refl
ids-append (x ∷ xs) ys = ap (λ t. x.record_id ∷ t) (ids-append xs ys)

-- The batch of a cycle, as a function of its size and the table.
abbrev pub pick : ℕ → List TelemetryRow → List TelemetryRow
pick n rows = take n (where_status is_pending rows)

absent_step :
    (id n : ℕ) (r : TelemetryRow) (rows : List TelemetryRow) (b : Bool)
    → r.record_id ≢ id
    → ((m : ℕ) → has_id id (pick m rows) ≡ false)
    → has_id id
        (take n (if b then r ∷ where_status is_pending rows else where_status is_pending rows))
      ≡ false
unfolding has_id
absent_step id zero r rows b ne rest = refl
absent_step id (suc n) r rows true ne rest =
    let other : (r.record_id == id) ≡ false = ground arith in rw (other, rest n) refl
absent_step id (suc n) r rows false ne rest = rest (suc n)

-- An id that the table does not have is not in the batch.
has_id-absent :
    (id n : ℕ) (rows : List TelemetryRow)
    → All (λ i. i ≢ id) (ids rows)
    → has_id id (pick n rows) ≡ false
unfolding where_status
has_id-absent id zero [] h = unfold has_id in refl
has_id-absent id (suc n) [] h = unfold has_id in refl
has_id-absent id n (r ∷ rows) h =
    absent_step id n r rows (is_pending r.sync_status) h.0 (λ m. has_id-absent id m rows h.1)

-- A row whose id is in the batch has its blob there.
abbrev pub Covered : List TelemetryRow → TelemetryRow → Type 0
Covered batch r = has_id r.record_id batch ≡ true → Any (λ q. blob_of q ≡ blob_of r) batch

Covered-absent :
    (batch : List TelemetryRow) (r : TelemetryRow)
    → has_id r.record_id batch ≡ false
    → Covered batch r
Covered-absent batch r h e = absurd (cc (h, e))

Covered-more :
    (batch : List TelemetryRow) (q r : TelemetryRow)
    → q.record_id ≢ r.record_id
    → Covered batch r
    → Covered (q ∷ batch) r
unfolding has_id
Covered-more batch q r ne h e = inr (h (ground (arith, e)))

Covered-rows :
    (n : ℕ) (r : TelemetryRow) (rows : List TelemetryRow) (b : Bool)
    → All (λ i. i ≢ r.record_id) (ids rows)
    → ((m : ℕ) → All (Covered (pick m rows)) rows)
    → All
        (Covered
          (take n (if b then r ∷ where_status is_pending rows else where_status is_pending rows)))
        (r ∷ rows)
Covered-rows zero r rows b fresh rest = (Covered-absent [] r (unfold has_id in refl), rest 0)
Covered-rows (suc n) r rows false fresh rest = (
  Covered-absent (pick (suc n) rows) r (has_id-absent r.record_id (suc n) rows fresh),
  rest (suc n),
)
Covered-rows (suc n) r rows true fresh rest = (λ e. inl refl, more rows fresh (rest n))
  where
    more :
        (qs : List TelemetryRow)
        → All (λ i. i ≢ r.record_id) (ids qs)
        → All (Covered (pick n rows)) qs
        → All (Covered (r ∷ pick n rows)) qs
    more [] h c = tt
    more (q ∷ qs) h c = (Covered-more (pick n rows) r q (λ e. h.0 (sym e)) c.0, more qs h.1 c.1)

-- Under distinct ids every row of the table is covered by the batch.
pub Covered-pick :
    (n : ℕ) (rows : List TelemetryRow) → Distinct (ids rows) → All (Covered (pick n rows)) rows
unfolding where_status
Covered-pick n [] d = tt
Covered-pick n (r ∷ rows) d =
    Covered-rows n r rows (is_pending r.sync_status) d.0 (λ m. Covered-pick m rows d.1)

-- Rows whose ids the table does not have are covered, since they are not in the batch.
pub Covered-arrivals :
    (n : ℕ) (rows arrivals : List TelemetryRow)
    → Distinct (ids (rows ++ arrivals))
    → All (Covered (pick n rows)) arrivals
Covered-arrivals n rows arrivals d =
    go arrivals
      (Distinct-apart (ids rows) (ids arrivals) (subst Distinct (ids-append rows arrivals) d))
  where
    go :
        (qs : List TelemetryRow)
        → All (λ i. All (λ j. j ≢ i) (ids rows)) (ids qs)
        → All (Covered (pick n rows)) qs
    go [] h = tt
    go (a ∷ qs) h =
        (Covered-absent (pick n rows) a (has_id-absent a.record_id n rows h.0), go qs h.1)

pub Covered-mark :
    (batch records : List TelemetryRow) (s : SyncStatus) (rows : List TelemetryRow)
    → All (Covered batch) rows
    → All (Covered batch) (mark records s rows)
unfolding mark
Covered-mark batch records s [] h = tt
Covered-mark batch records s (r ∷ rows) h =
    (marked (has_id r.record_id records) h.0, Covered-mark batch records s rows h.1)
  where
    marked :
        (b : Bool) → Covered batch r → Covered batch (if b then record r { sync_status = s } else r)
    marked true c = c
    marked false c = c
