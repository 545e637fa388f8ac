-- ===== src/Cloud/Sync/Drained.antt =====
-- Cycles of the worker of Cloud/src/cloud_sync.py, each late enough to be due, while the object
-- store accepts and no rows come.
use auto_robotic_arms.Base.{
  ℕ, ◌-◌, suc, ◌+◌, ◌≤◌, ◌<◌, ◌≡◌, refl, sym, subst, ap, ◌∙◌, inl, inr, true, false, List, [], ◌∷◌,
  ◌++◌, append-nil, arith, ltb, length, All, Bool-cases,
}
use auto_robotic_arms.Cloud.Telemetry.{
  TelemetryRow, SyncStatus, pending, processing, synced, is_pending, is_processing, mark,
}
use auto_robotic_arms.Cloud.Sync.{
  CloudSyncWorker, accepted, Surroundings, returned, after_upload, upload, sync_cycle, triggered,
}
use auto_robotic_arms.Cloud.Sync.Framing.{raw_buffer_roundtrip}
use auto_robotic_arms.Cloud.Sync.Cases.{batch_of}
use auto_robotic_arms.Cloud.Sync.Rows.{Settled, cycle_settles}
use auto_robotic_arms.Cloud.Sync.Breaker.{cycle-ships}
use auto_robotic_arms.Cloud.Sync.Coverage.{pick}
use auto_robotic_arms.Cloud.Sync.Backlog.{
  backlog, plus_row, backlog-cons, mark_no_more, pick_less, IsSmall, mark-IsSmall, pick-IsSmall,
  length-pick,
}
use auto_robotic_arms.Cloud.Sync.Chunks.{is_synced}

-- Each cycle starts when the batch time has passed since the one before ended, under a closed
-- circuit; its upload is accepted, and no rows come meanwhile.
abbrev pub Spaced : ℕ → ℕ → ℕ → List Surroundings → Type 0
Spaced period flushed open_until [] = Unit
Spaced period flushed open_until (e ∷ es) =
    (flushed + period ≤ e.now)
    × (open_until ≤ e.now)
    × (e.answer ≡ accepted)
    × (e.arrivals ≡ [])
    × Spaced period e.later open_until es

settled_synced :
    (s : SyncStatus) → is_processing s ≡ false → is_pending s ≡ false → is_synced s ≡ true
settled_synced pending done gone = absurd (cc)
settled_synced processing done gone = absurd (cc)
settled_synced synced done gone = refl

-- Settled rows without a pending one are all SYNCED.
All-synced :
    (rows : List TelemetryRow)
    → All Settled rows
    → backlog rows ≡ 0
    → All (λ r. is_synced r.sync_status ≡ true) rows
All-synced [] h e = tt
All-synced (r ∷ rows) h e = elim (Bool-cases (is_pending r.sync_status)) [
  | inl waits ↦
      absurd (omega (arith, e, backlog-cons r rows ∙ ap (λ b. plus_row b (backlog rows)) waits))
  | inr gone ↦ (
    settled_synced r.sync_status h.0 gone,
    All-synced rows h.1
        (omega (arith, e, backlog-cons r rows ∙ ap (λ b. plus_row b (backlog rows)) gone)),
  )
]

module _ (compress : List ℕ → List ℕ) where
  -- Cycles one after another.
  abbrev pub run_cycles : List Surroundings → CloudSyncWorker → CloudSyncWorker
  run_cycles [] w = w
  run_cycles (e ∷ es) w = run_cycles es (sync_cycle compress e w).1

  cycle_granted :
      (e : Surroundings) (w : CloudSyncWorker)
      → w.circuit_open_until ≤ e.now
      → triggered compress e.now w ≡ true
      → 0 < length (batch_of w)
      → All IsSmall (batch_of w)
      → e.answer ≡ accepted
      → (raw : List ℕ) × (sync_cycle compress e w ≡ (
        returned (length (batch_of w)),
        record w {
          table = mark (batch_of w) synced (mark (batch_of w) processing w.table ++ e.arrivals);
          bucket = w.bucket ++ compress raw ∷ [];
          consecutive_failures = 0;
          last_flush_time = e.later;
        },
      ))
  unfolding after_upload upload
  cycle_granted e w closed due some_rows small granted =
      let (raw, packed, read) = raw_buffer_roundtrip (batch_of w) small in
      let shipped = cycle-ships compress e w raw closed due some_rows packed in
      (raw, rw (shipped, granted) refl)

  -- By the time, where a row waits.
  due_by_time :
      (now : ℕ) (w : CloudSyncWorker)
      → w.last_flush_time + w.batch_time_threshold ≤ now
      → 0 < backlog w.table
      → triggered compress now w ≡ true
  unfolding triggered
  due_by_time now w late some_rows = ground arith

  cycle_idle :
      (e : Surroundings) (w : CloudSyncWorker)
      → 1 ≤ w.batch_size_threshold
      → backlog w.table ≡ 0
      → sync_cycle compress e w ≡ (returned 0, w)
  unfolding sync_cycle triggered
  cycle_idle e w some_size none =
      let not_due : triggered compress e.now w ≡ false = ground arith in
      elim (Bool-cases (ltb e.now w.circuit_open_until)) [
        | inl opened ↦ rw opened refl
        | inr closed ↦ rw (closed, not_due) refl
      ]

  run_idle :
      (es : List Surroundings) (w : CloudSyncWorker)
      → 1 ≤ w.batch_size_threshold
      → backlog w.table ≡ 0
      → run_cycles es w ≡ w
  run_idle [] w some_size none = refl
  run_idle (e ∷ es) w some_size none =
      ap (λ c. run_cycles es c.1) (cycle_idle e w some_size none) ∙ run_idle es w some_size none

  -- What the drain goes on from.
  record IsReady (w : CloudSyncWorker) : Type 0 where
    some_size : 1 ≤ w.batch_size_threshold
    settled : All Settled w.table
    small : All IsSmall w.table

  -- A cycle with a row to ship: the backlog shrinks, and the rest stays ready.
  record Ships (e : Surroundings) (w w' : CloudSyncWorker) : Type 0 where
    ready : IsReady w'
    less : backlog w'.table < backlog w.table
    period : w'.batch_time_threshold ≡ w.batch_time_threshold
    flushed : w'.last_flush_time ≡ e.later
    circuit : w'.circuit_open_until ≡ w.circuit_open_until

  cycle-Ships :
      (e : Surroundings) (w : CloudSyncWorker) (n : ℕ)
      → w.batch_size_threshold ≡ suc n
      → IsReady w
      → 0 < backlog w.table
      → w.last_flush_time + w.batch_time_threshold ≤ e.now
      → w.circuit_open_until ≤ e.now
      → e.answer ≡ accepted
      → e.arrivals ≡ []
      → Ships e w (sync_cycle compress e w).1
  cycle-Ships e w n size ready some_rows late closed granted quiet =
      let due = due_by_time e.now w late some_rows in
      let some_batch =
        subst (λ k. 0 < length (pick k w.table)) (sym size) (length-pick n w.table some_rows) in
      let small = pick-IsSmall w.batch_size_threshold w.table ready.small in
      let (raw, shipped) = cycle_granted e w closed due some_batch small granted in
      let acquired = mark (batch_of w) processing w.table in
      let less : backlog acquired < backlog w.table =
        subst (λ k. backlog (mark (pick k w.table) processing w.table) < backlog w.table) (sym size)
          (pick_less n processing w.table refl some_rows) in
      let table : (sync_cycle compress e w).1.table ≡ mark (batch_of w) synced acquired =
        ap (λ c. c.1.table) shipped
        ∙ ap (λ a. mark (batch_of w) synced (acquired ++ a)) quiet
        ∙ ap (mark (batch_of w) synced) (append-nil acquired) in
      let settled =
        cycle_settles compress e w (length (batch_of w)) ready.settled
          (subst (All Settled) (sym quiet) tt) (ap (λ c. c.0) shipped) in
      record {
        ready = record {
          some_size =
              subst (λ k. 1 ≤ k) (sym (ap (λ c. c.1.batch_size_threshold) shipped)) ready.some_size;
          settled = settled;
          small = subst (All IsSmall) (sym table) (
              mark-IsSmall (batch_of w) synced acquired
                (mark-IsSmall (batch_of w) processing w.table ready.small));
        };
        less =
            subst (λ t. backlog t < backlog w.table) (sym table)
              (omega (arith, less, mark_no_more (batch_of w) synced acquired refl));
        period = ap (λ c. c.1.batch_time_threshold) shipped;
        flushed = ap (λ c. c.1.last_flush_time) shipped;
        circuit = ap (λ c. c.1.circuit_open_until) shipped;
      }

  drains :
      (es : List Surroundings) (w : CloudSyncWorker)
      → IsReady w
      → Spaced w.batch_time_threshold w.last_flush_time w.circuit_open_until es
      → backlog w.table ≤ length es
      → All (λ r. is_synced r.sync_status ≡ true) (run_cycles es w).table
  drains [] w ready spaced long = All-synced w.table ready.settled (omega arith)
  drains (e ∷ es) w ready spaced long =
      let (late, closed, granted, quiet, rest) = spaced in
      let size : w.batch_size_threshold ≡ suc (w.batch_size_threshold - 1) =
        omega (arith, ready.some_size) in
      let w' = (sync_cycle compress e w).1 in
      elim (Bool-cases (ltb 0 (backlog w.table))) [
        | inl waits ↦
            let s =
              cycle-Ships e w (w.batch_size_threshold - 1) size ready (ground arith) late closed
                granted quiet in
            let spaced' =
              subst (λ p. Spaced p w'.last_flush_time w'.circuit_open_until es) (sym s.period)
                (subst (λ t. Spaced w.batch_time_threshold t w'.circuit_open_until es)
                  (sym s.flushed)
                  (subst (λ o. Spaced w.batch_time_threshold e.later o es) (sym s.circuit) rest)) in
            drains es w' s.ready spaced' (omega (arith, s.less))
        | inr empty ↦
            let none : backlog w.table ≡ 0 = ground arith in
            subst (λ x. All (λ r. is_synced r.sync_status ≡ true) x.table)
              (sym (run_idle (e ∷ es) w ready.some_size none))
              (All-synced w.table ready.settled none)
      ]

  -- As many cycles as rows are pending mark every row SYNCED, and further ones keep it so: with
  -- batches of at least one row, no row PROCESSING at the start, blobs under 4 GiB, each cycle
  -- starting when the batch time has passed since the one before, the circuit closed, each upload
  -- accepted, and no row coming meanwhile.
  pub cycles_drain :
      (es : List Surroundings) (w : CloudSyncWorker)
      → 1 ≤ w.batch_size_threshold
      → All Settled w.table
      → All IsSmall w.table
      → Spaced w.batch_time_threshold w.last_flush_time w.circuit_open_until es
      → backlog w.table ≤ length es
      → All (λ r. is_synced r.sync_status ≡ true) (run_cycles es w).table
  cycles_drain es w some_size settled small spaced long =
      drains es w (record { some_size = some_size; settled = settled; small = small }) spaced long
