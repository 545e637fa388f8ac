-- ===== src/Edge/Store/Batches.antt =====
-- The way of the rows through the queue and the batches into the table.
use auto_robotic_arms.Base.{
  ◌≤◌, ◌<◌, ◌≡◌, refl, ap, sym, subst, ◌∙◌, Bool, true, false, List, [], ◌∷◌, ◌++◌, append_assoc,
  append-nil, Option, none, some, arith, ltb, if◌then◌else◌, length, All, All-append,
}
use auto_robotic_arms.Edge.Store.{
  TelemetryTuple, DatabaseManager, log_telemetry, clear_running, put_pill, Write, committed,
  loop_test, write_batch, first_item, next_item, batch_step, work, Action, logs, clears, pills,
  works, act, run,
}

-- The rows of a queue.
abbrev pub rows_of : List (Option TelemetryTuple) → List TelemetryTuple
rows_of [] = []
rows_of (none ∷ q) = rows_of q
rows_of (some row ∷ q) = row ∷ rows_of q

pub rows_of-append :
    (p q : List (Option TelemetryTuple)) → rows_of (p ++ q) ≡ rows_of p ++ rows_of q
rows_of-append [] q = refl
rows_of-append (none ∷ p) q = rows_of-append p q
rows_of-append (some row ∷ p) q = ap (λ t. row ∷ t) (rows_of-append p q)

-- Everything taken in: in the table, in the transaction, in the batch and in the queue.
abbrev pub taken_in : DatabaseManager → List TelemetryTuple
taken_in s = s.table ++ (s.uncommitted ++ (s.batch ++ rows_of s.queue))

loop_test-taken_in :
    (q : List (Option TelemetryTuple)) (s : DatabaseManager) → taken_in (loop_test q s) ≡ taken_in s
loop_test-taken_in [] s = refl
loop_test-taken_in (x ∷ q) s = refl

write_batch-taken_in : (s : DatabaseManager) → taken_in (write_batch committed s) ≡ taken_in s
write_batch-taken_in s =
    loop_test-taken_in s.queue
      (record s { table = s.table ++ (s.uncommitted ++ s.batch); uncommitted = []; batch = [] })
    ∙ append_assoc s.table (s.uncommitted ++ s.batch) (rows_of s.queue)
    ∙ ap (λ t. s.table ++ t) (append_assoc s.uncommitted s.batch (rows_of s.queue))

-- What a step of the worker may be, with what it then knows.
pub work_by {ℓ} :
    (P : DatabaseManager → Type ℓ) (w : Write) (s : DatabaseManager)
    → (s.working ≡ true → s.batch ≡ [] → P (first_item s.queue s))
    → (s.working ≡ true → 0 < length s.batch → length s.batch < 50 → P (next_item w s.queue s))
    → (s.working ≡ true → 50 ≤ length s.batch → P (write_batch w s))
    → (s.working ≡ false → P s)
    → P (work w s)
unfolding work
work_by P w s first next full ended = go s.working s.batch refl refl
  where
    full_or_not :
        (b : Bool)
        → s.working ≡ true
        → 0 < length s.batch
        → ltb (length s.batch) 50 ≡ b
        → P (if b then next_item w s.queue s else write_batch w s)
    full_or_not true on some_rows e = next on some_rows (ground (arith, e))
    full_or_not false on some_rows e = full on (ground (arith, e))

    go :
        (on : Bool) (batch : List TelemetryTuple)
        → s.working ≡ on
        → s.batch ≡ batch
        → P (if on then batch_step w batch s else s)
    go false batch eon eb = ended eon
    go true [] eon eb = first eon eb
    go true (b ∷ rest) eon eb = full_or_not (ltb (length s.batch) 50) eon (rw eb (omega arith)) refl

first_item-taken_in :
    (q : List (Option TelemetryTuple)) (s : DatabaseManager)
    → s.queue ≡ q
    → s.batch ≡ []
    → taken_in (first_item q s) ≡ taken_in s
first_item-taken_in [] s eq eb = loop_test-taken_in [] s
first_item-taken_in (none ∷ rest) s eq eb =
    ap (λ t. s.table ++ (s.uncommitted ++ (s.batch ++ rows_of t))) (sym eq)
first_item-taken_in (some row ∷ rest) s eq eb =
    λ i. s.table ++ (s.uncommitted ++ (sym eb i ++ rows_of (sym eq i)))

next_item-taken_in :
    (q : List (Option TelemetryTuple)) (s : DatabaseManager)
    → s.queue ≡ q
    → taken_in (next_item committed q s) ≡ taken_in s
next_item-taken_in [] s eq = write_batch-taken_in s
next_item-taken_in (none ∷ rest) s eq =
    write_batch-taken_in (record s { queue = rest; running = false })
    ∙ ap (λ t. s.table ++ (s.uncommitted ++ (s.batch ++ rows_of t))) (sym eq)
next_item-taken_in (some row ∷ rest) s eq =
    ap (λ t. s.table ++ (s.uncommitted ++ t)) (append_assoc s.batch (row ∷ []) (rows_of rest))
    ∙ ap (λ t. s.table ++ (s.uncommitted ++ (s.batch ++ rows_of t))) (sym eq)

pub work-taken_in : (s : DatabaseManager) → taken_in (work committed s) ≡ taken_in s
work-taken_in s =
    work_by (λ t. taken_in t ≡ taken_in s) committed s
      (λ _ eb. first_item-taken_in s.queue s refl eb) (λ _ _ _. next_item-taken_in s.queue s refl)
      (λ _ _. write_batch-taken_in s) (λ _. refl)

-- The action fails no write, and logs only rows with `P`.
abbrev pub Fine {ℓ} : (TelemetryTuple → Type ℓ) → Action → Type ℓ
Fine P (logs row) = P row
Fine P (works w) = (w ≡ committed) × Unit
Fine P clears = Unit
Fine P pills = Unit

module _ {ℓ} (P : TelemetryTuple → Type ℓ) where
  abbrev Grows : DatabaseManager → DatabaseManager → Type ℓ
  Grows s s' = (new : List TelemetryTuple) × (taken_in s' ≡ taken_in s ++ new) × All P new

  Grows-same : (s s' : DatabaseManager) → taken_in s' ≡ taken_in s → Grows s s'
  Grows-same s s' e = ([], e ∙ sym (append-nil (taken_in s)), tt)

  queued-taken_in :
      (s : DatabaseManager) (item : List (Option TelemetryTuple))
      → taken_in (record s { queue = s.queue ++ item }) ≡ taken_in s ++ rows_of item
  queued-taken_in s item =
      ap (λ t. s.table ++ (s.uncommitted ++ (s.batch ++ t))) (rows_of-append s.queue item)
      ∙ ap (λ t. s.table ++ (s.uncommitted ++ t))
          (sym (append_assoc s.batch (rows_of s.queue) (rows_of item)))
      ∙ ap (λ t. s.table ++ t)
          (sym (append_assoc s.uncommitted (s.batch ++ rows_of s.queue) (rows_of item)))
      ∙ sym (append_assoc s.table (s.uncommitted ++ (s.batch ++ rows_of s.queue)) (rows_of item))

  queued-Grows :
      (room : Bool) (s : DatabaseManager) (item : List (Option TelemetryTuple))
      → All P (rows_of item)
      → Grows s (if room then record s { queue = s.queue ++ item } else s)
  queued-Grows true s item h = (rows_of item, queued-taken_in s item, h)
  queued-Grows false s item h = Grows-same s s refl

  act-Grows : (a : Action) (s : DatabaseManager) → Fine P a → Grows s (act a s)
  unfolding act log_telemetry clear_running put_pill
  act-Grows (logs row) s h = queued-Grows _ s (some row ∷ []) (h, tt)
  act-Grows clears s h = Grows-same s (record s { running = false }) refl
  act-Grows pills s h = queued-Grows _ s (none ∷ []) tt
  act-Grows (works w) s h =
      subst (λ w. Grows s (work w s)) (sym (h.0))
        (Grows-same s (work committed s) (work-taken_in s))

  -- While no write raises, no row that was taken in is lost, repeated or reordered, in whatever
  -- order callers and worker act: table, transaction, batch and queue together hold the rows of
  -- before, with rows that were logged behind them.
  pub store_keeps :
      (actions : List Action) (s : DatabaseManager)
      → All (Fine P) actions
      → (new : List TelemetryTuple) × (taken_in (run actions s) ≡ taken_in s ++ new) × All P new
  unfolding run
  store_keeps [] s fine = Grows-same s s refl
  store_keeps (a ∷ actions) s fine =
      let (new, e, holds) = act-Grows a s fine.0 in
      let (more, e', holds') = store_keeps actions (act a s) fine.1 in
      (
        new ++ more,
        e' ∙ ap (λ t. t ++ more) e ∙ append_assoc (taken_in s) new more,
        All-append P new more holds holds',
      )
