-- ===== src/Edge/Store/Shutdown.antt =====
-- The end of the worker after `shutdown`.
use auto_robotic_arms.Base.{
  ℕ, zero, suc, ◌+◌, ◌*◌, ◌≤◌, ◌<◌, ◌≡◌, refl, ap, sym, subst, ◌∙◌, ◌⊎◌, inl, inr, true, false,
  List, [], ◌∷◌, ◌++◌, append_assoc, append-nil, Option, none, some, arith, length,
}
use auto_robotic_arms.Edge.Store.{
  TelemetryTuple, DatabaseManager, committed, loop_test, write_batch, first_item, next_item, work,
}
use auto_robotic_arms.Edge.Store.Batches.{taken_in, rows_of, work_by}

-- `n` steps of the worker whose writes succeed.
unfoldable pub work_steps : ℕ → DatabaseManager → DatabaseManager
work_steps zero s = s
work_steps (suc n) s = work_steps n (work committed s)

-- The pill stands nowhere but at the end.
abbrev pub IsClosing : List (Option TelemetryTuple) → Type 0
IsClosing [] = Unit
IsClosing (none ∷ q) = q ≡ []
IsClosing (some row ∷ q) = IsClosing q

abbrev busy : List TelemetryTuple → ℕ
busy [] = 0
busy (b ∷ rest) = 1

busy-le : (batch : List TelemetryTuple) → busy batch ≤ 1
busy-le [] = omega arith
busy-le (b ∷ rest) = omega arith

busy-some : (batch : List TelemetryTuple) → 0 < length batch → busy batch ≡ 1
busy-some [] h = absurd (omega arith)
busy-some (b ∷ rest) h = refl

-- The worker was told to stop, and has `k` steps to go at most, or it has ended with all stored.
record Closing (target : List TelemetryTuple) (k : ℕ) (s : DatabaseManager) : Type 0 where
  on : s.working ≡ true
  told : s.running ≡ false
  clean : s.uncommitted ≡ []
  whole : taken_in s ≡ target
  closing : IsClosing s.queue
  left : 2 * length s.queue + busy s.batch + 1 ≤ k

abbrev Closed : List TelemetryTuple → DatabaseManager → Type 0
Closed target s = (s.working ≡ false) × (s.table ≡ target)

abbrev Progress : List TelemetryTuple → ℕ → DatabaseManager → Type 0
Progress target k s = Closed target s ⊎ Closing target k s

-- With nothing but the table left, all is in the table.
all_stored :
    (s : DatabaseManager) (q : List (Option TelemetryTuple))
    → s.uncommitted ≡ []
    → s.batch ≡ []
    → rows_of q ≡ []
    → s.table ++ (s.uncommitted ++ (s.batch ++ rows_of q)) ≡ s.table
all_stored s q eu eb eq = ap (λ t. s.table ++ t) (λ i. eu i ++ (eb i ++ eq i)) ∙ append-nil s.table

loop_test-Progress :
    (target : List TelemetryTuple) (k : ℕ) (q : List (Option TelemetryTuple)) (s : DatabaseManager)
    → s.queue ≡ q
    → s.batch ≡ []
    → s.working ≡ true
    → s.running ≡ false
    → s.uncommitted ≡ []
    → taken_in s ≡ target
    → IsClosing q
    → (q ≡ []) ⊎ (2 * length q + 1 ≤ k)
    → Progress target k (loop_test q s)
loop_test-Progress target k [] s eq eb on told clean whole closing left = inl (
  rw told refl,
  sym (all_stored s [] clean eb refl)
      ∙ ap (λ t. s.table ++ (s.uncommitted ++ (s.batch ++ rows_of t))) (sym eq)
      ∙ whole,
)
loop_test-Progress target k (x ∷ q) s eq eb on told clean whole closing (inl h) = absurd (cc (h))
loop_test-Progress target k (x ∷ q) s eq eb on told clean whole closing (inr left) = inr (record {
  on = on;
  told = told;
  clean = clean;
  whole = whole;
  closing = subst IsClosing (sym eq) closing;
  left = rw (eq, eb) (omega (arith, left));
})

write_batch-Progress :
    (target : List TelemetryTuple) (k : ℕ) (s : DatabaseManager)
    → s.working ≡ true
    → s.running ≡ false
    → taken_in s ≡ target
    → IsClosing s.queue
    → 2 * length s.queue + 1 ≤ k
    → Progress target k (write_batch committed s)
write_batch-Progress target k s on told whole closing left =
    loop_test-Progress target k s.queue
      (record s { table = s.table ++ (s.uncommitted ++ s.batch); uncommitted = []; batch = [] })
      refl refl on told refl
      (append_assoc s.table (s.uncommitted ++ s.batch) (rows_of s.queue)
        ∙ ap (λ t. s.table ++ t) (append_assoc s.uncommitted s.batch (rows_of s.queue))
        ∙ whole)
      closing (inr left)

first_item-Progress :
    (target : List TelemetryTuple) (k : ℕ) (q : List (Option TelemetryTuple)) (s : DatabaseManager)
    → s.queue ≡ q
    → s.batch ≡ []
    → Closing target (k + 1) s
    → Progress target k (first_item q s)
first_item-Progress target k [] s eq eb c =
    loop_test-Progress target k [] s eq eb c.on c.told c.clean c.whole tt (inl refl)
first_item-Progress target k (none ∷ rest) s eq eb c =
    let alone : rest ≡ [] = subst IsClosing eq c.closing in
    inl (
      refl,
      sym (all_stored s rest c.clean eb (ap rows_of alone))
          ∙ ap (λ t. s.table ++ (s.uncommitted ++ (s.batch ++ rows_of t))) (sym eq)
          ∙ c.whole,
    )
first_item-Progress target k (some row ∷ rest) s eq eb c =
    let longer : 2 * length s.queue ≡ 2 * length rest + 2 = rw eq (omega arith) in
    inr (record {
      on = c.on;
      told = c.told;
      clean = c.clean;
      whole = (λ i. s.table ++ (s.uncommitted ++ (sym eb i ++ rows_of (sym eq i)))) ∙ c.whole;
      closing = subst IsClosing eq c.closing;
      left = omega (arith, c.left, longer);
    })

next_item-Progress :
    (target : List TelemetryTuple) (k : ℕ) (q : List (Option TelemetryTuple)) (s : DatabaseManager)
    → s.queue ≡ q
    → 0 < length s.batch
    → Closing target (k + 1) s
    → Progress target k (next_item committed q s)
next_item-Progress target k [] s eq some_rows c =
    write_batch-Progress target k s c.on c.told c.whole c.closing
      (omega (arith, c.left, busy-some s.batch some_rows))
next_item-Progress target k (none ∷ rest) s eq some_rows c =
    let alone : rest ≡ [] = subst IsClosing eq c.closing in
    let shorter : length s.queue ≡ length rest + 1 = rw eq (omega arith) in
    write_batch-Progress target k (record s { queue = rest; running = false }) c.on refl
      (ap (λ t. s.table ++ (s.uncommitted ++ (s.batch ++ rows_of t))) (sym eq) ∙ c.whole)
      (subst IsClosing (sym alone) tt) (omega (arith, c.left, shorter))
next_item-Progress target k (some row ∷ rest) s eq some_rows c =
    let longer : 2 * length s.queue ≡ 2 * length rest + 2 = rw eq (omega arith) in
    inr (record {
      on = c.on;
      told = c.told;
      clean = c.clean;
      whole =
          ap (λ t. s.table ++ (s.uncommitted ++ t)) (append_assoc s.batch (row ∷ []) (rows_of rest))
          ∙ ap (λ t. s.table ++ (s.uncommitted ++ (s.batch ++ rows_of t))) (sym eq)
          ∙ c.whole;
      closing = subst IsClosing eq c.closing;
      left = omega (arith, c.left, longer, busy-le (s.batch ++ row ∷ []));
    })

work-Progress :
    (target : List TelemetryTuple) (k : ℕ) (s : DatabaseManager)
    → Progress target (k + 1) s
    → Progress target k (work committed s)
work-Progress target k s (inl closed) =
    work_by (Progress target k) committed s (λ on _. absurd (cc (on, closed.0)))
      (λ on _ _. absurd (cc (on, closed.0))) (λ on _. absurd (cc (on, closed.0))) (λ _. inl closed)
work-Progress target k s (inr c) =
    work_by (Progress target k) committed s
      (λ _ eb. first_item-Progress target k s.queue s refl eb c)
      (λ _ some_rows _. next_item-Progress target k s.queue s refl some_rows c)
      (λ _ full.
        write_batch-Progress target k s c.on c.told c.whole c.closing
          (omega (arith, c.left, busy-some s.batch (omega arith))))
      (λ off. absurd (cc (off, c.on)))

work_steps-Closed :
    (target : List TelemetryTuple) (k : ℕ) (s : DatabaseManager)
    → Progress target k s
    → Closed target (work_steps k s)
unfolding work_steps
work_steps-Closed target zero s (inl closed) = closed
work_steps-Closed target zero s (inr c) = absurd (omega (arith, c.left))
work_steps-Closed target (suc k) s p =
    let more : Progress target (k + 1) s = subst (λ j. Progress target j s) (omega arith) p in
    work_steps-Closed target k (work committed s) (work-Progress target k s more)

-- After `shutdown`, with the pill last in the queue or already taken, no row left over from a
-- failed write, and writes that succeed: the worker ends, after two steps for every item of the
-- queue and two more at most, and every row that was taken in is in the table, in order.
pub shutdown_drains :
    (n : ℕ) (s : DatabaseManager)
    → s.working ≡ true
    → s.running ≡ false
    → s.uncommitted ≡ []
    → IsClosing s.queue
    → 2 * length s.queue + 2 ≤ n
    → ((work_steps n s).working ≡ false) × ((work_steps n s).table ≡ taken_in s)
shutdown_drains n s on told clean closing enough = work_steps-Closed (taken_in s) n s (
    inr (record {
      on = on;
      told = told;
      clean = clean;
      whole = refl;
      closing = closing;
      left = omega (arith, busy-le s.batch);
    }))
