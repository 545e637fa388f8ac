-- ===== src/Cloud/Conductor/Drain.antt =====
-- The end of the flusher after `stop`.
use auto_robotic_arms.Base.{
  ℕ, zero, suc, ◌+◌, ◌*◌, ◌≤◌, ◌<◌, ◌≡◌, refl, ap, sym, subst, ◌∙◌, ◌⊎◌, inl, inr, true, false,
  List, [], ◌∷◌, ◌++◌, append_assoc, append-nil, arith, length,
}
use auto_robotic_arms.Cloud.Conductor.{
  Snapshot, ConductorOrchestrator, next_batch, commit, collect, flush,
}
use auto_robotic_arms.Cloud.Conductor.Pipeline.{taken_in, flush_by}

-- `n` steps of the flusher whose commits succeed.
unfoldable pub flush_steps : ℕ → ConductorOrchestrator → ConductorOrchestrator
flush_steps zero s = s
flush_steps (suc n) s = flush_steps n (flush true s)

abbrev busy : List Snapshot → ℕ
busy [] = 0
busy (b ∷ rest) = 1

-- The flusher was told to stop, and has `k` steps to go at most, or it has ended with all stored.
record Running (target : List Snapshot) (k : ℕ) (s : ConductorOrchestrator) : Type 0 where
  on : s.flushing ≡ true
  told : s.shutdown_event ≡ true
  whole : taken_in s ≡ target
  left : 2 * length s.telemetry_queue + busy s.batch + 1 ≤ k

abbrev Ended : List Snapshot → ConductorOrchestrator → Type 0
Ended target s = (s.flushing ≡ false) × (s.database ≡ target)

abbrev Progress : List Snapshot → ℕ → ConductorOrchestrator → Type 0
Progress target k s = Ended target s ⊎ Running target k s

next_batch-Progress :
    (target : List Snapshot) (k : ℕ) (q : List Snapshot) (s : ConductorOrchestrator)
    → s.telemetry_queue ≡ q
    → s.batch ≡ []
    → s.flushing ≡ true
    → s.shutdown_event ≡ true
    → taken_in s ≡ target
    → (q ≡ []) ⊎ (2 * length q + 1 ≤ k)
    → Progress target k (next_batch q s)
next_batch-Progress target k [] s eq eb on told whole left = inl (
  rw told refl,
  sym (append-nil s.database) ∙ ap (λ t. s.database ++ t) (sym (λ i. eb i ++ eq i)) ∙ whole,
)
next_batch-Progress target k (x ∷ q) s eq eb on told whole (inl none_left) = absurd (cc (none_left))
next_batch-Progress target k (x ∷ q) s eq eb on told whole (inr left) =
    inr (record { on = on; told = told; whole = whole; left = rw (eq, eb) (omega (arith, left)) })

commit-Progress :
    (target : List Snapshot) (k : ℕ) (batch : List Snapshot) (s : ConductorOrchestrator)
    → s.batch ≡ batch
    → Running target (k + 1) s
    → (0 < length batch) ⊎ (s.telemetry_queue ≡ [])
    → Progress target k (commit true batch s)
commit-Progress target k [] s e r (inl h) = absurd (omega arith)
commit-Progress target k [] s e r (inr h) =
    next_batch-Progress target k s.telemetry_queue s refl e r.on r.told r.whole (inl h)
commit-Progress target k (b ∷ rest) s e r h =
    let one : busy s.batch ≡ 1 = rw e refl in
    next_batch-Progress target k s.telemetry_queue
      (record s { database = s.database ++ b ∷ rest; batch = [] }) refl refl r.on r.told
      (append_assoc s.database (b ∷ rest) s.telemetry_queue
        ∙ ap (λ t. s.database ++ (t ++ s.telemetry_queue)) (sym e)
        ∙ r.whole)
      (inr (omega (arith, r.left, one)))

busy-le : (batch : List Snapshot) → busy batch ≤ 1
busy-le [] = omega arith
busy-le (b ∷ rest) = omega arith

collect-Progress :
    (target : List Snapshot) (k : ℕ) (q : List Snapshot) (s : ConductorOrchestrator)
    → s.telemetry_queue ≡ q
    → Running target (k + 1) s
    → Progress target k (collect true q s)
collect-Progress target k [] s e r = commit-Progress target k s.batch s refl r (inr e)
collect-Progress target k (x ∷ rest) s e r =
    let longer : 2 * length s.telemetry_queue ≡ 2 * length rest + 2 = rw e (omega arith) in
    inr (record {
      on = r.on;
      told = r.told;
      whole =
          ap (λ t. s.database ++ t) (append_assoc s.batch (x ∷ []) rest)
          ∙ ap (λ t. s.database ++ (s.batch ++ t)) (sym e)
          ∙ r.whole;
      left = omega (arith, r.left, longer, busy-le (s.batch ++ x ∷ []));
    })

flush-Progress :
    (target : List Snapshot) (k : ℕ) (s : ConductorOrchestrator)
    → Progress target (k + 1) s
    → Progress target k (flush true s)
flush-Progress target k s (inl ended) =
    flush_by (Progress target k) true s (λ on _. absurd (cc (on, ended.0)))
      (λ on _. absurd (cc (on, ended.0))) (λ _. inl ended)
flush-Progress target k s (inr r) =
    flush_by (Progress target k) true s
      (λ _ _. collect-Progress target k s.telemetry_queue s refl r)
      (λ _ full. commit-Progress target k s.batch s refl r (inl (omega arith)))
      (λ off. absurd (cc (off, r.on)))

flush_steps-Ended :
    (target : List Snapshot) (k : ℕ) (s : ConductorOrchestrator)
    → Progress target k s
    → Ended target (flush_steps k s)
unfolding flush_steps
flush_steps-Ended target zero s (inl ended) = ended
flush_steps-Ended target zero s (inr r) = absurd (omega (arith, r.left))
flush_steps-Ended target (suc k) s p =
    let more : Progress target (k + 1) s = subst (λ j. Progress target j s) (omega arith) p in
    flush_steps-Ended target k (flush true s) (flush-Progress target k s more)

-- Once it is told to stop, and while commits succeed, the flusher ends, after two steps for every
-- snapshot of the queue and two more at most, and everything that was taken in is in the database,
-- in order.
pub stop_drains :
    (n : ℕ) (s : ConductorOrchestrator)
    → s.flushing ≡ true
    → s.shutdown_event ≡ true
    → 2 * length s.telemetry_queue + 2 ≤ n
    → ((flush_steps n s).flushing ≡ false) × ((flush_steps n s).database ≡ taken_in s)
stop_drains n s on told enough =
    flush_steps-Ended (taken_in s) n s
      (inr (record { on = on; told = told; whole = refl; left = omega (arith, busy-le s.batch) }))
