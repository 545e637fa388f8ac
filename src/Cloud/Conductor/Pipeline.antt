-- ===== src/Cloud/Conductor/Pipeline.antt =====
-- The way of the snapshots through the queue and the batch into the database.
use auto_robotic_arms.Base.{
  ◌≤◌, ◌<◌, ◌≡◌, refl, ap, sym, ◌∙◌, ◌⊎◌, Bool, true, false, List, [], ◌∷◌, ◌++◌, append_assoc,
  arith, ltb, if◌then◌else◌, length, length-append,
}
use auto_robotic_arms.Cloud.Conductor.{
  Snapshot, ConductorOrchestrator, put_nowait, next_batch, commit, collect, flush,
}

-- Everything taken in: committed, in the batch, and in the queue, oldest first.
abbrev pub taken_in : ConductorOrchestrator → List Snapshot
taken_in s = s.database ++ (s.batch ++ s.telemetry_queue)

-- The bounds of the queue and of the batch.
pub record IsBounded (s : ConductorOrchestrator) : Type 0 where
  pub queue : length s.telemetry_queue ≤ 100
  pub batch : length s.batch ≤ 10

next_batch-taken_in :
    (q : List Snapshot) (s : ConductorOrchestrator) → taken_in (next_batch q s) ≡ taken_in s
next_batch-taken_in [] s = refl
next_batch-taken_in (x ∷ q) s = refl

pub commit-taken_in :
    (batch : List Snapshot) (s : ConductorOrchestrator)
    → s.batch ≡ batch
    → taken_in (commit true batch s) ≡ taken_in s
commit-taken_in [] s e = next_batch-taken_in s.telemetry_queue s
commit-taken_in (b ∷ rest) s e =
    next_batch-taken_in s.telemetry_queue
      (record s { database = s.database ++ b ∷ rest; batch = [] })
    ∙ append_assoc s.database (b ∷ rest) s.telemetry_queue
    ∙ ap (λ t. s.database ++ (t ++ s.telemetry_queue)) (sym e)

pub collect-taken_in :
    (q : List Snapshot) (s : ConductorOrchestrator)
    → s.telemetry_queue ≡ q
    → taken_in (collect true q s) ≡ taken_in s
collect-taken_in [] s e = commit-taken_in s.batch s refl
collect-taken_in (x ∷ rest) s e =
    ap (λ t. s.database ++ t) (append_assoc s.batch (x ∷ []) rest)
    ∙ ap (λ t. s.database ++ (s.batch ++ t)) (sym e)

three_ways {ℓ} :
    (P : ConductorOrchestrator → Type ℓ) (on room : Bool)
    (collected committed s : ConductorOrchestrator)
    → (on ≡ true → room ≡ true → P collected)
    → (on ≡ true → room ≡ false → P committed)
    → (on ≡ false → P s)
    → P (if on then (if room then collected else committed) else s)
three_ways P true true collected committed s a b c = a refl refl
three_ways P true false collected committed s a b c = b refl refl
three_ways P false room collected committed s a b c = c refl

-- A step of the flusher collects, commits, or is none.
pub flush_by {ℓ} :
    (P : ConductorOrchestrator → Type ℓ) (succeeds : Bool) (s : ConductorOrchestrator)
    → (s.flushing ≡ true → length s.batch < 10 → P (collect succeeds s.telemetry_queue s))
    → (s.flushing ≡ true → 10 ≤ length s.batch → P (commit succeeds s.batch s))
    → (s.flushing ≡ false → P s)
    → P (flush succeeds s)
unfolding flush
flush_by P succeeds s a b c =
    three_ways P s.flushing (ltb (length s.batch) 10) (collect succeeds s.telemetry_queue s)
      (commit succeeds s.batch s) s (λ on room. a on (ground arith))
      (λ on full. b on (ground arith)) c

-- A step of the flusher whose commit, if it makes one, succeeds neither loses nor reorders.
pub flush-taken_in : (s : ConductorOrchestrator) → taken_in (flush true s) ≡ taken_in s
flush-taken_in s =
    flush_by (λ t. taken_in t ≡ taken_in s) true s
      (λ _ _. collect-taken_in s.telemetry_queue s refl) (λ _ _. commit-taken_in s.batch s refl)
      (λ _. refl)

next_batch-IsBounded :
    (q : List Snapshot) (s : ConductorOrchestrator) → IsBounded s → IsBounded (next_batch q s)
next_batch-IsBounded [] s h = record { queue = h.queue; batch = h.batch }
next_batch-IsBounded (x ∷ q) s h = h

commit-IsBounded :
    (succeeds : Bool) (batch : List Snapshot) (s : ConductorOrchestrator)
    → IsBounded s
    → IsBounded (commit succeeds batch s)
commit-IsBounded succeeds [] s h = next_batch-IsBounded s.telemetry_queue s h
commit-IsBounded true (b ∷ rest) s h =
    next_batch-IsBounded s.telemetry_queue
      (record s { database = s.database ++ b ∷ rest; batch = [] })
      (record { queue = h.queue; batch = omega arith })
commit-IsBounded false (b ∷ rest) s h = record { queue = h.queue; batch = omega arith }

collect-IsBounded :
    (succeeds : Bool) (q : List Snapshot) (s : ConductorOrchestrator)
    → length q ≤ 100
    → length s.batch < 10
    → IsBounded s
    → IsBounded (collect succeeds q s)
collect-IsBounded succeeds [] s hq room h = commit-IsBounded succeeds s.batch s h
collect-IsBounded succeeds (x ∷ rest) s hq room h = record {
  queue = omega (arith, hq);
  batch = omega (arith, length-append {0} s.batch (x ∷ []));
}

pub flush-IsBounded :
    (succeeds : Bool) (s : ConductorOrchestrator) → IsBounded s → IsBounded (flush succeeds s)
flush-IsBounded succeeds s h =
    flush_by IsBounded succeeds s
      (λ _ room. collect-IsBounded succeeds s.telemetry_queue s h.queue room h)
      (λ _ _. commit-IsBounded succeeds s.batch s h) (λ _. h)

pub length-put_nowait :
    (x : Snapshot) (q : List Snapshot) → length q ≤ 100 → length (put_nowait x q) ≤ 100
unfolding put_nowait
length-put_nowait x q h = ground (arith, length-append {0} q (x ∷ []))

pub put_nowait-cases :
    (x : Snapshot) (q : List Snapshot) → (put_nowait x q ≡ q) ⊎ (put_nowait x q ≡ q ++ x ∷ [])
unfolding put_nowait
put_nowait-cases x q = ground arith
