-- ===== src/Cloud/Conductor/Accounts.antt =====
-- Where the snapshots of Cloud/src/conductor_host.py are: in the database, in a batch that a failed
-- commit has lost, in the batch, or in the queue.
use auto_robotic_arms.Base.{
  ◌≤◌, ◌≡◌, refl, ap, sym, subst, ◌∙◌, ◌⊎◌, inl, inr, Bool, true, false, List, [], ◌∷◌, ◌++◌,
  append-nil, length,
}
use auto_robotic_arms.Cloud.Conductor.{
  Snapshot, ConductorOrchestrator, next_batch, commit, collect, flush,
}
use auto_robotic_arms.Cloud.Conductor.Pipeline.{
  taken_in, flush_by, commit-taken_in, collect-taken_in,
}

-- The database of the later state begins with that of the earlier one.
abbrev pub Extends : ConductorOrchestrator → ConductorOrchestrator → Type 0
Extends c c' = (new : List Snapshot) × (c'.database ≡ c.database ++ new)

pub Extends-refl : (c c' : ConductorOrchestrator) → c'.database ≡ c.database → Extends c c'
Extends-refl c c' e = ([], e ∙ sym (append-nil c.database))

next_batch-database :
    (q : List Snapshot) (s : ConductorOrchestrator) → (next_batch q s).database ≡ s.database
next_batch-database [] s = refl
next_batch-database (x ∷ q) s = refl

commit-Extends :
    (succeeds : Bool) (batch : List Snapshot) (s : ConductorOrchestrator)
    → Extends s (commit succeeds batch s)
commit-Extends succeeds [] s =
    Extends-refl s (next_batch s.telemetry_queue s) (next_batch-database s.telemetry_queue s)
commit-Extends true (b ∷ rest) s = (
  b ∷ rest,
  next_batch-database s.telemetry_queue
      (record s { database = s.database ++ b ∷ rest; batch = [] }),
)
commit-Extends false (b ∷ rest) s = Extends-refl s (commit false (b ∷ rest) s) refl

collect-Extends :
    (succeeds : Bool) (q : List Snapshot) (s : ConductorOrchestrator)
    → Extends s (collect succeeds q s)
collect-Extends succeeds [] s = commit-Extends succeeds s.batch s
collect-Extends succeeds (x ∷ rest) s = Extends-refl s (collect succeeds (x ∷ rest) s) refl

pub flush-Extends : (succeeds : Bool) (s : ConductorOrchestrator) → Extends s (flush succeeds s)
flush-Extends succeeds s =
    flush_by (Extends s) succeeds s (λ _ _. collect-Extends succeeds s.telemetry_queue s)
      (λ _ _. commit-Extends succeeds s.batch s) (λ _. Extends-refl s s refl)

-- What has been kept is committed, lost, in the batch or in the queue, in this order; something is
-- lost only where the flusher has ended, and then one batch at most.
abbrev pub Accounts : List Snapshot → ConductorOrchestrator → Type 0
Accounts kept c =
    (lost : List Snapshot) × (kept ≡ c.database ++ (lost ++ (c.batch ++ c.telemetry_queue)))
    × ((lost ≡ []) ⊎ ((c.flushing ≡ false) × (length lost ≤ 10)))

all_there : (kept : List Snapshot) (c : ConductorOrchestrator) → kept ≡ taken_in c → Accounts kept c
all_there kept c e = ([], e, inl refl)

-- While the flusher runs nothing is lost.
none_lost :
    (kept : List Snapshot) (c : ConductorOrchestrator)
    → Accounts kept c
    → c.flushing ≡ true
    → kept ≡ taken_in c
none_lost kept c (lost, e, inl none) on =
    e ∙ ap (λ l. c.database ++ (l ++ (c.batch ++ c.telemetry_queue))) none
none_lost kept c (lost, e, inr (off, few)) on = absurd (cc)

-- A failed commit loses its batch.
failed-Accounts :
    (batch kept : List Snapshot) (s : ConductorOrchestrator)
    → s.batch ≡ batch
    → length s.batch ≤ 10
    → kept ≡ taken_in s
    → Accounts kept (commit false batch s)
failed-Accounts [] kept s e short all =
    all_there kept (commit true [] s) (all ∙ sym (commit-taken_in [] s e))
failed-Accounts (b ∷ rest) kept s e short all = (
  b ∷ rest,
  all ∙ ap (λ t. s.database ++ (t ++ s.telemetry_queue)) e,
  inr (refl, subst (λ t. length t ≤ 10) e short),
)

failed_collect-Accounts :
    (q kept : List Snapshot) (s : ConductorOrchestrator)
    → s.telemetry_queue ≡ q
    → length s.batch ≤ 10
    → kept ≡ taken_in s
    → Accounts kept (collect false q s)
failed_collect-Accounts [] kept s e short all = failed-Accounts s.batch kept s refl short all
failed_collect-Accounts (x ∷ rest) kept s e short all =
    all_there kept (collect true (x ∷ rest) s) (all ∙ sym (collect-taken_in (x ∷ rest) s e))

pub flush-Accounts :
    (succeeds : Bool) (kept : List Snapshot) (s : ConductorOrchestrator)
    → length s.batch ≤ 10
    → Accounts kept s
    → Accounts kept (flush succeeds s)
flush-Accounts true kept s short h =
    flush_by (Accounts kept) true s
      (λ on _.
        all_there kept (collect true s.telemetry_queue s)
          (none_lost kept s h on ∙ sym (collect-taken_in s.telemetry_queue s refl)))
      (λ on _.
        all_there kept (commit true s.batch s)
          (none_lost kept s h on ∙ sym (commit-taken_in s.batch s refl)))
      (λ _. h)
flush-Accounts false kept s short h =
    flush_by (Accounts kept) false s
      (λ on _. failed_collect-Accounts s.telemetry_queue kept s refl short (none_lost kept s h on))
      (λ on _. failed-Accounts s.batch kept s refl short (none_lost kept s h on)) (λ _. h)
