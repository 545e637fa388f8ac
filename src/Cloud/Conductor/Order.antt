-- ===== src/Cloud/Conductor/Order.antt =====
-- What any order of the steps of the threads keeps.
use auto_robotic_arms.Base.{
  ℕ, ◌+◌, ◌≡◌, ◌≢◌, refl, ap, sym, ◌∙◌, ◌⊎◌, inl, inr, Bool, true, false, List, [], ◌∷◌, ◌++◌,
  append_assoc, append-nil, if◌then◌else◌, All, All-append,
}
use auto_robotic_arms.Floats.{Floats}
use auto_robotic_arms.Cloud.Conductor.{
  Snapshot, ConductorOrchestrator, put_nowait, produce, snapshot_at, flush, stop, Action, produces,
  flushes, stops, act, run,
}
use auto_robotic_arms.Cloud.Conductor.Pipeline.{
  taken_in, IsBounded, flush-taken_in, flush-IsBounded, length-put_nowait, put_nowait-cases,
}

module _ (f : Floats) (serialize : f.Float → f.Float → f.Float → List ℕ) where
  -- A snapshot that the producer makes.
  abbrev pub IsProduced : Snapshot → Type 0
  IsProduced x = (now : ℕ) × (step : ℕ) × (x ≡ snapshot_at f serialize now step)

  -- The action does not fail a commit.
  abbrev pub Succeeds : Action → Type 0
  Succeeds a = a ≢ flushes false

  abbrev pub Grows : ConductorOrchestrator → ConductorOrchestrator → Type 0
  Grows s s' = (new : List Snapshot) × (taken_in s' ≡ taken_in s ++ new) × All IsProduced new

  Grows-same : (s s' : ConductorOrchestrator) → taken_in s' ≡ taken_in s → Grows s s'
  Grows-same s s' e = ([], e ∙ sym (append-nil (taken_in s)), tt)

  -- The queue with a snapshot put, or without.
  put-Grows :
      (now : ℕ) (s : ConductorOrchestrator) (q : List Snapshot)
      → let x = snapshot_at f serialize now s.simulated_step in
        ((q ≡ s.telemetry_queue) ⊎ (q ≡ s.telemetry_queue ++ x ∷ []))
        → Grows s (record s { simulated_step = s.simulated_step + 1; telemetry_queue = q })
  put-Grows now s q (inl e) =
      Grows-same s (record s { simulated_step = s.simulated_step + 1; telemetry_queue = q })
        (ap (λ t. s.database ++ (s.batch ++ t)) e)
  put-Grows now s q (inr e) =
      let x = snapshot_at f serialize now s.simulated_step in
      (
        x ∷ [],
        ap (λ t. s.database ++ (s.batch ++ t)) e
            ∙ ap (λ t. s.database ++ t) (sym (append_assoc s.batch s.telemetry_queue (x ∷ [])))
            ∙ sym (append_assoc s.database (s.batch ++ s.telemetry_queue) (x ∷ [])),
        ((now, s.simulated_step, refl), tt),
      )

  two_tests {ℓ} :
      (P : ConductorOrchestrator → Type ℓ) (off valid : Bool) (a b c : ConductorOrchestrator)
      → P a
      → P b
      → P c
      → P (if off then a else if valid then b else c)
  two_tests P true valid a b c ha hb hc = ha
  two_tests P false true a b c ha hb hc = hb
  two_tests P false false a b c ha hb hc = hc

  produce_by {ℓ} :
      (P : ConductorOrchestrator → Type ℓ) (now : ℕ) (s : ConductorOrchestrator)
      → P s
      → P (record s {
        simulated_step = s.simulated_step + 1;
        telemetry_queue =
            put_nowait (snapshot_at f serialize now s.simulated_step) s.telemetry_queue;
      })
      → P (record s { simulated_step = s.simulated_step + 1 })
      → P (produce f serialize now s)
  unfolding produce
  produce_by P now s = two_tests P s.shutdown_event _ s _ _

  pub act-Grows :
      (a : Action) (s : ConductorOrchestrator) → Succeeds a → Grows s (act f serialize a s)
  unfolding act stop
  act-Grows (produces now) s fine =
      produce_by (Grows s) now s (Grows-same s s refl)
        (put-Grows now s _
          (put_nowait-cases (snapshot_at f serialize now s.simulated_step) s.telemetry_queue))
        (Grows-same s (record s { simulated_step = s.simulated_step + 1 }) refl)
  act-Grows (flushes true) s fine = Grows-same s (flush true s) (flush-taken_in s)
  act-Grows (flushes false) s fine = absurd (fine refl)
  act-Grows stops s fine = Grows-same s (record s { shutdown_event = true }) refl

  -- While no commit fails, nothing that was taken in is lost, repeated or reordered, in whatever
  -- order the threads act: the rows of the database, the batch and the queue together are those of
  -- before, with snapshots of the producer behind them.
  pub run_keeps :
      (actions : List Action) (s : ConductorOrchestrator)
      → All Succeeds actions
      → (new : List Snapshot) × (taken_in (run f serialize actions s) ≡ taken_in s ++ new)
        × All IsProduced new
  unfolding run
  run_keeps [] s fine = Grows-same s s refl
  run_keeps (a ∷ actions) s fine =
      let (new, e, made) = act-Grows a s fine.0 in
      let (more, e', made') = run_keeps actions (act f serialize a s) fine.1 in
      (
        new ++ more,
        e' ∙ ap (λ t. t ++ more) e ∙ append_assoc (taken_in s) new more,
        All-append IsProduced new more made made',
      )

  pub act-IsBounded :
      (a : Action) (s : ConductorOrchestrator) → IsBounded s → IsBounded (act f serialize a s)
  unfolding act stop
  act-IsBounded (produces now) s h =
      produce_by IsBounded now s h
        (record {
          queue =
              length-put_nowait (snapshot_at f serialize now s.simulated_step) s.telemetry_queue
                h.queue;
          batch = h.batch;
        })
        (record { queue = h.queue; batch = h.batch })
  act-IsBounded (flushes succeeds) s h = flush-IsBounded succeeds s h
  act-IsBounded stops s h = record { queue = h.queue; batch = h.batch }

  -- From a state within the bounds, in whatever order the threads act, failed commits included, the
  -- queue holds at most 100
  -- snapshots and a batch at most 10.
  pub run-IsBounded :
      (actions : List Action) (s : ConductorOrchestrator)
      → IsBounded s
      → IsBounded (run f serialize actions s)
  unfolding run
  run-IsBounded [] s h = h
  run-IsBounded (a ∷ actions) s h =
      run-IsBounded actions (act f serialize a s) (act-IsBounded a s h)
