-- ===== src/Cloud/Conductor/Produced.antt =====
-- Where the snapshots of Cloud/src/conductor_host.py come from, failed commits included.
use auto_robotic_arms.Base.{
  ℕ, subst, sym, Bool, true, false, List, [], ◌∷◌, ◌++◌, All, All-append, All-append_left,
  All-append_right,
}
use auto_robotic_arms.Floats.{Floats}
use auto_robotic_arms.Cloud.Conductor.{
  Snapshot, ConductorOrchestrator, next_batch, commit, collect, flush, Action, produces, flushes,
  stops, act, run,
}
use auto_robotic_arms.Cloud.Conductor.Pipeline.{taken_in, flush_by}
use auto_robotic_arms.Cloud.Conductor.Order.{IsProduced, Grows, act-Grows}

module _ (f : Floats) (serialize : f.Float → f.Float → f.Float → List ℕ) where
  abbrev Made : List Snapshot → Type 0
  Made = All (IsProduced f serialize)

  -- The database, the batch and the queue.
  pub record IsMade (s : ConductorOrchestrator) : Type 0 where
    pub database : Made s.database
    pub batch : Made s.batch
    pub queue : Made s.telemetry_queue

  next_batch-IsMade :
      (q : List Snapshot) (s : ConductorOrchestrator) → IsMade s → IsMade (next_batch q s)
  next_batch-IsMade [] s h = record { database = h.database; batch = h.batch; queue = h.queue }
  next_batch-IsMade (x ∷ q) s h = h

  commit-IsMade :
      (succeeds : Bool) (batch : List Snapshot) (s : ConductorOrchestrator)
      → Made batch
      → IsMade s
      → IsMade (commit succeeds batch s)
  commit-IsMade succeeds [] s b h = next_batch-IsMade s.telemetry_queue s h
  commit-IsMade true (x ∷ rest) s b h =
      next_batch-IsMade s.telemetry_queue
        (record s { database = s.database ++ x ∷ rest; batch = [] })
        (record {
          database = All-append (IsProduced f serialize) s.database (x ∷ rest) h.database b;
          batch = tt;
          queue = h.queue;
        })
  commit-IsMade false (x ∷ rest) s b h = record {
    database = h.database;
    batch = tt;
    queue = h.queue;
  }

  collect-IsMade :
      (succeeds : Bool) (q : List Snapshot) (s : ConductorOrchestrator)
      → Made q
      → IsMade s
      → IsMade (collect succeeds q s)
  collect-IsMade succeeds [] s made h = commit-IsMade succeeds s.batch s h.batch h
  collect-IsMade succeeds (x ∷ rest) s made h = record {
    database = h.database;
    batch = All-append (IsProduced f serialize) s.batch (x ∷ []) h.batch (made.0, tt);
    queue = made.1;
  }

  flush-IsMade :
      (succeeds : Bool) (s : ConductorOrchestrator) → IsMade s → IsMade (flush succeeds s)
  flush-IsMade succeeds s h =
      flush_by IsMade succeeds s (λ _ _. collect-IsMade succeeds s.telemetry_queue s h.queue h)
        (λ _ _. commit-IsMade succeeds s.batch s h.batch h) (λ _. h)

  taken_in-IsMade : (s : ConductorOrchestrator) → Made (taken_in s) → IsMade s
  taken_in-IsMade s h =
      let rest = All-append_right (IsProduced f serialize) s.database _ h in
      record {
        database = All-append_left (IsProduced f serialize) s.database _ h;
        batch = All-append_left (IsProduced f serialize) s.batch _ rest;
        queue = All-append_right (IsProduced f serialize) s.batch _ rest;
      }

  grown-IsMade : (s s' : ConductorOrchestrator) → Grows f serialize s s' → IsMade s → IsMade s'
  grown-IsMade s s' (new, e, made) h =
      let all =
        All-append (IsProduced f serialize) s.database (s.batch ++ s.telemetry_queue) h.database
          (All-append (IsProduced f serialize) s.batch s.telemetry_queue h.batch h.queue) in
      taken_in-IsMade s'
        (subst Made (sym e) (All-append (IsProduced f serialize) (taken_in s) new all made))

  pub act-IsMade :
      (a : Action) (s : ConductorOrchestrator) → IsMade s → IsMade (act f serialize a s)
  act-IsMade (produces now) s h =
      grown-IsMade s (act f serialize (produces now) s)
        (act-Grows f serialize (produces now) s (λ e. cc)) h
  act-IsMade (flushes succeeds) s h = unfold act in flush-IsMade succeeds s h
  act-IsMade stops s h =
      grown-IsMade s (act f serialize stops s) (act-Grows f serialize stops s (λ e. cc)) h

  pub run-IsMade :
      (actions : List Action) (s : ConductorOrchestrator)
      → IsMade s
      → IsMade (run f serialize actions s)
  unfolding run
  run-IsMade [] s h = h
  run-IsMade (a ∷ actions) s h = run-IsMade actions (act f serialize a s) (act-IsMade a s h)
