-- ===== src/Cloud/System/Accounts.antt =====
-- The snapshots that the steps of Cloud/src/conductor_host.py keep, and what they commit.
use auto_robotic_arms.Base.{
  ℕ, ◌≡◌, refl, ap, sym, subst, ◌∙◌, inl, inr, true, List, [], ◌∷◌, ◌++◌, append_assoc, append-nil,
  length, drop, arith,
}
use auto_robotic_arms.Floats.{Floats}
use auto_robotic_arms.Cloud.Conductor.{
  Snapshot, ConductorOrchestrator, put_nowait, produce, flush, stop, Action, produces, flushes,
  stops, act, run,
}
use auto_robotic_arms.Cloud.Conductor.Pipeline.{IsBounded}
use auto_robotic_arms.Cloud.Conductor.Order.{act-IsBounded}
use auto_robotic_arms.Cloud.Conductor.Accounts.{
  Extends, Extends-refl, flush-Extends, Accounts, flush-Accounts,
}
use auto_robotic_arms.Cloud.System.{kept_of, kept_of_all, inserted}

drop-length-append : {A : Type 0} (xs ys : List A) → drop (length xs) (xs ++ ys) ≡ ys
drop-length-append [] ys = refl
drop-length-append (x ∷ xs) ys = drop-length-append xs ys

pub inserted_lem :
    (c c' : ConductorOrchestrator) → Extends c c' → c'.database ≡ c.database ++ inserted c c'
inserted_lem c c' (new, e) =
    e
    ∙ ap (λ t. c.database ++ t)
        (sym (ap (λ d. drop (length c.database) d) e ∙ drop-length-append c.database new))

append_behind :
    (a b c d e : List Snapshot) → (a ++ (b ++ (c ++ d))) ++ e ≡ a ++ (b ++ (c ++ (d ++ e)))
append_behind a b c d e = simp append_assoc

module _ (f : Floats) (serialize : f.Float → f.Float → f.Float → List ℕ) where
  produce-queue :
      (now : ℕ) (s : ConductorOrchestrator)
      → (produce f serialize now s).telemetry_queue
        ≡ s.telemetry_queue ++ kept_of f serialize (produces now) s
  unfolding produce kept_of put_nowait
  produce-queue now s = ground (arith, append-nil s.telemetry_queue)

  produce-rest :
      (now : ℕ) (s : ConductorOrchestrator)
      → let s' = produce f serialize now s in
        (s'.database ≡ s.database) × (s'.batch ≡ s.batch) × (s'.flushing ≡ s.flushing)
  unfolding produce
  produce-rest now s = ground arith

  -- A state with snapshots put into the queue behind the others.
  put-Accounts :
      (kept new : List Snapshot) (s s' : ConductorOrchestrator)
      → (s'.database ≡ s.database) × (s'.batch ≡ s.batch) × (s'.flushing ≡ s.flushing)
      → s'.telemetry_queue ≡ s.telemetry_queue ++ new
      → Accounts kept s
      → Accounts (kept ++ new) s'
  put-Accounts kept new s s' (database, batch, flushing) queue (lost, e, h) = (
    lost,
    ap (λ k. k ++ new) e
        ∙ append_behind s.database lost s.batch s.telemetry_queue new
        ∙ (λ i. sym database i ++ (lost ++ (sym batch i ++ sym queue i))),
    elim h [ inl none ↦ inl none | inr (off, few) ↦ inr (flushing ∙ off, few) ],
  )

  pub act-Accounts :
      (a : Action) (kept : List Snapshot) (s : ConductorOrchestrator)
      → IsBounded s
      → Accounts kept s
      → Accounts (kept ++ kept_of f serialize a s) (act f serialize a s)
  unfolding act kept_of stop
  act-Accounts (produces now) kept s short h =
      put-Accounts kept _ s (produce f serialize now s) (produce-rest now s) (produce-queue now s) h
  act-Accounts (flushes succeeds) kept s short h =
      subst (λ k. Accounts k (flush succeeds s)) (sym (append-nil kept))
        (flush-Accounts succeeds kept s short.batch h)
  act-Accounts stops kept s short h =
      subst (λ k. Accounts k (record s { shutdown_event = true })) (sym (append-nil kept)) h

  pub run-Accounts :
      (actions : List Action) (kept : List Snapshot) (s : ConductorOrchestrator)
      → IsBounded s
      → Accounts kept s
      → Accounts (kept ++ kept_of_all f serialize actions s) (run f serialize actions s)
  unfolding run kept_of_all
  run-Accounts [] kept s short h = subst (λ k. Accounts k s) (sym (append-nil kept)) h
  run-Accounts (a ∷ actions) kept s short h =
      let s1 = act f serialize a s in
      subst (λ k. Accounts k (run f serialize actions s1))
        (append_assoc kept (kept_of f serialize a s) (kept_of_all f serialize actions s1))
        (run-Accounts actions (kept ++ kept_of f serialize a s) s1
          (act-IsBounded f serialize a s short) (act-Accounts a kept s short h))

  pub act-Extends : (a : Action) (s : ConductorOrchestrator) → Extends s (act f serialize a s)
  unfolding act stop
  act-Extends (produces now) s = Extends-refl s (produce f serialize now s) (produce-rest now s).0
  act-Extends (flushes succeeds) s = flush-Extends succeeds s
  act-Extends stops s = Extends-refl s (record s { shutdown_event = true }) refl

  pub run-Extends :
      (actions : List Action) (s : ConductorOrchestrator) → Extends s (run f serialize actions s)
  unfolding run
  run-Extends [] s = Extends-refl s s refl
  run-Extends (a ∷ actions) s =
      let (new, e) = act-Extends a s in
      let (more, e') = run-Extends actions (act f serialize a s) in
      (new ++ more, e' ∙ ap (λ d. d ++ more) e ∙ append_assoc s.database new more)
