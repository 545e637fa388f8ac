-- ===== src/Edge/System/Fifo.antt =====
-- The poses on their way from the requests through the queue to the daemon.
use auto_robotic_arms.Base.{
  ◌≤◌, ◌≡◌, ◌≢◌, refl, sym, subst, ap, ◌∙◌, inl, inr, List, [], ◌∷◌, ◌++◌, append_assoc, append-nil,
  arith, length,
}
use auto_robotic_arms.Joints.{Angles, IsServo, centred}
use auto_robotic_arms.Floats.{Floats}
use auto_robotic_arms.Edge.Gateway.Requests.{Request, handle, IsQueue, handle-IsQueue}
use auto_robotic_arms.Edge.Gateway.Refinement.{granted, requested, handle_refines}
use auto_robotic_arms.Edge.Daemon.{
  Opening, not_opened, burst_raised, opened, Surroundings, port_after, popped, take_waypoint,
  after_take,
}
use auto_robotic_arms.Edge.Daemon.Rounds.{after_take-cases, slewed, dispatch-SamePoses}
use auto_robotic_arms.Edge.Daemon.Slew.{slew_angles-IsServo}
use auto_robotic_arms.Edge.System.{
  at_head, taken_out, dead, System, end_of, first_of, Reach, starts, serves, opens, takes, ends,
}

-- The pose that was taken out last, or the one that the module starts with.
abbrev pub last_of : Angles → List Angles → Angles
last_of a [] = a
last_of a (b ∷ q) = last_of b q

last_of-append : (a b : Angles) (q : List Angles) → last_of a (q ++ b ∷ []) ≡ b
last_of-append a b [] = refl
last_of-append a b (c ∷ q) = last_of-append c b q

-- What every reachable system has.
record Flows (accepted taken : List Angles) (s : System) : Type 0 where
  fifo : accepted ≡ taken ++ s.node.waypoint_queue
  aimed : s.node.target_joint_angles ≡ last_of centred taken
  queue : IsQueue s.node.waypoint_queue
  target : IsServo s.node.target_joint_angles
  last : IsServo s.node.last_known_angles
  alive : s.stage ≢ dead

-- A step that leaves the queue and the target alone.
same_poses :
    {accepted taken : List Angles} (s s' : System)
    → Flows accepted taken s
    → s'.node.waypoint_queue ≡ s.node.waypoint_queue
    → s'.node.target_joint_angles ≡ s.node.target_joint_angles
    → IsServo s'.node.last_known_angles
    → s'.stage ≢ dead
    → Flows accepted taken s'
same_poses {accepted} {taken} s s' h q t servo alive = record {
  fifo = h.fifo ∙ ap (λ q. taken ++ q) (sym q);
  aimed = t ∙ h.aimed;
  queue = subst IsQueue (sym q) h.queue;
  target = subst IsServo (sym t) h.target;
  last = servo;
  alive = alive;
}

opens-Flows :
    {accepted taken : List Angles} (o : Opening) (s : System)
    → Flows accepted taken s
    → Flows accepted taken (record {
      node = (port_after o s.node).node;
      ser = (port_after o s.node).ser;
      stage = at_head;
    })
unfolding port_after
opens-Flows not_opened s h = same_poses s _ h refl refl h.last (λ e. cc)
opens-Flows burst_raised s h = same_poses s _ h refl refl h.last (λ e. cc)
opens-Flows opened s h = same_poses s _ h refl refl h.last (λ e. cc)

takes-Flows :
    {accepted taken : List Angles} (q : List Angles) (s : System)
    → s.node.waypoint_queue ≡ q
    → Flows accepted taken s
    → Flows accepted (taken ++ first_of q) (record s { node = popped q s.node; stage = taken_out })
takes-Flows {accepted} {taken} [] s e h =
    subst (λ t. Flows accepted t (record s { stage = taken_out })) (sym (append-nil taken))
      (same_poses s (record s { stage = taken_out }) h refl refl h.last (λ e. cc))
takes-Flows {accepted} {taken} (a ∷ q) s e h =
    let all = subst IsQueue e h.queue in
    record {
      fifo = h.fifo ∙ ap (λ q. taken ++ q) e ∙ sym (append_assoc taken (a ∷ []) q);
      aimed = sym (last_of-append centred a taken);
      queue = record { bounded = omega (arith, all.bounded); servo = all.servo.1 };
      target = all.servo.0;
      last = h.last;
      alive = λ e. cc;
    }

slewed-IsServo :
    {accepted taken : List Angles} (s : System)
    → Flows accepted taken s
    → IsServo (slewed s.node).last_known_angles
slewed-IsServo s h =
    slew_angles-IsServo s.node.target_joint_angles s.node.last_known_angles h.target h.last

ends-Flows :
    {accepted taken : List Angles} (w : Surroundings) (s : System)
    → Flows accepted taken s
    → Flows accepted taken (end_of (after_take w s.node) s)
ends-Flows {accepted} {taken} w s h = elim (after_take-cases w s.node) [
  | inl e ↦
      let same = dispatch-SamePoses w.exchange w.now (slewed s.node) in
      subst (λ r. Flows accepted taken (end_of r s)) (sym e)
        (same_poses s _ h same.queue same.target
          (subst IsServo (sym same.last) (slewed-IsServo s h)) (λ e. cc))
  | inr (e, _) ↦
      subst (λ r. Flows accepted taken (end_of r s)) (sym e)
        (same_poses s _ h refl refl (slewed-IsServo s h) (λ e. cc))
]

module _ (f : Floats) where
  serves-Flows :
      {accepted taken : List Angles} (r : Request f) (s : System)
      → Flows accepted taken s
      → Flows
          (accepted ++ granted s.node.waypoint_queue (requested f r))
          taken
          (record s { node = (handle f r s.node).1 })
  serves-Flows {accepted} {taken} r s h =
      let q = s.node.waypoint_queue in
      let n' = record s.node { waypoint_queue = q ++ granted q (requested f r) } in
      let refined = handle_refines f r s.node h.queue.bounded in
      subst (λ n. Flows (accepted ++ granted q (requested f r)) taken (record s { node = n }))
        (sym refined)
        (record {
          fifo =
              ap (λ t. t ++ granted q (requested f r)) h.fifo
              ∙ append_assoc taken q (granted q (requested f r));
          aimed = h.aimed;
          queue = subst (λ n. IsQueue n.waypoint_queue) refined (handle-IsQueue f r s.node h.queue);
          target = h.target;
          last = h.last;
          alive = h.alive;
        })

  Reach-Flows :
      {accepted taken : List Angles} {s : System}
      → Reach f accepted taken s
      → Flows accepted taken s
  unfolding take_waypoint
  Reach-Flows (starts managed) = record {
    fifo = refl;
    aimed = refl;
    queue = record { bounded = omega arith; servo = tt };
    target = ground arith;
    last = ground arith;
    alive = λ e. cc;
  }
  Reach-Flows (serves {s = s} r h) = serves-Flows r s (Reach-Flows h)
  Reach-Flows (opens {s = s} o _ _ h) = opens-Flows o s (Reach-Flows h)
  Reach-Flows (takes {s = s} _ _ h) = takes-Flows s.node.waypoint_queue s refl (Reach-Flows h)
  Reach-Flows (ends {s = s} w _ h) = ends-Flows w s (Reach-Flows h)

  -- However the two threads are interleaved, and whatever is requested and the port does: the poses
  -- that were accepted are those that the daemon has taken out and then those that wait, in order,
  -- none lost, repeated or overtaken; the daemon's target is the last pose taken out; at most 200
  -- poses wait, target and commanded pose are servo poses, and no exception has ended the daemon.
  pub system_fifo :
      {accepted taken : List Angles} {s : System}
      → Reach f accepted taken s
      → (accepted ≡ taken ++ s.node.waypoint_queue)
        × (s.node.target_joint_angles ≡ last_of centred taken)
        × (length s.node.waypoint_queue ≤ 200)
        × IsServo s.node.target_joint_angles
        × IsServo s.node.last_known_angles
        × (s.stage ≢ dead)
  system_fifo r =
      let h = Reach-Flows r in (h.fifo, h.aimed, h.queue.bounded, h.target, h.last, h.alive)
