-- ===== src/Edge/Gateway/Queue.antt =====
-- What the handlers do to the bounded queue, and what the logging call makes of their replies.
use auto_robotic_arms.Base.{
  ℕ, ◌+◌, ◌≤◌, ◌<◌, ◌≡◌, refl, sym, ltb_ℤ, sub_ℕ, ◌∙◌, ◌⊎◌, inl, inr, true, List, [], ◌∷◌, ◌++◌,
  append_assoc, append-nil, Option, none, some, arith, leb, if◌then◌else◌, length, length-append,
  pos, Bool-cases,
}
use auto_robotic_arms.Python.{Exception, envelope_violation, attribute_error, Result, ok, err}
use auto_robotic_arms.Joints.{Angles}
use auto_robotic_arms.Floats.{Floats}
use auto_robotic_arms.Edge.Trajectory.{Point, new_planner, generate_joint_trajectory}
use auto_robotic_arms.Edge.Node.{Node, deque_append, deque_extend, call_manager, log_if_managed}
use auto_robotic_arms.Edge.Gateway.{
  Reply, http, raised, enqueued, logged, enqueue_pose, post_waypoint, waypoint_accepted,
  post_trajectory, on_trajectory, plan_trajectory, trajectory_accepted,
}

deque_append-room : (q : List Angles) (a : Angles) → length q < 200 → deque_append q a ≡ q ++ a ∷ []
unfolding deque_append
deque_append-room q a room = ground arith

deque_extend-room : (q t : List Angles) → length q + length t ≤ 200 → deque_extend q t ≡ q ++ t
unfolding deque_extend
deque_extend-room q [] room = sym (append-nil q)
deque_extend-room q (a ∷ t) room = rw (deque_append-room q a (omega arith)) (
    deque_extend-room (q ++ a ∷ []) t (omega (arith, length-append {0} q (a ∷ [])))
    ∙ append_assoc q (a ∷ []) t)

-- One pose: refused with 503 and no change exactly when the queue is full; else it goes to the end
-- of the queue, nothing is evicted, and the reply is 200 without a database manager and an
-- AttributeError (a 500) with one, the pose queued all the same.
abbrev pub PoseOutcome : Angles → (ℕ → Reply) → Node → Reply × Node → Type 0
PoseOutcome a reply n (r, n') =
    ((length n.waypoint_queue ≡ 200) × (r ≡ http 503) × (n' ≡ n))
    ⊎ ((length n.waypoint_queue < 200)
        × (n' ≡ record n { waypoint_queue = n.waypoint_queue ++ a ∷ [] })
        × (r ≡ (
            if n.db_manager then raised attribute_error else reply (length n.waypoint_queue + 1))))

-- DatabaseManager has no method `enqueue_log`.
call_manager-enqueue_log : call_manager "enqueue_log" ≡ err attribute_error
unfolding call_manager
call_manager-enqueue_log = refl

pub enqueue_pose-PoseOutcome :
    (a : Angles) (reply : ℕ → Reply) (n : Node)
    → length n.waypoint_queue ≤ 200
    → PoseOutcome a reply n (enqueue_pose a reply n)
unfolding enqueue_pose log_if_managed
enqueue_pose-PoseOutcome a reply n bounded = elim (Bool-cases (leb 200 (length n.waypoint_queue))) [
  | inl full ↦ inl (ground arith, rw full refl, rw full refl)
  | inr room ↦
      let short : length n.waypoint_queue < 200 = ground arith in
      let added = deque_append-room n.waypoint_queue a short in
      inr (short, rw (room, added) refl, rw (room, added) (reply_of n short))
]
  where
    reply_of :
        (n : Node)
        → length n.waypoint_queue < 200
        → logged
            (if n.db_manager then call_manager "enqueue_log" else ok tt)
            (reply (length (n.waypoint_queue ++ a ∷ [])))
          ≡ (if n.db_manager then raised attribute_error else reply (length n.waypoint_queue + 1))
    reply_of n short =
        rw (call_manager-enqueue_log, length-append n.waypoint_queue (a ∷ [])) (ground arith)

-- A waypoint within 0 to 180 degrees, with the queue within its capacity of 200: 503 and no change
-- exactly when the queue holds 200 poses; else it is queued last, nothing is evicted, and the reply
-- is 200 with the new depth where there is no database manager, and an AttributeError (a 500) where
-- there is one.
pub post_waypoint_outcome :
    (wp : Angles) (n : Node)
    → waypoint_accepted wp ≡ true
    → length n.waypoint_queue ≤ 200
    → let (r, n') = post_waypoint wp n in
      ((length n.waypoint_queue ≡ 200) × (r ≡ http 503) × (n' ≡ n))
      ⊎ ((length n.waypoint_queue < 200)
          × (n' ≡ record n { waypoint_queue = n.waypoint_queue ++ wp ∷ [] })
          × (r ≡ (
              if n.db_manager
              then raised attribute_error
              else enqueued (length n.waypoint_queue + 1))))
post_waypoint_outcome wp n accepted bounded =
    unfold post_waypoint in rw accepted (enqueue_pose-PoseOutcome wp enqueued n bounded)

module _ (f : Floats) where
  pub on_trajectory-outcome :
      (t : List Angles) (n : Node)
      → length n.waypoint_queue ≤ 200
      → let n' = (on_trajectory (ok t) n).1 in
        ((200 < length n.waypoint_queue + length t) × (n' ≡ n))
        ⊎ ((length n.waypoint_queue + length t ≤ 200)
            × (n' ≡ record n { waypoint_queue = n.waypoint_queue ++ t }))
  on_trajectory-outcome t n bounded =
      elim (Bool-cases (ltb_ℤ (sub_ℕ 200 (length n.waypoint_queue)) (pos (length t)))) [
        | inl over ↦ inl (ground arith, rw over refl)
        | inr fits ↦
            let room : length n.waypoint_queue + length t ≤ 200 = ground arith in
            inr (room, rw (fits, deque_extend-room n.waypoint_queue t room) refl)
      ]

  pub on_trajectory-err : (e : Exception) (n : Node) → (on_trajectory (err e) n).1 ≡ n
  on_trajectory-err envelope_violation n = refl
  on_trajectory-err _ n = refl

  abbrev WholeOrNothing : Option f.Float → List (Point f) → Node → Node → Type 0
  WholeOrNothing step waypoints n n' =
      (n' ≡ n)
      ⊎ ((s : f.Float) × (t : List Angles) × (step ≡ some s)
          × (generate_joint_trajectory f s waypoints ≡ ok t)
          × (length n.waypoint_queue + length t ≤ 200)
          × (n' ≡ record n { waypoint_queue = n.waypoint_queue ++ t }))

  module _ (waypoints : List (Point f)) (n : Node) (bounded : length n.waypoint_queue ≤ 200) where
    generated-WholeOrNothing :
        (s : f.Float) (r : Result (List Angles))
        → generate_joint_trajectory f s waypoints ≡ r
        → WholeOrNothing (some s) waypoints n (on_trajectory r n).1
    generated-WholeOrNothing s (err e) h = inl (on_trajectory-err e n)
    generated-WholeOrNothing s (ok t) h = elim (on_trajectory-outcome t n bounded) [
      | inl (_, same) ↦ inl same
      | inr (room, extended) ↦ inr (s, t, refl, h, room, extended)
    ]

    planned-WholeOrNothing :
        (s : f.Float)
        → WholeOrNothing (some s) waypoints n (plan_trajectory f (new_planner f s) waypoints n).1
    unfolding new_planner
    planned-WholeOrNothing s = elim (Bool-cases (f.le s (f.lit 0 10))) [
      | inl refused ↦ inl (rw refused refl)
      | inr fine ↦
          rw fine (generated-WholeOrNothing s (generate_joint_trajectory f s waypoints) refl)
    ]

  -- With the queue within its capacity, a trajectory is queued whole or not at all: either the node
  -- is unchanged, or the queue has been extended by exactly the trajectory that the planner
  -- generates for the request, within the capacity of 200.
  pub post_trajectory_atomic :
      (step : Option f.Float) (waypoints : List (Point f)) (n : Node)
      → length n.waypoint_queue ≤ 200
      → let (_, n') = post_trajectory f step waypoints n in
        (n' ≡ n)
        ⊎ ((s : f.Float) × (t : List Angles) × (step ≡ some s)
            × (generate_joint_trajectory f s waypoints ≡ ok t)
            × (length n.waypoint_queue + length t ≤ 200)
            × (n' ≡ record n { waypoint_queue = n.waypoint_queue ++ t }))
  unfolding post_trajectory
  post_trajectory_atomic none waypoints n bounded = inl (ground arith)
  post_trajectory_atomic (some s) waypoints n bounded =
      elim (Bool-cases (trajectory_accepted f (some s) waypoints)) [
        | inl accepted ↦ rw accepted (planned-WholeOrNothing waypoints n bounded s)
        | inr refused ↦ inl (rw refused refl)
      ]
