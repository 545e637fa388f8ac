-- ===== src/Edge/Daemon/Rounds.antt =====
-- One round of the daemon, by cases, and the poses after it.
use auto_robotic_arms.Base.{
  ℕ, ◌≡◌, refl, sym, subst, ◌⊎◌, inl, inr, Bool, true, false, List, [], ◌∷◌, arith, if◌then◌else◌,
  All, Bool-cases, leb_ℤ, sub_ℕ, pos,
}
use auto_robotic_arms.Joints.{Angles, IsServo}
use auto_robotic_arms.Python.{Result, ok, err}
use auto_robotic_arms.Edge.Frame.{build_option_a_frame}
use auto_robotic_arms.Edge.Frame.Parity.{IsCommand, build_option_a_frame-ok}
use auto_robotic_arms.Edge.Node.{Node, log_if_managed}
use auto_robotic_arms.Edge.Daemon.{
  Opening, not_opened, burst_raised, opened, Exchange, write_raised, readline_raised, line,
  Surroundings, Daemon, slew_angles, moved, take_waypoint, popped, dispatch, after_log, Round,
  goes_on, send, after_take, tick, port_after, open_port, round, drive_command, heartbeat_command,
}
use auto_robotic_arms.Edge.Daemon.Slew.{slew_angles-IsServo, slew_angles-steps, IsWithin}

-- All poses of the node are within the range of the servos.
pub record IsNode (n : Node) : Type 0 where
  pub queue : All IsServo n.waypoint_queue
  pub target : IsServo n.target_joint_angles
  pub last : IsServo n.last_known_angles

drive-IsCommand : IsCommand drive_command
drive-IsCommand = ground arith

heartbeat-IsCommand : IsCommand heartbeat_command
heartbeat-IsCommand = ground arith

chosen-IsCommand : (b : Bool) → IsCommand (if b then drive_command else heartbeat_command)
chosen-IsCommand true = drive-IsCommand
chosen-IsCommand false = heartbeat-IsCommand

send-goes_on :
    (cmd : List ℕ) (a : Angles) (x : Exchange) (now : ℕ) (n : Node)
    → IsCommand cmd
    → send (build_option_a_frame cmd a) x now n ≡ goes_on (dispatch x now n)
unfolding send
send-goes_on cmd a x now n command = rw (build_option_a_frame-ok cmd a command)

-- The step of the poses alone, and the node of a tick before the dispatch.
abbrev pub slewed : Node → Node
slewed n = record n { last_known_angles = slew_angles n.target_joint_angles n.last_known_angles }

abbrev pub stepped : Node → Node
stepped n = slewed (take_waypoint n)

-- What a round does behind `queue_lock`: it dispatches the slewed node, or keeps it.
pub after_take-cases :
    (w : Surroundings) (n : Node)
    → (after_take w n ≡ goes_on (dispatch w.exchange w.now (slewed n)))
      ⊎ ((after_take w n ≡ goes_on (record { node = slewed n; ser = true }))
          × (moved n.target_joint_angles n.last_known_angles ≡ false))
unfolding after_take
after_take-cases w n =
    let due = leb_ℤ (pos 1_500_000) (sub_ℕ w.now n.last_dispatch_time) in
    elim (Bool-cases (moved n.target_joint_angles n.last_known_angles)) [
      | inl move ↦ inl (rw move (send-goes_on _ _ _ _ _ drive-IsCommand))
      | inr still ↦ elim (Bool-cases due) [
        | inl beat ↦ inl (rw (still, beat) (send-goes_on _ _ _ _ _ heartbeat-IsCommand))
        | inr quiet ↦ inr (rw (still, quiet) refl, still)
      ]
    ]

-- What a tick does: it dispatches the stepped node, or keeps it.
pub tick-cases :
    (w : Surroundings) (n : Node)
    → (tick w n ≡ goes_on (dispatch w.exchange w.now (stepped n)))
      ⊎ ((tick w n ≡ goes_on (record { node = stepped n; ser = true }))
          × (moved (take_waypoint n).target_joint_angles (take_waypoint n).last_known_angles
              ≡ false))
unfolding tick
tick-cases w n = after_take-cases w (take_waypoint n)

-- A dispatch leaves the poses and the queue alone.
pub record SamePoses (n n' : Node) : Type 0 where
  pub queue : n'.waypoint_queue ≡ n.waypoint_queue
  pub target : n'.target_joint_angles ≡ n.target_joint_angles
  pub last : n'.last_known_angles ≡ n.last_known_angles

after_log-SamePoses : (r : Result (Unit {0})) (n : Node) → SamePoses n (after_log r n).node
after_log-SamePoses (ok _) n = record { queue = refl; target = refl; last = refl }
after_log-SamePoses (err _) n = record { queue = refl; target = refl; last = refl }

pub dispatch-SamePoses : (x : Exchange) (now : ℕ) (n : Node) → SamePoses n (dispatch x now n).node
unfolding dispatch
dispatch-SamePoses write_raised now n = record { queue = refl; target = refl; last = refl }
dispatch-SamePoses readline_raised now n = record { queue = refl; target = refl; last = refl }
dispatch-SamePoses (line text) now n =
    let kept = after_log-SamePoses (log_if_managed _) _ in
    record { queue = kept.queue; target = kept.target; last = kept.last }

-- What every state after a round keeps: servo poses, and a pose within two degrees of the last.
record Steps (n : Node) (d : Daemon) : Type 0 where
  poses : IsNode d.node
  near : IsWithin 2 d.node.last_known_angles n.last_known_angles

popped-IsNode : (q : List Angles) (n : Node) → All IsServo q → IsNode n → IsNode (popped q n)
popped-IsNode [] n hq h = h
popped-IsNode (a ∷ rest) n hq h = record { queue = hq.1; target = hq.0; last = h.last }

popped-last : (q : List Angles) (n : Node) → (popped q n).last_known_angles ≡ n.last_known_angles
popped-last [] n = refl
popped-last (a ∷ rest) n = refl

stepped-Steps : (n : Node) (b : Bool) → IsNode n → Steps n (record { node = stepped n; ser = b })
unfolding take_waypoint
stepped-Steps n b h =
    let n1 = popped n.waypoint_queue n in
    let h1 = popped-IsNode n.waypoint_queue n h.queue h in
    let target = n1.target_joint_angles in
    let last = n1.last_known_angles in
    record {
      poses = record {
        queue = h1.queue;
        target = h1.target;
        last = slew_angles-IsServo target last h1.target h1.last;
      };
      near =
          subst (IsWithin 2 (slew_angles target last)) (popped-last n.waypoint_queue n)
            (slew_angles-steps target last);
    }

SamePoses-Steps :
    (n n' : Node) (d : Daemon)
    → SamePoses n' d.node
    → Steps n (record { node = n'; ser = true })
    → Steps n d
SamePoses-Steps n n' d same s = record {
  poses = record {
    queue = subst (All IsServo) (sym same.queue) s.poses.queue;
    target = subst IsServo (sym same.target) s.poses.target;
    last = subst IsServo (sym same.last) s.poses.last;
  };
  near = subst (λ a. IsWithin 2 a n.last_known_angles) (sym same.last) s.near;
}

abbrev GoesOn : (Daemon → Type 0) → Round → Type 0
GoesOn P r = (d : Daemon) × (r ≡ goes_on d) × P d

tick-Steps : (w : Surroundings) (n : Node) → IsNode n → GoesOn (Steps n) (tick w n)
tick-Steps w n h = elim (tick-cases w n) [
  | inl e ↦ (
    dispatch w.exchange w.now (stepped n),
    e,
    SamePoses-Steps n (stepped n) _ (dispatch-SamePoses w.exchange w.now (stepped n))
        (stepped-Steps n true h),
  )
  | inr (e, _) ↦ (record { node = stepped n; ser = true }, e, stepped-Steps n true h)
]

stays-near : (a : Angles) → IsWithin 2 a a
stays-near a = omega arith

open_port-Steps :
    (o : Opening) (w : Surroundings) (n : Node) → IsNode n → GoesOn (Steps n) (open_port o w n)
unfolding open_port port_after
open_port-Steps not_opened w n h = (
  _,
  refl,
  record {
    poses = record { queue = h.queue; target = h.target; last = h.last };
    near = stays-near n.last_known_angles;
  },
)
open_port-Steps burst_raised w n h = (
  _,
  refl,
  record {
    poses = record { queue = h.queue; target = h.target; last = h.last };
    near = stays-near n.last_known_angles;
  },
)
open_port-Steps opened w n h =
    let n' = record n { serial_bus_nominal = true; safe_hold_tripped = false } in
    let (d, e, s) =
      tick-Steps w n' (record { queue = h.queue; target = h.target; last = h.last }) in
    (d, e, record { poses = s.poses; near = s.near })

-- From servo poses every round goes on (no exception leaves the loop); the poses stay within the
-- range of the servos, and no joint is commanded further than two degrees from where it was.
pub round_is_safe :
    (w : Surroundings) (d : Daemon)
    → IsNode d.node
    → (d' : Daemon) × (round w d ≡ goes_on d')
      × IsNode d'.node
      × IsWithin 2 d'.node.last_known_angles d.node.last_known_angles
unfolding round
round_is_safe w d h = elim (Bool-cases d.ser) [
  | inl held ↦ let (d', e, s) = tick-Steps w d.node h in (d', rw held e, s.poses, s.near)
  | inr free ↦
      let (d', e, s) = open_port-Steps w.opening w d.node h in (d', rw free e, s.poses, s.near)
]
