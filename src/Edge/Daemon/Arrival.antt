-- ===== src/Edge/Daemon/Arrival.antt =====
-- Many rounds of the daemon, and a round with a database manager.
use auto_robotic_arms.Base.{
  ℕ, suc, ◌-◌, ◌*◌, ◌≤◌, ◌≡◌, refl, sym, subst, ap, ◌∙◌, inl, inr, true, List, [], ◌∷◌, arith,
  length, All, Bool-cases,
}
use auto_robotic_arms.Joints.{Angles, IsServo}
use auto_robotic_arms.Edge.Node.{Node}
use auto_robotic_arms.Edge.Daemon.{
  Surroundings, Daemon, slew_angles, opened, take_waypoint, popped, dispatch, goes_on, tick,
  port_after, open_port, round, rounds,
}
use auto_robotic_arms.Edge.Daemon.Slew.{
  slew_angles-IsWithin, eq_of_IsWithin, servo-IsWithin, IsWithin,
}
use auto_robotic_arms.Edge.Daemon.Rounds.{
  tick-cases, slewed, stepped, SamePoses, dispatch-SamePoses,
}

-- Wherever the round opens the port, the opening and the burst succeed.
abbrev pub Opens : Surroundings → Type 0
Opens w = w.opening ≡ opened

-- Opening the port leaves the poses of the step alone.
popped-SamePoses :
    (q : List Angles) (n : Node)
    → SamePoses (slewed (popped q n)) (slewed (popped q (port_after opened n).node))
unfolding port_after
popped-SamePoses [] n = record { queue = refl; target = refl; last = refl }
popped-SamePoses (a ∷ q) n = record { queue = refl; target = refl; last = refl }

opened-SamePoses : (n : Node) → SamePoses (stepped n) (stepped (port_after opened n).node)
unfolding take_waypoint port_after
opened-SamePoses n = popped-SamePoses n.waypoint_queue n

SamePoses-trans : (a b c : Node) → SamePoses a b → SamePoses b c → SamePoses a c
SamePoses-trans a b c h k = record {
  queue = k.queue ∙ h.queue;
  target = k.target ∙ h.target;
  last = k.last ∙ h.last;
}

tick-SamePoses :
    (w : Surroundings) (n : Node)
    → (d : Daemon) × (tick w n ≡ goes_on d) × SamePoses (stepped n) d.node
tick-SamePoses w n = elim (tick-cases w n) [
  | inl e ↦
      (dispatch w.exchange w.now (stepped n), e, dispatch-SamePoses w.exchange w.now (stepped n))
  | inr (e, _) ↦ (
    record { node = stepped n; ser = true },
    e,
    record { queue = refl; target = refl; last = refl },
  )
]

-- With or without a port at its start, whatever the exchange and the manager: a round whose opening
-- succeeds takes a waypoint and slews.
pub round_steps :
    (w : Surroundings) (d : Daemon)
    → Opens w
    → (d' : Daemon) × (round w d ≡ goes_on d') × SamePoses (stepped d.node) d'.node
unfolding round open_port
round_steps w d opens = elim (Bool-cases d.ser) [
  | inl held ↦ let (d', e, same) = tick-SamePoses w d.node in (d', rw held e, same)
  | inr free ↦
      let n = (port_after opened d.node).node in
      let (d', e, same) = tick-SamePoses w n in
      (
        d',
        rw free (ap (λ o. open_port o w d.node) opens ∙ e),
        SamePoses-trans (stepped d.node) (stepped n) d'.node (opened-SamePoses d.node) same,
      )
]

-- No waypoint waits, and the target is `k` degrees away.
record IsQuiet (target : Angles) (k : ℕ) (n : Node) : Type 0 where
  queue : n.waypoint_queue ≡ []
  aimed : n.target_joint_angles ≡ target
  near : IsWithin k target n.last_known_angles

popped-nil : (q : List Angles) (n : Node) → q ≡ [] → popped q n ≡ n
popped-nil [] n e = refl
popped-nil (a ∷ q) n e = absurd (cc)

slewed-IsQuiet :
    (target : Angles) (k : ℕ) (n : Node) → IsQuiet target k n → IsQuiet target (k - 2) (slewed n)
slewed-IsQuiet target k n q = record {
  queue = q.queue;
  aimed = q.aimed;
  near =
      subst (λ t. IsWithin (k - 2) target (slew_angles t n.last_known_angles)) (sym q.aimed)
        (slew_angles-IsWithin k target n.last_known_angles q.near);
}

stepped-IsQuiet :
    (target : Angles) (k : ℕ) (n : Node) → IsQuiet target k n → IsQuiet target (k - 2) (stepped n)
unfolding take_waypoint
stepped-IsQuiet target k n q =
    subst (λ m. IsQuiet target (k - 2) (slewed m)) (sym (popped-nil n.waypoint_queue n q.queue))
      (slewed-IsQuiet target k n q)

SamePoses-IsQuiet :
    (target : Angles) (k : ℕ) (n n' : Node)
    → SamePoses n n'
    → IsQuiet target k n
    → IsQuiet target k n'
SamePoses-IsQuiet target k n n' same q = record {
  queue = same.queue ∙ q.queue;
  aimed = same.target ∙ q.aimed;
  near = subst (IsWithin k target) (sym same.last) q.near;
}

rounds-IsQuiet :
    (target : Angles) (k : ℕ) (ws : List Surroundings) (d : Daemon)
    → All Opens ws
    → IsQuiet target k d.node
    → (d' : Daemon) × (rounds ws d ≡ goes_on d') × IsQuiet target (k - 2 * length ws) d'.node
unfolding rounds
rounds-IsQuiet target k [] d opens q =
    let e : k ≡ k - 2 * 0 = omega arith in (d, refl, subst (λ j. IsQuiet target j d.node) e q)
rounds-IsQuiet target k (w ∷ ws) d opens q =
    let (d1, e1, same) = round_steps w d opens.0 in
    let q1 = SamePoses-IsQuiet target (k - 2) _ d1.node same (stepped-IsQuiet target k d.node q) in
    let (d2, e2, q2) = rounds-IsQuiet target (k - 2) ws d1 opens.1 q1 in
    let e : k - 2 - 2 * length ws ≡ k - 2 * suc (length ws) = omega arith in
    (d2, rw e1 e2, subst (λ j. IsQuiet target j d2.node) e q2)

pub rounds_settle :
    (ws : List Surroundings) (d : Daemon)
    → d.node.waypoint_queue ≡ []
    → IsServo d.node.target_joint_angles
    → IsServo d.node.last_known_angles
    → All Opens ws
    → 90 ≤ length ws
    → (d' : Daemon) × (rounds ws d ≡ goes_on d')
      × (d'.node.last_known_angles ≡ d.node.target_joint_angles)
      × (d'.node.waypoint_queue ≡ [])
rounds_settle ws d queue target last opens long =
    let start : IsQuiet d.node.target_joint_angles 180 d.node = record {
      queue = queue;
      aimed = refl;
      near = servo-IsWithin d.node.target_joint_angles d.node.last_known_angles target last;
    } in
    let (d', e, q) = rounds-IsQuiet d.node.target_joint_angles 180 ws d opens start in
    let none_left : 180 - 2 * length ws ≡ 0 = omega arith in
    (
      d',
      e,
      eq_of_IsWithin d.node.target_joint_angles d'.node.last_known_angles (
          subst (λ j. IsWithin j d.node.target_joint_angles d'.node.last_known_angles) none_left
            q.near),
      q.queue,
    )
