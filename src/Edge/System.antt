-- ===== src/Edge/System.antt =====
-- The two threads of Software/edge-orchestrator/orchestrator_node.py over one node: requests, and
-- the daemon between its critical sections, in any order. `waypoint_queue` changes under
-- `queue_lock` only, so a step is what happens between two points where the threads may switch and
-- see each other.
pub mod Fifo
pub mod Drained
use auto_robotic_arms.Base.{ℕ, ◌≡◌, Bool, true, false, List, [], ◌∷◌, ◌++◌}
use auto_robotic_arms.Joints.{Angles}
use auto_robotic_arms.Floats.{Floats}
use auto_robotic_arms.Edge.Node.{Node, imported}
use auto_robotic_arms.Edge.Gateway.Requests.{Request, handle}
use auto_robotic_arms.Edge.Gateway.Refinement.{granted, requested}
use auto_robotic_arms.Edge.Daemon.{
  Opening, Surroundings, Daemon, Round, goes_on, dies, port_after, take_waypoint, after_take,
}

-- Where the daemon stands: at the head of its loop, behind the part under the lock, or ended by an
-- exception.
pub data Stage : Type 0 where
  at_head taken_out dead : Stage

pub record System : Type 0 where
  pub node : Node
  pub ser : Bool
  pub stage : Stage

-- What the end of a round leaves.
abbrev pub end_of : Round → System → System
end_of (goes_on d) s = record { node = d.node; ser = d.ser; stage = at_head }
end_of (dies e) s = record s { stage = dead }

-- The poses that the daemon takes out.
abbrev pub first_of : List Angles → List Angles
first_of [] = []
first_of (a ∷ q) = a ∷ []

-- The reachable systems, with the poses that were accepted and those that the daemon has taken out,
-- both in the order in which it happened.
module _ (f : Floats) where
  pub data Reach : List Angles → List Angles → System → Type 0 where
    -- `lifespan` has made the database manager, or has not.
    starts :
        (managed : Bool)
        → Reach [] [] (record {
          node = record imported { db_manager = managed };
          ser = false;
          stage = at_head;
        })
    serves :
        {accepted taken : List Angles} {s : System} (r : Request f)
        → Reach accepted taken s
        → Reach
            (accepted ++ granted s.node.waypoint_queue (requested f r))
            taken
            (record s { node = (handle f r s.node).1 })
    opens :
        {accepted taken : List Angles} {s : System} (o : Opening)
        → s.stage ≡ at_head
        → s.ser ≡ false
        → Reach accepted taken s
        → Reach accepted taken (record {
          node = (port_after o s.node).node;
          ser = (port_after o s.node).ser;
          stage = at_head;
        })
    takes :
        {accepted taken : List Angles} {s : System}
        → s.stage ≡ at_head
        → s.ser ≡ true
        → Reach accepted taken s
        → Reach accepted
            (taken ++ first_of s.node.waypoint_queue)
            (record s { node = take_waypoint s.node; stage = taken_out })
    ends :
        {accepted taken : List Angles} {s : System} (w : Surroundings)
        → s.stage ≡ taken_out
        → Reach accepted taken s
        → Reach accepted taken (end_of (after_take w s.node) s)
