-- ===== src/Edge/Node.antt =====
-- The state that the threads of Software/edge-orchestrator/orchestrator_node.py share, its bounded
-- queue and its use of the database manager. Times are whole microseconds.
use Prim.Native.String.{String}
use text.Mathlib.Text.{◌==◌ as str_eq}
use auto_robotic_arms.Base.{
  ℕ, Bool, false, ◌||◌, List, [], ◌∷◌, ◌++◌, leb, if◌then◌else◌, length, drop,
}
use auto_robotic_arms.Python.{Result, ok, err, attribute_error}
use auto_robotic_arms.Joints.{Angles, centred}

-- The module's globals. `db_manager` is true once `lifespan` has made one: a DatabaseManager is an
-- object that tests as true.
pub record Node : Type 0 where
  pub waypoint_queue : List Angles
  pub last_known_angles : Angles
  pub target_joint_angles : Angles
  pub serial_bus_nominal : Bool
  pub safe_hold_tripped : Bool
  pub last_dispatch_time : ℕ
  pub db_manager : Bool

abbrev pub queue_max_capacity : ℕ
queue_max_capacity = 200

-- The globals as the module is imported.
abbrev pub imported : Node
imported = record {
  waypoint_queue = [];
  last_known_angles = centred;
  target_joint_angles = centred;
  serial_bus_nominal = false;
  safe_hold_tripped = false;
  last_dispatch_time = 0;
  db_manager = false;
}

-- `append` of a `deque(maxlen=QUEUE_MAX_CAPACITY)`: a full one drops its oldest item.
unfoldable pub deque_append : List Angles → Angles → List Angles
deque_append q a = if leb queue_max_capacity (length q) then drop 1 q ++ a ∷ [] else q ++ a ∷ []

unfoldable pub deque_extend : List Angles → List Angles → List Angles
deque_extend q [] = q
deque_extend q (a ∷ more) = deque_extend (deque_append q a) more

-- The attributes of a DatabaseManager of Software/edge-orchestrator/database_manager.py.
abbrev pub database_manager_attributes : List String
database_manager_attributes =
    "db_path" ∷ "queue" ∷ "running" ∷ "worker_thread" ∷ "_worker_loop" ∷ "log_telemetry"
    ∷ "get_recent_telemetry" ∷ "shutdown" ∷ []

unfoldable pub has_attr : String → List String → Bool
has_attr name [] = false
has_attr name (a ∷ attributes) = str_eq a name || has_attr name attributes

-- A method call on the manager raises AttributeError unless the class has the method.
unfoldable pub call_manager : String → Result (Unit {0})
unfolding has_attr
call_manager name = if has_attr name database_manager_attributes then ok tt else err attribute_error

-- `if db_manager: db_manager.enqueue_log(...)`
unfoldable pub log_if_managed : Node → Result (Unit {0})
unfolding call_manager
log_if_managed n = if n.db_manager then call_manager "enqueue_log" else ok tt
