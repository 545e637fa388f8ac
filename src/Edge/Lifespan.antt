-- ===== src/Edge/Lifespan.antt =====
-- `lifespan` of Software/edge-orchestrator/orchestrator_node.py, up to the start of the daemon's
-- thread and from the shutdown event on.
use Prim.Native.String.{String}
use auto_robotic_arms.Base.{arith, ◌≡◌, refl, Bool, true, false, ◌&&◌, if◌then◌else◌}
use auto_robotic_arms.Python.{Result, ok, ◌>>=◌}
use auto_robotic_arms.Edge.Node.{
  Node, imported, database_manager_attributes, has_attr, call_manager,
}

abbrev calls {ℓ} : {A : Type ℓ} → String → A → Result A
calls name a = call_manager name >>= λ _. ok a

-- The manager is made; its `start`, or else its `initialize_database`, is called where it has it.
unfoldable pub lifespan_begins : Node → Result Node
lifespan_begins n =
    let managed = record n { db_manager = true } in
    if has_attr "start" database_manager_attributes
    then calls "start" managed
    else if has_attr "initialize_database" database_manager_attributes
    then calls "initialize_database" managed
    else ok managed

-- Whether `stop` of the manager is called.
unfoldable pub lifespan_ends : Node → Result Bool
lifespan_ends n =
    if n.db_manager && has_attr "stop" database_manager_attributes
    then calls "stop" true
    else ok false

-- The node starts with a manager.
pub begins_managed : lifespan_begins imported ≡ ok (record imported { db_manager = true })
unfolding lifespan_begins has_attr
begins_managed = refl

-- No node stops its manager: the class has `shutdown`, and no `stop`.
pub never_stops : (n : Node) → lifespan_ends n ≡ ok false
unfolding lifespan_ends has_attr
never_stops n = ground arith
