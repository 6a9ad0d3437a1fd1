-- ===== src/NmtMaster.antt =====
-- zencan-client/src/nmt_master.rs: the table of nodes that heartbeats fill.
pub mod Table
use zencan.Base.{
  ℕ, zero, suc, ◌+◌, ◌-◌, Bool, true, List, [], ◌∷◌, Option, none, some, Result, either, maybe, ltb,
  ◌==◌, ◌||◌, if◌then◌else◌, length, get_or, replicate,
}
use zencan.Can.{CanMessage}
use zencan.Message.{ZencanMessage, message_of}
use zencan.Nmt.{NmtState, NmtCommand, NmtCommandSpecifier, Heartbeat, command_message}

-- `Node`; times are numbers.
pub record MasterNode : Type 0 where
  pub id : ℕ
  pub state : NmtState
  pub last_status : ℕ
  pub last_toggle : Bool

abbrev max_nodes : ℕ
max_nodes = 127

-- `Node::default`, at a time.
unfoldable pub default_node : ℕ → MasterNode
default_node now = record { id = 0; state = NmtState.bootup; last_status = now; last_toggle = true }

-- The table of `NmtMaster::new`.
unfoldable pub new : ℕ → List MasterNode
unfolding default_node
new now = replicate max_nodes (default_node now)

-- `nodes[i]`, within the table, and `nodes[i] = node`.
unfoldable pub node_at : List MasterNode → ℕ → MasterNode
unfolding default_node
node_at nodes i = get_or nodes i (default_node 0)

unfoldable pub put : ℕ → MasterNode → List MasterNode → List MasterNode
put i node [] = []
put zero node (x ∷ nodes) = node ∷ nodes
put (suc i) node (x ∷ nodes) = x ∷ put i node nodes

-- `for j in …`, with `left` rounds to go.
unfoldable pub shift : ℕ → ℕ → List MasterNode → List MasterNode
unfolding node_at put
shift zero j nodes = nodes
shift (suc left) j nodes = shift left (j + 1) (put j (node_at nodes (j - 1)) nodes)

-- The loop of `handle_heartbeat`, with `left` rounds to go. The range `len - 1 .. i` of the shift has
-- `i - (len - 1)` numbers.
unfoldable pub handle_from : ℕ → ℕ → MasterNode → List MasterNode → List MasterNode
unfolding node_at put shift
handle_from zero i heard nodes = nodes
handle_from (suc left) i heard nodes =
    let list_node = node_at nodes i in
    let rest = handle_from left (i + 1) heard nodes in
    if list_node.id == heard.id
    then put i (record heard { id = list_node.id }) nodes
    else if (list_node.id == 0) || ltb heard.id list_node.id
    then put i heard (shift (i - (length nodes - 1)) (length nodes - 1) nodes)
    else rest

unfoldable pub handle_heartbeat : ℕ → Heartbeat → List MasterNode → List MasterNode
unfolding handle_from
handle_heartbeat now beat nodes =
    handle_from (length nodes) 0
      (record { id = beat.node; state = beat.state; last_status = now; last_toggle = beat.toggle })
      nodes

unfoldable pub take_heartbeat : ℕ → ZencanMessage → List MasterNode → List MasterNode
unfolding handle_heartbeat
take_heartbeat now (ZencanMessage.heartbeat beat) nodes = handle_heartbeat now beat nodes
take_heartbeat now _ nodes = nodes

-- `none` is a panic of the conversion.
unfoldable pub handle_message : ℕ → CanMessage → List MasterNode → Option (List MasterNode)
unfolding message_of take_heartbeat
handle_message now msg nodes = maybe (message_of msg) none λ converted.
    some (either converted (λ e. nodes) (λ open_msg. take_heartbeat now open_msg nodes))

-- The loop of `process_rx` over the frames that are there to receive.
unfoldable pub process_rx : ℕ → List CanMessage → List MasterNode → Option (List MasterNode)
unfolding handle_message
process_rx now [] nodes = some nodes
process_rx now (msg ∷ msgs) nodes =
    maybe (handle_message now msg nodes) none (λ nodes'. process_rx now msgs nodes')

-- What `get_nodes` gives, after all frames are handled: the entries up to the first empty one.
unfoldable pub get_nodes : List MasterNode → List MasterNode
get_nodes [] = []
get_nodes (node ∷ nodes) = let rest = get_nodes nodes in if node.id == 0 then [] else node ∷ rest

-- The frame that `send_nmt_cmd` sends.
unfoldable pub nmt_cmd : NmtCommandSpecifier → ℕ → CanMessage
unfolding command_message
nmt_cmd cmd node = command_message (record { cs = cmd; node = node })
