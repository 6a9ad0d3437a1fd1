-- ===== src/Node/Commands.antt =====
-- The NMT state machine of a node: what a call of `Node::process` makes of a command.
use zencan.Base.{
  ℕ, ◌≡◌, refl, ap, ◌∙◌, Bool, true, false, Option, none, some, Bool-cases, Option-cases,
  if◌then◌else◌, inl, inr, ◌||◌, ◌==◌, ok, List,
}
use mathlib.Core.Path.{subst}
use zencan.Can.{CanMessage}
use zencan.Dict.{OdEntry}
use zencan.Lss.{NodeId}
use zencan.Message.{ZencanMessage, message_of}
use zencan.Nmt.{
  NmtState, NmtCommand, NmtCommandSpecifier, command_message, command_of-command_message,
}
use zencan.Node.Boot.{Run, reassign, start_automatically}
use zencan.Node.{NodeStateAccess, NodeMbox, Node, is_configured}
use zencan.Node.Phases.{some_injective}
use zencan.Node.Process.{run_nmt, take_message, take_command, nmt_target, process}
use zencan.Node.Steps.{begun, process-Steps}
use zencan.Pdo.{ObjectEvents}
use zencan.Server.State.{Crc}
use zencan.Node.Waking.{left_bootup, leave_bootup-left, run_heartbeat-Stays}

-- The NMT state machine of CANopen, written out. A new node ID takes effect before all else.
abbrev pub present_id : NodeId → Option NodeId → NodeId
present_id node_id none = node_id
present_id node_id (some new_node_id) = new_node_id

-- A node that boots, or that is given a node ID, becomes pre-operational.
abbrev pub woken : Option NodeId → NmtState → NmtState
woken (some new_node_id) nmt_state = NmtState.pre_operational
woken none NmtState.bootup = NmtState.pre_operational
woken none NmtState.stopped = NmtState.stopped
woken none NmtState.operational = NmtState.operational
woken none NmtState.pre_operational = NmtState.pre_operational

-- A node with a node ID that is to start by itself becomes operational.
abbrev pub settled : NodeId → Bool → NmtState → NmtState
settled (NodeId.configured id) true nmt_state = NmtState.operational
settled (NodeId.configured id) false nmt_state = nmt_state
settled NodeId.unconfigured auto_start nmt_state = nmt_state

-- The state that a command asks for; after a reset the node boots.
abbrev pub asked_for : NmtCommandSpecifier → NmtState
asked_for NmtCommandSpecifier.start = NmtState.operational
asked_for NmtCommandSpecifier.stop = NmtState.stopped
asked_for NmtCommandSpecifier.enter_pre_op = NmtState.pre_operational
asked_for NmtCommandSpecifier.reset_app = NmtState.bootup
asked_for NmtCommandSpecifier.reset_comm = NmtState.bootup

-- A node obeys a command to all nodes, or to its own node ID.
abbrev pub commanded : NodeId → Option NmtCommand → NmtState → NmtState
commanded node_id none nmt_state = nmt_state
commanded NodeId.unconfigured (some cmd) nmt_state = nmt_state
commanded (NodeId.configured id) (some cmd) nmt_state =
    if (cmd.node == 0) || (cmd.node == id) then asked_for cmd.cs else nmt_state

-- From the node ID, the one that was set, the flag for starting, the state and the command in the
-- mailbox to the state after a call.
abbrev pub next_state : NodeId → Option NodeId → Bool → NmtState → Option NmtCommand → NmtState
next_state node_id new_node_id auto_start nmt_state cmd =
    let id = present_id node_id new_node_id in
    commanded id cmd (settled id auto_start (woken new_node_id nmt_state))

-- What is in the mailbox for a pending command.
abbrev pub pending : Option NmtCommand → Option CanMessage
pending none = none
pending (some cmd) = some (command_message cmd)

-- A command is read back from its frame among all messages.
pub message_of-command_message :
    (cmd : NmtCommand)
    → message_of (command_message cmd) ≡ some (ok (ZencanMessage.nmt_command cmd))
unfolding message_of command_message
message_of-command_message cmd = rw (command_of-command_message cmd) refl

nmt_target-asked_for : (cs : NmtCommandSpecifier) → nmt_target cs ≡ asked_for cs
unfolding nmt_target
nmt_target-asked_for NmtCommandSpecifier.start = refl
nmt_target-asked_for NmtCommandSpecifier.stop = refl
nmt_target-asked_for NmtCommandSpecifier.enter_pre_op = refl
nmt_target-asked_for NmtCommandSpecifier.reset_app = refl
nmt_target-asked_for NmtCommandSpecifier.reset_comm = refl

left_bootup-woken : (nmt_state : NmtState) → left_bootup nmt_state ≡ woken none nmt_state
unfolding left_bootup
left_bootup-woken NmtState.bootup = refl
left_bootup-woken NmtState.stopped = refl
left_bootup-woken NmtState.operational = refl
left_bootup-woken NmtState.pre_operational = refl

module _ {S : Type 0} where
  take_command-commanded :
      (cmd : NmtCommand) (node : Node S) (node_id : NodeId)
      → node.node_id ≡ node_id
      → ((take_command cmd node).nmt_state ≡ commanded node_id (some cmd) node.nmt_state)
        × ((take_command cmd node).node_id ≡ node_id)
  unfolding take_command
  take_command-commanded cmd node NodeId.unconfigured e = rw e (refl, refl)
  take_command-commanded cmd node (NodeId.configured id) e =
      elim (Bool-cases ((cmd.node == 0) || (cmd.node == id))) [
        | inl addressed ↦ rw (e, addressed) (nmt_target-asked_for cmd.cs, refl)
        | inr other ↦ rw (e, other) (refl, refl)
      ]

  run_nmt-commanded :
      (run run' : Run S) (cmd : Option NmtCommand)
      → run.mbox.nmt_mbox ≡ pending cmd
      → run_nmt run ≡ some run'
      → (run'.node.nmt_state ≡ commanded run.node.node_id cmd run.node.nmt_state)
        × (run'.node.node_id ≡ run.node.node_id)
        × (run'.mbox.nmt_mbox ≡ none)
  unfolding run_nmt take_message
  run_nmt-commanded run run' none e h =
      subst
        (λ r.
          (r.node.nmt_state ≡ run.node.nmt_state)
          × (r.node.node_id ≡ run.node.node_id)
          × (r.mbox.nmt_mbox ≡ none))
        (some_injective run run' (simp e at h)) (refl, refl, e)
  run_nmt-commanded run run' (some cmd) e h =
      let (obeys, same_id) = take_command-commanded cmd run.node run.node.node_id refl in
      subst
        (λ r.
          (r.node.nmt_state ≡ commanded run.node.node_id (some cmd) run.node.nmt_state)
          × (r.node.node_id ≡ run.node.node_id)
          × (r.mbox.nmt_mbox ≡ none))
        (some_injective _ run' (simp (e, message_of-command_message cmd) at h))
        (obeys, same_id, refl)

module _ {S : Type 0} (crc16 : Crc) (table : List (OdEntry S)) (state : NodeStateAccess S)
    (events : ObjectEvents S) where
  pub start_automatically-settled :
      (node : Node S) (node_id : NodeId) (auto_start : Bool)
      → node.node_id ≡ node_id
      → node.auto_start ≡ auto_start
      → ((start_automatically node).nmt_state ≡ settled node_id auto_start node.nmt_state)
        × ((start_automatically node).node_id ≡ node_id)
        × ((start_automatically node).sdo_server ≡ node.sdo_server)
  unfolding start_automatically is_configured
  start_automatically-settled node NodeId.unconfigured true e f = rw (e, f) (refl, refl, refl)
  start_automatically-settled node NodeId.unconfigured false e f = rw (e, f) (refl, refl, refl)
  start_automatically-settled node (NodeId.configured id) true e f = rw (e, f) (refl, refl, refl)
  start_automatically-settled node (NodeId.configured id) false e f = rw (e, f) (refl, refl, refl)

  pub reassign-begun :
      (now_us : ℕ) (node : Node S)
      → let new : Node S = reassign (record node { last_process_time_us = now_us }) in
        (left_bootup new.nmt_state ≡ woken node.reassigned_node_id node.nmt_state)
        × (new.node_id ≡ present_id node.node_id node.reassigned_node_id)
        × (new.auto_start ≡ node.auto_start)
        × (new.sdo_server ≡ node.sdo_server)
  unfolding reassign left_bootup
  reassign-begun now_us node = elim (Option-cases node.reassigned_node_id) [
    | inl same ↦ simp same (left_bootup-woken node.nmt_state, refl, refl, refl)
    | inr (id, new) ↦ simp new (refl, refl, refl, refl)
  ]

  -- After a call of `process` that returns, the state of the node and its node ID are those of the NMT
  -- state machine that `next_state` writes out: a node ID that was set takes effect and makes the node
  -- boot, a node that boots becomes pre-operational, one with a node ID that is to start by itself
  -- becomes operational, and then the command in the mailbox, if there is one and it is addressed to the
  -- node, sets the state. The mailbox is empty. No SDO, LSS or PDO traffic changes that.
  pub process-commanded :
      (now_us : ℕ) (node : Node S) (mbox : NodeMbox) (od : S) (cmd : Option NmtCommand)
      (run : Run S)
      → mbox.nmt_mbox ≡ pending cmd
      → process crc16 table state events now_us node mbox od ≡ some run
      → (run.node.nmt_state
          ≡ next_state node.node_id node.reassigned_node_id node.auto_start node.nmt_state cmd)
        × (run.node.node_id ≡ present_id node.node_id node.reassigned_node_id)
        × (run.mbox.nmt_mbox ≡ none)
  process-commanded now_us node mbox od cmd run e h =
      let steps = process-Steps crc16 table state events now_us node mbox od run h in
      let (woke, same_id, same_start, same_mail, _, _, _) =
        leave_bootup-left table (begun now_us node mbox od) steps.booted steps.boots in
      let (obeys, still_id, emptied) =
        run_nmt-commanded steps.served steps.commanded cmd
          (steps.serves.nmt_mbox_same ∙ same_mail ∙ e) steps.commands in
      let (wakes, id_same, start_same, _) = reassign-begun now_us node in
      let id = present_id node.node_id node.reassigned_node_id in
      let (starts, kept_id, _) =
        start_automatically-settled steps.booted.node id node.auto_start (same_id ∙ id_same)
          (same_start ∙ start_same) in
      let (beats, beat_id, _, beat_mail, _, _, _) = run_heartbeat-Stays now_us steps.selected in
      let served_id : steps.served.node.node_id ≡ id = steps.serves.node_id_same ∙ kept_id in
      let before : steps.served.node.nmt_state
          ≡ settled id node.auto_start (woken node.reassigned_node_id node.nmt_state) =
        steps.serves.nmt_state_same ∙ starts ∙ ap (settled id node.auto_start) (woke ∙ wakes) in
      (
        steps.exchanges.nmt_state_same
            ∙ beats
            ∙ steps.selects.nmt_state_same
            ∙ obeys
            ∙ ap (λ i. commanded i cmd steps.served.node.nmt_state) served_id
            ∙ ap (commanded id cmd) before,
        steps.exchanges.node_id_same ∙ beat_id ∙ steps.selects.node_id_same ∙ still_id ∙ served_id,
        steps.exchanges.nmt_mbox_same ∙ beat_mail ∙ steps.selects.nmt_mbox_same ∙ emptied,
      )
