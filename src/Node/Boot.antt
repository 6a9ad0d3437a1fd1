-- ===== src/Node/Boot.antt =====
-- The first parts of `Node::process`: a node ID that was set, booting with its heartbeat, and starting
-- without a command.
use zencan.Base.{
  ℕ, ◌+◌, ◌*◌, ◌%◌, ◌^◌, Bool, true, false, not, List, [], ◌∷◌, ◌++◌, Option, none, some, maybe,
  if◌then◌else◌, ◌&&◌,
}
use zencan.Can.{CanId, CanMessage}
use zencan.Dict.{OdEntry}
use zencan.Lss.{NodeId, LssConfig, raw, update_config}
use zencan.Nmt.{NmtState, heartbeat_message}
use zencan.Node.{NodeMbox, Node, is_configured, read_identity}

-- The node with what it works on, the frames sent so far, whether objects were updated, and the node
-- IDs that the application was asked to store.
pub record Run (S : Type 0) : Type 0 where
  pub node : Node S
  pub mbox : NodeMbox
  pub od : S
  pub sent : List CanMessage
  pub update_flag : Bool
  pub stored_ids : List NodeId

-- `self.nmt_state == …`, the derived equality.
abbrev pub in_nmt_state : NmtState → NmtState → Bool
in_nmt_state NmtState.bootup NmtState.bootup = true
in_nmt_state NmtState.stopped NmtState.stopped = true
in_nmt_state NmtState.operational NmtState.operational = true
in_nmt_state NmtState.pre_operational NmtState.pre_operational = true
in_nmt_state _ _ = false

unfoldable pub sdo_tx_cob_id : NodeId → CanId
unfolding raw
sdo_tx_cob_id node_id = CanId.std (0x580 + raw node_id)

unfoldable pub sdo_rx_cob_id : NodeId → CanId
unfolding raw
sdo_rx_cob_id node_id = CanId.std (0x600 + raw node_id)

module _ {S : Type 0} where
  -- `send_heartbeat` of a node with this ID.
  unfoldable pub heartbeat_with : ℕ → Run S → Run S
  unfolding heartbeat_message
  heartbeat_with id run = record run {
    node = record run.node {
      heartbeat_toggle = not run.node.heartbeat_toggle;
      next_heartbeat_time_us =
          (run.node.next_heartbeat_time_us + run.node.heartbeat_period_ms * 1000) % 2 ^ 64;
    };
    sent =
        run.sent
        ++ (heartbeat_message
              (record { node = id; toggle = run.node.heartbeat_toggle; state = run.node.nmt_state })
            ∷ []);
  }

  unfoldable pub send_heartbeat : Run S → Run S
  unfolding heartbeat_with
  send_heartbeat run = elim run.node.node_id [
    | NodeId.unconfigured ↦ run
    | NodeId.configured id ↦ heartbeat_with id run
  ]

  unfoldable pub boot_up : List (OdEntry S) → Run S → Option (Run S)
  unfolding read_identity update_config is_configured sdo_rx_cob_id send_heartbeat
  boot_up table run = maybe (read_identity table run.od) none λ (identity, od).
      let config : LssConfig = record {
        identity = identity;
        node_id = run.node.node_id;
        store_supported = run.node.store_node_config;
      } in
      let booted = record run {
        node = record run.node { lss_slave = update_config config run.node.lss_slave };
        od = od;
      } in
      some (
        if is_configured run.node.node_id
        then send_heartbeat (record booted {
          mbox = record run.mbox { sdo_cob_id = some (sdo_rx_cob_id run.node.node_id) };
        })
        else booted)

  -- The node ID that was set takes effect.
  unfoldable pub reassign : Node S → Node S
  reassign node = maybe node.reassigned_node_id node λ new_node_id. record node {
    node_id = new_node_id;
    nmt_state = NmtState.bootup;
    reassigned_node_id = none;
  }

  unfoldable pub leave_bootup : List (OdEntry S) → Run S → Option (Run S)
  unfolding boot_up
  leave_bootup table run =
      if in_nmt_state run.node.nmt_state NmtState.bootup
      then boot_up table
          (record run { node = record run.node { nmt_state = NmtState.pre_operational } })
      else some run

  unfoldable pub start_automatically : Node S → Node S
  unfolding is_configured
  start_automatically node =
      if node.auto_start && is_configured node.node_id
      then record node { auto_start = false; nmt_state = NmtState.operational }
      else node
