-- ===== src/Node/Process.antt =====
-- `Node::process`, in the parts that its body has, each on the state of a run.
use zencan.Base.{
  ℕ, ◌+◌, ◌-◌, ◌%◌, ◌^◌, true, false, not, List, [], ◌∷◌, ◌++◌, Option, none, some, either, maybe,
  leb, ltb, ◌==◌, if◌then◌else◌, ◌&&◌, ◌||◌,
}
use zencan.Can.{lss_resp_id}
use zencan.Dict.{OdEntry}
use zencan.Lss
use zencan.Lss.{NodeId, LssConfig, LssResponse, LssEvent, raw, pending_event, update_config}
use zencan.Lss.Message.Response
use zencan.Message.{ZencanMessage, message_of}
use zencan.Nmt.{NmtState, NmtCommand, NmtCommandSpecifier}
use zencan.Node.{NodeStateAccess, NodeMbox, Node, set_node_id}
use zencan.Node.Pdos.{process_pdos}
use zencan.Pdo.{ObjectEvents}
use zencan.Sdo.Response.Encode
use zencan.Server
use zencan.Server.State.{Crc}
use zencan.Node.Boot.{
  Run, in_nmt_state, sdo_tx_cob_id, send_heartbeat, reassign, leave_bootup, start_automatically,
}

-- The state that a command asks for, `handle_nmt_command`.
unfoldable pub nmt_target : NmtCommandSpecifier → NmtState
nmt_target NmtCommandSpecifier.start = NmtState.operational
nmt_target NmtCommandSpecifier.stop = NmtState.stopped
nmt_target NmtCommandSpecifier.enter_pre_op = NmtState.pre_operational
nmt_target NmtCommandSpecifier.reset_app = NmtState.bootup
nmt_target NmtCommandSpecifier.reset_comm = NmtState.bootup

module _ {S : Type 0} where
  unfoldable pub run_sdo : Crc → List (OdEntry S) → ℕ → Run S → Option (Run S)
  unfolding Server.process Encode.to_can_message sdo_tx_cob_id
  run_sdo crc16 table elapsed run =
      let server : Server.Server S = record {
        state = run.node.sdo_server;
        rx = run.mbox.sdo_receiver;
        od = run.od;
      } in
      maybe (Server.process crc16 table server elapsed) none λ p.
        let after = record run {
          node = record run.node { sdo_server = p.server.state };
          mbox = record run.mbox { sdo_receiver = p.server.rx };
          od = p.server.od;
          update_flag = maybe p.updated_object run.update_flag (λ index. true);
        } in
        maybe p.response (some after) λ resp.
          maybe (Encode.to_can_message resp (sdo_tx_cob_id run.node.node_id)) none
            (λ msg. some (record after { sent = run.sent ++ (msg ∷ []) }))

  -- A command that is read from the mailbox; the counter is a `u32`.
  unfoldable pub take_command : NmtCommand → Node S → Node S
  unfolding nmt_target
  take_command cmd node =
      let counted = record node { message_count = (node.message_count + 1) % 2 ^ 32 } in
      elim node.node_id [
        | NodeId.unconfigured ↦ counted
        | NodeId.configured id ↦
            if (cmd.node == 0) || (cmd.node == id)
            then record counted { nmt_state = nmt_target cmd.cs }
            else counted
      ]

  -- Of the other messages nothing comes.
  unfoldable pub take_message : ZencanMessage → Run S → Run S
  unfolding take_command
  take_message (ZencanMessage.nmt_command cmd) run = record run { node = take_command cmd run.node }
  take_message _ run = run

  -- `none` is a panic of the conversion.
  unfoldable pub run_nmt : Run S → Option (Run S)
  unfolding take_message message_of
  run_nmt run =
      let emptied = record run { mbox = record run.mbox { nmt_mbox = none } } in
      maybe run.mbox.nmt_mbox (some run) λ msg. maybe (message_of msg) none λ converted.
        some (either converted (λ e. emptied) (λ open_msg. take_message open_msg emptied))

  unfoldable pub take_event : Option LssEvent → Run S → Run S
  unfolding set_node_id
  take_event none run = run
  take_event (some LssEvent.store_configuration) run =
      if run.node.store_node_config
      then record run { stored_ids = run.stored_ids ++ (run.node.node_id ∷ []) }
      else run
  take_event (some (LssEvent.activate_bit_timing table index delay)) run = run
  take_event (some (LssEvent.configure_node_id node_id)) run = record run {
    node = set_node_id node_id run.node;
  }

  unfoldable pub run_lss : Run S → Option (Run S)
  unfolding Lss.process pending_event take_event Response.to_can_message
  run_lss run =
      let (rx, processed) = Lss.process run.mbox.lss_receiver run.node.lss_slave in
      maybe processed none λ (result, slave).
        let after = record run {
          node = record run.node { lss_slave = slave };
          mbox = record run.mbox { lss_receiver = rx };
        } in
        some (
          either result (λ e. after)
            λ response. maybe response after λ resp.
              take_event (pending_event slave).0 (record after {
                node = record run.node { lss_slave = (pending_event slave).1 };
                sent = run.sent ++ (Response.to_can_message resp lss_resp_id ∷ []);
              }))

  -- Catches up if the node is behind.
  unfoldable pub catch_up : ℕ → Run S → Run S
  catch_up now_us run =
      if ltb run.node.next_heartbeat_time_us now_us
      then record run { node = record run.node { next_heartbeat_time_us = now_us } }
      else run

  unfoldable pub run_heartbeat : ℕ → Run S → Run S
  unfolding send_heartbeat catch_up
  run_heartbeat now_us run =
      if not (run.node.heartbeat_period_ms == 0) && leb run.node.next_heartbeat_time_us now_us
      then catch_up now_us (send_heartbeat run)
      else run

  module _ (crc16 : Crc) (table : List (OdEntry S)) (state : NodeStateAccess S)
      (events : ObjectEvents S) where
    unfoldable pub run_pdos : Run S → Option (Run S)
    unfolding process_pdos
    run_pdos run =
        if in_nmt_state run.node.nmt_state NmtState.operational
        then maybe (process_pdos state events run.mbox.sync_flag run.od) none
            (λ (sent, updated, od). some (record run {
              mbox = record run.mbox { sync_flag = false };
              od = od;
              sent = run.sent ++ sent;
              update_flag = run.update_flag || updated;
            }))
        else some run

    -- The part of `process` up to the PDOs.
    unfoldable pub run_protocols : ℕ → ℕ → Run S → Option (Run S)
    unfolding leave_bootup start_automatically run_sdo run_nmt run_lss run_heartbeat
    run_protocols now_us elapsed run = maybe (leave_bootup table run) none λ booted.
        maybe
          (run_sdo crc16 table elapsed (record booted { node = start_automatically booted.node }))
          none
          λ served. maybe (run_nmt served) none λ commanded.
            maybe (run_lss commanded) none λ selected. some (run_heartbeat now_us selected)

    -- `process`; `none` is a panic. The times are `u64`, `elapsed` is cut to a `u32`.
    unfoldable pub process : ℕ → Node S → NodeMbox → S → Option (Run S)
    unfolding reassign run_protocols run_pdos
    process now_us node mbox od =
        let elapsed = (now_us + 2 ^ 64 - node.last_process_time_us) % 2 ^ 64 % 2 ^ 32 in
        let begun : Run S = record {
          node = reassign (record node { last_process_time_us = now_us });
          mbox = mbox;
          od = od;
          sent = [];
          update_flag = false;
          stored_ids = [];
        } in
        maybe (run_protocols now_us elapsed begun) none run_pdos
