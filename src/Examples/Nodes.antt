-- ===== src/Examples/Nodes.antt =====
-- The theorems on nodes at concrete inputs.
use zencan.Base.{
  ℕ, ◌≤◌, ◌≡◌, refl, inr, true, false, List, [], ◌∷◌, none, some, ok, arith, replicate,
}
use zencan.Dict.{ObjectAccess, OdEntry}
use zencan.Lss
use zencan.Lss.{NodeId, LssSlave}
use zencan.Nmt.{NmtState, NmtCommand, NmtCommandSpecifier, command_message}
use zencan.Node.Boot.{Run}
use zencan.Node.{NodeStateAccess, NodeMbox, Node, read_identity}
use zencan.Node.Commands.{process-commanded}
use zencan.Node.Heartbeats.{Beats, IsPaced, process-IsPaced}
use zencan.Node.Mailbox.{store_message}
use zencan.Node.Process.{process}
use zencan.Node.Returns.{Returns, process-store_message}
use zencan.NmtMaster.{MasterNode, handle_heartbeat}
use zencan.NmtMaster.Table.{heard_at, handle_heartbeat-below}
use zencan.Objects.{new_u32}
use zencan.Pdo
use zencan.Pdo.{ObjectEvents}
use zencan.Server.Receiver
use zencan.Server.State.{Crc, SdoState}

abbrev crc16 : Crc
crc16 = record { init = 0; update = λ crc bytes. crc; get = λ crc. crc }

-- The identity of the node, whose four numbers are 1.
abbrev identity : ObjectAccess ℕ
identity = record {
  read = λ sub offset buf s. (ok 4, 1 ∷ 0 ∷ 0 ∷ 0 ∷ [], s);
  write = λ sub bytes s. (ok tt, s);
  begin_partial = λ sub s. (ok tt, s);
  write_partial = λ sub bytes s. (ok tt, s);
  end_partial = λ sub s. (ok tt, s);
  sub_info = λ sub s. ok new_u32;
}

abbrev table : List (OdEntry ℕ)
table = record { index = 0x1018; object = identity } ∷ []

abbrev state : NodeStateAccess ℕ
state = record {
  n_rpdos = 0;
  n_tpdos = 0;
  rpdo = λ i s. Pdo.new;
  tpdo = λ i s. Pdo.new;
  set_rpdo = λ i pdo s. s;
  set_tpdo = λ i pdo s. s;
  toggle = λ s. (false, s);
}

abbrev events : ObjectEvents ℕ
events = record { read_event_flag = λ index sub s. false; clear_events = λ index s. s }

abbrev slave : LssSlave
slave = Lss.new (record {
  identity = record { vendor_id = 1; product_code = 1; revision = 1; serial = 1 };
  node_id = NodeId.configured 5;
  store_supported = false;
})

-- A node that last ran after one second, with a heartbeat each second.
abbrev node : Node ℕ
node = record {
  node_id = NodeId.configured 5;
  nmt_state = NmtState.pre_operational;
  sdo_server = SdoState.idle;
  lss_slave = slave;
  message_count = 0;
  reassigned_node_id = none;
  store_node_config = false;
  next_heartbeat_time_us = 1500000;
  heartbeat_period_ms = 1000;
  heartbeat_toggle = false;
  auto_start = false;
  last_process_time_us = 1000000;
}

abbrev mbox : NodeMbox
mbox = record {
  sdo_cob_id = none;
  sdo_receiver = Receiver.new (replicate 14 0);
  nmt_mbox = none;
  lss_receiver = record {
    selected_identity = record { vendor_id = 0; product_code = 0; revision = 0; serial = 0 };
    rx_req = none;
  };
  sync_flag = false;
}

abbrev start_node : NmtCommand
start_node = record { cs = NmtCommandSpecifier.start; node = 5 }

identity_is_readable : Returns (read_identity table 0)
unfolding read_identity
identity_is_readable = (_, refl)

receiver_is_empty : mbox.sdo_receiver.request ≡ none
unfolding Receiver.new
receiver_is_empty = refl

process-store_message_example :
    (run : Run ℕ) × (process crc16 table state events 2000000 node
        (store_message state (command_message start_node) mbox 0).mbox
        0
      ≡ some run)
    × (run.node.nmt_state ≡ NmtState.operational)
    × (run.node.node_id ≡ NodeId.configured 5)
unfolding store_message command_message
process-store_message_example =
    process-store_message crc16 table state events 2000000 node mbox 0 none start_node
      (receiver_is_empty, refl, refl, refl) identity_is_readable

-- The run of the node for that command.
started :
    (run : Run ℕ) × (process crc16 table state events 2000000 node
        (record mbox { nmt_mbox = some (command_message start_node) })
        0
      ≡ some run)
unfolding store_message command_message
started = (process-store_message_example.0, process-store_message_example.1)

process-commanded_example :
    (started.0.node.nmt_state ≡ NmtState.operational)
    × (started.0.node.node_id ≡ NodeId.configured 5)
    × (started.0.mbox.nmt_mbox ≡ none)
process-commanded_example =
    process-commanded crc16 table state events 2000000 node
      (record mbox { nmt_mbox = some (command_message start_node) }) 0 (some start_node) started.0
      refl started.1

process-IsPaced_example :
    IsPaced started.0.node
    × (2000000 ≤ started.0.node.next_heartbeat_time_us)
    × (1500000 ≤ 2000000 → Beats 5 started.0)
process-IsPaced_example =
    process-IsPaced crc16 table state events 2000000 node
      (record mbox { nmt_mbox = some (command_message start_node) }) 0 started.0 5 refl refl refl
      (omega arith) (omega arith) (omega arith) (omega arith) started.1

-- Node 9 is known when node 5 is heard for the first time.
abbrev known : MasterNode
known = record { id = 9; state = NmtState.operational; last_status = 1; last_toggle = false }

node_lost_example :
    handle_heartbeat 7
      (record { node = 5; toggle = true; state = NmtState.operational })
      (known ∷ [])
    ≡ heard_at 7 (record { node = 5; toggle = true; state = NmtState.operational }) ∷ []
node_lost_example =
    handle_heartbeat-below 7 (record { node = 5; toggle = true; state = NmtState.operational }) []
      known [] tt (omega arith) (inr (inr (omega arith)))
