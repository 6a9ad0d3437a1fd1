-- ===== src/Node.antt =====
-- zencan-node/src/node.rs, node_mbox.rs and node_state.rs: the state of a node, its mailbox, and what
-- it reads from its own objects. Node/Mailbox takes the frames, Node/Process has `Node::process`.
pub mod Mailbox
pub mod Pdos
pub mod Boot
pub mod Process
pub mod Phases
pub mod Steps
pub mod Waking
pub mod Commands
pub mod Returns
pub mod Timing
pub mod Heartbeats
use zencan.Base.{
  ℕ, ◌+◌, ◌-◌, Bool, true, false, not, List, Option, none, some, Result, ok, err, either, maybe,
  ◌==◌, if◌then◌else◌, replicate,
}
use zencan.Base.Bits.{from_le}
use zencan.Can.{CanId, CanMessage}
use zencan.Dict.{ObjectAccess, OdEntry, find_object}
use zencan.Lss
use zencan.Lss.{NodeId, LssIdentity, LssConfig, LssReceiver, LssSlave}
use zencan.Nmt.{NmtState}
use zencan.Pdo.{Pdo}
use zencan.Sdo.Abort.{AbortCode}
use zencan.Server.Receiver.{SdoReceiver}
use zencan.Server.State.{SdoState}

-- `dyn NodeStateAccess`: the PDOs, and the toggle of the event flags. Objects configure the PDOs, so
-- they are a part of the state that all objects share.
pub record NodeStateAccess (S : Type 0) : Type 0 where
  pub n_rpdos : ℕ
  pub n_tpdos : ℕ
  pub rpdo : ℕ → S → Pdo S
  pub tpdo : ℕ → S → Pdo S
  pub set_rpdo : ℕ → Pdo S → S → S
  pub set_tpdo : ℕ → Pdo S → S → S
  pub toggle : S → Bool × S

-- `NodeMbox`. The RPDOs are those of the node state.
pub record NodeMbox : Type 0 where
  pub sdo_cob_id : Option CanId
  pub sdo_receiver : SdoReceiver
  pub nmt_mbox : Option CanMessage
  pub lss_receiver : LssReceiver
  pub sync_flag : Bool

-- `Node`. Of the callback that stores the configuration it counts whether it is registered.
pub record Node (S : Type 0) : Type 0 where
  pub node_id : NodeId
  pub nmt_state : NmtState
  pub sdo_server : SdoState S
  pub lss_slave : LssSlave
  pub message_count : ℕ
  pub reassigned_node_id : Option NodeId
  pub store_node_config : Bool
  pub next_heartbeat_time_us : ℕ
  pub heartbeat_period_ms : ℕ
  pub heartbeat_toggle : Bool
  pub auto_start : Bool
  pub last_process_time_us : ℕ

unfoldable pub is_configured : NodeId → Bool
is_configured NodeId.unconfigured = false
is_configured (NodeId.configured id) = true

abbrev identity_index : ℕ
identity_index = 0x1018

abbrev heartbeat_producer_time_index : ℕ
heartbeat_producer_time_index = 0x1017

abbrev auto_start_index : ℕ
auto_start_index = 0x5000

module _ {S : Type 0} where
  -- `read_u8`, `read_u16` and `read_u32`, by the count of bytes; `none` is an error.
  unfoldable pub read_number : ℕ → ObjectAccess S → ℕ → S → Option (ℕ × S)
  read_number width obj sub s =
      let (answer, buf, s1) = obj.read sub 0 (replicate width 0) s in
      either answer (λ e. none) (λ read_len. some (from_le buf, s1))

  -- `none` where the identity cannot be read, which every caller unwraps.
  unfoldable pub read_identity : List (OdEntry S) → S → Option (LssIdentity × S)
  unfolding read_number find_object
  read_identity od s = maybe (find_object od identity_index) none λ obj.
      maybe (read_number 4 obj 1 s) none λ (vendor_id, s1).
        maybe (read_number 4 obj 2 s1) none λ (product_code, s2).
          maybe (read_number 4 obj 3 s2) none λ (revision, s3).
            maybe (read_number 4 obj 4 s3) none λ (serial, s4). some (
              record {
                vendor_id = vendor_id;
                product_code = product_code;
                revision = revision;
                serial = serial;
              },
              s4,
            )

  unfoldable pub read_heartbeat_period : List (OdEntry S) → S → Option (ℕ × S)
  unfolding read_number find_object
  read_heartbeat_period od s =
      maybe (find_object od heartbeat_producer_time_index) none λ obj. read_number 2 obj 0 s

  unfoldable pub read_autostart : List (OdEntry S) → S → Option (Bool × S)
  unfolding read_number find_object
  read_autostart od s =
      maybe (find_object od auto_start_index) none
        λ obj. maybe (read_number 1 obj 0 s) none λ (value, s1). some (not (value == 0), s1)

  -- `Node::new`; `none` is a panic.
  unfoldable pub new : NodeId → List (OdEntry S) → S → Option (Node S × S)
  unfolding read_identity read_heartbeat_period read_autostart
  new node_id od s = maybe (read_identity od s) none λ (identity, s1).
      maybe (read_heartbeat_period od s1) none λ (heartbeat_period_ms, s2).
        maybe (read_autostart od s2) none λ (auto_start, s3). some (
          record {
            node_id = node_id;
            nmt_state = NmtState.bootup;
            sdo_server = SdoState.idle;
            lss_slave =
                Lss.new
                  (record { identity = identity; node_id = node_id; store_supported = false });
            message_count = 0;
            reassigned_node_id = none;
            store_node_config = false;
            next_heartbeat_time_us = 0;
            heartbeat_period_ms = heartbeat_period_ms;
            heartbeat_toggle = false;
            auto_start = auto_start;
            last_process_time_us = 0;
          },
          s3,
        )

  unfoldable pub set_node_id : NodeId → Node S → Node S
  set_node_id node_id node = record node { reassigned_node_id = some node_id }
