-- ===== src/Examples/Scan.antt =====
-- The theorems on LSS messages and on the fast scan at concrete inputs.
use zencan.Base.{
  ℕ, ◌<◌, ◌^◌, ◌≡◌, refl, true, false, List, [], ◌∷◌, none, some, ok, arith, inl, All,
}
use zencan.Base.Search.{Any}
use zencan.Can.{payload, lss_resp_id}
use zencan.Lss.{NodeId, LssIdentity, LssState, LssRequest, LssResponse, by_addr, same_node}
use zencan.Lss.Message.Request
use zencan.Lss.Message.Response
use zencan.Lss.Master.{fast_scan, send_fs, scan_subs}
use zencan.Lss.Master.Bus.{Slave, bus}
use zencan.Lss.Master.Answer.{word, listens, IsQuiet}
use zencan.Lss.Master.Send.{master}
use zencan.Lss.Master.Scan.{configs}
use zencan.Lss.Master.Found.{fast_scan-Any, fast_scan-none}

abbrev scan_request : LssRequest
scan_request = LssRequest.fast_scan 0x8000_0001 31 2 3

scan_request_bytes :
    payload (Request.to_can_message scan_request) ≡ 0x51 ∷ 1 ∷ 0 ∷ 0 ∷ 0x80 ∷ 31 ∷ 2 ∷ 3 ∷ []
unfolding Request.to_can_message
scan_request_bytes = refl

from_bytes-bytes_example :
    Request.from_bytes (payload (Request.to_can_message scan_request)) ≡ ok scan_request
from_bytes-bytes_example = Request.from_bytes-bytes scan_request (omega arith)

abbrev serial_answer : LssResponse
serial_answer = LssResponse.inquire_serial_ack 0xCAFE

from_message-lss_response_example :
    Response.from_message (Response.to_can_message serial_answer lss_resp_id) ≡ ok serial_answer
from_message-lss_response_example = Response.from_message-lss_response serial_answer (omega arith)

abbrev sensor : LssIdentity
sensor = record { vendor_id = 0xCAFE; product_code = 1032; revision = 1; serial = 0xFFFF_FFFF }

abbrev motor : LssIdentity
motor = record { vendor_id = 0xCAFE; product_code = 5; revision = 2; serial = 3 }

abbrev node_with : NodeId → LssIdentity → Slave
node_with node_id identity = record {
  rx = record {
    selected_identity = record { vendor_id = 0; product_code = 0; revision = 0; serial = 0 };
    rx_req = none;
  };
  slave = record {
    state = LssState.waiting;
    config = record { identity = identity; node_id = node_id; store_supported = false };
    fast_scan_sub = 2;
    pending_node_id = node_id;
    store_config_flag = false;
  };
}

abbrev unnamed : List Slave
unnamed =
    node_with NodeId.unconfigured sensor
    ∷ node_with (NodeId.configured 3) sensor
    ∷ node_with NodeId.unconfigured motor
    ∷ []

sensor_words : (sub : ℕ) → word sensor sub < 2 ^ 32
unfolding by_addr
sensor_words sub = ground arith

motor_words : (sub : ℕ) → word motor sub < 2 ^ 32
unfolding by_addr
motor_words sub = ground arith

quiet :
    (node_id : NodeId) (identity : LssIdentity)
    → ((sub : ℕ) → word identity sub < 2 ^ 32)
    → IsQuiet (node_with node_id identity)
quiet node_id identity words = record {
  no_request = refl;
  no_store = refl;
  settled = refl;
  words = words;
}

unnamed-IsQuiet : All IsQuiet unnamed
unnamed-IsQuiet = (
  quiet NodeId.unconfigured sensor sensor_words,
  (
    quiet (NodeId.configured 3) sensor sensor_words,
    (quiet NodeId.unconfigured motor motor_words, tt),
  ),
)

unnamed-listens : Any (λ node. listens node.slave ≡ true) unnamed
unfolding same_node
unnamed-listens = inl refl

fast_scan_example :
    (identity : LssIdentity) × (nodes' : List Slave) × (fast_scan bus (master unnamed)
      ≡ (some identity, master nodes'))
    × (configs nodes' ≡ configs unnamed)
    × Any
        (λ node.
          (node.slave.config.identity ≡ identity) × (node.slave.state ≡ LssState.configuring))
        nodes'
fast_scan_example = fast_scan-Any unnamed unnamed-IsQuiet unnamed-listens

-- Of two slaves, the one with the smaller identity is found.
fast_scan_runs : (fast_scan bus (master unnamed)).0 ≡ some motor
unfolding fast_scan send_fs scan_subs bus
fast_scan_runs = refl

abbrev named : List Slave
named = node_with (NodeId.configured 3) sensor ∷ []

named_deaf : All (λ node. listens node.slave ≡ false) named
unfolding same_node
named_deaf = (refl, tt)

fast_scan-none_example : fast_scan bus (master named) ≡ (none, master named)
fast_scan-none_example =
    fast_scan-none named (quiet (NodeId.configured 3) sensor sensor_words, tt) named_deaf
