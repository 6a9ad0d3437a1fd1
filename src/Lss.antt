-- ===== src/Lss.antt =====
-- The LSS slave: zencan-node/src/lss_slave.rs, with its messages and identities from
-- zencan-common/src/lss.rs and the node IDs of zencan-common/src/node_id.rs.
pub mod Selection
pub mod Message
pub mod Master
use zencan.Base.{
  ℕ, ◌*◌, ◌%◌, ◌^◌, ◌-◌, Bool, true, false, not, ◌&&◌, Option, none, some, Result, ok, err, either,
  maybe, bit_and, ◌==◌, ltb, if◌then◌else◌,
}

pub data NodeId : Type 0 where
  unconfigured : NodeId
  configured : ℕ → NodeId

-- `NodeId::try_from(u8)`, which takes every number.
unfoldable pub node_id_of : ℕ → NodeId
node_id_of value = if value == 255 then NodeId.unconfigured else NodeId.configured value

unfoldable pub raw : NodeId → ℕ
raw NodeId.unconfigured = 255
raw (NodeId.configured id) = id

-- The derived `==`.
unfoldable pub same_node : NodeId → NodeId → Bool
same_node NodeId.unconfigured NodeId.unconfigured = true
same_node (NodeId.configured a) (NodeId.configured b) = a == b
same_node _ _ = false

pub record LssIdentity : Type 0 where
  pub vendor_id : ℕ
  pub product_code : ℕ
  pub revision : ℕ
  pub serial : ℕ

unfoldable pub same_identity : LssIdentity → LssIdentity → Bool
same_identity a b =
    (a.vendor_id == b.vendor_id)
    && (a.product_code == b.product_code)
    && (a.revision == b.revision)
    && (a.serial == b.serial)

-- `none` is a panic.
unfoldable pub by_addr : LssIdentity → ℕ → Option ℕ
by_addr identity addr =
    if addr == 0
    then some identity.vendor_id
    else if addr == 1
    then some identity.product_code
    else if addr == 2
    then some identity.revision
    else if addr == 3
    then some identity.serial
    else none

pub data LssState : Type 0 where
  waiting configuring : LssState

-- `LssState::from_byte`, whose error is `MessageError::InvalidField`.
unfoldable pub state_of : ℕ → Option LssState
state_of b =
    if b == 0 then some LssState.waiting else if b == 1 then some LssState.configuring else none

pub data LssRequest : Type 0 where
  switch_mode_global : (mode : ℕ) → LssRequest
  configure_node_id : (node_id : ℕ) → LssRequest
  configure_bit_timing : (table index : ℕ) → LssRequest
  store_configuration : LssRequest
  activate_bit_timing : (delay : ℕ) → LssRequest
  switch_state_vendor : (vendor_id : ℕ) → LssRequest
  switch_state_product : (product_code : ℕ) → LssRequest
  switch_state_revision : (revision : ℕ) → LssRequest
  switch_state_serial : (serial : ℕ) → LssRequest
  inquire_vendor inquire_product inquire_rev inquire_serial inquire_node_id : LssRequest
  fast_scan : (id bit_check sub next : ℕ) → LssRequest

pub data LssResponse : Type 0 where
  identify_slave switch_state_response : LssResponse
  configure_node_id_ack : (error spec_error : ℕ) → LssResponse
  configure_bit_timing_ack : (error spec_error : ℕ) → LssResponse
  store_configuration_ack : (error spec_error : ℕ) → LssResponse
  inquire_vendor_ack : (vendor_id : ℕ) → LssResponse
  inquire_product_ack : (product_code : ℕ) → LssResponse
  inquire_rev_ack : (revision : ℕ) → LssResponse
  inquire_serial_ack : (serial_number : ℕ) → LssResponse
  inquire_node_id_ack : (node_id : ℕ) → LssResponse

pub record LssReceiver : Type 0 where
  pub selected_identity : LssIdentity
  pub rx_req : Option LssRequest

-- `true` asks for a call of `process`.
unfoldable pub handle_req : LssReceiver → LssRequest → Bool × LssReceiver
handle_req rx (LssRequest.switch_state_product product_code) = (
  false,
  record rx { selected_identity = record rx.selected_identity { product_code = product_code } },
)
handle_req rx (LssRequest.switch_state_vendor vendor_id) =
    (false, record rx { selected_identity = record rx.selected_identity { vendor_id = vendor_id } })
handle_req rx (LssRequest.switch_state_revision revision) =
    (false, record rx { selected_identity = record rx.selected_identity { revision = revision } })
handle_req rx req = (true, record rx { rx_req = some req })

pub record LssConfig : Type 0 where
  pub identity : LssIdentity
  pub node_id : NodeId
  pub store_supported : Bool

pub record LssSlave : Type 0 where
  pub state : LssState
  pub config : LssConfig
  pub fast_scan_sub : ℕ
  pub pending_node_id : NodeId
  pub store_config_flag : Bool

unfoldable pub new : LssConfig → LssSlave
new config = record {
  state = LssState.waiting;
  config = config;
  fast_scan_sub = 0;
  pending_node_id = config.node_id;
  store_config_flag = false;
}

unfoldable pub update_config : LssConfig → LssSlave → LssSlave
update_config config slave = record slave { pending_node_id = config.node_id; config = config }

pub data LssEvent : Type 0 where
  store_configuration : LssEvent
  activate_bit_timing : (table index delay : ℕ) → LssEvent
  configure_node_id : NodeId → LssEvent

unfoldable pub pending_event : LssSlave → Option LssEvent × LssSlave
unfolding same_node
pending_event slave =
    if not (same_node slave.pending_node_id slave.config.node_id)
    then (some (LssEvent.configure_node_id slave.pending_node_id), slave)
    else if slave.store_config_flag
    then (some LssEvent.store_configuration, record slave { store_config_flag = false })
    else (none, slave)

-- How `process` ends: `none` is a panic, `err` an invalid field.
abbrev pub Processed : Type 0
Processed = Option (Result (Unit {0}) (Option LssResponse) × LssSlave)

abbrev answer : Option LssResponse → LssSlave → Processed
answer response slave = some (ok response, slave)

abbrev pub in_state : LssState → LssState → Bool
in_state LssState.waiting LssState.waiting = true
in_state LssState.configuring LssState.configuring = true
in_state _ _ = false

-- An answer that only a slave in the state `Configuring` gives.
abbrev configuring_only : LssSlave → LssResponse → LssSlave → Processed
configuring_only slave response slave' =
    if in_state slave.state LssState.configuring
    then answer (some response) slave'
    else answer none slave

-- The shift takes its count modulo 32.
abbrev pub mask_of : ℕ → ℕ
mask_of bit_check = 0xFFFFFFFF * 2 ^ (bit_check % 32) % 2 ^ 32

unfoldable pub scan : ℕ → ℕ → ℕ → ℕ → LssSlave → Processed
unfolding by_addr
scan id bit_check sub next slave =
    if bit_check == 0x80
    then answer (some LssResponse.identify_slave) (record slave { fast_scan_sub = 0 })
    else if slave.fast_scan_sub == sub
    then maybe (by_addr slave.config.identity sub) none (λ value.
      if bit_and value (mask_of bit_check) == bit_and id (mask_of bit_check)
      then answer (some LssResponse.identify_slave) (record slave {
        fast_scan_sub = next;
        state = if (bit_check == 0) && ltb next sub then LssState.configuring else slave.state;
      })
      else answer none slave)
    else answer none slave

unfoldable pub process_request : LssRequest → LssIdentity → LssSlave → Processed
unfolding state_of node_id_of raw same_node same_identity scan
process_request (LssRequest.switch_mode_global mode) selected slave =
    maybe (state_of mode) (some (err tt, slave))
      λ state. answer none (record slave { state = state })
process_request (LssRequest.configure_node_id node_id) selected slave =
    configuring_only slave (LssResponse.configure_node_id_ack 0 0)
      (record slave { pending_node_id = node_id_of node_id })
process_request (LssRequest.configure_bit_timing table index) selected slave =
    configuring_only slave (LssResponse.configure_bit_timing_ack 1 0) slave
process_request LssRequest.store_configuration selected slave =
    if in_state slave.state LssState.configuring
    then if slave.config.store_supported
      then answer (some (LssResponse.store_configuration_ack 0 0))
          (record slave { store_config_flag = true })
      else answer (some (LssResponse.store_configuration_ack 1 0)) slave
    else answer none slave
process_request (LssRequest.switch_state_serial serial) selected slave =
    if in_state slave.state LssState.waiting
      && same_identity slave.config.identity (record selected { serial = serial })
    then answer (some LssResponse.switch_state_response)
        (record slave { state = LssState.configuring })
    else answer none slave
process_request LssRequest.inquire_vendor selected slave =
    configuring_only slave (LssResponse.inquire_vendor_ack slave.config.identity.vendor_id) slave
process_request LssRequest.inquire_product selected slave =
    configuring_only slave (LssResponse.inquire_product_ack slave.config.identity.product_code)
      slave
process_request LssRequest.inquire_rev selected slave =
    configuring_only slave (LssResponse.inquire_rev_ack slave.config.identity.revision) slave
process_request LssRequest.inquire_serial selected slave =
    configuring_only slave (LssResponse.inquire_serial_ack slave.config.identity.serial) slave
process_request LssRequest.inquire_node_id selected slave =
    configuring_only slave (LssResponse.inquire_node_id_ack (raw slave.config.node_id)) slave
process_request (LssRequest.fast_scan id bit_check sub next) selected slave =
    if same_node slave.config.node_id NodeId.unconfigured && in_state slave.state LssState.waiting
    then scan id bit_check sub next slave
    else answer none slave
process_request _ selected slave = answer none slave

unfoldable pub process : LssReceiver → LssSlave → LssReceiver × Processed
unfolding process_request
process rx slave = (
  record rx { rx_req = none },
  maybe rx.rx_req (answer none slave) λ req. process_request req rx.selected_identity slave,
)
