-- ===== src/Lss/Message.antt =====
-- zencan-common/src/lss.rs: the bytes of LSS messages. This file has the command byte; the children
-- write and read the requests and the responses.
pub mod Request
pub mod Response
use zencan.Base.{
  ℕ, ◌≡◌, refl, List, Result, ok, err, ltb, ◌==◌, if◌then◌else◌, length, replicate, copy_at,
}
use zencan.Can.{MessageError}

pub data LssCommandSpecifier : Type 0 where
  switch_mode_global configure_node_id configure_bit_timing activate_bit_timing :
      LssCommandSpecifier
  store_configuration switch_state_vendor switch_state_product switch_state_rev :
      LssCommandSpecifier
  switch_state_serial switch_state_response identify_slave fast_scan : LssCommandSpecifier
  inquire_vendor inquire_product inquire_rev inquire_serial inquire_node_id : LssCommandSpecifier

-- `cs as u8`.
unfoldable pub specifier_code : LssCommandSpecifier → ℕ
specifier_code switch_mode_global = 0x04
specifier_code configure_node_id = 0x11
specifier_code configure_bit_timing = 0x13
specifier_code activate_bit_timing = 0x15
specifier_code store_configuration = 0x17
specifier_code switch_state_vendor = 0x40
specifier_code switch_state_product = 0x41
specifier_code switch_state_rev = 0x42
specifier_code switch_state_serial = 0x43
specifier_code switch_state_response = 0x44
specifier_code identify_slave = 0x4F
specifier_code fast_scan = 0x51
specifier_code inquire_vendor = 0x5A
specifier_code inquire_product = 0x5B
specifier_code inquire_rev = 0x5C
specifier_code inquire_serial = 0x5D
specifier_code inquire_node_id = 0x5E

-- `LssCommandSpecifier::from_byte`.
unfoldable pub specifier_of : ℕ → Result MessageError LssCommandSpecifier
specifier_of b =
    if b == 0x04
    then ok switch_mode_global
    else if b == 0x11
    then ok configure_node_id
    else if b == 0x13
    then ok configure_bit_timing
    else if b == 0x15
    then ok activate_bit_timing
    else if b == 0x17
    then ok store_configuration
    else if b == 0x40
    then ok switch_state_vendor
    else if b == 0x41
    then ok switch_state_product
    else if b == 0x42
    then ok switch_state_rev
    else if b == 0x43
    then ok switch_state_serial
    else if b == 0x44
    then ok switch_state_response
    else if b == 0x4F
    then ok identify_slave
    else if b == 0x51
    then ok fast_scan
    else if b == 0x5A
    then ok inquire_vendor
    else if b == 0x5B
    then ok inquire_product
    else if b == 0x5C
    then ok inquire_rev
    else if b == 0x5D
    then ok inquire_serial
    else if b == 0x5E
    then ok inquire_node_id
    else err (MessageError.unexpected_lss_command b)

-- An array of eight zeros, with bytes stored from its start on.
abbrev pub filled : List ℕ → List ℕ
unfolding copy_at
filled bytes = copy_at 0 bytes (replicate 8 0)

-- `if value.len() < n { return Err(MessageTooShort) }`
abbrev pub at_least : {A : Type 0} → ℕ → List ℕ → A → Result MessageError A
at_least n value a = if ltb (length value) n then err MessageError.message_too_short else ok a
