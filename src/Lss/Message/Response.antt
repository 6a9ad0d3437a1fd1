-- ===== src/Lss/Message/Response.antt =====
-- `LssResponse` as a frame, of zencan-common/src/lss.rs.
use zencan.Base.{ℕ, ◌≡◌, refl, ap, false, List, [], ◌∷◌, Result, ok, err, either, if◌then◌else◌}
use zencan.Base.Bits.{IsU32, to_le, from_le, from_le-to_le_u32}
use zencan.Can.{CanId, CanMessage, MessageError, lss_resp_id, same_id}
use zencan.Sdo.Wire.{byte}
use zencan.Lss.{LssResponse}
use zencan.Lss.Message.{LssCommandSpecifier, specifier_code, specifier_of, filled, at_least}

-- `msg.data` after `LssResponse::to_can_message`.
unfoldable pub bytes : LssResponse → List ℕ
unfolding specifier_code filled
bytes LssResponse.identify_slave = filled (specifier_code LssCommandSpecifier.identify_slave ∷ [])
bytes LssResponse.switch_state_response =
    filled (specifier_code LssCommandSpecifier.switch_state_response ∷ [])
bytes (LssResponse.configure_node_id_ack error spec_error) =
    filled (specifier_code LssCommandSpecifier.configure_node_id ∷ error ∷ spec_error ∷ [])
bytes (LssResponse.configure_bit_timing_ack error spec_error) =
    filled (specifier_code LssCommandSpecifier.configure_bit_timing ∷ error ∷ spec_error ∷ [])
bytes (LssResponse.store_configuration_ack error spec_error) =
    filled (specifier_code LssCommandSpecifier.store_configuration ∷ error ∷ spec_error ∷ [])
bytes (LssResponse.inquire_vendor_ack vendor_id) =
    filled (specifier_code LssCommandSpecifier.inquire_vendor ∷ to_le 4 vendor_id)
bytes (LssResponse.inquire_product_ack product_code) =
    filled (specifier_code LssCommandSpecifier.inquire_product ∷ to_le 4 product_code)
bytes (LssResponse.inquire_rev_ack revision) =
    filled (specifier_code LssCommandSpecifier.inquire_rev ∷ to_le 4 revision)
bytes (LssResponse.inquire_serial_ack serial_number) =
    filled (specifier_code LssCommandSpecifier.inquire_serial ∷ to_le 4 serial_number)
bytes (LssResponse.inquire_node_id_ack node_id) =
    filled (specifier_code LssCommandSpecifier.inquire_node_id ∷ node_id ∷ [])

unfoldable pub to_can_message : LssResponse → CanId → CanMessage
unfolding bytes
to_can_message response id = record { bytes = bytes response; dlc = 8; rtr = false; id = id }

-- `u32::from_le_bytes([value[1], value[2], value[3], value[4]])`.
abbrev word : List ℕ → ℕ
word value = from_le (byte value 1 ∷ byte value 2 ∷ byte value 3 ∷ byte value 4 ∷ [])

decode : LssCommandSpecifier → List ℕ → Result MessageError LssResponse
decode LssCommandSpecifier.identify_slave value = ok LssResponse.identify_slave
decode LssCommandSpecifier.switch_state_response value = ok LssResponse.switch_state_response
decode LssCommandSpecifier.configure_node_id value =
    at_least 3 value (LssResponse.configure_node_id_ack (byte value 1) (byte value 2))
decode LssCommandSpecifier.configure_bit_timing value =
    at_least 3 value (LssResponse.configure_bit_timing_ack (byte value 1) (byte value 2))
decode LssCommandSpecifier.store_configuration value =
    at_least 3 value (LssResponse.store_configuration_ack (byte value 1) (byte value 2))
decode LssCommandSpecifier.inquire_vendor value =
    at_least 5 value (LssResponse.inquire_vendor_ack (word value))
decode LssCommandSpecifier.inquire_product value =
    at_least 5 value (LssResponse.inquire_product_ack (word value))
decode LssCommandSpecifier.inquire_rev value =
    at_least 5 value (LssResponse.inquire_rev_ack (word value))
decode LssCommandSpecifier.inquire_serial value =
    at_least 5 value (LssResponse.inquire_serial_ack (word value))
decode LssCommandSpecifier.inquire_node_id value =
    at_least 2 value (LssResponse.inquire_node_id_ack (byte value 1))
decode _ value = err (MessageError.unexpected_lss_command (byte value 0))

-- `LssResponse::try_from(&[u8])`.
unfoldable pub from_bytes : List ℕ → Result MessageError LssResponse
unfolding specifier_of decode
from_bytes [] = err MessageError.message_too_short
from_bytes (b ∷ value) = either (specifier_of b) err λ cs. decode cs (b ∷ value)

-- `LssResponse::try_from(CanMessage)`, which reads the whole array.
unfoldable pub from_message : CanMessage → Result MessageError LssResponse
unfolding from_bytes
from_message msg =
    if same_id msg.id lss_resp_id
    then from_bytes msg.bytes
    else err (MessageError.unexpected_id msg.id lss_resp_id)

-- What the Rust types promise of a response, as far as a field has more than one byte.
abbrev pub IsResponse : LssResponse → Type 0
IsResponse (LssResponse.inquire_vendor_ack vendor_id) = IsU32 vendor_id
IsResponse (LssResponse.inquire_product_ack product_code) = IsU32 product_code
IsResponse (LssResponse.inquire_rev_ack revision) = IsU32 revision
IsResponse (LssResponse.inquire_serial_ack serial_number) = IsU32 serial_number
IsResponse _ = Unit {0}

-- Every response of a slave is read back by the master from its frame.
pub from_message-lss_response :
    (response : LssResponse)
    → IsResponse response
    → from_message (to_can_message response lss_resp_id) ≡ ok response
unfolding from_message to_can_message
from_message-lss_response LssResponse.identify_slave h = refl
from_message-lss_response LssResponse.switch_state_response h = refl
from_message-lss_response (LssResponse.configure_node_id_ack error spec_error) h = refl
from_message-lss_response (LssResponse.configure_bit_timing_ack error spec_error) h = refl
from_message-lss_response (LssResponse.store_configuration_ack error spec_error) h = refl
from_message-lss_response (LssResponse.inquire_vendor_ack vendor_id) h =
    ap (λ v. ok (LssResponse.inquire_vendor_ack v)) (from_le-to_le_u32 vendor_id h)
from_message-lss_response (LssResponse.inquire_product_ack product_code) h =
    ap (λ v. ok (LssResponse.inquire_product_ack v)) (from_le-to_le_u32 product_code h)
from_message-lss_response (LssResponse.inquire_rev_ack revision) h =
    ap (λ v. ok (LssResponse.inquire_rev_ack v)) (from_le-to_le_u32 revision h)
from_message-lss_response (LssResponse.inquire_serial_ack serial_number) h =
    ap (λ v. ok (LssResponse.inquire_serial_ack v)) (from_le-to_le_u32 serial_number h)
from_message-lss_response (LssResponse.inquire_node_id_ack node_id) h = refl
