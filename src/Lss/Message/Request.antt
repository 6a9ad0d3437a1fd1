-- ===== src/Lss/Message/Request.antt =====
-- `LssRequest` as a frame, of zencan-common/src/lss.rs.
use zencan.Base.{ℕ, ◌≡◌, refl, ap, false, List, [], ◌∷◌, ◌++◌, Result, ok, err, either}
use zencan.Base.Bits.{IsU16, IsU32, to_le, from_le, from_le-to_le_u16, from_le-to_le_u32}
use zencan.Can.{CanMessage, MessageError, lss_req_id, payload}
use zencan.Sdo.Wire.{byte, slice}
use zencan.Lss.{LssRequest}
use zencan.Lss.Message.{LssCommandSpecifier, specifier_code, specifier_of, filled, at_least}

-- `data` of `CanMessage::from(LssRequest)`.
unfoldable pub bytes : LssRequest → List ℕ
unfolding specifier_code filled
bytes (LssRequest.switch_mode_global mode) =
    filled (specifier_code LssCommandSpecifier.switch_mode_global ∷ mode ∷ [])
bytes (LssRequest.configure_node_id node_id) =
    filled (specifier_code LssCommandSpecifier.configure_node_id ∷ node_id ∷ [])
bytes (LssRequest.configure_bit_timing table index) =
    filled (specifier_code LssCommandSpecifier.configure_bit_timing ∷ table ∷ index ∷ [])
bytes LssRequest.store_configuration =
    filled (specifier_code LssCommandSpecifier.store_configuration ∷ [])
bytes (LssRequest.activate_bit_timing delay) =
    filled (specifier_code LssCommandSpecifier.activate_bit_timing ∷ to_le 2 delay)
bytes (LssRequest.switch_state_vendor vendor_id) =
    filled (specifier_code LssCommandSpecifier.switch_state_vendor ∷ to_le 4 vendor_id)
bytes (LssRequest.switch_state_product product_code) =
    filled (specifier_code LssCommandSpecifier.switch_state_product ∷ to_le 4 product_code)
bytes (LssRequest.switch_state_revision revision) =
    filled (specifier_code LssCommandSpecifier.switch_state_rev ∷ to_le 4 revision)
bytes (LssRequest.switch_state_serial serial) =
    filled (specifier_code LssCommandSpecifier.switch_state_serial ∷ to_le 4 serial)
bytes LssRequest.inquire_vendor = filled (specifier_code LssCommandSpecifier.inquire_vendor ∷ [])
bytes LssRequest.inquire_product = filled (specifier_code LssCommandSpecifier.inquire_product ∷ [])
bytes LssRequest.inquire_rev = filled (specifier_code LssCommandSpecifier.inquire_rev ∷ [])
bytes LssRequest.inquire_serial = filled (specifier_code LssCommandSpecifier.inquire_serial ∷ [])
bytes LssRequest.inquire_node_id = filled (specifier_code LssCommandSpecifier.inquire_node_id ∷ [])
bytes (LssRequest.fast_scan id bit_check sub next) =
    filled
      (specifier_code LssCommandSpecifier.fast_scan ∷ (to_le 4 id ++ (bit_check ∷ sub ∷ next ∷ [])))

-- `CanMessage::from(LssRequest)`, which makes a frame of the eight bytes.
unfoldable pub to_can_message : LssRequest → CanMessage
unfolding bytes
to_can_message request = record { bytes = bytes request; dlc = 8; rtr = false; id = lss_req_id }

decode : LssCommandSpecifier → List ℕ → Result MessageError LssRequest
decode LssCommandSpecifier.switch_mode_global value =
    at_least 2 value (LssRequest.switch_mode_global (byte value 1))
decode LssCommandSpecifier.configure_node_id value =
    at_least 2 value (LssRequest.configure_node_id (byte value 1))
decode LssCommandSpecifier.configure_bit_timing value =
    at_least 3 value (LssRequest.configure_bit_timing (byte value 1) (byte value 2))
decode LssCommandSpecifier.activate_bit_timing value =
    at_least 3 value (LssRequest.activate_bit_timing (from_le (byte value 1 ∷ byte value 2 ∷ [])))
decode LssCommandSpecifier.store_configuration value = ok LssRequest.store_configuration
decode LssCommandSpecifier.switch_state_vendor value =
    at_least 5 value (LssRequest.switch_state_vendor (from_le (slice value 1 5)))
decode LssCommandSpecifier.switch_state_product value =
    at_least 5 value (LssRequest.switch_state_product (from_le (slice value 1 5)))
decode LssCommandSpecifier.switch_state_rev value =
    at_least 5 value (LssRequest.switch_state_revision (from_le (slice value 1 5)))
decode LssCommandSpecifier.switch_state_serial value =
    at_least 5 value (LssRequest.switch_state_serial (from_le (slice value 1 5)))
decode LssCommandSpecifier.switch_state_response value =
    at_least 5 value (LssRequest.switch_state_vendor (from_le (slice value 1 5)))
decode LssCommandSpecifier.identify_slave value =
    err (MessageError.unexpected_lss_command (byte value 0))
decode LssCommandSpecifier.fast_scan value =
    at_least 8 value (
      LssRequest.fast_scan (from_le (slice value 1 5)) (byte value 5) (byte value 6) (byte value 7))
decode LssCommandSpecifier.inquire_vendor value = ok LssRequest.inquire_vendor
decode LssCommandSpecifier.inquire_product value = ok LssRequest.inquire_product
decode LssCommandSpecifier.inquire_rev value = ok LssRequest.inquire_rev
decode LssCommandSpecifier.inquire_serial value = ok LssRequest.inquire_serial
decode LssCommandSpecifier.inquire_node_id value = ok LssRequest.inquire_node_id

-- `LssRequest::try_from(&[u8])`.
unfoldable pub from_bytes : List ℕ → Result MessageError LssRequest
unfolding specifier_of decode
from_bytes [] = err MessageError.message_too_short
from_bytes (b ∷ value) = either (specifier_of b) err λ cs. decode cs (b ∷ value)

-- What the Rust types promise of a request, as far as a field has more than one byte.
abbrev pub IsRequest : LssRequest → Type 0
IsRequest (LssRequest.activate_bit_timing delay) = IsU16 delay
IsRequest (LssRequest.switch_state_vendor vendor_id) = IsU32 vendor_id
IsRequest (LssRequest.switch_state_product product_code) = IsU32 product_code
IsRequest (LssRequest.switch_state_revision revision) = IsU32 revision
IsRequest (LssRequest.switch_state_serial serial) = IsU32 serial
IsRequest (LssRequest.fast_scan id bit_check sub next) = IsU32 id
IsRequest _ = Unit {0}

-- Every request of the master is a frame of eight bytes, from which the slave reads the same request.
pub from_bytes-bytes :
    (request : LssRequest)
    → IsRequest request
    → from_bytes (payload (to_can_message request)) ≡ ok request
unfolding to_can_message from_bytes
from_bytes-bytes (LssRequest.switch_mode_global mode) h = refl
from_bytes-bytes (LssRequest.configure_node_id node_id) h = refl
from_bytes-bytes (LssRequest.configure_bit_timing table index) h = refl
from_bytes-bytes LssRequest.store_configuration h = refl
from_bytes-bytes (LssRequest.activate_bit_timing delay) h =
    ap (λ v. ok (LssRequest.activate_bit_timing v)) (from_le-to_le_u16 delay h)
from_bytes-bytes (LssRequest.switch_state_vendor vendor_id) h =
    ap (λ v. ok (LssRequest.switch_state_vendor v)) (from_le-to_le_u32 vendor_id h)
from_bytes-bytes (LssRequest.switch_state_product product_code) h =
    ap (λ v. ok (LssRequest.switch_state_product v)) (from_le-to_le_u32 product_code h)
from_bytes-bytes (LssRequest.switch_state_revision revision) h =
    ap (λ v. ok (LssRequest.switch_state_revision v)) (from_le-to_le_u32 revision h)
from_bytes-bytes (LssRequest.switch_state_serial serial) h =
    ap (λ v. ok (LssRequest.switch_state_serial v)) (from_le-to_le_u32 serial h)
from_bytes-bytes LssRequest.inquire_vendor h = refl
from_bytes-bytes LssRequest.inquire_product h = refl
from_bytes-bytes LssRequest.inquire_rev h = refl
from_bytes-bytes LssRequest.inquire_serial h = refl
from_bytes-bytes LssRequest.inquire_node_id h = refl
from_bytes-bytes (LssRequest.fast_scan id bit_check sub next) h =
    ap (λ v. ok (LssRequest.fast_scan v bit_check sub next)) (from_le-to_le_u32 id h)
