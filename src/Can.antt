-- ===== src/Can.antt =====
-- zencan-common/src/messages.rs: CAN identifiers and frames, and the reserved identifiers.
use zencan.Base.{
  copy_at_all, ◌≡◌, arith, ℕ, ◌%◌, ◌≤◌, Bool, true, false, List, Option, none, some, ltb, ◌==◌,
  if◌then◌else◌, length, take, replicate, copy_at,
}
use zencan.Base.Bits.{IsArray}

pub data CanId : Type 0 where
  extended : ℕ → CanId
  std : ℕ → CanId

unfoldable pub raw : CanId → ℕ
raw (CanId.extended id) = id
raw (CanId.std id) = id

unfoldable pub is_extended : CanId → Bool
is_extended (CanId.extended id) = true
is_extended (CanId.std id) = false

-- The derived `==`.
abbrev pub same_id : CanId → CanId → Bool
same_id (CanId.extended a) (CanId.extended b) = a == b
same_id (CanId.std a) (CanId.std b) = a == b
same_id _ _ = false

abbrev pub max_data_length : ℕ
max_data_length = 8

-- `bytes` is the whole array; `dlc` of them are in use.
pub record CanMessage : Type 0 where
  pub bytes : List ℕ
  pub dlc : ℕ
  pub rtr : Bool
  pub id : CanId

-- `none` is a panic: by the check, or by `copy_from_slice` where `dlc` was cut to eight bits.
unfoldable pub new : CanId → List ℕ → Option CanMessage
unfolding copy_at
new id payload =
    let dlc = length payload % 256 in
    if ltb max_data_length dlc
    then none
    else if dlc == length payload
    then some (record {
      bytes = copy_at 0 payload (replicate max_data_length 0);
      dlc = dlc;
      rtr = false;
      id = id;
    })
    else none

-- `CanMessage::data()`.
abbrev pub payload : CanMessage → List ℕ
payload msg = take msg.dlc msg.bytes

abbrev pub nmt_cmd_id : CanId
nmt_cmd_id = CanId.std 0

abbrev pub sync_id : CanId
sync_id = CanId.std 0x80

abbrev pub lss_resp_id : CanId
lss_resp_id = CanId.std 0x7E4

abbrev pub lss_req_id : CanId
lss_req_id = CanId.std 0x7E5

abbrev pub heartbeat_id : ℕ
heartbeat_id = 0x700

pub data MessageError : Type 0 where
  message_too_short : MessageError
  malformed_msg : (cob_id : CanId) → MessageError
  unexpected_id : (cob_id expected : CanId) → MessageError
  invalid_field : MessageError
  unrecognized_id : (cob_id : CanId) → MessageError
  invalid_nmt_state : (value : ℕ) → MessageError
  unexpected_lss_command : (value : ℕ) → MessageError

-- What the Rust types promise of a frame.
pub record IsFrame (msg : CanMessage) : Type 0 where
  pub bytes_array : IsArray 8 msg.bytes
  pub dlc_le : msg.dlc ≤ 8

pub new_eight :
    (id : CanId) (p : List ℕ)
    → length p ≡ 8
    → new id p ≡ some (record { bytes = p; dlc = 8; rtr = false; id = id })
unfolding new
new_eight id p h = ground (arith, copy_at_all p (replicate 8 0))
