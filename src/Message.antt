-- ===== src/Message.antt =====
-- zencan-common/src/messages.rs: `ZencanMessage`, any of the standard messages, and SYNC.
use zencan.Base.{
  ℕ, ◌+◌, ◌&&◌, [], ◌∷◌, Option, none, some, Result, ok, err, either, maybe, bit_and, ◌==◌, leb,
  if◌then◌else◌, length,
}
use zencan.Can
use zencan.Can.{
  CanMessage, MessageError, raw, same_id, payload, nmt_cmd_id, sync_id, lss_req_id, lss_resp_id,
}
use zencan.Lss.{LssRequest, LssResponse}
use zencan.Lss.Message.Request.{from_bytes as lss_request_of}
use zencan.Lss.Message.Response.{from_bytes as lss_response_of}
use zencan.Nmt.{NmtCommand, Heartbeat, command_of, heartbeat_of}
use zencan.Sdo.Request.{SdoRequest}
use zencan.Sdo.Request.Decode.{from_bytes as sdo_request_of}
use zencan.Sdo.Response.{SdoResponse}
use zencan.Sdo.Response.Decode.{from_message as sdo_response_of}
use zencan.Sdo.Wire.{byte}

pub record SyncObject : Type 0 where
  pub count : ℕ

-- `CanMessage::from(SyncObject)`; `none` is a panic.
unfoldable pub sync_message : SyncObject → Option CanMessage
unfolding Can.new
sync_message value = Can.new sync_id (value.count ∷ [])

-- `SyncObject::from(CanMessage)`; `none` is a panic, also of a frame without data.
unfoldable pub sync_of : CanMessage → Option SyncObject
sync_of msg =
    if same_id msg.id sync_id && leb 1 (length (payload msg))
    then some (record { count = byte (payload msg) 0 })
    else none

pub data ZencanMessage : Type 0 where
  nmt_command : NmtCommand → ZencanMessage
  sync : SyncObject → ZencanMessage
  heartbeat : Heartbeat → ZencanMessage
  sdo_request : SdoRequest → ZencanMessage
  sdo_response : SdoResponse → ZencanMessage
  lss_request : LssRequest → ZencanMessage
  lss_response : LssResponse → ZencanMessage

-- The branches of `ZencanMessage::try_from` for SDO; `none` where neither is taken.
unfoldable pub sdo_of : CanMessage → Option (Result MessageError ZencanMessage)
unfolding raw sdo_response_of sdo_request_of
sdo_of msg =
    if bit_and (raw msg.id) 0xff80 == 0x580
    then some (
        maybe (sdo_response_of msg) (err (MessageError.malformed_msg msg.id))
          (λ resp. ok (ZencanMessage.sdo_response resp)))
    else if leb 0x580 (raw msg.id) && leb (raw msg.id) (0x580 + 256)
    then some (
        either (sdo_request_of (payload msg)) (λ e. err (MessageError.malformed_msg msg.id))
          (λ req. ok (ZencanMessage.sdo_request req)))
    else none

unfoldable pub lss_of : CanMessage → Result MessageError ZencanMessage
unfolding lss_request_of lss_response_of
lss_of msg =
    if same_id msg.id lss_req_id
    then either (lss_request_of (payload msg)) (λ e. err (MessageError.malformed_msg msg.id))
        (λ req. ok (ZencanMessage.lss_request req))
    else if same_id msg.id lss_resp_id
    then either (lss_response_of (payload msg)) (λ e. err (MessageError.malformed_msg msg.id))
        (λ resp. ok (ZencanMessage.lss_response resp))
    else err (MessageError.unrecognized_id msg.id)

-- `ZencanMessage::try_from(CanMessage)`; `none` is a panic.
unfoldable pub message_of : CanMessage → Option (Result MessageError ZencanMessage)
unfolding command_of heartbeat_of sdo_of sync_of lss_of
message_of msg =
    if same_id msg.id nmt_cmd_id
    then some (either (command_of msg) err (λ cmd. ok (ZencanMessage.nmt_command cmd)))
    else maybe (heartbeat_of msg)
        (maybe (sdo_of msg)
          (if same_id msg.id sync_id
            then maybe (sync_of msg) none (λ value. some (ok (ZencanMessage.sync value)))
            else some (lss_of msg))
          some)
        λ beat. some (either beat err (λ value. ok (ZencanMessage.heartbeat value)))
