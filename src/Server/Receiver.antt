-- ===== src/Server/Receiver.antt =====
-- `SdoReceiver` of zencan-node/src/sdo_server/sdo_receiver.rs: what the thread that receives frames
-- shares with the thread that runs `process`. Every function is one atomic step: the receiving thread
-- does not run while `process` holds the buffer.
pub mod Blocks
pub mod Gaps
use zencan.Base.{
  ℕ, ◌+◌, ◌-◌, ◌*◌, ◌^◌, min, Bool, true, false, List, Option, none, some, Result, ok, err, either,
  ◌==◌, ◌||◌, leb, if◌then◌else◌, length, copy_at, maybe,
}
use zencan.Sdo.Request.{SdoRequest}
use zencan.Sdo.Request.Decode.{from_bytes}
use zencan.Sdo.Segment
use zencan.Sdo.Segment.{BlockSegment}
use zencan.Sdo.Wire.{byte}

pub data ReceiverState : Type 0 where
  normal : ReceiverState
  block_receive : ReceiverState
  block_completed : (ackseq last_segment : ℕ) (complete : Bool) → ReceiverState

pub record SdoReceiver : Type 0 where
  pub request : Option SdoRequest
  pub state : ReceiverState
  pub buffer : List ℕ
  pub timer : ℕ
  pub last_seqnum : ℕ
  pub blksize : ℕ

unfoldable pub new : List ℕ → SdoReceiver
new sdo_buffer = record {
  request = none;
  state = ReceiverState.normal;
  buffer = sdo_buffer;
  timer = 0;
  last_seqnum = 0;
  blksize = 0;
}

-- A segment with a sequence number other than 0, in the state `BlockReceive`.
unfoldable pub store_segment : SdoReceiver → BlockSegment → Bool × SdoReceiver
unfolding copy_at
store_segment rx segment =
    let pos = (segment.seqnum - 1) * 7 in
    let buffer =
      if leb (pos + 7) (length rx.buffer)
      then copy_at pos segment.payload rx.buffer
      else rx.buffer in
    let last_seqnum =
      if segment.seqnum == rx.last_seqnum + 1 then rx.last_seqnum + 1 else rx.last_seqnum in
    let rx' = record rx { buffer = buffer; timer = 0; last_seqnum = last_seqnum } in
    if segment.seqnum == rx.blksize || segment.c
    then (
      true,
      record rx' { state = ReceiverState.block_completed last_seqnum segment.seqnum segment.c },
    )
    else (false, rx')

block_req : SdoReceiver → List ℕ → Bool × SdoReceiver
unfolding store_segment Segment.from_bytes
block_req rx msg_data =
    maybe (Segment.from_bytes msg_data) (false, rx)
      λ segment. if segment.seqnum == 0 then (false, rx) else store_segment rx segment

-- `true` asks for a call of `process`.
unfoldable pub handle_req_in : ReceiverState → SdoReceiver → List ℕ → Bool × SdoReceiver
unfolding block_req
handle_req_in ReceiverState.normal rx msg_data =
    either (from_bytes msg_data) (λ _. (false, rx))
      (λ request. (true, record rx { request = some request; timer = 0 }))
handle_req_in ReceiverState.block_receive rx msg_data =
    let abort =
      either (from_bytes msg_data) (λ _. block_req rx msg_data)
        (λ request. (true, record rx { request = some request; state = ReceiverState.normal })) in
    if byte msg_data 0 == 0x80 then abort else block_req rx msg_data
handle_req_in (ReceiverState.block_completed ackseq last_segment complete) rx msg_data = (true, rx)

unfoldable pub handle_req : SdoReceiver → List ℕ → Bool × SdoReceiver
unfolding handle_req_in
handle_req rx msg_data =
    if length msg_data == 8 then handle_req_in rx.state rx msg_data else (false, rx)

unfoldable pub set_state : SdoReceiver → ReceiverState → SdoReceiver
set_state rx state = record rx { state = state }

unfoldable pub take_request : SdoReceiver → Option SdoRequest × SdoReceiver
take_request rx = (rx.request, record rx { request = none })

unfoldable pub begin_block_download : SdoReceiver → ℕ → SdoReceiver
begin_block_download rx blksize = record rx {
  last_seqnum = 0;
  timer = 0;
  blksize = blksize;
  state = ReceiverState.block_receive;
}

unfoldable pub restart_block_download : SdoReceiver → ℕ → SdoReceiver
restart_block_download rx ackseq = record rx {
  last_seqnum = ackseq;
  timer = 0;
  state = ReceiverState.block_receive;
}

-- `saturating_add` on a `u32`.
unfoldable pub increment_timer : SdoReceiver → ℕ → ℕ × SdoReceiver
increment_timer rx elapsed_us =
    let timer = min (rx.timer + elapsed_us) (2 ^ 32 - 1) in (timer, record rx { timer = timer })
