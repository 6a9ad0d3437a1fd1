-- ===== src/Bus/Exchange.antt =====
-- A request that the server answers is an exchange of the client.
use zencan.Base.{
  ℕ, ◌≡◌, refl, List, [], true, false, none, some, Option, ok, length, arith, take_all,
}
use zencan.Can.{CanId, CanMessage, same_id, new_eight}
use zencan.Dict.{OdEntry}
use zencan.Sdo.Request.{SdoRequest, IsRequest}
use zencan.Sdo.Request.RoundTrip as Request
use zencan.Sdo.Request.RoundTrip.{from_bytes-to_bytes}
use zencan.Sdo.Response.RoundTrip as Response
use zencan.Sdo.Response.RoundTrip.{from_message-to_can_message}
use zencan.Sdo.Request.Encode.{to_bytes, to_can_message}
use zencan.Sdo.Request.Decode.{from_bytes}
use zencan.Sdo.Response.{SdoResponse, IsResponse}
use zencan.Sdo.Response.Encode
use zencan.Sdo.Response.Decode.{from_message}
use zencan.Server.{Server, process, update}
use zencan.Server.Receiver.{SdoReceiver, ReceiverState, handle_req, handle_req_in}
use zencan.Server.State.{Crc, Outcome}
use zencan.Client.{Client, Ends, exchange, send, wait_for_response}
use zencan.Bus.{deliver, store_message, send_response}

-- The request reaches the other side as it is.
pub record Carried (r : SdoRequest) : Type 0 where
  pub bytes : List ℕ
  pub sent : to_bytes r ≡ some bytes
  pub eight : length bytes ≡ 8
  pub back : from_bytes bytes ≡ ok r

pub record Returned (id : CanId) (r : SdoResponse) : Type 0 where
  pub frame : CanMessage
  pub sent : Encode.to_can_message r id ≡ some frame
  pub same : frame.id ≡ id
  pub back : from_message frame ≡ some r

pub same_id_refl : (id : CanId) → same_id id id ≡ true
same_id_refl (CanId.extended a) = ground arith
same_id_refl (CanId.std a) = ground arith

eight_bytes : CanId → List ℕ → CanMessage
eight_bytes id p = record { bytes = p; dlc = 8; rtr = false; id = id }

Returned-of :
    (id : CanId) (r : SdoResponse) (frame : Option CanMessage)
    → Encode.to_can_message r id ≡ frame
    → Response.Sent id r frame
    → (Response.IsBlockUpload r → ⊥)
    → Returned id r
Returned-of id r none e sent written = absurd (written sent)
Returned-of id r (some frame) e (same, eight, back) written = record {
  frame = frame;
  sent = e;
  same = same;
  back = back;
}

-- A response in range that `to_can_message` writes is returned.
pub returned :
    (id : CanId) (r : SdoResponse) → IsResponse r → (Response.IsBlockUpload r → ⊥) → Returned id r
returned id r h written =
    Returned-of id r (Encode.to_can_message r id) refl (from_message-to_can_message id r h) written

Carried-of :
    (r : SdoRequest) (bytes : Option (List ℕ))
    → to_bytes r ≡ bytes
    → Request.Sent r bytes
    → (Request.IsBlockUpload r → ⊥)
    → Carried r
Carried-of r none e sent written = absurd (written sent)
Carried-of r (some bytes) e (eight, back) written = record {
  bytes = bytes;
  sent = e;
  eight = eight;
  back = back;
}

pub carried : (r : SdoRequest) → IsRequest r → (Request.IsBlockUpload r → ⊥) → Carried r
carried r h written = Carried-of r (to_bytes r) refl (from_bytes-to_bytes r h) written

abbrev pub holding : SdoReceiver → SdoRequest → SdoReceiver
holding rx r = record rx { request = some r; timer = 0 }

handle_req_lem :
    (rx : SdoReceiver) (r : SdoRequest) (p : List ℕ)
    → rx.state ≡ ReceiverState.normal
    → length p ≡ 8
    → from_bytes p ≡ ok r
    → handle_req rx p ≡ (true, holding rx r)
unfolding handle_req
handle_req_lem rx r p quiet eight back = rw (eight, quiet, handle_req_in, back) refl

module _ {S : Type 0} (crc16 : Crc) (table : List (OdEntry S)) (rx_id tx_id : CanId)
    (elapsed : ℕ) where
  abbrev pub client_at : Server S → Client (Option (Server S))
  client_at server = record {
    req_cob_id = rx_id;
    resp_cob_id = tx_id;
    inbox = [];
    network = some server;
  }

  pub exchange_lem :
      {A : Type 0} (server : Server S) (r : SdoRequest) (resp : SdoResponse) (o : Outcome S)
      (next : SdoResponse → Client (Option (Server S)) → Ends (Option (Server S)) A)
      → server.rx.state ≡ ReceiverState.normal
      → Carried r
      → Returned tx_id resp
      → update crc16 table server.state (holding server.rx r) elapsed server.od ≡ some o
      → o.result.response ≡ some resp
      → exchange (deliver crc16 table rx_id tx_id elapsed) r (client_at server) next
        ≡ next resp (client_at (record { state = o.result.new_state; rx = o.rx; od = o.od }))
  unfolding exchange send deliver store_message process send_response wait_for_response
      to_can_message eight_bytes from_message
  exchange_lem server r resp o next quiet c b handled answered =
      let to_frame : to_can_message r rx_id ≡ some (eight_bytes rx_id c.bytes) =
        rw (to_can_message, c.sent, new_eight rx_id c.bytes c.eight) in
      let stored = handle_req_lem server.rx r c.bytes quiet c.eight c.back in
      rw (
        to_frame,
        same_id_refl rx_id,
        take_all 8 c.bytes (omega (arith, c.eight)),
        stored,
        handled,
        answered,
        b.sent,
        b.same,
        same_id_refl tx_id,
        b.back,
      )
