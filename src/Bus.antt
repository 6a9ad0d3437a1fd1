-- ===== src/Bus.antt =====
-- A client and a node on one bus: what a frame of the client does to the SDO server of the node, as
-- `NodeMbox::store_message` of zencan-node/src/node_mbox.rs and `Node::process` of
-- zencan-node/src/node.rs pass it on, and the frame that comes back.
pub mod Exchange
mod Segments
pub mod Download
pub mod Delivery
pub mod Overwrite
use zencan.Base.{ℕ, List, [], ◌∷◌, Option, none, some, if◌then◌else◌, maybe}
use zencan.Can.{CanId, CanMessage, payload, same_id}
use zencan.Dict.{OdEntry}
use zencan.Sdo.Response.{SdoResponse}
use zencan.Sdo.Response.Encode.{to_can_message}
use zencan.Server.{Server, process}
use zencan.Server.Receiver.{SdoReceiver, handle_req}
use zencan.Server.State.{Crc}
use zencan.Client.{Network}

module _ {S : Type 0} (crc16 : Crc) (table : List (OdEntry S)) (sdo_rx_cob_id sdo_tx_cob_id : CanId)
    (elapsed_us : ℕ) where
  -- `store_message`, as to SDO.
  unfoldable pub store_message : CanMessage → Server S → Server S
  unfolding handle_req
  store_message msg server =
      if same_id msg.id sdo_rx_cob_id
      then record server { rx = (handle_req server.rx (payload msg)).1 }
      else server

  -- The response is sent. A server that panicked, `none`, is silent.
  unfoldable pub send_response : Option SdoResponse → Server S → List CanMessage × Option (Server S)
  unfolding to_can_message
  send_response none server = ([], some server)
  send_response (some response) server =
      maybe (to_can_message response sdo_tx_cob_id) ([], none) λ msg. (msg ∷ [], some server)

  -- The frame is stored, and `process` runs.
  unfoldable pub deliver : Network (Option (Server S))
  unfolding store_message process send_response
  deliver msg none = some ([], none)
  deliver msg (some server) = some (
      maybe (process crc16 table (store_message msg server) elapsed_us) ([], none)
        λ p. send_response p.response p.server)
