-- ===== src/Server.antt =====
-- zencan-node/src/sdo_server: the SDO server of a node. `update` chooses the handler by the state, and
-- `process` keeps the state that the handler gives.
pub mod Receiver
pub mod State
pub mod Idle
pub mod Segmented
pub mod Block
pub mod Transfer
pub mod Errors
pub mod Aborts
use zencan.Base.{ℕ, List, Option, none, some, maybe}
use zencan.Objects.{ObjectId}
use zencan.Dict.{OdEntry}
use zencan.Sdo.Response.{SdoResponse}
use Receiver.{SdoReceiver}
use State.{Crc, SdoState, Outcome}
use Idle.{idle}
use Segmented.{download_segmented, upload_segmented}
use Block.{download_block, end_download_block}

-- The server with what it works on: `SdoServer`, the receiver and the objects.
pub record Server (S : Type 0) : Type 0 where
  pub state : SdoState S
  pub rx : SdoReceiver
  pub od : S

pub record Processed (S : Type 0) : Type 0 where
  pub server : Server S
  pub response : Option SdoResponse
  pub updated_object : Option ObjectId

module _ {S : Type 0} (crc16 : Crc) (table : List (OdEntry S)) where
  unfoldable pub update : SdoState S → SdoReceiver → ℕ → S → Option (Outcome S)
  unfolding idle download_segmented upload_segmented download_block end_download_block
  update SdoState.idle rx elapsed_us od = idle crc16 table rx od
  update (SdoState.download_segmented state) rx elapsed_us od =
      download_segmented state rx elapsed_us od
  update (SdoState.upload_segmented state) rx elapsed_us od =
      upload_segmented state rx elapsed_us od
  update (SdoState.download_block state) rx elapsed_us od =
      download_block crc16 state rx elapsed_us od
  update (SdoState.end_download_block state) rx elapsed_us od =
      end_download_block crc16 state rx elapsed_us od

  unfoldable pub process : Server S → ℕ → Option (Processed S)
  unfolding update
  process server elapsed_us = maybe (update server.state server.rx elapsed_us server.od) none λ o.
      some (record {
        server = record { state = o.result.new_state; rx = o.rx; od = o.od };
        response = o.result.response;
        updated_object = o.result.updated_object;
      })
