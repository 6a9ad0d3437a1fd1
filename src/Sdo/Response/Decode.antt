-- ===== src/Sdo/Response/Decode.antt =====
-- `SdoResponse::try_from(CanMessage)`, which reads all eight bytes of the frame. Its error is `()`.
use zencan.Base.{ℕ, List, Option, none, some, bit_and, ◌==◌, if◌then◌else◌, maybe}
use zencan.Base.Bits.{shr, has_bit, from_le}
use zencan.Can.{CanMessage}
use zencan.Sdo.Wire.{byte, slice}
use zencan.Sdo.Response.{SdoResponse, ServerCommand}

unfoldable pub server_command : ℕ → Option ServerCommand
server_command v =
    if v == 0
    then some ServerCommand.segment_upload
    else if v == 1
    then some ServerCommand.segment_download
    else if v == 2
    then some ServerCommand.upload
    else if v == 3
    then some ServerCommand.download
    else if v == 4
    then some ServerCommand.abort
    else if v == 5
    then some ServerCommand.block_download
    else if v == 6
    then some ServerCommand.block_upload
    else none

pub data BlockDownloadSub : Type 0 where
  initiate_download_ack end_download_ack confirm_block : BlockDownloadSub

unfoldable pub block_download_sub : ℕ → Option BlockDownloadSub
block_download_sub v =
    if v == 0
    then some initiate_download_ack
    else if v == 1
    then some end_download_ack
    else if v == 2
    then some confirm_block
    else none

pub data BlockUploadSub : Type 0 where
  initiate_upload end_upload : BlockUploadSub

unfoldable pub block_upload_sub : ℕ → Option BlockUploadSub
block_upload_sub v =
    if v == 0 then some initiate_upload else if v == 1 then some end_upload else none

-- `u16::from_le_bytes(msg.data[1..3])`.
unfoldable pub index_of : List ℕ → ℕ
index_of bytes = from_le (slice bytes 1 3)

unfoldable pub decode_block_download : BlockDownloadSub → List ℕ → SdoResponse
decode_block_download confirm_block bytes = SdoResponse.confirm_block (byte bytes 1) (byte bytes 2)
decode_block_download initiate_download_ack bytes =
    SdoResponse.confirm_block_download (has_bit (byte bytes 0) 4) (index_of bytes) (byte bytes 3)
      (byte bytes 4)
decode_block_download end_download_ack bytes = SdoResponse.confirm_block_download_end

unfoldable pub decode_block_upload : BlockUploadSub → List ℕ → SdoResponse
decode_block_upload initiate_upload bytes =
    SdoResponse.confirm_block_upload (has_bit (byte bytes 0) 4) (has_bit (byte bytes 0) 2)
      (index_of bytes) (byte bytes 3) (from_le (slice bytes 4 8))
decode_block_upload end_upload bytes =
    SdoResponse.block_upload_end (bit_and (shr (byte bytes 0) 2) 7) (from_le (slice bytes 1 3))

unfoldable pub decode : ServerCommand → List ℕ → Option SdoResponse
decode ServerCommand.segment_upload bytes = some (
    SdoResponse.upload_segment (has_bit (byte bytes 0) 16) (bit_and (shr (byte bytes 0) 1) 7)
      (has_bit (byte bytes 0) 1) (slice bytes 1 8))
decode ServerCommand.segment_download bytes =
    some (SdoResponse.confirm_download_segment (has_bit (byte bytes 0) 16))
decode ServerCommand.upload bytes = some (
    SdoResponse.confirm_upload (bit_and (shr (byte bytes 0) 2) 3) (has_bit (byte bytes 0) 2)
      (has_bit (byte bytes 0) 1) (index_of bytes) (byte bytes 3) (slice bytes 4 8))
decode ServerCommand.download bytes =
    some (SdoResponse.confirm_download (index_of bytes) (byte bytes 3))
decode ServerCommand.block_download bytes =
    maybe (block_download_sub (bit_and (byte bytes 0) 3)) none
      (λ sub. some (decode_block_download sub bytes))
decode ServerCommand.block_upload bytes =
    maybe (block_upload_sub (bit_and (byte bytes 0) 3)) none
      (λ sub. some (decode_block_upload sub bytes))
decode ServerCommand.abort bytes =
    some (SdoResponse.abort (index_of bytes) (byte bytes 3) (from_le (slice bytes 4 8)))

unfoldable pub from_message : CanMessage → Option SdoResponse
from_message msg =
    maybe (server_command (shr (byte msg.bytes 0) 5)) none (λ command. decode command msg.bytes)
