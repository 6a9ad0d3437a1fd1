-- ===== src/Sdo/Response/Encode.antt =====
-- `SdoResponse::to_can_message`.
use zencan.Base.{ℕ, Bool, List, ◌∷◌, Option, none, some, bit_and, bit_or, replicate, maybe}
use zencan.Base.Bits.{shl8, as_u8, to_le}
use zencan.Can.{CanId, CanMessage, new}
use zencan.Sdo.Wire.{at_object}
use zencan.Sdo.Response.{SdoResponse, ServerCommand}

-- `command as u8`.
unfoldable pub server_code : ServerCommand → ℕ
server_code ServerCommand.segment_upload = 0
server_code ServerCommand.segment_download = 1
server_code ServerCommand.upload = 2
server_code ServerCommand.download = 3
server_code ServerCommand.abort = 4
server_code ServerCommand.block_download = 5
server_code ServerCommand.block_upload = 6

-- The command bytes, `payload[0]`.
unfoldable pub upload_head : ℕ → Bool → Bool → ℕ
unfolding server_code
upload_head n e s =
    bit_or
      (bit_or (bit_or (shl8 (server_code ServerCommand.upload) 5) (shl8 (bit_and n 3) 2))
        (shl8 (as_u8 e) 1))
      (as_u8 s)

unfoldable pub segment_head : Bool → ℕ → Bool → ℕ
unfolding server_code
segment_head t n c =
    bit_or
      (bit_or (bit_or (shl8 (server_code ServerCommand.segment_upload) 5) (shl8 (as_u8 t) 4))
        (shl8 n 1))
      (as_u8 c)

unfoldable pub block_head : Bool → ℕ
unfolding server_code
block_head sc =
    bit_or (bit_or (shl8 (server_code ServerCommand.block_download) 5) (shl8 (as_u8 sc) 2)) 0

abbrev pub zeros : ℕ → List ℕ
zeros n = replicate n 0

-- The bytes that the `match` writes; `none` is the panic of `todo!()`.
unfoldable pub to_bytes : SdoResponse → Option (List ℕ)
unfolding server_code at_object
to_bytes (SdoResponse.confirm_upload n e s index sub value) =
    some (at_object (upload_head n e s) index sub value)
to_bytes (SdoResponse.confirm_download index sub) =
    some (at_object (shl8 (server_code ServerCommand.download) 5) index sub (zeros 4))
to_bytes (SdoResponse.upload_segment t n c value) = some (segment_head t n c ∷ value)
to_bytes (SdoResponse.confirm_block_download sc index sub blksize) =
    some (at_object (block_head sc) index sub (blksize ∷ zeros 3))
to_bytes (SdoResponse.confirm_block ackseq blksize) =
    some (bit_or (shl8 (server_code ServerCommand.block_download) 5) 2 ∷ ackseq ∷ blksize ∷ zeros 5)
to_bytes SdoResponse.confirm_block_download_end =
    some (bit_or (shl8 (server_code ServerCommand.block_download) 5) 1 ∷ zeros 7)
to_bytes (SdoResponse.confirm_download_segment t) =
    some (bit_or (shl8 (server_code ServerCommand.segment_download) 5) (shl8 (as_u8 t) 4) ∷ zeros 7)
to_bytes (SdoResponse.abort index sub abort_code) =
    some (at_object (shl8 (server_code ServerCommand.abort) 5) index sub (to_le 4 abort_code))
to_bytes (SdoResponse.confirm_block_upload sc s index sub size) = none
to_bytes (SdoResponse.block_upload_end n crc) = none

unfoldable pub to_can_message : SdoResponse → CanId → Option CanMessage
unfolding to_bytes new
to_can_message response id = maybe (to_bytes response) none (new id)
