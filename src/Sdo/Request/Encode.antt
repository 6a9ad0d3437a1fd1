-- ===== src/Sdo/Request/Encode.antt =====
-- `SdoRequest::to_bytes` and `to_can_message`.
use zencan.Base.{ℕ, Bool, List, ◌∷◌, ◌++◌, Option, none, some, bit_and, bit_or, replicate, maybe}
use zencan.Base.Bits.{shl8, as_u8, to_le}
use zencan.Can.{CanId, CanMessage, new}
use zencan.Sdo.Wire.{at_object}
use zencan.Sdo.Request.{SdoRequest, ClientCommand}

-- `command as u8`.
unfoldable pub client_code : ClientCommand → ℕ
client_code ClientCommand.download_segment = 0
client_code ClientCommand.initiate_download = 1
client_code ClientCommand.initiate_upload = 2
client_code ClientCommand.req_upload_segment = 3
client_code ClientCommand.abort = 4
client_code ClientCommand.block_upload = 5
client_code ClientCommand.block_download = 6

-- The command bytes, `payload[0]`.
unfoldable pub download_head : ℕ → Bool → Bool → ℕ
unfolding client_code
download_head n e s =
    bit_or
      (bit_or (bit_or (shl8 (client_code ClientCommand.initiate_download) 5) (shl8 n 2))
        (shl8 (as_u8 e) 1))
      (as_u8 s)

unfoldable pub segment_head : Bool → ℕ → Bool → ℕ
unfolding client_code
segment_head t n c =
    bit_or
      (bit_or (bit_or (shl8 (client_code ClientCommand.download_segment) 5) (shl8 (as_u8 t) 4))
        (shl8 (bit_and n 7) 1))
      (as_u8 c)

unfoldable pub block_download_head : Bool → Bool → ℕ
unfolding client_code
block_download_head crc s =
    bit_or (bit_or (shl8 (client_code ClientCommand.block_download) 5) (shl8 (as_u8 crc) 2))
      (shl8 (as_u8 s) 1)

unfoldable pub end_block_head : ℕ → ℕ
unfolding client_code
end_block_head n = bit_or (bit_or (shl8 (client_code ClientCommand.block_download) 5) (shl8 n 2)) 1

abbrev pub zeros : ℕ → List ℕ
zeros n = replicate n 0

-- `none` is the panic of `todo!()`, at the four messages of a block upload.
unfoldable pub to_bytes : SdoRequest → Option (List ℕ)
unfolding client_code at_object
to_bytes (SdoRequest.initiate_download n e s index sub value) =
    some (at_object (download_head n e s) index sub value)
to_bytes (SdoRequest.download_segment t n c value) = some (segment_head t n c ∷ value)
to_bytes (SdoRequest.initiate_upload index sub) =
    some (at_object (shl8 (client_code ClientCommand.initiate_upload) 5) index sub (zeros 4))
to_bytes (SdoRequest.req_upload_segment t) =
    some
      (bit_or (shl8 (client_code ClientCommand.req_upload_segment) 5) (shl8 (as_u8 t) 4) ∷ zeros 7)
to_bytes (SdoRequest.abort index sub abort_code) =
    some (at_object (shl8 (client_code ClientCommand.abort) 5) index sub (to_le 4 abort_code))
to_bytes (SdoRequest.initiate_block_download crc s index sub size) =
    some (at_object (block_download_head crc s) index sub (to_le 4 size))
to_bytes (SdoRequest.end_block_download n crc) = some (end_block_head n ∷ (to_le 2 crc ++ zeros 5))
to_bytes (SdoRequest.initiate_block_upload index sub blksize pst) = none
to_bytes SdoRequest.end_block_upload = none
to_bytes SdoRequest.start_block_upload = none
to_bytes (SdoRequest.confirm_block ackseq blksize) = none

unfoldable pub to_can_message : SdoRequest → CanId → Option CanMessage
unfolding to_bytes new
to_can_message request id = maybe (to_bytes request) none (new id)
