-- ===== src/Sdo/Request/Decode.antt =====
-- `SdoRequest::try_from(&[u8])`, and what it promises on any bytes.
use zencan.Base.{
  ◌≤◌, ◌<◌, ◌/◌, ◌≡◌, arith, ℕ, List, Option, none, some, Result, ok, err, bit_and, ltb, ◌==◌,
  if◌then◌else◌, length, maybe,
}
use zencan.Base.Bits.{shr, has_bit, from_le}
use zencan.Sdo.Abort.{AbortCode}
use zencan.Sdo.Wire.{byte, slice, read_index}
use zencan.Sdo.Request.{SdoRequest, ClientCommand}

unfoldable pub client_command : ℕ → Option ClientCommand
client_command v =
    if v == 0
    then some ClientCommand.download_segment
    else if v == 1
    then some ClientCommand.initiate_download
    else if v == 2
    then some ClientCommand.initiate_upload
    else if v == 3
    then some ClientCommand.req_upload_segment
    else if v == 4
    then some ClientCommand.abort
    else if v == 5
    then some ClientCommand.block_upload
    else if v == 6
    then some ClientCommand.block_download
    else none

pub data BlockUploadSub : Type 0 where
  initiate_upload end_upload confirm_block start_upload : BlockUploadSub

unfoldable pub block_upload_sub : ℕ → Option BlockUploadSub
block_upload_sub v =
    if v == 0
    then some initiate_upload
    else if v == 1
    then some end_upload
    else if v == 2
    then some confirm_block
    else if v == 3
    then some start_upload
    else none

pub data BlockDownloadSub : Type 0 where
  initiate_download end_download : BlockDownloadSub

unfoldable pub block_download_sub : ℕ → Option BlockDownloadSub
block_download_sub v =
    if v == 0 then some initiate_download else if v == 1 then some end_download else none

unfoldable pub decode_block_upload : BlockUploadSub → List ℕ → SdoRequest
decode_block_upload initiate_upload value =
    SdoRequest.initiate_block_upload (read_index value) (byte value 3) (byte value 4) (byte value 5)
decode_block_upload end_upload value = SdoRequest.end_block_upload
decode_block_upload confirm_block value = SdoRequest.confirm_block (byte value 1) (byte value 2)
decode_block_upload start_upload value = SdoRequest.start_block_upload

unfoldable pub decode_block_download : BlockDownloadSub → List ℕ → SdoRequest
decode_block_download initiate_download value =
    SdoRequest.initiate_block_download (has_bit (byte value 0) 4) (has_bit (byte value 0) 2)
      (read_index value) (byte value 3) (from_le (slice value 4 8))
decode_block_download end_download value =
    SdoRequest.end_block_download (bit_and (shr (byte value 0) 2) 7) (from_le (slice value 1 3))

unfoldable pub decode : ClientCommand → List ℕ → Result AbortCode SdoRequest
decode ClientCommand.download_segment value = ok (
    SdoRequest.download_segment (has_bit (byte value 0) 16) (bit_and (shr (byte value 0) 1) 7)
      (has_bit (byte value 0) 1) (slice value 1 8))
decode ClientCommand.initiate_download value = ok (
    SdoRequest.initiate_download (bit_and (shr (byte value 0) 2) 3) (has_bit (byte value 0) 2)
      (has_bit (byte value 0) 1) (read_index value) (byte value 3) (slice value 4 8))
decode ClientCommand.initiate_upload value =
    ok (SdoRequest.initiate_upload (read_index value) (byte value 3))
decode ClientCommand.req_upload_segment value =
    ok (SdoRequest.req_upload_segment (has_bit (shr (byte value 0) 4) 1))
decode ClientCommand.abort value =
    ok (SdoRequest.abort (read_index value) (byte value 3) (from_le (slice value 4 8)))
decode ClientCommand.block_upload value =
    maybe (block_upload_sub (bit_and (byte value 0) 3)) (err AbortCode.invalid_command_specifier)
      (λ sub. ok (decode_block_upload sub value))
decode ClientCommand.block_download value =
    maybe (block_download_sub (bit_and (byte value 0) 1)) (err AbortCode.invalid_command_specifier)
      (λ sub. ok (decode_block_download sub value))

unfoldable pub from_bytes : List ℕ → Result AbortCode SdoRequest
from_bytes value =
    if ltb (length value) 8
    then err AbortCode.data_type_mismatch_length_low
    else maybe (client_command (shr (byte value 0) 5)) (err AbortCode.invalid_command_specifier)
        (λ ccs. decode ccs value)

pub from_bytes_command :
    (value : List ℕ) (c : ClientCommand)
    → 8 ≤ length value
    → client_command (shr (byte value 0) 5) ≡ some c
    → from_bytes value ≡ decode c value
unfolding from_bytes
from_bytes_command value c h e = ground arith

pub from_bytes_short :
    (value : List ℕ)
    → length value < 8
    → from_bytes value ≡ err AbortCode.data_type_mismatch_length_low
unfolding from_bytes
from_bytes_short value h = ground arith

pub from_bytes_unknown :
    (value : List ℕ)
    → 8 ≤ length value
    → byte value 0 / 32 ≡ 7
    → from_bytes value ≡ err AbortCode.invalid_command_specifier
unfolding from_bytes client_command
from_bytes_unknown value h e = ground arith
