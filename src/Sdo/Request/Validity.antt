-- ===== src/Sdo/Request/Validity.antt =====
-- What `SdoRequest::try_from` answers on any bytes.
use zencan.Base.{
  ℕ, ◌/◌, ◌<◌, ◌≤◌, ◌≡◌, List, some, Result, ok, err, arith, length, All, bit_and, some_of_ne_none,
}
use native.Mathlib.Decide.{dec_lt}
use zencan.Base.Bits.{IsByte, bit_and_ones}
use zencan.Sdo.Abort.{AbortCode}
use zencan.Sdo.Wire.{
  byte, slice, byte-IsByte, slice-IsArray, read_index-IsU16, from_le-IsU16, from_le-IsU32,
}
use zencan.Sdo.Request.{SdoRequest, ClientCommand, IsRequest}
use zencan.Sdo.Request.Decode.{
  BlockUploadSub, BlockDownloadSub, from_bytes, client_command, decode, block_upload_sub,
  block_download_sub, decode_block_upload, decode_block_download, from_bytes_command,
  from_bytes_short, from_bytes_unknown,
}

abbrev Valid : Result AbortCode SdoRequest → Type 0
Valid (ok r) = IsRequest r
Valid (err e) = ⊥

two_bits : (x : ℕ) → bit_and x 3 < 4
two_bits x = omega (arith, bit_and_ones 2 x)

three_bits : (x : ℕ) → bit_and x 7 < 8
three_bits x = omega (arith, bit_and_ones 3 x)

one_bit : (x : ℕ) → bit_and x 1 < 2
one_bit x = omega (arith, bit_and_ones 1 x)

module _ (value : List ℕ) (long : 8 ≤ length value) (bytes : All IsByte value) where
  block_upload_IsRequest : (k : BlockUploadSub) → IsRequest (decode_block_upload k value)
  unfolding decode_block_upload
  block_upload_IsRequest BlockUploadSub.initiate_upload = (
    read_index-IsU16 value (byte-IsByte value 1 bytes) (byte-IsByte value 2 bytes),
    byte-IsByte value 3 bytes,
    byte-IsByte value 4 bytes,
    byte-IsByte value 5 bytes,
  )
  block_upload_IsRequest BlockUploadSub.end_upload = tt
  block_upload_IsRequest BlockUploadSub.confirm_block =
      (byte-IsByte value 1 bytes, byte-IsByte value 2 bytes)
  block_upload_IsRequest BlockUploadSub.start_upload = tt

  block_download_IsRequest : (k : BlockDownloadSub) → IsRequest (decode_block_download k value)
  unfolding decode_block_download
  block_download_IsRequest BlockDownloadSub.initiate_download = (
    read_index-IsU16 value (byte-IsByte value 1 bytes) (byte-IsByte value 2 bytes),
    byte-IsByte value 3 bytes,
    from_le-IsU32 (slice value 4 8) (slice-IsArray value 4 8 bytes (omega arith)),
  )
  block_download_IsRequest BlockDownloadSub.end_download =
      (three_bits _, from_le-IsU16 (slice value 1 3) (slice-IsArray value 1 3 bytes (omega arith)))

  block_upload_total : (x : ℕ) → x < 4 → (k : BlockUploadSub) × (block_upload_sub x ≡ some k)
  unfolding block_upload_sub
  block_upload_total x h = some_of_ne_none (block_upload_sub x) (ground arith)

  block_download_total : (x : ℕ) → x < 2 → (k : BlockDownloadSub) × (block_download_sub x ≡ some k)
  unfolding block_download_sub
  block_download_total x h = some_of_ne_none (block_download_sub x) (ground arith)

  decode-Valid : (c : ClientCommand) → Valid (decode c value)
  unfolding decode
  decode-Valid ClientCommand.download_segment =
      (three_bits _, slice-IsArray value 1 8 bytes (omega arith))
  decode-Valid ClientCommand.initiate_download = (
    two_bits _,
    read_index-IsU16 value (byte-IsByte value 1 bytes) (byte-IsByte value 2 bytes),
    byte-IsByte value 3 bytes,
    slice-IsArray value 4 8 bytes (omega arith),
  )
  decode-Valid ClientCommand.initiate_upload = (
    read_index-IsU16 value (byte-IsByte value 1 bytes) (byte-IsByte value 2 bytes),
    byte-IsByte value 3 bytes,
  )
  decode-Valid ClientCommand.req_upload_segment = tt
  decode-Valid ClientCommand.abort = (
    read_index-IsU16 value (byte-IsByte value 1 bytes) (byte-IsByte value 2 bytes),
    byte-IsByte value 3 bytes,
    from_le-IsU32 (slice value 4 8) (slice-IsArray value 4 8 bytes (omega arith)),
  )
  decode-Valid ClientCommand.block_upload =
      let (k, e) = block_upload_total _ (two_bits (byte value 0)) in rw e (block_upload_IsRequest k)
  decode-Valid ClientCommand.block_download =
      let (k, e) = block_download_total _ (one_bit (byte value 0)) in
      rw e (block_download_IsRequest k)

-- The answers that `try_from` may give.
pub data Answer (value : List ℕ) : Result AbortCode SdoRequest → Type 0 where
  too_short : length value < 8 → Answer value (err AbortCode.data_type_mismatch_length_low)
  unknown_command :
      8 ≤ length value
      → byte value 0 / 32 ≡ 7
      → Answer value (err AbortCode.invalid_command_specifier)
  request :
      (r : SdoRequest)
      → 8 ≤ length value
      → byte value 0 / 32 < 7
      → IsRequest r
      → Answer value (ok r)

client_command_total : (x : ℕ) → x < 7 → (c : ClientCommand) × (client_command x ≡ some c)
unfolding client_command
client_command_total x h = some_of_ne_none (client_command x) (ground arith)

Answer-of-Valid :
    (value : List ℕ) (r : Result AbortCode SdoRequest)
    → 8 ≤ length value
    → byte value 0 / 32 < 7
    → Valid r
    → Answer value r
Answer-of-Valid value (ok r) long known v = request r long known v
Answer-of-Valid value (err e) long known v = absurd v

-- On any bytes `try_from` fails for exactly two reasons, fewer than eight bytes or the unused
-- command 7, each with its own abort code; otherwise it gives a request whose fields are in range.
pub from_bytes-Answer : (value : List ℕ) → All IsByte value → Answer value (from_bytes value)
from_bytes-Answer value bytes = elim (dec_lt (length value) 8) [
  | yes short ↦ rw (from_bytes_short value short) (too_short short)
  | no long ↦ elim (dec_lt (byte value 0 / 32) 7) [
    | yes known ↦
        let (c, e) = client_command_total _ known in
        rw (from_bytes_command value c (omega arith) e)
          (Answer-of-Valid value _ (omega arith) known (decode-Valid value (omega arith) bytes c))
    | no unknown ↦
        let first : byte value 0 / 32 ≡ 7 = omega (arith, byte-IsByte value 0 bytes) in
        rw (from_bytes_unknown value (omega arith) first) (unknown_command (omega arith) first)
  ]
]
