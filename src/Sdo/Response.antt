-- ===== src/Sdo/Response.antt =====
-- `SdoResponse` of zencan-common/src/sdo.rs: what an SDO server answers.
pub mod Build
pub mod Encode
pub mod Decode
pub mod RoundTrip
use zencan.Base.{ℕ, ◌<◌, Bool, List}
use zencan.Base.Bits.{IsByte, IsU16, IsU32, IsArray}

pub data SdoResponse : Type 0 where
  confirm_upload : (n : ℕ) (e s : Bool) (index sub : ℕ) (value : List ℕ) → SdoResponse
  upload_segment : (t : Bool) (n : ℕ) (c : Bool) (value : List ℕ) → SdoResponse
  confirm_download : (index sub : ℕ) → SdoResponse
  confirm_download_segment : (t : Bool) → SdoResponse
  confirm_block_download : (sc : Bool) (index sub blksize : ℕ) → SdoResponse
  confirm_block : (ackseq blksize : ℕ) → SdoResponse
  confirm_block_download_end : SdoResponse
  confirm_block_upload : (sc s : Bool) (index sub size : ℕ) → SdoResponse
  block_upload_end : (n crc : ℕ) → SdoResponse
  abort : (index sub abort_code : ℕ) → SdoResponse

pub data ServerCommand : Type 0 where
  segment_upload segment_download upload download abort : ServerCommand
  block_download block_upload : ServerCommand

-- What the Rust types promise of the fields, and that a count of unused bytes fits its field of the
-- command byte.
abbrev pub IsResponse : SdoResponse → Type 0
IsResponse (SdoResponse.confirm_upload n e s index sub value) =
    (n < 4) × IsU16 index × IsByte sub × IsArray 4 value
IsResponse (SdoResponse.upload_segment t n c value) = (n < 8) × IsArray 7 value
IsResponse (SdoResponse.confirm_download index sub) = IsU16 index × IsByte sub
IsResponse (SdoResponse.confirm_download_segment t) = Unit {0}
IsResponse (SdoResponse.confirm_block_download sc index sub blksize) =
    IsU16 index × IsByte sub × IsByte blksize
IsResponse (SdoResponse.confirm_block ackseq blksize) = IsByte ackseq × IsByte blksize
IsResponse SdoResponse.confirm_block_download_end = Unit {0}
IsResponse (SdoResponse.confirm_block_upload sc s index sub size) =
    IsU16 index × IsByte sub × IsU32 size
IsResponse (SdoResponse.block_upload_end n crc) = (n < 8) × IsU16 crc
IsResponse (SdoResponse.abort index sub abort_code) = IsU16 index × IsByte sub × IsU32 abort_code
