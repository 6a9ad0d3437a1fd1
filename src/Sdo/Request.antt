-- ===== src/Sdo/Request.antt =====
-- `SdoRequest` of zencan-common/src/sdo.rs: what a client sends to an SDO server.
pub mod Build
pub mod Encode
pub mod Decode
pub mod Validity
pub mod RoundTrip
use zencan.Base.{ℕ, ◌<◌, ◌≤◌, Bool, List}
use zencan.Base.Bits.{IsByte, IsU16, IsU32, IsArray}

pub data SdoRequest : Type 0 where
  initiate_download : (n : ℕ) (e s : Bool) (index sub : ℕ) (value : List ℕ) → SdoRequest
  download_segment : (t : Bool) (n : ℕ) (c : Bool) (value : List ℕ) → SdoRequest
  initiate_upload : (index sub : ℕ) → SdoRequest
  req_upload_segment : (t : Bool) → SdoRequest
  initiate_block_download : (cc s : Bool) (index sub size : ℕ) → SdoRequest
  end_block_download : (n crc : ℕ) → SdoRequest
  initiate_block_upload : (index sub blksize pst : ℕ) → SdoRequest
  end_block_upload : SdoRequest
  start_block_upload : SdoRequest
  confirm_block : (ackseq blksize : ℕ) → SdoRequest
  abort : (index sub abort_code : ℕ) → SdoRequest

pub data ClientCommand : Type 0 where
  download_segment initiate_download initiate_upload req_upload_segment : ClientCommand
  abort block_upload block_download : ClientCommand

-- What the Rust types promise of the fields, and that a count of unused bytes fits its field of the
-- command byte: two bits for an expedited download, three bits elsewhere.
abbrev pub IsRequest : SdoRequest → Type 0
IsRequest (SdoRequest.initiate_download n e s index sub value) =
    (n < 4) × IsU16 index × IsByte sub × IsArray 4 value
IsRequest (SdoRequest.download_segment t n c value) = (n < 8) × IsArray 7 value
IsRequest (SdoRequest.initiate_upload index sub) = IsU16 index × IsByte sub
IsRequest (SdoRequest.req_upload_segment t) = Unit {0}
IsRequest (SdoRequest.initiate_block_download cc s index sub size) =
    IsU16 index × IsByte sub × IsU32 size
IsRequest (SdoRequest.end_block_download n crc) = (n < 8) × IsU16 crc
IsRequest (SdoRequest.initiate_block_upload index sub blksize pst) =
    IsU16 index × IsByte sub × IsByte blksize × IsByte pst
IsRequest SdoRequest.end_block_upload = Unit {0}
IsRequest SdoRequest.start_block_upload = Unit {0}
IsRequest (SdoRequest.confirm_block ackseq blksize) = IsByte ackseq × IsByte blksize
IsRequest (SdoRequest.abort index sub abort_code) = IsU16 index × IsByte sub × IsU32 abort_code
