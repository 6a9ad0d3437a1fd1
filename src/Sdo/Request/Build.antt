-- ===== src/Sdo/Request/Build.antt =====
-- The constructor functions of `SdoRequest`. `none` is a panic of a slice.
use zencan.Base.{
  ℕ, ◌-◌, Bool, true, false, List, Option, none, some, length, replicate, copy_at, leb,
  if◌then◌else◌, maybe,
}
use zencan.Base.Bits.{to_le}
use zencan.Sdo.Abort.{AbortCode, code}
use zencan.Sdo.Request.{SdoRequest}

unfoldable pub abort : ℕ → ℕ → AbortCode → SdoRequest
abort index sub abort_code = SdoRequest.abort index sub (code abort_code)

-- `size.unwrap_or(0)` and `size.is_some()`.
unfoldable pub initiate_download : ℕ → ℕ → Option ℕ → SdoRequest
initiate_download index sub size =
    SdoRequest.initiate_download 0 false (maybe size false (λ _. true)) index sub
      (to_le 4 (maybe size 0 (λ v. v)))

unfoldable pub initiate_block_download : ℕ → ℕ → Bool → ℕ → SdoRequest
initiate_block_download index sub crc_supported size =
    SdoRequest.initiate_block_download crc_supported true index sub size

unfoldable pub end_block_download : ℕ → ℕ → SdoRequest
end_block_download n crc = SdoRequest.end_block_download n crc

unfoldable pub download_segment : Bool → Bool → List ℕ → Option SdoRequest
unfolding copy_at
download_segment toggle last_segment segment_data =
    if leb (length segment_data) 7
    then some (
        SdoRequest.download_segment toggle (7 - length segment_data) last_segment
          (copy_at 0 segment_data (replicate 7 0)))
    else none

unfoldable pub expedited_download : ℕ → ℕ → List ℕ → Option SdoRequest
unfolding copy_at
expedited_download index sub payload =
    if leb (length payload) 4
    then some (
        SdoRequest.initiate_download (4 - length payload) true true index sub
          (copy_at 0 payload (replicate 4 0)))
    else none

unfoldable pub initiate_upload : ℕ → ℕ → SdoRequest
initiate_upload index sub = SdoRequest.initiate_upload index sub

unfoldable pub upload_segment_request : Bool → SdoRequest
upload_segment_request toggle = SdoRequest.req_upload_segment toggle
