-- ===== src/Sdo/Response/Build.antt =====
-- The constructor functions of `SdoResponse`. `none` is a panic.
use zencan.Base.{
  ℕ, ◌-◌, Bool, true, false, List, Option, none, some, length, replicate, copy_at, ltb, leb, ◌==◌,
  if◌then◌else◌, maybe,
}
use zencan.Base.Bits.{to_le}
use zencan.Sdo.Abort.{AbortCode, code}
use zencan.Sdo.Response.{SdoResponse}

-- No byte at all is marked by a clear size bit.
unfoldable pub expedited_upload : ℕ → ℕ → List ℕ → Option SdoResponse
unfolding copy_at
expedited_upload index sub payload =
    if ltb 4 (length payload)
    then none
    else let s = if length payload == 0 then false else true in
      let n = if length payload == 0 then 0 else 4 - length payload in
      some (SdoResponse.confirm_upload n true s index sub (copy_at 0 payload (replicate 4 0)))

unfoldable pub upload_acknowledge : ℕ → ℕ → Option ℕ → SdoResponse
upload_acknowledge index sub size =
    SdoResponse.confirm_upload 0 false (maybe size false (λ _. true)) index sub
      (to_le 4 (maybe size 0 (λ v. v)))

unfoldable pub upload_segment : Bool → Bool → List ℕ → Option SdoResponse
unfolding copy_at
upload_segment t c payload =
    if leb (length payload) 7
    then some
        (SdoResponse.upload_segment t (7 - length payload) c (copy_at 0 payload (replicate 7 0)))
    else none

unfoldable pub download_acknowledge : ℕ → ℕ → SdoResponse
download_acknowledge index sub = SdoResponse.confirm_download index sub

unfoldable pub download_segment_acknowledge : Bool → SdoResponse
download_segment_acknowledge t = SdoResponse.confirm_download_segment t

unfoldable pub block_download_acknowledge : Bool → ℕ → ℕ → ℕ → SdoResponse
block_download_acknowledge sc index sub blksize =
    SdoResponse.confirm_block_download sc index sub blksize

unfoldable pub confirm_block : ℕ → ℕ → SdoResponse
confirm_block ackseq blksize = SdoResponse.confirm_block ackseq blksize

unfoldable pub abort : ℕ → ℕ → AbortCode → SdoResponse
abort index sub abort_code = SdoResponse.abort index sub (code abort_code)
