-- ===== src/Client/Upload.antt =====
-- `SdoClient::upload`.
use zencan.Base.{
  ℕ, zero, suc, ◌-◌, Bool, false, not, List, [], ◌++◌, none, some, ok, leb, if◌then◌else◌, same,
  take,
}
use zencan.Sdo.Request.Build
use zencan.Sdo.Response.{SdoResponse}
use zencan.Client.{AbortCodeOf, Network, Client, Ends, exchange, unmatched, wrong_toggle}

module _ {N : Type 0} (of_code : AbortCodeOf) (network : Network N) (index sub : ℕ) where
  -- `SdoResponse::UploadSegment { .. }` is expected. `7 - n` panics for `n` above 7.
  unfoldable pub segment_received :
      Bool
      → List ℕ
      → SdoResponse
      → Client N
      → (List ℕ → Client N → Ends N (List ℕ))
      → Ends N (List ℕ)
  unfolding unmatched wrong_toggle
  segment_received toggle read_buf (SdoResponse.upload_segment t n c bytes) client next =
      if not (same t toggle)
      then wrong_toggle network index sub client
      else if leb n 7
      then if c
        then some (ok (read_buf ++ take (7 - n) bytes), client)
        else next (read_buf ++ take (7 - n) bytes) client
      else none
  segment_received toggle read_buf response client next = unmatched of_code response client

  -- The loop, for at most `fuel` segments; without fuel it answers `none`.
  unfoldable pub receive_segments : ℕ → Bool → List ℕ → Client N → Ends N (List ℕ)
  unfolding exchange segment_received Build.upload_segment_request
  receive_segments zero toggle read_buf client = none
  receive_segments (suc fuel) toggle read_buf client =
      exchange network (Build.upload_segment_request toggle) client λ resp client1.
        segment_received toggle read_buf resp client1
          (λ read_buf1 client2. receive_segments fuel (not toggle) read_buf1 client2)

  -- `SdoResponse::ConfirmUpload { .. }` is expected.
  unfoldable pub upload_confirmed : ℕ → SdoResponse → Client N → Ends N (List ℕ)
  unfolding unmatched receive_segments
  upload_confirmed fuel (SdoResponse.confirm_upload n e s i j bytes) client =
      if e
      then if not s
        then some (ok [], client)
        else if leb n 4
        then some (ok (take (4 - n) bytes), client)
        else none
      else receive_segments fuel false [] client
  upload_confirmed fuel response client = unmatched of_code response client

  unfoldable pub upload : ℕ → Client N → Ends N (List ℕ)
  unfolding exchange upload_confirmed Build.initiate_upload
  upload fuel client =
      exchange network (Build.initiate_upload index sub) client
        λ resp client1. upload_confirmed fuel resp client1
