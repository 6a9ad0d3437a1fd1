-- ===== src/Client/Download.antt =====
-- `SdoClient::download`.
use zencan.Base.{
  ℕ, zero, suc, ◌+◌, ◌-◌, ◌*◌, ◌/◌, ◌%◌, ◌^◌, min, Bool, false, not, List, none, some, ok, leb,
  ◌==◌, if◌then◌else◌, same, length, maybe,
}
use zencan.Sdo.Wire.{slice}
use zencan.Sdo.Request.Build
use zencan.Sdo.Response.{SdoResponse}
use zencan.Client.{AbortCodeOf, Network, Client, Ends, exchange, unmatched, wrong_toggle}

module _ {N : Type 0} (of_code : AbortCodeOf) (network : Network N) (index sub : ℕ)
    (bytes : List ℕ) where
  -- `SdoResponse::ConfirmDownload { .. }` is expected.
  unfoldable pub download_confirmed :
      SdoResponse → Client N → (Client N → Ends N (Unit {0})) → Ends N (Unit {0})
  unfolding unmatched
  download_confirmed (SdoResponse.confirm_download i s) client next = next client
  download_confirmed response client next = unmatched of_code response client

  -- `SdoResponse::ConfirmDownloadSegment { t }` is expected, with the toggle bit that was sent.
  unfoldable pub segment_confirmed :
      Bool → SdoResponse → Client N → (Client N → Ends N (Unit {0})) → Ends N (Unit {0})
  unfolding unmatched wrong_toggle
  segment_confirmed toggle (SdoResponse.confirm_download_segment t) client next =
      if not (same t toggle) then wrong_toggle network index sub client else next client
  segment_confirmed toggle response client next = unmatched of_code response client

  -- `data.len().div_ceil(7)`
  abbrev pub total_segments : ℕ
  total_segments = (length bytes + 6) / 7

  -- `&data[n * 7..n * 7 + segment_size]`
  abbrev pub segment_data : ℕ → List ℕ
  segment_data n = slice bytes (n * 7) (n * 7 + min (length bytes - n * 7) 7)

  -- The loop from segment `n`, with `left` segments to go.
  unfoldable pub send_segments : ℕ → ℕ → Bool → Client N → Ends N (Unit {0})
  unfolding exchange segment_confirmed Build.download_segment
  send_segments zero n toggle client = some (ok tt, client)
  send_segments (suc left) n toggle client =
      maybe (Build.download_segment toggle (n == total_segments - 1) (segment_data n)) none
        λ request. exchange network request client λ resp client1.
          segment_confirmed toggle resp client1
            (λ client2. send_segments left (n + 1) (not toggle) client2)

  unfoldable pub download : Client N → Ends N (Unit {0})
  unfolding exchange download_confirmed send_segments Build.expedited_download
      Build.initiate_download
  download client =
      if leb (length bytes) 4
      then maybe (Build.expedited_download index sub bytes) none (λ request.
        exchange network request client
          λ resp client1. download_confirmed resp client1 (λ client2. some (ok tt, client2)))
      else exchange network (Build.initiate_download index sub (some (length bytes % 2 ^ 32)))
          client
          λ resp client1.
            download_confirmed resp client1
              (λ client2. send_segments total_segments 0 false client2)
