-- ===== src/Server/Segmented.antt =====
-- `SdoState::download_segmented` and `SdoState::upload_segmented`: the two halves of a segmented
-- transfer. `Download` and `Upload` have what is done for a segment.
pub mod Download
pub mod Upload
use zencan.Base.{ℕ, Bool, true, false, not, Option, none, some, ltb, if◌then◌else◌, same, maybe}
use zencan.Dict.{OdEntry}
use zencan.Sdo.Abort.{AbortCode}
use zencan.Sdo.Request.{SdoRequest}
use zencan.Server.Receiver.{SdoReceiver, take_request, increment_timer}
use zencan.Server.State.{sdo_timeout_us, Segmented, SdoState, Outcome, no_response, aborted}
use Download.{receive_segment}
use Upload.{send_segment}

module _ {S : Type 0} where
  -- With no request, the timer runs; past the timeout the transfer is aborted.
  unfoldable pub waiting : SdoState S → OdEntry S → ℕ → SdoReceiver → ℕ → S → Option (Outcome S)
  unfolding increment_timer
  waiting state entry sub rx elapsed_us od =
      let (time, rx') = increment_timer rx elapsed_us in
      if ltb sdo_timeout_us time
      then aborted entry.index sub AbortCode.sdo_timeout rx' od
      else no_response state rx' od

  unfoldable pub download_request : Segmented S → SdoRequest → SdoReceiver → S → Option (Outcome S)
  unfolding receive_segment
  download_request state (SdoRequest.download_segment t n c value) rx od =
      if not (same t state.toggle_state)
      then aborted state.entry.index state.sub AbortCode.toggle_not_alternated rx od
      else receive_segment state n c value rx od
  download_request state (SdoRequest.abort index sub abort_code) rx od =
      no_response SdoState.idle rx od
  download_request state _ rx od =
      aborted state.entry.index state.sub AbortCode.invalid_command_specifier rx od

  unfoldable pub download_segmented : Segmented S → SdoReceiver → ℕ → S → Option (Outcome S)
  unfolding waiting take_request download_request
  download_segmented state rx elapsed_us od =
      let (request, rx') = take_request rx in
      maybe request
        (waiting (SdoState.download_segmented state) state.entry state.sub rx' elapsed_us od)
        λ req. download_request state req rx' od

  unfoldable pub upload_request : Segmented S → SdoRequest → SdoReceiver → S → Option (Outcome S)
  unfolding send_segment
  upload_request state (SdoRequest.req_upload_segment t) rx od =
      if not (same t state.toggle_state)
      then aborted state.entry.index state.sub AbortCode.toggle_not_alternated rx od
      else send_segment state rx od
  upload_request state (SdoRequest.abort index sub abort_code) rx od =
      no_response SdoState.idle rx od
  upload_request state _ rx od =
      aborted state.entry.index state.sub AbortCode.invalid_command_specifier rx od

  -- While it waits, an upload turns into a download: that is what the source does.
  unfoldable pub upload_segmented : Segmented S → SdoReceiver → ℕ → S → Option (Outcome S)
  unfolding waiting take_request upload_request
  upload_segmented state rx elapsed_us od =
      let (request, rx') = take_request rx in
      maybe request
        (waiting (SdoState.download_segmented state) state.entry state.sub rx' elapsed_us od)
        λ req. upload_request state req rx' od
