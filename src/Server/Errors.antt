-- ===== src/Server/Errors.antt =====
-- How transfers end when something goes wrong.
use zencan.Base.{ℕ, ◌+◌, ◌^◌, ◌-◌, ◌≤◌, ◌<◌, ◌≡◌, refl, Bool, List, none, some, arith, min}
use zencan.Dict.{OdEntry}
use zencan.Sdo.Abort.{AbortCode}
use zencan.Sdo.Request.{SdoRequest}
use zencan.Server.{Processed, process, update}
use zencan.Server.Receiver.{SdoReceiver}
use zencan.Server.State.{sdo_timeout_us, Crc, Segmented, SdoState, aborted}
use zencan.Server.Segmented.{waiting, download_segmented, upload_segmented}

module _ {S : Type 0} (crc16 : Crc) (table : List (OdEntry S)) where
  -- While the client of an upload has sent nothing yet and the timeout is not over, `process` turns
  -- the upload into a download, and aborts the client's next request for a segment.
  pub upload_interrupted :
      (st : Segmented S) (rx rx' : SdoReceiver) (od : S) (elapsed later : ℕ) (t : Bool)
      → rx.request ≡ none
      → rx.timer + elapsed ≤ sdo_timeout_us
      → (p : Processed S) × (process crc16 table
            (record { state = SdoState.upload_segmented st; rx = rx; od = od })
            elapsed
          ≡ some p)
        × (p.response ≡ none)
        × (p.server.state ≡ SdoState.download_segmented st)
        × (update crc16 table p.server.state
              (record rx' { request = some (SdoRequest.req_upload_segment t) })
              later
              od
            ≡ aborted st.entry.index st.sub AbortCode.invalid_command_specifier
                (record rx' { request = none })
                od)
  unfolding process update upload_segmented download_segmented waiting aborted
  upload_interrupted st rx rx' od elapsed later t empty early = (
    record {
      server = record {
        state = SdoState.download_segmented st;
        rx = record rx { request = none; timer = rx.timer + elapsed };
        od = od;
      };
      response = none;
      updated_object = none;
    },
    ground arith,
    refl,
    refl,
    refl,
  )

  -- With no request for more than 25 ms, a segmented download is aborted with `SdoTimeout`, however
  -- large the time is: the timer saturates. The objects are not touched.
  pub download_timeout :
      (st : Segmented S) (rx : SdoReceiver) (od : S) (elapsed : ℕ)
      → rx.request ≡ none
      → sdo_timeout_us < rx.timer + elapsed
      → (timer : ℕ) × (update crc16 table (SdoState.download_segmented st) rx elapsed od
          ≡ aborted st.entry.index st.sub AbortCode.sdo_timeout (record rx { timer = timer }) od)
  unfolding update download_segmented waiting aborted
  download_timeout st rx od elapsed empty late =
      (min (rx.timer + elapsed) (2 ^ 32 - 1), ground arith)
