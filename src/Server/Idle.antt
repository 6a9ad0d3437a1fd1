-- ===== src/Server/Idle.antt =====
-- `SdoState::idle`: the requests that begin a transfer.
use zencan.Base.{
  ℕ, ◌-◌, ◌%◌, ◌^◌, Bool, true, false, not, List, Option, none, some, ok, either, leb, ◌==◌,
  if◌then◌else◌, length, take, drop, ◌++◌, maybe,
}
use zencan.Base.Bits.{from_le}
use zencan.Objects.{SubInfo, is_writable}
use zencan.Dict.{OdEntry, find_object_entry}
use zencan.Sdo.Abort.{AbortCode}
use zencan.Sdo.Request.{SdoRequest}
use zencan.Sdo.Response.Build
use zencan.Server.Receiver.{SdoReceiver, take_request, begin_block_download}
use zencan.Server.State.{
  blksize, Crc, validate_download_size, SdoState, Outcome, no_response, aborted, respond,
  respond_with_update, attempt, require,
}

module _ {S : Type 0} (crc16 : Crc) (table : List (OdEntry S)) where
  -- `InitiateDownload` with the expedited flag. `4 - n` and the slice panic for `n` above 4.
  unfoldable pub expedited_download :
      OdEntry S → SubInfo → ℕ → ℕ → ℕ → List ℕ → SdoReceiver → S → Option (Outcome S)
  unfolding is_writable validate_download_size Build.download_acknowledge
  expedited_download entry subinfo n index sub value rx od =
      if not (is_writable subinfo.access_type)
      then aborted index sub AbortCode.read_only rx od
      else require (leb n 4) (
          either (validate_download_size (4 - n) subinfo)
            (λ abort_code. aborted index sub abort_code rx od)
            (λ _.
              attempt (entry.object.write sub (take (4 - n) value) od)
                (λ abort_code od'. aborted index sub abort_code rx od')
                (λ _ od'.
                  respond_with_update (Build.download_acknowledge index sub) index sub SdoState.idle
                    rx od')))

  -- The same without it: the size, if it is given, is checked.
  unfoldable pub begin_segmented :
      OdEntry S → SubInfo → Bool → ℕ → ℕ → List ℕ → SdoReceiver → S → Option (Outcome S)
  unfolding validate_download_size Build.download_acknowledge
  begin_segmented entry subinfo s index sub value rx od =
      either (if s then validate_download_size (from_le value) subinfo else ok tt)
        (λ abort_code. aborted index sub abort_code rx od)
        (λ _.
          respond (Build.download_acknowledge index sub)
            (SdoState.download_segmented (record {
              entry = entry;
              sub = sub;
              toggle_state = false;
              segment_counter = 0;
              bytes_in_buffer = some 0;
            }))
            rx od)

  -- `&mut full_buf[0..len - (len % 7)]` is given to `read`; what lies behind it stays.
  abbrev pub usable : List ℕ → ℕ
  usable buffer = length buffer - length buffer % 7

  unfoldable pub begin_upload : OdEntry S → ℕ → ℕ → SdoReceiver → S → Option (Outcome S)
  unfolding Build.expedited_upload Build.upload_acknowledge
  begin_upload entry index sub full_rx od =
      let full = full_rx.buffer in
      let size = usable full in
      let (answer, buf, od') = entry.object.read sub 0 (take size full) od in
      let rx = record full_rx { buffer = buf ++ drop size full } in
      either answer (λ abort_code. aborted index sub abort_code rx od')
        (λ read_size.
          if leb read_size 4
          then maybe (Build.expedited_upload index sub (take read_size buf)) none
              (λ response. respond response SdoState.idle rx od')
          else let ack_size = if read_size == size then none else some (read_size % 2 ^ 32) in
            respond (Build.upload_acknowledge index sub ack_size)
              (SdoState.upload_segmented (record {
                entry = entry;
                sub = sub;
                toggle_state = false;
                segment_counter = 0;
                bytes_in_buffer = ack_size;
              }))
              rx od')

  unfoldable pub begin_block :
      OdEntry S → SubInfo → Bool → Bool → ℕ → ℕ → ℕ → SdoReceiver → S → Option (Outcome S)
  unfolding validate_download_size begin_block_download Build.block_download_acknowledge
  begin_block entry subinfo crc_supported s index sub size rx od =
      either (if s then validate_download_size size subinfo else ok tt)
        (λ abort_code. aborted index sub abort_code rx od)
        (λ _.
          respond (Build.block_download_acknowledge true index sub blksize)
            (SdoState.download_block (record {
              entry = entry;
              sub = sub;
              client_supports_crc = crc_supported;
              block_counter = 0;
              last_segment = 0;
              crc = crc16.init;
            }))
            (begin_block_download rx blksize) od)

  -- `find_object_entry` and `sub_info`, whose failures abort.
  unfoldable pub with_object :
      ℕ → ℕ → SdoReceiver → S → (OdEntry S → SubInfo → Option (Outcome S)) → Option (Outcome S)
  with_object index sub rx od next =
      maybe (find_object_entry table index) (aborted index sub AbortCode.no_such_object rx od)
        λ entry.
          either (entry.object.sub_info sub od) (λ abort_code. aborted index sub abort_code rx od)
            (λ subinfo. next entry subinfo)

  unfoldable pub idle_request : SdoRequest → SdoReceiver → S → Option (Outcome S)
  unfolding with_object find_object_entry expedited_download begin_segmented begin_upload
      begin_block
  idle_request (SdoRequest.initiate_download n e s index sub value) rx od =
      with_object index sub rx od λ entry subinfo.
        if e
        then expedited_download entry subinfo n index sub value rx od
        else begin_segmented entry subinfo s index sub value rx od
  idle_request (SdoRequest.initiate_upload index sub) rx od =
      maybe (find_object_entry table index) (aborted index sub AbortCode.no_such_object rx od)
        λ entry. begin_upload entry index sub rx od
  idle_request (SdoRequest.initiate_block_download crc_supported s index sub size) rx od =
      with_object index sub rx od
        λ entry subinfo. begin_block entry subinfo crc_supported s index sub size rx od
  idle_request (SdoRequest.initiate_block_upload index sub block_size pst) rx od =
      aborted index sub AbortCode.invalid_command_specifier rx od
  idle_request _ rx od = aborted 0 0 AbortCode.invalid_command_specifier rx od

  unfoldable pub idle : SdoReceiver → S → Option (Outcome S)
  unfolding take_request idle_request
  idle rx od =
      let (request, rx') = take_request rx in
      maybe request (no_response SdoState.idle rx' od) (λ req. idle_request req rx' od)
