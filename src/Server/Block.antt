-- ===== src/Server/Block.antt =====
-- `SdoState::download_block` and `SdoState::end_download_block`.
use zencan.Base.{
  ℕ, ◌+◌, ◌-◌, ◌*◌, Bool, not, List, Option, leb, ltb, ◌==◌, ◌&&◌, if◌then◌else◌, length, take,
  maybe,
}
use zencan.Sdo.Abort.{AbortCode}
use zencan.Sdo.Request.{SdoRequest}
use zencan.Sdo.Response.{SdoResponse}
use zencan.Server.Receiver.{
  SdoReceiver, ReceiverState, take_request, increment_timer, set_state, begin_block_download,
  restart_block_download,
}
use zencan.Server.State.{
  blksize, sdo_timeout_us, Crc, DownloadBlock, SdoState, Outcome, no_response, aborted, respond,
  respond_with_update, attempt, require,
}
use zencan.Server.Segmented.{waiting}

module _ {S : Type 0} (crc16 : Crc) (state : DownloadBlock S) where
  -- A failure of the object while a block is stored ends the transfer.
  abbrev pub stopped : SdoReceiver → AbortCode → S → Option (Outcome S)
  unfolding set_state
  stopped rx abort_code od =
      aborted state.entry.index state.sub abort_code (set_state rx ReceiverState.normal) od

  -- A block that is not the last: its bytes are a part of the object.
  unfoldable pub write_block : ℕ → ℕ → SdoReceiver → S → Option (Outcome S)
  unfolding begin_block_download
  write_block ackseq valid_length rx od =
      let valid_data = take valid_length rx.buffer in
      attempt (state.entry.object.write_partial state.sub valid_data od) (stopped rx) λ _ od1.
        respond (SdoResponse.confirm_block ackseq blksize)
          (SdoState.download_block (record state {
            block_counter = state.block_counter + 1;
            crc = crc16.update state.crc valid_data;
          }))
          (begin_block_download rx blksize) od1

  -- The slice of the buffer may panic.
  unfoldable pub store_block : ℕ → ℕ → SdoReceiver → S → Option (Outcome S)
  unfolding write_block
  store_block ackseq last_segment rx od = require (leb (last_segment * 7) (length rx.buffer)) (
      if state.block_counter == 0
      then attempt (state.entry.object.begin_partial state.sub od) (stopped rx)
          (λ _ od1. write_block ackseq (last_segment * 7) rx od1)
      else write_block ackseq (last_segment * 7) rx od)

  unfoldable pub block_completed : ℕ → ℕ → Bool → SdoReceiver → S → Option (Outcome S)
  unfolding restart_block_download set_state store_block
  block_completed ackseq last_segment complete rx od =
      if not (ackseq == last_segment)
      then respond (SdoResponse.confirm_block ackseq blksize) (SdoState.download_block state)
          (restart_block_download rx ackseq) od
      else if complete
      then respond (SdoResponse.confirm_block ackseq blksize)
          (SdoState.end_download_block
            (record state { block_counter = state.block_counter + 1; last_segment = last_segment }))
          (set_state rx ReceiverState.normal) od
      else store_block ackseq last_segment rx od

  unfoldable pub download_block_in : ReceiverState → SdoReceiver → ℕ → S → Option (Outcome S)
  unfolding take_request increment_timer set_state block_completed
  download_block_in ReceiverState.normal rx elapsed_us od =
      no_response SdoState.idle (take_request rx).1 od
  download_block_in ReceiverState.block_receive rx elapsed_us od =
      let (time, rx') = increment_timer rx elapsed_us in
      if ltb sdo_timeout_us time
      then aborted state.entry.index state.sub AbortCode.sdo_timeout
          (set_state rx' ReceiverState.normal) od
      else no_response (SdoState.download_block state) rx' od
  download_block_in (ReceiverState.block_completed ackseq last_segment complete) rx elapsed_us od =
      block_completed ackseq last_segment complete rx od

  unfoldable pub download_block : SdoReceiver → ℕ → S → Option (Outcome S)
  unfolding download_block_in
  download_block rx elapsed_us od = download_block_in rx.state rx elapsed_us od

  abbrev pub end_failed : SdoReceiver → AbortCode → S → Option (Outcome S)
  end_failed rx abort_code od = aborted state.entry.index state.sub abort_code rx od

  abbrev pub block_ended : SdoReceiver → S → Option (Outcome S)
  block_ended rx od =
      respond_with_update SdoResponse.confirm_block_download_end state.entry.index state.sub
        SdoState.idle rx od

  -- The last block, whose length is known now.
  unfoldable pub store_last : List ℕ → SdoReceiver → S → Option (Outcome S)
  store_last valid_data rx od =
      if state.block_counter == 1
      then attempt (state.entry.object.write state.sub valid_data od) (end_failed rx)
          (λ _ od1. block_ended rx od1)
      else attempt (state.entry.object.write_partial state.sub valid_data od) (end_failed rx)
          λ _ od1.
            attempt (state.entry.object.end_partial state.sub od1) (end_failed rx)
              λ _ od2. block_ended rx od2

  -- The slice may panic: also where the subtraction of `n` wraps, since its end is then outside.
  unfoldable pub end_block : ℕ → ℕ → SdoReceiver → S → Option (Outcome S)
  unfolding store_last
  end_block n crc rx od =
      let write_len = state.last_segment * 7 - n in
      let valid_data = take write_len rx.buffer in
      let crc_calc = crc16.get (crc16.update state.crc valid_data) in
      require (leb n (state.last_segment * 7) && leb write_len (length rx.buffer)) (
        if state.client_supports_crc && not (crc_calc == crc)
        then aborted state.entry.index state.sub AbortCode.crc_error rx od
        else store_last valid_data rx od)

  unfoldable pub end_request : SdoRequest → SdoReceiver → S → Option (Outcome S)
  unfolding end_block
  end_request (SdoRequest.end_block_download n crc) rx od = end_block n crc rx od
  end_request (SdoRequest.abort index sub abort_code) rx od = no_response SdoState.idle rx od
  end_request _ rx od =
      aborted state.entry.index state.sub AbortCode.invalid_command_specifier rx od

  unfoldable pub end_download_block : SdoReceiver → ℕ → S → Option (Outcome S)
  unfolding waiting take_request end_request
  end_download_block rx elapsed_us od =
      let (request, rx') = take_request rx in
      maybe request
        (waiting (SdoState.end_download_block state) state.entry state.sub rx' elapsed_us od)
        λ req. end_request req rx' od
