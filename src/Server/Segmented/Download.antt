-- ===== src/Server/Segmented/Download.antt =====
-- What `SdoState::download_segmented` does with a segment whose toggle bit is right.
use zencan.Base.{
  ℕ, ◌+◌, ◌-◌, ◌*◌, ◌%◌, ◌^◌, min, Bool, not, List, Option, leb, ltb, ◌==◌, ◌&&◌, ◌||◌,
  if◌then◌else◌, length, take, copy_at,
}
use zencan.Sdo.Abort.{AbortCode}
use zencan.Sdo.Response.Build
use zencan.Sdo.Wire.{slice}
use zencan.Server.Receiver.{SdoReceiver}
use zencan.Server.State.{
  Segmented, SdoState, Outcome, aborted, respond, respond_with_update, attempt, require,
}

-- The variables that the handler computes from the state, the segment and the length of the buffer.
pub record Plan : Type 0 where
  pub buffer_offset : ℕ
  pub on_first_buffer : Bool
  pub segment_size : ℕ
  pub copy_len : ℕ
  pub buffer_full : Bool
  pub more_bytes_in_message : Bool

unfoldable pub plan : ℕ → ℕ → ℕ → Plan
plan buf_len segment_counter n =
    let total_offset = segment_counter * 7 in
    let offset = total_offset % buf_len in
    let size = 7 - n in
    let len = min size (buf_len - offset) in
    record {
      buffer_offset = offset;
      on_first_buffer = total_offset == offset;
      segment_size = size;
      copy_len = len;
      buffer_full = offset + len == buf_len;
      more_bytes_in_message = ltb len size;
    }

module _ {S : Type 0} (state : Segmented S) (value : List ℕ) (rx : SdoReceiver) where
  -- The handler ends with the buffer as it is then.
  abbrev pub fail : List ℕ → AbortCode → S → Option (Outcome S)
  fail buf abort_code od =
      aborted state.entry.index state.sub abort_code (record rx { buffer = buf }) od

  -- `buf[0..segment_size - copy_len].copy_from_slice(&data[copy_len..segment_size])`
  abbrev pub wrapped : Plan → List ℕ → List ℕ
  unfolding copy_at
  wrapped p buf = copy_at 0 (slice value p.copy_len p.segment_size) buf

  abbrev pub fits : Plan → List ℕ → Bool
  fits p buf = leb (p.segment_size - p.copy_len) (length buf)

  -- After the last bytes are stored.
  unfoldable pub completed : List ℕ → S → Option (Outcome S)
  unfolding Build.download_segment_acknowledge
  completed buf od =
      respond_with_update (Build.download_segment_acknowledge state.toggle_state) state.entry.index
        state.sub SdoState.idle (record rx { buffer = buf }) od

  -- The last segment, in a partial write that is open: the bytes that are left are written, and the
  -- write is ended.
  unfoldable pub end_download : Plan → List ℕ → S → Option (Outcome S)
  unfolding completed
  end_download p buf od =
      let count =
        if p.more_bytes_in_message
        then p.segment_size - p.copy_len
        else p.buffer_offset + p.segment_size in
      require (leb count (length buf)) (
        attempt (state.entry.object.write_partial state.sub (take count buf) od) (fail buf) λ _ od1.
          attempt (state.entry.object.end_partial state.sub od1) (fail buf)
            λ _ od2. completed buf od2)

  -- The last segment of an object that fits the buffer: it is written whole.
  unfoldable pub write_whole : Plan → List ℕ → S → Option (Outcome S)
  unfolding completed
  write_whole p buf od =
      let count = p.buffer_offset + p.segment_size in
      require (leb count (length buf)) (
        attempt (state.entry.object.write state.sub (take count buf) od) (fail buf)
          λ _ od1. completed buf od1)

  -- A segment with others to come.
  unfoldable pub next_segment : Plan → List ℕ → S → Option (Outcome S)
  unfolding Build.download_segment_acknowledge
  next_segment p buf od =
      let buf' = if ltb p.copy_len p.segment_size then wrapped p buf else buf in
      require (not (ltb p.copy_len p.segment_size) || fits p buf) (
        respond (Build.download_segment_acknowledge state.toggle_state)
          (SdoState.download_segmented (record state {
            toggle_state = not state.toggle_state;
            segment_counter = (state.segment_counter + 1) % 2 ^ 32;
          }))
          (record rx { buffer = buf' }) od)

  unfoldable pub finish_segment : Plan → Bool → List ℕ → S → Option (Outcome S)
  unfolding end_download write_whole next_segment
  finish_segment p c buf od =
      if c
      then if (p.buffer_full && p.more_bytes_in_message) || not p.on_first_buffer
        then end_download p buf od
        else write_whole p buf od
      else next_segment p buf od

  -- A full buffer with bytes to come is written as a part; the first such part opens the write.
  unfoldable pub flush_buffer : Plan → Bool → List ℕ → S → Option (Outcome S)
  unfolding finish_segment
  flush_buffer p c buf od =
      attempt (state.entry.object.write_partial state.sub buf od) (fail buf) λ _ od1.
        if p.more_bytes_in_message
        then require (fits p buf) (finish_segment p c (wrapped p buf) od1)
        else finish_segment p c buf od1

  unfoldable pub store_segment : Plan → Bool → S → Option (Outcome S)
  unfolding copy_at flush_buffer finish_segment
  store_segment p c od =
      let buf = copy_at p.buffer_offset (take p.copy_len value) rx.buffer in
      if p.buffer_full && (not c || p.more_bytes_in_message)
      then if p.on_first_buffer
        then attempt (state.entry.object.begin_partial state.sub od) (fail buf)
            (λ _ od1. flush_buffer p c buf od1)
        else flush_buffer p c buf od
      else finish_segment p c buf od

-- The remainder by the length of the buffer and `7 - n` may panic.
unfoldable pub receive_segment :
    {S : Type 0} → Segmented S → ℕ → Bool → List ℕ → SdoReceiver → S → Option (Outcome S)
unfolding plan store_segment
receive_segment state n c value rx od =
    require (ltb 0 (length rx.buffer) && leb n 7)
      (store_segment state value rx (plan (length rx.buffer) state.segment_counter n) c od)
