-- ===== src/Server/Segmented/Upload.antt =====
-- What `SdoState::upload_segmented` does with a request whose toggle bit is right.
use zencan.Base.{
  ℕ, ◌+◌, ◌-◌, ◌*◌, ◌%◌, ◌^◌, min, Bool, false, not, List, Option, none, some, Result, ok, err, leb,
  ltb, ◌==◌, ◌&&◌, if◌then◌else◌, length, take, drop, ◌++◌, maybe,
}
use zencan.Sdo.Abort.{AbortCode}
use zencan.Sdo.Response.Build
use zencan.Sdo.Wire.{slice}
use zencan.Server.Receiver.{SdoReceiver}
use zencan.Server.State.{Segmented, SdoState, Outcome, respond, respond_with_update, require}

-- What the handler knows when it has decided whether this segment is the last: `c`, the count for
-- the state to come, the buffer and the objects.
pub record Decision (S : Type 0) : Type 0 where
  pub c : Bool
  pub bytes_in_buffer : Option ℕ
  pub full_buf : List ℕ
  pub od : S

module _ {S : Type 0} (state : Segmented S) where
  -- `read(…).unwrap()`: the failure of a read is a panic.
  unwrap_read : ℕ → List ℕ → Result AbortCode ℕ × List ℕ × S → Option (Decision S)
  unwrap_read size full (err abort_code, buf, od) = none
  unwrap_read size full (ok read_size, buf, od) = some (record {
    c = read_size == 0;
    bytes_in_buffer =
        if read_size == 0
        then none
        else if read_size == size
        then none
        else some (read_size % 2 ^ 32);
    full_buf = buf ++ drop size full;
    od = od;
  })

  -- `size` is the length of the part of the buffer that is in use.
  unfoldable pub decide : ℕ → ℕ → ℕ → List ℕ → S → Option (Decision S)
  unfolding unwrap_read
  decide size buf_read_offset segment_size full od =
      maybe state.bytes_in_buffer
        (if buf_read_offset + segment_size == size
          then unwrap_read size full (
              state.entry.object.read state.sub (state.segment_counter * 7 + segment_size)
                (take size full) od)
          else some (record { c = false; bytes_in_buffer = none; full_buf = full; od = od }))
        λ bytes. some (record {
          c = buf_read_offset + segment_size == bytes;
          bytes_in_buffer = some bytes;
          full_buf = full;
          od = od;
        })

  unfoldable pub answer_segment : List ℕ → Decision S → SdoReceiver → Option (Outcome S)
  unfolding Build.upload_segment
  answer_segment msg d rx =
      let rx' = record rx { buffer = d.full_buf } in
      maybe (Build.upload_segment state.toggle_state d.c msg) none λ response.
        if d.c
        then respond_with_update response state.entry.index state.sub SdoState.idle rx' d.od
        else respond response
            (SdoState.upload_segmented (record {
              entry = state.entry;
              sub = state.sub;
              toggle_state = not state.toggle_state;
              segment_counter = (state.segment_counter + 1) % 2 ^ 32;
              bytes_in_buffer = d.bytes_in_buffer;
            }))
            rx' d.od

  -- The remainder by the length in use and the slice may panic. The subtraction of the offset wraps,
  -- on a `usize` of 64 bits.
  unfoldable pub send_segment : SdoReceiver → S → Option (Outcome S)
  unfolding decide answer_segment
  send_segment rx od =
      let len = length rx.buffer in
      let size = len - len % 7 in
      let offset = state.segment_counter * 7 % size in
      let available = maybe state.bytes_in_buffer size (λ bytes. bytes) in
      let segment_size = min ((available + 2 ^ 64 - offset) % 2 ^ 64) 7 in
      require (ltb 0 size && leb (offset + segment_size) size) (
        maybe (decide size offset segment_size rx.buffer od) none
          λ d. answer_segment (slice rx.buffer offset (offset + segment_size)) d rx)
