-- ===== src/Server/Transfer/Complete.antt =====
-- After the last segment the object holds all that was received.
use native.Mathlib.Decide.{dec_lt}
use mathlib.Core.Path.{subst}
use native.Mathlib.Nat.{mod-eq_of_lt}
use zencan.Base.{
  ℕ, ◌+◌, ◌-◌, ◌*◌, ◌≤◌, ◌<◌, ◌≡◌, sym, ap, ◌∙◌, Bool, true, List, ◌++◌, arith, length, take,
  copy_at, length-copy_at, take-copy_at, length-take, length-append,
}
use zencan.Sdo.Wire.{slice}
use zencan.Sdo.Response.{SdoResponse}
use zencan.Dict.{OdEntry}
use zencan.Server.Receiver.{SdoReceiver}
use zencan.Server.State.{SdoState, respond_with_update}
use zencan.Server.Segmented.Download.{receive_segment}
use zencan.Server.Transfer.Store.{Store}
use zencan.Server.Transfer.Plan.{offset_of, offset_lt, after}
use zencan.Server.Transfer.Wrap.{joined, filled_of, filled_held, rest_at_start}
use zencan.Server.Transfer.LastSegment.{whole, tail, two_parts}
use zencan.Server.Transfer.Progress.{Progress, open_write, not_at_start}

module _ {S : Type 0} (entry : OdEntry S) (sub cap : ℕ) (store : Store entry.object sub cap) (k : ℕ)
    (t : Bool) (n : ℕ) (value : List ℕ) (rx : SdoReceiver) (recv : List ℕ) (s : S)
    (long : 7 ≤ length rx.buffer) (seven : length value ≡ 7) (unused : n < 8)
    (fit : length (recv ++ take (7 - n) value) ≤ cap) where
  abbrev pub Completes : Type 0
  Completes =
      (buf : List ℕ) × (s' : S) × (receive_segment (after entry sub k t) n true value rx s
        ≡ respond_with_update (SdoResponse.confirm_download_segment t) entry.index sub SdoState.idle
            (record rx { buffer = buf }) s')
      × (length buf ≡ length rx.buffer)
      × store.Holds (recv ++ take (7 - n) value) s'

  -- The bytes that the buffer holds then.
  kept_bytes :
      offset_of (length rx.buffer) k + (7 - n) ≤ length rx.buffer
      → take
          (offset_of (length rx.buffer) k + (7 - n))
          (copy_at (offset_of (length rx.buffer) k) (take (7 - n) value) rx.buffer)
        ≡ take (offset_of (length rx.buffer) k) rx.buffer ++ take (7 - n) value
  kept_bytes room =
      let off = offset_of (length rx.buffer) k in
      let size : length (take (7 - n) value) ≡ 7 - n = omega (arith, length-take (7 - n) value) in
      ap (λ i. take (off + i) (copy_at off (take (7 - n) value) rx.buffer)) (sym size)
      ∙ take-copy_at off (take (7 - n) value) rx.buffer (omega arith)

  fits_buffer :
      offset_of (length rx.buffer) k + (7 - n) ≤ length rx.buffer
      → Progress entry sub cap store (length rx.buffer) k recv rx.buffer s
      → Completes
  fits_buffer room (Progress.first inside held ready) =
      let off = offset_of (length rx.buffer) k in
      let same_offset : off ≡ k * 7 = mod-eq_of_lt inside in
      let all =
        kept_bytes room
        ∙ ap (λ xs. xs ++ take (7 - n) value) (ap (λ i. take i rx.buffer) same_offset ∙ held) in
      let (s1, wrote, holds) = store.write_lem (recv ++ take (7 - n) value) s ready fit in
      (
        copy_at off (take (7 - n) value) rx.buffer,
        s1,
        whole entry sub k t n value rx s s1 (omega arith) unused room (sym same_offset)
            (rw all wrote),
        length-copy_at off (take (7 - n) value) rx.buffer,
        holds,
      )
  fits_buffer room (Progress.later written beyond held open_s) =
      let off = offset_of (length rx.buffer) k in
      let part = take off rx.buffer ++ take (7 - n) value in
      let all = joined written recv (take (7 - n) value) rx.buffer off held in
      let (s1, wrote, open_s1) = store.part_lem written part s open_s (rw all fit) in
      let (s2, ended, holds) = store.end_lem (written ++ part) s1 open_s1 in
      (
        copy_at off (take (7 - n) value) rx.buffer,
        s2,
        tail entry sub k t n value rx s s1 s2 (omega arith) unused room
            (not_at_start (length rx.buffer) k (omega arith) beyond) (rw (kept_bytes room) wrote)
            ended,
        length-copy_at off (take (7 - n) value) rx.buffer,
        rw (← all) holds,
      )

  runs_over :
      length rx.buffer < offset_of (length rx.buffer) k + (7 - n)
      → Progress entry sub cap store (length rx.buffer) k recv rx.buffer s
      → Completes
  runs_over over progress =
      let len = length rx.buffer in
      let off = offset_of len k in
      let below = offset_lt len k (omega arith) in
      let buf = filled_of value rx.buffer off seven below in
      let rest = slice value (len - off) (7 - n) in
      let size_buf = length-copy_at off (take (len - off) value) rx.buffer in
      let (written, s1, opened, open_s1, held) =
        open_write entry sub cap store len k recv rx.buffer s (omega arith) progress in
      let all : (written ++ buf) ++ rest ≡ recv ++ take (7 - n) value =
        filled_held value rx.buffer off seven below written recv (7 - n) (omega arith) (omega arith)
          held in
      let at_start : take (7 - n - (len - off)) (copy_at 0 rest buf) ≡ rest =
        rest_at_start value rx.buffer off seven below (7 - n) buf (omega arith) (omega arith)
          (omega arith) in
      let (s2, wrote, open_s2) =
        store.part_lem written buf s1 open_s1
          (omega (arith, ap length all, length-append (written ++ buf) rest)) in
      let (s3, wrote_rest, open_s3) =
        store.part_lem (written ++ buf) rest s2 open_s2 (rw all fit) in
      let (s4, ended, holds) = store.end_lem ((written ++ buf) ++ rest) s3 open_s3 in
      (
        copy_at 0 rest buf,
        s4,
        two_parts entry sub k t n value rx s s1 s2 s3 s4 long unused over opened wrote
            (rw at_start wrote_rest) ended,
        length-copy_at 0 rest buf ∙ size_buf,
        subst (λ xs. store.Holds xs s4) all holds,
      )

  -- The last segment, with `n` of its seven bytes unused, over a buffer of seven bytes or more, into an
  -- object that accepts as many bytes as have been received: it is acknowledged, the object is reported
  -- as updated, the server is idle, and the object holds all bytes received and those of the segment.
  pub receive_last : Progress entry sub cap store (length rx.buffer) k recv rx.buffer s → Completes
  receive_last progress =
      elim (dec_lt (length rx.buffer) (offset_of (length rx.buffer) k + (7 - n))) [
        | yes over ↦ runs_over over progress
        | no within ↦ fits_buffer (omega arith) progress
      ]
