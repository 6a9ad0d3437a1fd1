-- ===== src/Server/Transfer/LastSegment.antt =====
-- The last segment of a download, with `n` unused bytes: the object fits the buffer, or a partial write
-- is ended, with one part or with two.
use zencan.Base.{
  ℕ, ◌+◌, ◌-◌, ◌*◌, ◌≤◌, ◌<◌, ◌≡◌, ◌≢◌, inl, inr, Bool, true, List, ok, arith, length, take,
  copy_at, length-copy_at,
}
use zencan.Sdo.Wire.{slice}
use zencan.Sdo.Response.{SdoResponse}
use zencan.Dict.{OdEntry}
use zencan.Server.Receiver.{SdoReceiver}
use zencan.Server.State.{SdoState, respond_with_update}
use zencan.Server.Segmented.Download.{receive_segment}
use zencan.Server.Transfer.Plan.{offset_of, after, Opened}

module _ {S : Type 0} (entry : OdEntry S) (sub k : ℕ) (t : Bool) (n : ℕ) (value : List ℕ)
    (rx : SdoReceiver) where
  -- The bytes of the segment, where they fit the rest of the buffer.
  abbrev pub kept : List ℕ
  kept = copy_at (offset_of (length rx.buffer) k) (take (7 - n) value) rx.buffer

  abbrev pub total : ℕ
  total = offset_of (length rx.buffer) k + (7 - n)

  abbrev pub Completed : List ℕ → S → S → Type 0
  Completed buf s s' =
      receive_segment (after entry sub k t) n true value rx s
      ≡ respond_with_update (SdoResponse.confirm_download_segment t) entry.index sub SdoState.idle
          (record rx { buffer = buf }) s'

  pub whole :
      (s s1 : S)
      → 0 < length rx.buffer
      → n < 8
      → total ≤ length rx.buffer
      → k * 7 ≡ offset_of (length rx.buffer) k
      → entry.object.write sub (take total kept) s ≡ (ok tt, s1)
      → Completed kept s s1
  unfolding receive_segment
  whole s s1 pos hn room e written =
      ground (arith, length-copy_at (offset_of (length rx.buffer) k) (take (7 - n) value) rx.buffer)

  pub tail :
      (s s1 s2 : S)
      → 0 < length rx.buffer
      → n < 8
      → total ≤ length rx.buffer
      → k * 7 ≢ offset_of (length rx.buffer) k
      → entry.object.write_partial sub (take total kept) s ≡ (ok tt, s1)
      → entry.object.end_partial sub s1 ≡ (ok tt, s2)
      → Completed kept s s2
  unfolding receive_segment
  tail s s1 s2 pos hn room e written ended =
      ground (arith, length-copy_at (offset_of (length rx.buffer) k) (take (7 - n) value) rx.buffer)

  -- The part of the segment that fills the buffer, and the buffer with the rest at its start.
  abbrev pub room_left : ℕ
  room_left = length rx.buffer - offset_of (length rx.buffer) k

  abbrev pub filled : List ℕ
  filled = copy_at (offset_of (length rx.buffer) k) (take room_left value) rx.buffer

  abbrev pub carried : List ℕ
  carried = copy_at 0 (slice value room_left (7 - n)) filled

  pub two_parts :
      (s s1 s2 s3 s4 : S)
      → 7 ≤ length rx.buffer
      → n < 8
      → length rx.buffer < total
      → Opened entry.object sub (length rx.buffer) k s s1
      → entry.object.write_partial sub filled s1 ≡ (ok tt, s2)
      → entry.object.write_partial sub (take (7 - n - room_left) carried) s2 ≡ (ok tt, s3)
      → entry.object.end_partial sub s3 ≡ (ok tt, s4)
      → Completed carried s s4
  unfolding receive_segment
  two_parts s s1 s2 s3 s4 pos hn over (inl (e, begun)) w1 w2 ended = ground (
    arith,
    length-copy_at (offset_of (length rx.buffer) k) (take room_left value) rx.buffer,
    length-copy_at 0 (slice value room_left (7 - n)) filled,
  )
  two_parts s s1 s2 s3 s4 pos hn over (inr (e, same_s)) w1 w2 ended = ground (
    arith,
    length-copy_at (offset_of (length rx.buffer) k) (take room_left value) rx.buffer,
    length-copy_at 0 (slice value room_left (7 - n)) filled,
  )
