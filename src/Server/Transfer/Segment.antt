-- ===== src/Server/Transfer/Segment.antt =====
-- A segment of a download that is not the last: it stays inside the buffer, fills it, or runs over its end.
use zencan.Base.{
  inl, inr, ℕ, ◌+◌, ◌-◌, ◌^◌, ◌≤◌, ◌<◌, ◌≡◌, Bool, false, not, List, ok, arith, length, take,
  copy_at, length-copy_at, take_all,
}
use zencan.Sdo.Wire.{slice}
use zencan.Sdo.Response.{SdoResponse}
use zencan.Dict.{OdEntry}
use zencan.Server.Receiver.{SdoReceiver}
use zencan.Server.State.{SdoState, respond}
use zencan.Server.Segmented.Download.{receive_segment}
use zencan.Server.Transfer.Plan.{offset_of, after, Opened}

module _ {S : Type 0} (entry : OdEntry S) (sub : ℕ) where
  pub inside :
      (k : ℕ) (t : Bool) (value : List ℕ) (rx : SdoReceiver) (s : S)
      → 0 < length rx.buffer
      → length value ≡ 7
      → k + 1 < 2 ^ 32
      → offset_of (length rx.buffer) k + 7 < length rx.buffer
      → receive_segment (after entry sub k t) 0 false value rx s
        ≡ respond
            (SdoResponse.confirm_download_segment t)
            (SdoState.download_segmented (after entry sub (k + 1) (not t)))
            (record rx { buffer = copy_at (offset_of (length rx.buffer) k) value rx.buffer })
            s
  unfolding receive_segment
  inside k t value rx s pos hv hk room = ground (arith, take_all 7 value)

  pub exact :
      (k : ℕ) (t : Bool) (value : List ℕ) (rx : SdoReceiver) (s s1 s2 : S)
      → length value ≡ 7
      → k + 1 < 2 ^ 32
      → offset_of (length rx.buffer) k + 7 ≡ length rx.buffer
      → Opened entry.object sub (length rx.buffer) k s s1
      → let buf = copy_at (offset_of (length rx.buffer) k) value rx.buffer in
        entry.object.write_partial sub buf s1 ≡ (ok tt, s2)
        → receive_segment (after entry sub k t) 0 false value rx s
          ≡ respond
              (SdoResponse.confirm_download_segment t)
              (SdoState.download_segmented (after entry sub (k + 1) (not t)))
              (record rx { buffer = buf })
              s2
  unfolding receive_segment
  exact k t value rx s s1 s2 hv hk full (inl (e, begun)) written = ground (arith, take_all 7 value)
  exact k t value rx s s1 s2 hv hk full (inr (e, same_s)) written = ground (arith, take_all 7 value)

  pub split :
      (k : ℕ) (t : Bool) (value : List ℕ) (rx : SdoReceiver) (s s1 s2 : S)
      → 7 ≤ length rx.buffer
      → length value ≡ 7
      → k + 1 < 2 ^ 32
      → length rx.buffer < offset_of (length rx.buffer) k + 7
      → Opened entry.object sub (length rx.buffer) k s s1
      → let room = length rx.buffer - offset_of (length rx.buffer) k in
        let buf = copy_at (offset_of (length rx.buffer) k) (take room value) rx.buffer in
        let rest = slice value room 7 in
        entry.object.write_partial sub buf s1 ≡ (ok tt, s2)
        → receive_segment (after entry sub k t) 0 false value rx s
          ≡ respond
              (SdoResponse.confirm_download_segment t)
              (SdoState.download_segmented (after entry sub (k + 1) (not t)))
              (record rx { buffer = copy_at 0 rest (copy_at 0 rest buf) })
              s2
  unfolding receive_segment
  split k t value rx s s1 s2 pos hv hk over (inl (e, begun)) written =
      let room = length rx.buffer - offset_of (length rx.buffer) k in
      let buf = copy_at (offset_of (length rx.buffer) k) (take room value) rx.buffer in
      ground (
        arith,
        length-copy_at (offset_of (length rx.buffer) k) (take room value) rx.buffer,
        length-copy_at 0 (slice value room 7) buf,
      )
  split k t value rx s s1 s2 pos hv hk over (inr (e, same_s)) written =
      let room = length rx.buffer - offset_of (length rx.buffer) k in
      let buf = copy_at (offset_of (length rx.buffer) k) (take room value) rx.buffer in
      ground (
        arith,
        length-copy_at (offset_of (length rx.buffer) k) (take room value) rx.buffer,
        length-copy_at 0 (slice value room 7) buf,
      )
