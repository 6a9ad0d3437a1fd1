-- ===== src/Server/Transfer/Progress.antt =====
-- What has been received is never lost: it is in the buffer or in the object, after every segment.
use native.Mathlib.Decide.{dec_lt}
use native.Mathlib.Nat.{mod-eq_of_lt}
use zencan.Base.{
  ℕ, ◌+◌, ◌-◌, ◌*◌, ◌^◌, ◌≤◌, ◌<◌, ◌≡◌, ◌≢◌, inl, inr, refl, sym, ap, ◌∙◌, Bool, false, not, List,
  [], ◌++◌, arith, length, take, copy_at, length-copy_at, take-copy_at, copy_at_end, take_all,
  append-nil, length-append,
}
use zencan.Sdo.Wire.{slice}
use zencan.Sdo.Response.{SdoResponse}
use zencan.Dict.{OdEntry}
use zencan.Server.Receiver.{SdoReceiver}
use zencan.Server.State.{SdoState, respond}
use zencan.Server.Segmented.Download.{receive_segment}
use zencan.Server.Transfer.Store.{Store}
use zencan.Server.Transfer.Plan.{offset_of, offset_inside, offset_wraps, offset_lt, after, Opened}
use zencan.Server.Transfer.Wrap.{joined, filled_of, filled_held, rest_at_start}
use zencan.Server.Transfer.Segment.{inside, exact, split}

pub not_at_start : (len k : ℕ) → 0 < len → len ≤ k * 7 → k * 7 ≢ offset_of len k
not_at_start len k pos h = omega (arith, offset_lt len k pos)

module _ {S : Type 0} (entry : OdEntry S) (sub cap : ℕ) (store : Store entry.object sub cap) where
  -- `recv` has been received in `k` segments of seven bytes: all of it is in the buffer, or the
  -- object has a part and the buffer the rest.
  pub data Progress (len k : ℕ) (recv buf : List ℕ) (s : S) : Type 0 where
    first : k * 7 < len → take (k * 7) buf ≡ recv → store.Ready s → Progress len k recv buf s
    later :
        (written : List ℕ)
        → len ≤ k * 7
        → written ++ take (offset_of len k) buf ≡ recv
        → store.Open written s
        → Progress len k recv buf s

  -- A flush goes to a partial write that has what the buffer has not.
  pub open_write :
      (len k : ℕ) (recv buf : List ℕ) (s : S)
      → 0 < len
      → Progress len k recv buf s
      → (written : List ℕ) × (s1 : S) × Opened entry.object sub len k s s1
        × store.Open written s1
        × (written ++ take (offset_of len k) buf ≡ recv)
  open_write len k recv buf s pos (first inside held ready) =
      let (s1, begun, open_s1) = store.begin_lem s ready in
      let same_offset : offset_of len k ≡ k * 7 = mod-eq_of_lt inside in
      ([], s1, inl (sym same_offset, begun), open_s1, rw same_offset held)
  open_write len k recv buf s pos (later written beyond held open_s) =
      (written, s, inr (λ e. not_at_start len k pos beyond e, refl), open_s, held)

  -- The segment as it ends: the answer, the state, the buffer and what is known of them.
  abbrev pub Received : ℕ → Bool → List ℕ → SdoReceiver → List ℕ → S → Type 0
  Received k t value rx recv s =
      (buf : List ℕ) × (s' : S) × (receive_segment (after entry sub k t) 0 false value rx s
        ≡ respond (SdoResponse.confirm_download_segment t)
            (SdoState.download_segmented (after entry sub (k + 1) (not t)))
            (record rx { buffer = buf }) s')
      × (length buf ≡ length rx.buffer)
      × Progress (length rx.buffer) (k + 1) (recv ++ value) buf s'

  carry :
      (len k : ℕ) (recv value buf : List ℕ) (s : S)
      → length buf ≡ len
      → length value ≡ 7
      → offset_of len k + 7 < len
      → Progress len k recv buf s
      → Progress len (k + 1) (recv ++ value) (copy_at (offset_of len k) value buf) s
  carry len k recv value buf s hl seven room (first inside held ready) =
      let off = offset_of len k in
      let same_offset : off ≡ k * 7 = mod-eq_of_lt inside in
      let stored = take-copy_at off value buf (omega arith) in
      first (omega arith)
        (ap (λ i. take i (copy_at off value buf)) {y = off + length value} (omega arith)
          ∙ stored
          ∙ ap (λ xs. xs ++ value) (ap (λ i. take i buf) same_offset ∙ held))
        ready
  carry len k recv value buf s hl seven room (later written beyond held open_s) =
      let off = offset_of len k in
      let stored = take-copy_at off value buf (omega arith) in
      let next : offset_of len (k + 1) ≡ off + length value =
        offset_inside len k (omega arith) room ∙ omega arith in
      later written (omega arith)
        (ap (λ i. written ++ take i (copy_at off value buf)) next
          ∙ ap (λ xs. written ++ xs) stored
          ∙ joined written recv value buf off held)
        open_s

  module _ (k : ℕ) (t : Bool) (value : List ℕ) (rx : SdoReceiver) (recv : List ℕ) (s : S)
      (long : 7 ≤ length rx.buffer) (seven : length value ≡ 7) (few : k + 1 < 2 ^ 32)
      (fit : length (recv ++ value) ≤ cap)
      (progress : Progress (length rx.buffer) k recv rx.buffer s) where
    receive_inside :
        offset_of (length rx.buffer) k + 7 < length rx.buffer → Received k t value rx recv s
    receive_inside room = (
      copy_at (offset_of (length rx.buffer) k) value rx.buffer,
      s,
      inside entry sub k t value rx s (omega arith) seven few room,
      length-copy_at _ value rx.buffer,
      carry (length rx.buffer) k recv value rx.buffer s refl seven room progress,
    )

    receive_exact :
        offset_of (length rx.buffer) k + 7 ≡ length rx.buffer → Received k t value rx recv s
    receive_exact full =
        let len = length rx.buffer in
        let off = offset_of len k in
        let buf = copy_at off value rx.buffer in
        let (written, s1, opened, open_s1, held) =
          open_write len k recv rx.buffer s (omega arith) progress in
        let stored : written ++ buf ≡ recv ++ value =
          ap (λ xs. written ++ xs) (copy_at_end off value rx.buffer (omega arith))
          ∙ joined written recv value rx.buffer off held in
        let (s2, wrote, open_s2) = store.part_lem written buf s1 open_s1 (rw stored fit) in
        let wraps : offset_of len (k + 1) ≡ 0 =
          offset_wraps len k long (omega arith) ∙ omega arith in
        (
          buf,
          s2,
          exact entry sub k t value rx s s1 s2 seven few full opened wrote,
          length-copy_at off value rx.buffer,
          later (written ++ buf) (omega arith)
              (ap (λ i. (written ++ buf) ++ take i buf) wraps
                ∙ append-nil (written ++ buf)
                ∙ stored)
              open_s2,
        )

    receive_split :
        length rx.buffer < offset_of (length rx.buffer) k + 7 → Received k t value rx recv s
    receive_split over =
        let len = length rx.buffer in
        let off = offset_of len k in
        let below = offset_lt len k (omega arith) in
        let buf = filled_of value rx.buffer off seven below in
        let rest = slice value (len - off) 7 in
        let once = copy_at 0 rest buf in
        let size_buf = length-copy_at off (take (len - off) value) rx.buffer in
        let size_once = length-copy_at 0 rest buf in
        let (written, s1, opened, open_s1, held) =
          open_write len k recv rx.buffer s (omega arith) progress in
        let all : (written ++ buf) ++ rest ≡ recv ++ value =
          filled_held value rx.buffer off seven below written recv 7 (omega arith) (omega arith)
            held
          ∙ ap (λ xs. recv ++ xs) (take_all 7 value (omega arith)) in
        let (s2, wrote, open_s2) =
          store.part_lem written buf s1 open_s1
            (omega (arith, ap length all, length-append (written ++ buf) rest)) in
        let wraps : offset_of len (k + 1) ≡ 7 - (len - off) =
          offset_wraps len k long (omega arith) ∙ omega arith in
        (
          copy_at 0 rest once,
          s2,
          split entry sub k t value rx s s1 s2 long seven few over opened wrote,
          length-copy_at 0 rest once ∙ size_once ∙ size_buf,
          later (written ++ buf) (omega arith)
              (ap (λ i. (written ++ buf) ++ take i (copy_at 0 rest once)) wraps
                ∙ ap (λ xs. (written ++ buf) ++ xs)
                    (rest_at_start value rx.buffer off seven below 7 once (omega arith)
                      (omega arith) (omega arith))
                ∙ all)
              open_s2,
        )

    -- A segment of seven bytes that is not the last, with its toggle bit right, in a transfer of fewer
    -- than 2^32 segments over a buffer of seven bytes or more, into an object that accepts as many bytes
    -- as have been received: it is acknowledged, the toggle bit and the counter move on, and what has
    -- been received is still in the buffer, or partly in the object and the rest in the buffer.
    pub receive_middle : Received k t value rx recv s
    receive_middle = elim (dec_lt (offset_of (length rx.buffer) k + 7) (length rx.buffer)) [
      | yes room ↦ receive_inside room
      | no none_left ↦ elim (dec_lt (length rx.buffer) (offset_of (length rx.buffer) k + 7)) [
        | yes over ↦ receive_split over
        | no exactly ↦ receive_exact (omega arith)
      ]
    ]
