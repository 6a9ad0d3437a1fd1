-- ===== src/Server/Receiver/Gaps.antt =====
-- A block of which segments are missing when the segment that ends it arrives.
use zencan.Base.{
  ℕ, ◌+◌, ◌-◌, ◌*◌, ◌≤◌, ◌<◌, ◌≡◌, ◌⊎◌, inl, inr, refl, ◌∙◌, Bool, true, List, ◌++◌, arith, leb,
  if◌then◌else◌, length, take, copy_at, length-copy_at, take-copy_at_behind, All,
}
use zencan.Server.Receiver.{SdoReceiver, ReceiverState, store_segment}
use zencan.Server.Receiver.Blocks.{
  Seven, Arrived, segment, stored, receive_all, receive_all_lem, joined, ending, held_lem,
}

-- The payload is put where its sequence number says, if there is room.
abbrev placed : ℕ → List ℕ → List ℕ → List ℕ
placed seqnum p buffer =
    if leb ((seqnum - 1) * 7 + 7) (length buffer)
    then copy_at ((seqnum - 1) * 7) p buffer
    else buffer

length-placed : (seqnum : ℕ) (p buffer : List ℕ) → length (placed seqnum p buffer) ≡ length buffer
length-placed seqnum p buffer =
    let kept = length-copy_at ((seqnum - 1) * 7) p buffer in ground arith

take-placed :
    (k seqnum : ℕ) (p buffer : List ℕ)
    → k + 1 < seqnum
    → take (k * 7) (placed seqnum p buffer) ≡ take (k * 7) buffer
take-placed k seqnum p buffer behind =
    let kept = take-copy_at_behind (k * 7) ((seqnum - 1) * 7) p buffer (omega arith) in ground arith

-- The receiver after the segment that ends the block, with `k` segments in order before.
abbrev pub gapped : SdoReceiver → ℕ → ℕ → Bool → List ℕ → SdoReceiver
gapped rx k seqnum c p = record rx {
  state = ReceiverState.block_completed k seqnum c;
  buffer = placed seqnum p rx.buffer;
  timer = 0;
  last_seqnum = k;
}

-- The same receiver when the server has asked for the segments from `k + 1` on.
abbrev pub restarted : SdoReceiver → ℕ → ℕ → Bool → List ℕ → SdoReceiver
restarted rx k seqnum c p = record (gapped rx k seqnum c p) {
  last_seqnum = k;
  timer = 0;
  state = ReceiverState.block_receive;
}

module _ (k size blksize : ℕ) (recv : List ℕ) (rx : SdoReceiver)
    (a : Arrived k size blksize recv rx) (seqnum : ℕ) (c : Bool) (p : List ℕ)
    (behind : k + 1 < seqnum) where
  pub store_gapped :
      (seqnum ≡ blksize) ⊎ (c ≡ true)
      → store_segment rx (segment c seqnum p) ≡ (true, gapped rx k seqnum c p)
  unfolding store_segment
  store_gapped (inl full) = ground (arith, a.last_eq, a.blksize_eq)
  store_gapped (inr last) = ground (arith, a.last_eq, a.blksize_eq)

  pub restarted-Arrived : Arrived k size blksize recv (restarted rx k seqnum c p)
  restarted-Arrived = record {
    state_eq = refl;
    last_eq = refl;
    blksize_eq = a.blksize_eq;
    size_eq = length-placed seqnum p rx.buffer ∙ a.size_eq;
    held = take-placed k seqnum p rx.buffer behind ∙ a.held;
  }

-- A block of which `k` segments have arrived ends with those that are left, in order.
pub finish_block :
    (k size blksize : ℕ) (recv : List ℕ) (rx : SdoReceiver) (qs : List (List ℕ)) (q : List ℕ)
    (c : Bool)
    → Arrived k size blksize recv rx
    → All Seven qs
    → Seven q
    → k + length qs < blksize
    → (k + length qs + 1) * 7 ≤ size
    → (k + length qs + 1 ≡ blksize) ⊎ (c ≡ true)
    → (rx' : SdoReceiver) × (store_segment
          (receive_all rx qs)
          (segment c ((receive_all rx qs).last_seqnum + 1) q)
        ≡ (true, rx'))
      × (rx'.state ≡ ReceiverState.block_completed (k + length qs + 1) (k + length qs + 1) c)
      × (take ((k + length qs + 1) * 7) rx'.buffer ≡ (recv ++ joined qs) ++ q)
finish_block k size blksize recv rx qs q c a h seven more room closing =
    let n = k + length qs in
    let before = receive_all_lem qs k size blksize recv rx a h more (omega arith) in
    (
      stored (receive_all rx qs) n q (ReceiverState.block_completed (n + 1) (n + 1) c),
      ending n size blksize (recv ++ joined qs) q (receive_all rx qs) before (omega arith) seven c
          closing,
      refl,
      held_lem n size blksize (recv ++ joined qs) q (receive_all rx qs) before (omega arith) seven,
    )
