-- ===== src/Server/Receiver/Blocks.antt =====
-- The segments of a block arrive in the buffer in their order.
use mathlib.Core.Path.{subst}
use zencan.Base.{
  ℕ, suc, ◌+◌, ◌*◌, ◌≤◌, ◌<◌, ◌≡◌, ◌⊎◌, inl, inr, sym, refl, ap, ◌∙◌, Bool, true, false, List, [],
  ◌∷◌, ◌++◌, arith, length, take, copy_at, length-copy_at, take-copy_at, append_assoc, append-nil,
  All,
}
use zencan.Sdo.Segment.{BlockSegment}
use zencan.Server.Receiver.{SdoReceiver, ReceiverState, store_segment}

abbrev pub Seven : List ℕ → Type 0
Seven xs = length xs ≡ 7

abbrev pub segment : Bool → ℕ → List ℕ → BlockSegment
segment c seqnum bytes = record { c = c; seqnum = seqnum; payload = bytes }

-- Segments with consecutive sequence numbers, the first one that which is expected next.
abbrev pub receive_all : SdoReceiver → List (List ℕ) → SdoReceiver
unfolding store_segment
receive_all rx [] = rx
receive_all rx (p ∷ ps) = receive_all (store_segment rx (segment false (rx.last_seqnum + 1) p)).1 ps

abbrev pub joined : List (List ℕ) → List ℕ
joined [] = []
joined (p ∷ ps) = p ++ joined ps

-- What is known of the receiver when the bytes `recv` have arrived.
pub record Arrived (k size blksize : ℕ) (recv : List ℕ) (rx : SdoReceiver) : Type 0 where
  pub state_eq : rx.state ≡ ReceiverState.block_receive
  pub last_eq : rx.last_seqnum ≡ k
  pub blksize_eq : rx.blksize ≡ blksize
  pub size_eq : length rx.buffer ≡ size
  pub held : take (k * 7) rx.buffer ≡ recv

abbrev pub stored : SdoReceiver → ℕ → List ℕ → ReceiverState → SdoReceiver
stored rx k p state = record rx {
  state = state;
  buffer = copy_at (k * 7) p rx.buffer;
  timer = 0;
  last_seqnum = k + 1;
}

module _ (k size blksize : ℕ) (recv p : List ℕ) (rx : SdoReceiver)
    (a : Arrived k size blksize recv rx) (room : k * 7 + 7 ≤ size) (seven : Seven p) where
  pub held_lem : take ((k + 1) * 7) (copy_at (k * 7) p rx.buffer) ≡ recv ++ p
  held_lem =
      ap (λ i. take i (copy_at (k * 7) p rx.buffer)) {y = k * 7 + length p} (omega (arith, seven))
      ∙ take-copy_at (k * 7) p rx.buffer (omega (arith, seven, a.size_eq))
      ∙ ap (λ xs. xs ++ p) a.held

  middle :
      k + 1 < blksize
      → store_segment rx (segment false (rx.last_seqnum + 1) p) ≡ (false, stored rx k p rx.state)
  unfolding store_segment
  middle more = ground (arith, a.last_eq, a.blksize_eq, a.size_eq)

  pub ending :
      (c : Bool)
      → (k + 1 ≡ blksize) ⊎ (c ≡ true)
      → store_segment rx (segment c (rx.last_seqnum + 1) p)
        ≡ (true, stored rx k p (ReceiverState.block_completed (k + 1) (k + 1) c))
  unfolding store_segment
  ending c (inl full) = ground (arith, a.last_eq, a.blksize_eq, a.size_eq)
  ending c (inr last) = ground (arith, a.last_eq, a.blksize_eq, a.size_eq)

  middle_Arrived :
      k + 1 < blksize
      → Arrived
          (k + 1)
          size
          blksize
          (recv ++ p)
          (store_segment rx (segment false (rx.last_seqnum + 1) p)).1
  middle_Arrived more =
      subst (λ r. Arrived (k + 1) size blksize (recv ++ p) r.1) (sym (middle more))
        (record {
          state_eq = a.state_eq;
          last_eq = refl;
          blksize_eq = a.blksize_eq;
          size_eq = length-copy_at (k * 7) p rx.buffer ∙ a.size_eq;
          held = held_lem;
        })

pub receive_all_lem :
    (ps : List (List ℕ)) (k size blksize : ℕ) (recv : List ℕ) (rx : SdoReceiver)
    → Arrived k size blksize recv rx
    → All Seven ps
    → k + length ps < blksize
    → (k + length ps) * 7 ≤ size
    → Arrived (k + length ps) size blksize (recv ++ joined ps) (receive_all rx ps)
unfolding receive_all
receive_all_lem [] k size blksize recv rx a h more room =
    rw (append-nil recv) (subst (λ m. Arrived m size blksize recv rx) {y = k + 0} (omega arith) a)
receive_all_lem (p ∷ ps) k size blksize recv rx a h more room =
    let next = middle_Arrived k size blksize recv p rx a (omega arith) h.0 (omega arith) in
    let rest =
      receive_all_lem ps (k + 1) size blksize (recv ++ p)
        (store_segment rx (segment false (rx.last_seqnum + 1) p)).1 next h.1 (omega arith)
        (omega arith) in
    let same : (recv ++ p) ++ joined ps ≡ recv ++ (p ++ joined ps) =
      append_assoc recv p (joined ps) in
    subst (λ xs. Arrived (k + suc (length ps)) size blksize xs (receive_all rx (p ∷ ps))) same
      (subst (λ m. Arrived m size blksize ((recv ++ p) ++ joined ps) (receive_all rx (p ∷ ps)))
        {y = k + suc (length ps)} (omega arith) rest)

-- From the begin of a block on.
pub receive_from_start :
    (ps : List (List ℕ)) (rx : SdoReceiver)
    → rx.state ≡ ReceiverState.block_receive
    → rx.last_seqnum ≡ 0
    → All Seven ps
    → length ps < rx.blksize
    → length ps * 7 ≤ length rx.buffer
    → Arrived (length ps) (length rx.buffer) rx.blksize (joined ps) (receive_all rx ps)
receive_from_start ps rx at first h more room =
    let start : Arrived 0 (length rx.buffer) rx.blksize [] rx = record {
      state_eq = at;
      last_eq = first;
      blksize_eq = refl;
      size_eq = refl;
      held = refl;
    } in
    subst (λ m. Arrived m (length rx.buffer) rx.blksize (joined ps) (receive_all rx ps))
      {y = length ps} (omega arith)
      (receive_all_lem ps 0 (length rx.buffer) rx.blksize [] rx start h (omega arith) (omega arith))

-- The segments of a block, each of seven bytes and none missing, in the order of their sequence
-- numbers, are in the buffer one behind the other when the segment that ends the block has come: the
-- last one that a block has room for, or one with the complete flag. Then the receiver asks for a call
-- of `process` and reports all segments as received.
pub receive_block :
    (ps : List (List ℕ)) (p : List ℕ) (c : Bool) (rx : SdoReceiver)
    → rx.state ≡ ReceiverState.block_receive
    → rx.last_seqnum ≡ 0
    → All Seven ps
    → Seven p
    → length ps < rx.blksize
    → (length ps + 1) * 7 ≤ length rx.buffer
    → (length ps + 1 ≡ rx.blksize) ⊎ (c ≡ true)
    → (rx' : SdoReceiver) × (store_segment
          (receive_all rx ps)
          (segment c ((receive_all rx ps).last_seqnum + 1) p)
        ≡ (true, rx'))
      × (rx'.state ≡ ReceiverState.block_completed (length ps + 1) (length ps + 1) c)
      × (take ((length ps + 1) * 7) rx'.buffer ≡ joined ps ++ p)
receive_block ps p c rx at first h seven more room closing =
    let before = receive_from_start ps rx at first h more (omega arith) in
    (
      stored (receive_all rx ps) (length ps) p
          (ReceiverState.block_completed (length ps + 1) (length ps + 1) c),
      ending (length ps) (length rx.buffer) rx.blksize (joined ps) p (receive_all rx ps) before
          (omega arith) seven c closing,
      refl,
      held_lem (length ps) (length rx.buffer) rx.blksize (joined ps) p (receive_all rx ps) before
          (omega arith) seven,
    )
