-- ===== src/Bus/Download.antt =====
-- What `SdoClient::download` sends is what the object of the node holds.
use mathlib.Core.Path.{subst}
use zencan.Base.{
  ℕ, zero, suc, ◌+◌, ◌-◌, ◌*◌, ◌/◌, ◌^◌, ◌≤◌, ◌<◌, ◌≡◌, refl, sym, ap, ◌∙◌, Bool, true, false, not,
  List, ◌++◌, Option, none, some, ok, arith, All, length, take, replicate, length-take, copy_at_all,
  same_refl, ◌==◌,
}
use zencan.Base.Bits.{IsByte, IsArray}
use zencan.Can.{CanId}
use zencan.Dict.{OdEntry}
use zencan.Sdo.Request.{SdoRequest}
use zencan.Sdo.Request.Build
use zencan.Sdo.Response.{SdoResponse}
use zencan.Server.{Server, update}
use zencan.Server.Receiver.{SdoReceiver, ReceiverState}
use zencan.Server.State.{Crc, SdoState, Outcome, respond, respond_with_update}
use zencan.Server.Segmented.{download_segmented}
use zencan.Server.Segmented.Download.{receive_segment}
use zencan.Server.Transfer.Store.{Store}
use zencan.Server.Transfer.Plan.{after}
use zencan.Server.Transfer.Progress.{Progress, receive_middle}
use zencan.Server.Transfer.Complete.{receive_last}
use zencan.Client.{AbortCodeOf, Ends}
use zencan.Client.Download.{send_segments, segment_confirmed, total_segments}
use zencan.Bus.{deliver}
use zencan.Bus.Segments.{
  part, padded, padded-IsArray, take-padded, length-part, part-All, last_part, middle_part,
}
use zencan.Bus.Exchange.{carried, returned, holding, client_at, exchange_lem}

module _ {S : Type 0} (of_code : AbortCodeOf) (crc16 : Crc) (table : List (OdEntry S))
    (rx_id tx_id : CanId) (elapsed : ℕ) (entry : OdEntry S) (sub cap : ℕ)
    (store : Store entry.object sub cap) (index : ℕ) (bytes : List ℕ) (are_bytes : All IsByte bytes)
    (fit : length bytes ≤ cap) where
  -- The server in the middle of the download, and at its end.
  abbrev server_at : ℕ → Bool → SdoReceiver → S → Server S
  server_at n t rx s = record {
    state = SdoState.download_segmented (after entry sub n t);
    rx = rx;
    od = s;
  }

  -- The server is idle again, its receiver is as it was before, and the object holds the bytes.
  abbrev pub Stored : ℕ → Server S → Type 0
  Stored len server =
      (server.state ≡ SdoState.idle)
      × (server.rx.state ≡ ReceiverState.normal)
      × (server.rx.request ≡ none)
      × (length server.rx.buffer ≡ len)
      × store.Holds bytes server.od

  abbrev pub Downloads : ℕ → Ends (Option (Server S)) (Unit {0}) → Type 0
  Downloads len result =
      (server : Server S) × (result
        ≡ some (ok tt, client_at crc16 table rx_id tx_id elapsed server))
      × Stored len server

  abbrev taken : SdoReceiver → SdoReceiver
  taken rx = record rx { request = none; timer = 0 }

  -- One turn of the loop.
  segment_step :
      (left n : ℕ) (t : Bool) (rx : SdoReceiver) (s : S) (unused : ℕ) (c : Bool) (value : List ℕ)
      (o : Outcome S)
      → let seg = part bytes n in
        length seg ≤ 7
        → All IsByte seg
        → 7 - length seg ≡ unused
        → padded seg ≡ value
        → (n == (length bytes + 6) / 7 - 1) ≡ c
        → rx.state ≡ ReceiverState.normal
        → receive_segment (after entry sub n t) unused c value (taken rx) s ≡ some o
        → o.result.response ≡ some (SdoResponse.confirm_download_segment t)
        → send_segments of_code
            (deliver crc16 table rx_id tx_id elapsed)
            index
            sub
            bytes
            (suc left)
            n
            t
            (client_at crc16 table rx_id tx_id elapsed (server_at n t rx s))
          ≡ send_segments of_code
              (deliver crc16 table rx_id tx_id elapsed)
              index
              sub
              bytes
              left
              (n + 1)
              (not t)
              (client_at crc16 table rx_id tx_id elapsed
                (record { state = o.result.new_state; rx = o.rx; od = o.od }))
  unfolding send_segments update download_segmented
  segment_step left n t rx s unused c value o short are count pad last normal handled answered =
      let seg = part bytes n in
      let net = deliver crc16 table rx_id tx_id elapsed in
      let request = SdoRequest.download_segment t unused c value in
      let confirm = SdoResponse.confirm_download_segment t in
      let built : Build.download_segment t (n == (length bytes + 6) / 7 - 1) seg ≡ some request =
        unfold Build.download_segment in ground arith in
      let handled' : update crc16 table (SdoState.download_segmented (after entry sub n t))
            (holding rx request) elapsed s
          ≡ some o =
        rw (same_refl t) handled in
      let array : IsArray 7 value = subst (IsArray 7) pad (padded-IsArray seg are) in
      rw built (
        exchange_lem crc16 table rx_id tx_id elapsed (server_at n t rx s) request confirm o
          (λ resp client1.
            segment_confirmed of_code net index sub bytes t resp client1
              (λ client2. send_segments of_code net index sub bytes left (n + 1) (not t) client2))
          normal (carried request (omega arith, array) (λ x. x))
          (returned tx_id confirm tt (λ x. x)) handled' answered
        ∙ rw (same_refl t) refl)

  -- The last turn, and one before it, with what the server made of the segment.
  last_turn :
      (n : ℕ) (t : Bool) (rx : SdoReceiver) (s : S) (recv buf : List ℕ) (s' : S)
      → let seg = part bytes n in
        n + 1 ≡ (length bytes + 6) / 7
        → length seg ≤ 7
        → All IsByte seg
        → rx.state ≡ ReceiverState.normal
        → receive_segment (after entry sub n t) (7 - length seg) true (padded seg) (taken rx) s
          ≡ respond_with_update
              (SdoResponse.confirm_download_segment t)
              entry.index
              sub
              SdoState.idle
              (record (taken rx) { buffer = buf })
              s'
        → length buf ≡ length rx.buffer
        → recv ≡ bytes
        → store.Holds recv s'
        → Downloads (length rx.buffer) (
            send_segments of_code
              (deliver crc16 table rx_id tx_id elapsed)
              index
              sub
              bytes
              1
              n
              t
              (client_at crc16 table rx_id tx_id elapsed (server_at n t rx s)))
  unfolding send_segments
  last_turn n t rx s recv buf s' count short are normal received kept all holds =
      let last : (n == (length bytes + 6) / 7 - 1) ≡ true = ground arith in
      (
        record { state = SdoState.idle; rx = record (taken rx) { buffer = buf }; od = s' },
        segment_step zero n t rx s _ true _ _ short are refl refl last normal received refl,
        (refl, normal, refl, kept, subst (λ xs. store.Holds xs s') all holds),
      )

  middle_turn :
      (left n : ℕ) (t : Bool) (rx : SdoReceiver) (s : S) (buf : List ℕ) (s' : S)
      → let seg = part bytes n in
        n + suc (suc left) ≡ (length bytes + 6) / 7
        → length seg ≡ 7
        → All IsByte seg
        → rx.state ≡ ReceiverState.normal
        → receive_segment (after entry sub n t) 0 false seg (taken rx) s
          ≡ respond
              (SdoResponse.confirm_download_segment t)
              (SdoState.download_segmented (after entry sub (n + 1) (not t)))
              (record (taken rx) { buffer = buf })
              s'
        → length buf ≡ length rx.buffer
        → Downloads (length buf) (
            send_segments of_code
              (deliver crc16 table rx_id tx_id elapsed)
              index
              sub
              bytes
              (suc left)
              (n + 1)
              (not t)
              (client_at crc16 table rx_id tx_id elapsed
                (server_at (n + 1) (not t) (record (taken rx) { buffer = buf }) s')))
        → Downloads (length rx.buffer) (
            send_segments of_code
              (deliver crc16 table rx_id tx_id elapsed)
              index
              sub
              bytes
              (suc (suc left))
              n
              t
              (client_at crc16 table rx_id tx_id elapsed (server_at n t rx s)))
  middle_turn left n t rx s buf s' count seven are normal received kept
        (server, ends, (idle, quiet, free, size, holds)) =
      let not_last : (n == (length bytes + 6) / 7 - 1) ≡ false = ground arith in
      let exact : padded (part bytes n) ≡ part bytes n =
        copy_at_all (part bytes n) (replicate 7 0) seven in
      (
        server,
        segment_step (suc left) n t rx s 0 false _ _ (omega arith) are (omega arith) exact not_last
              normal received refl
            ∙ ends,
        (idle, quiet, free, size ∙ kept, holds),
      )

  pub segments_Downloads :
      (left n : ℕ) (t : Bool) (rx : SdoReceiver) (s : S)
      → n + suc left
        ≡ total_segments of_code (deliver crc16 table rx_id tx_id elapsed) index sub bytes
      → length bytes < 2 ^ 32
      → rx.state ≡ ReceiverState.normal
      → 7 ≤ length rx.buffer
      → Progress entry sub cap store (length rx.buffer) n (take (n * 7) bytes) rx.buffer s
      → Downloads (length rx.buffer) (
          send_segments of_code
            (deliver crc16 table rx_id tx_id elapsed)
            index
            sub
            bytes
            (suc left)
            n
            t
            (client_at crc16 table rx_id tx_id elapsed (server_at n t rx s)))
  segments_Downloads zero n t rx s count small normal long progress =
      let seg = part bytes n in
      let size = length-part bytes n in
      let unused : length seg ≤ 7 = omega arith in
      let whole : take (n * 7) bytes ++ take (7 - (7 - length seg)) (padded seg) ≡ bytes =
        rw (take-padded seg unused) (last_part bytes n (omega arith) (omega arith)) in
      let are = part-All bytes n (omega arith) are_bytes in
      let (buf, s', received, kept, holds) =
        receive_last entry sub cap store n t (7 - length seg) (padded seg) (taken rx)
          (take (n * 7) bytes) s long (padded-IsArray seg are).0 (omega arith)
          (omega (arith, ap length whole)) progress in
      last_turn n t rx s _ buf s' count unused are normal received kept whole holds
  segments_Downloads (suc left) n t rx s count small normal long progress =
      let seg = part bytes n in
      let size = length-part bytes n in
      let are = part-All bytes n (omega arith) are_bytes in
      let seven : length seg ≡ 7 = omega arith in
      let more = middle_part bytes n (omega arith) in
      let fits : length (take (n * 7) bytes ++ seg) ≤ cap =
        omega (arith, ap length more, length-take ((n + 1) * 7) bytes) in
      let (buf, s', received, kept, progress') =
        receive_middle entry sub cap store n t seg (taken rx) (take (n * 7) bytes) s long seven
          (omega arith) fits progress in
      middle_turn left n t rx s buf s' count seven are normal received kept (
        segments_Downloads left (n + 1) (not t) (record (taken rx) { buffer = buf }) s'
          (omega arith) small normal (omega arith)
          (subst (λ len. Progress entry sub cap store len (n + 1) (take ((n + 1) * 7) bytes) buf s')
            (sym kept)
            (subst (λ xs. Progress entry sub cap store (length rx.buffer) (n + 1) xs buf s') more
              progress')))
