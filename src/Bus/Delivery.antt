-- ===== src/Bus/Delivery.antt =====
-- `SdoClient::download` as a whole, with the server of a node at the other end.
use mathlib.Core.Path.{subst}
use native.Mathlib.Decide.{dec_le}
use zencan.Base.{
  ℕ, suc, ◌+◌, ◌-◌, ◌/◌, ◌%◌, ◌^◌, ◌≤◌, ◌<◌, ◌≡◌, refl, ◌∙◌, true, false, leb, List, none, some, ok,
  arith, All, length, take, copy_at, replicate, length-copy_at, take-copy_at_zero,
}
use zencan.Base.Bits.{IsByte, IsU16, to_le, from_le, to_le-IsArray, from_le-to_le_u32}
use zencan.Can.{CanId}
use zencan.Dict.{OdEntry, find_object_entry}
use zencan.Objects.{SubInfo, is_writable}
use zencan.Sdo.Request.{SdoRequest}
use zencan.Sdo.Response.{SdoResponse}
use zencan.Server.{Server, update}
use zencan.Server.Idle.{idle_request}
use zencan.Server.Receiver.{SdoReceiver, ReceiverState}
use zencan.Server.State.{Crc, SdoState, respond, respond_with_update, validate_download_size}
use zencan.Server.Transfer.Store.{Store}
use zencan.Server.Transfer.Plan.{after}
use zencan.Server.Transfer.Progress.{Progress}
use zencan.Client.Download.{send_segments, download_confirmed, download}
use zencan.Client.{AbortCodeOf}
use zencan.Bus.{deliver}
use zencan.Bus.Segments.{copy_at-All}
use zencan.Bus.Exchange.{carried, returned, holding, client_at, exchange_lem}
use zencan.Bus.Download.{Downloads, segments_Downloads}

module _ {S : Type 0} (of_code : AbortCodeOf) (crc16 : Crc) (table : List (OdEntry S))
    (rx_id tx_id : CanId) (elapsed : ℕ) (entry : OdEntry S) (sub cap : ℕ)
    (store : Store entry.object sub cap) (index : ℕ) (bytes : List ℕ) (are_bytes : All IsByte bytes)
    (fit : length bytes ≤ cap) (in_table : find_object_entry table index ≡ some entry)
    (rx : SdoReceiver) (s : S) (info : SubInfo) (has_sub : entry.object.sub_info sub s ≡ ok info)
    (sized : validate_download_size (length bytes) info ≡ ok tt) (index_u16 : IsU16 index)
    (sub_byte : IsByte sub) (ready : store.Ready s) (normal : rx.state ≡ ReceiverState.normal) where
  abbrev idle_at : Server S
  idle_at = record { state = SdoState.idle; rx = rx; od = s }

  -- After the request that begins a segmented download.
  abbrev begun : Server S
  begun = record {
    state = SdoState.download_segmented (after entry sub 0 false);
    rx = record rx { request = none; timer = 0 };
    od = s;
  }

  abbrev padded4 : List ℕ
  padded4 = copy_at 0 bytes (replicate 4 0)

  expedited_stores :
      (s' : S)
      → 1 ≤ length bytes
      → length bytes ≤ 4
      → is_writable info.access_type ≡ true
      → entry.object.write sub bytes s ≡ (ok tt, s')
      → store.Holds bytes s'
      → Downloads of_code crc16 table rx_id tx_id elapsed entry sub cap store index bytes are_bytes
          fit
          (length rx.buffer)
          (download of_code
            (deliver crc16 table rx_id tx_id elapsed)
            index
            sub
            bytes
            (client_at crc16 table rx_id tx_id elapsed idle_at))
  unfolding download update idle_request
  expedited_stores s' some_bytes short writable written holds =
      let net = deliver crc16 table rx_id tx_id elapsed in
      let expedited : leb (length bytes) 4 ≡ true = ground arith in
      let n = 4 - length bytes in
      let request = SdoRequest.initiate_download n true true index sub padded4 in
      let confirm = SdoResponse.confirm_download index sub in
      let len : 4 - n ≡ length bytes = omega arith in
      let kept : take (length bytes) padded4 ≡ bytes =
        take-copy_at_zero bytes (replicate 4 0) short in
      let rx' = record rx { request = none; timer = 0 } in
      let handled : update crc16 table SdoState.idle (holding rx request) elapsed s
          ≡ respond_with_update confirm index sub SdoState.idle rx' s' =
        ground (arith, len, kept, in_table, has_sub, sized, writable, written) in
      (
        record { state = SdoState.idle; rx = rx'; od = s' },
        rw expedited (
            exchange_lem crc16 table rx_id tx_id elapsed idle_at request confirm
              (record {
                result = record {
                  response = some confirm;
                  updated_object = some (record { index = index; sub = sub });
                  new_state = SdoState.idle;
                };
                rx = rx';
                od = s';
              })
              (λ resp client1.
                download_confirmed of_code net index sub bytes resp client1
                  (λ client2. some (ok tt, client2)))
              normal
              (carried request
                (
                  omega arith,
                  index_u16,
                  sub_byte,
                  (
                    length-copy_at 0 bytes (replicate 4 0),
                    copy_at-All 0 bytes (replicate 4 0) are_bytes (grind arith),
                  ),
                )
                (λ x. x))
              (returned tx_id confirm (index_u16, sub_byte) (λ x. x)) handled refl),
        (refl, normal, refl, refl, holds),
      )

  -- All segments, from the first on.
  segments_all :
      1 ≤ length bytes
      → length bytes < 2 ^ 32
      → 7 ≤ length rx.buffer
      → Downloads of_code crc16 table rx_id tx_id elapsed entry sub cap store index bytes are_bytes
          fit
          (length rx.buffer)
          (send_segments of_code
            (deliver crc16 table rx_id tx_id elapsed)
            index
            sub
            bytes
            ((length bytes + 6) / 7)
            0
            false
            (client_at crc16 table rx_id tx_id elapsed begun))
  segments_all some_bytes small room =
      let net = deliver crc16 table rx_id tx_id elapsed in
      let left = (length bytes + 6) / 7 - 1 in
      let count : suc left ≡ (length bytes + 6) / 7 = omega arith in
      subst
        (λ k.
          Downloads of_code crc16 table rx_id tx_id elapsed entry sub cap store index bytes
            are_bytes fit (length rx.buffer)
            (send_segments of_code net index sub bytes k 0 false
              (client_at crc16 table rx_id tx_id elapsed begun)))
        count
        (segments_Downloads of_code crc16 table rx_id tx_id elapsed entry sub cap store index bytes
          are_bytes fit left 0 false (record rx { request = none; timer = 0 }) s (omega arith) small
          normal room (Progress.first (omega arith) refl ready))

  segmented_stores :
      5 ≤ length bytes
      → length bytes < 2 ^ 32
      → 7 ≤ length rx.buffer
      → Downloads of_code crc16 table rx_id tx_id elapsed entry sub cap store index bytes are_bytes
          fit
          (length rx.buffer)
          (download of_code
            (deliver crc16 table rx_id tx_id elapsed)
            index
            sub
            bytes
            (client_at crc16 table rx_id tx_id elapsed idle_at))
  unfolding download update idle_request
  segmented_stores long small room =
      let net = deliver crc16 table rx_id tx_id elapsed in
      let request =
        SdoRequest.initiate_download 0 false true index sub (to_le 4 (length bytes % 2 ^ 32)) in
      let confirm = SdoResponse.confirm_download index sub in
      let size : from_le (to_le 4 (length bytes % 2 ^ 32)) ≡ length bytes =
        from_le-to_le_u32 (length bytes % 2 ^ 32) (omega arith) ∙ omega arith in
      let rx' = record rx { request = none; timer = 0 } in
      let handled : update crc16 table SdoState.idle (holding rx request) elapsed s
          ≡ respond confirm (SdoState.download_segmented (after entry sub 0 false)) rx' s =
        rw (in_table, has_sub, size, sized) refl in
      let (server, ends, stored) = segments_all (omega arith) small room in
      let expedited : leb (length bytes) 4 ≡ false = ground arith in
      (
        server,
        rw expedited (
              exchange_lem crc16 table rx_id tx_id elapsed idle_at request confirm
                (record {
                  result = record {
                    response = some confirm;
                    updated_object = none;
                    new_state = begun.state;
                  };
                  rx = rx';
                  od = s;
                })
                (λ resp client1.
                  download_confirmed of_code net index sub bytes resp client1 (λ client2.
                    send_segments of_code net index sub bytes ((length bytes + 6) / 7) 0 false
                      client2))
                normal
                (carried request (omega arith, index_u16, sub_byte, to_le-IsArray 4 _) (λ x. x))
                (returned tx_id confirm (index_u16, sub_byte) (λ x. x)) handled refl)
            ∙ ends,
        stored,
      )

  -- A download of at least one byte and of fewer than 2^32, by a client with an empty inbox, from an
  -- idle server whose receiver is in the state `Normal` and whose buffer has at least seven bytes. The
  -- table has the object, its sub object is writable and accepts that size, the object keeps the
  -- contract `Store` with a capacity of at least that many bytes, and it is `Ready`. Then the client ends
  -- with success and an empty inbox, the server is idle again, its receiver is in the state `Normal` with
  -- no request and a buffer of the same length, and the object `Holds` the client's bytes: it has taken
  -- all of them in their order, by one write or by one partial write that has been ended.
  pub download_Stored :
      1 ≤ length bytes
      → length bytes < 2 ^ 32
      → 7 ≤ length rx.buffer
      → is_writable info.access_type ≡ true
      → Downloads of_code crc16 table rx_id tx_id elapsed entry sub cap store index bytes are_bytes
          fit
          (length rx.buffer)
          (download of_code
            (deliver crc16 table rx_id tx_id elapsed)
            index
            sub
            bytes
            (client_at crc16 table rx_id tx_id elapsed idle_at))
  download_Stored some_bytes small room writable = elim (dec_le (length bytes) 4) [
    | yes short ↦
        let (s', written, holds) = store.write_lem bytes s ready fit in
        expedited_stores s' some_bytes short writable written holds
    | no long ↦ segmented_stores (omega arith) small room
  ]
