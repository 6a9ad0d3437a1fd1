-- ===== src/Bus/Overwrite.antt =====
-- `SdoClient::download` to an object whose sub object is a `ByteField`.
use zencan.Base.{
  ℕ, ◌^◌, ◌≤◌, ◌<◌, ◌≡◌, refl, true, List, Option, none, some, ok, All, length, copy_at,
}
use zencan.Base.Bits.{IsByte, IsU16}
use zencan.Can.{CanId}
use zencan.Dict.{OdEntry, find_object_entry}
use zencan.Objects.{SubInfo, is_writable}
use zencan.Fields.{SubObjectAccess}
use zencan.Fields.Bytes.{ByteField, byte_field}
use zencan.Fields.Provided
use zencan.Fields.Provided.{provided}
use zencan.Fields.Stored.{byte_store}
use zencan.Server.{Server}
use zencan.Server.Receiver.{SdoReceiver, ReceiverState}
use zencan.Server.State.{Crc, SdoState, validate_download_size}
use zencan.Client.{AbortCodeOf}
use zencan.Client.Download.{download}
use zencan.Bus.{deliver}
use zencan.Bus.Exchange.{client_at}
use zencan.Bus.Delivery.{download_Stored}

module _ (of_code : AbortCodeOf) (crc16 : Crc) (table : List (OdEntry ByteField))
    (rx_id tx_id : CanId) (elapsed : ℕ) where
  -- A client with an empty inbox downloads at least one and fewer than 2^32 bytes to an idle server,
  -- whose receiver is in the state `Normal` with a buffer of at least seven bytes. The table has the
  -- object, and the sub object is a writable `ByteField` that accepts that size and is at least as long
  -- as the bytes. Then the client ends with success and an empty inbox, the server is idle again, its
  -- receiver is in the state `Normal` with no request, and the value of the field is the client's
  -- bytes, followed by what the field had behind them before.
  pub download-byte_field :
      (subs : ℕ → Option (SubInfo × SubObjectAccess ByteField)) (index sub : ℕ) (bytes : List ℕ)
      (rx : SdoReceiver) (field : ByteField) (info : SubInfo)
      → find_object_entry table index ≡ some (record { index = index; object = provided subs })
      → subs sub ≡ some (info, byte_field)
      → is_writable info.access_type ≡ true
      → validate_download_size (length bytes) info ≡ ok tt
      → length bytes ≤ length field.value
      → All IsByte bytes
      → IsU16 index
      → IsByte sub
      → 1 ≤ length bytes
      → length bytes < 2 ^ 32
      → rx.state ≡ ReceiverState.normal
      → 7 ≤ length rx.buffer
      → (server : Server ByteField) × (download of_code
            (deliver crc16 table rx_id tx_id elapsed)
            index
            sub
            bytes
            (client_at crc16 table rx_id tx_id elapsed
              (record { state = SdoState.idle; rx = rx; od = field }))
          ≡ some (ok tt, client_at crc16 table rx_id tx_id elapsed server))
        × (server.state ≡ SdoState.idle)
        × (server.rx.state ≡ ReceiverState.normal)
        × (server.rx.request ≡ none)
        × (server.od.value ≡ copy_at 0 bytes field.value)
  unfolding byte_store provided Provided.sub_info
  download-byte_field subs index sub bytes rx field info found has_sub writable sized fit are_bytes
        index_u16 sub_byte some_bytes small normal room =
      let (server, ends, (idle, ready, free, _, holds)) =
        download_Stored of_code crc16 table rx_id tx_id elapsed
          (record { index = index; object = provided subs }) sub (length field.value)
          (byte_store subs sub field.value info has_sub writable) index bytes are_bytes fit found rx
          field info (rw has_sub refl) sized index_u16 sub_byte refl normal some_bytes small room
          writable in
      (server, ends, idle, ready, free, holds)
