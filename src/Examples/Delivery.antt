-- ===== src/Examples/Delivery.antt =====
-- A client writes ten bytes to a node with one object, whose buffer has room for one segment and a half.
use zencan.Base.{
  ℕ, ◌+◌, ◌≤◌, ◌≡◌, refl, true, false, List, [], ◌∷◌, Option, none, some, ok, arith, All, replicate,
  ◌++◌, copy_at,
}
use zencan.Base.Bits.{IsByte}
use zencan.Can.{CanId}
use zencan.Objects.{SubInfo, AccessType, DataType, PdoMapping, is_writable}
use zencan.Dict.{OdEntry, find_object_entry}
use zencan.Fields.{SubObjectAccess}
use zencan.Fields.Bytes.{ByteField, byte_field}
use zencan.Fields.Provided
use zencan.Fields.Provided.{provided}
use zencan.Fields.Stored.{byte_store}
use zencan.Server.{Server}
use zencan.Server.Receiver
use zencan.Server.Receiver.{SdoReceiver}
use zencan.Server.State.{Crc, SdoState, validate_download_size}
use zencan.Client.{AbortCodeOf}
use zencan.Client.Download.{download}
use zencan.Bus.{deliver}
use zencan.Bus.Exchange.{client_at}
use zencan.Bus.Download.{Downloads}
use zencan.Bus.Delivery.{download_Stored}
use zencan.Bus.Overwrite.{download-byte_field}

-- A sum in the place of the check sum.
abbrev pub sum : Crc
sum = record { init = 0; update = add_all; get = λ x. x }
  where
    add_all : ℕ → List ℕ → ℕ
    add_all acc [] = acc
    add_all acc (x ∷ xs) = add_all (acc + x) xs

-- A client that knows no abort code.
abbrev codes : AbortCodeOf
codes value = none

abbrev pub info : SubInfo
info = record {
  size = 16;
  data_type = DataType.octet_string;
  access_type = AccessType.rw_access;
  pdo_mapping = PdoMapping.unmapped;
  persist = false;
}

abbrev pub subs : ℕ → Option (SubInfo × SubObjectAccess ByteField)
subs sub = some (info, byte_field)

abbrev pub entry : OdEntry ByteField
entry = record { index = 0x2000; object = provided subs }

abbrev pub table : List (OdEntry ByteField)
table = entry ∷ []

abbrev payload : List ℕ
payload = 10 ∷ 20 ∷ 30 ∷ 40 ∷ 50 ∷ 60 ∷ 70 ∷ 80 ∷ 90 ∷ 100 ∷ []

abbrev pub field : ByteField
field = record { value = replicate 16 255; write_offset = none }

abbrev pub receiver : SdoReceiver
receiver = record {
  request = none;
  state = Receiver.ReceiverState.normal;
  buffer = replicate 10 0;
  timer = 0;
  last_seqnum = 0;
  blksize = 0;
}

abbrev node : Server ByteField
node = record { state = SdoState.idle; rx = receiver; od = field }

pub writable : is_writable AccessType.rw_access ≡ true
unfolding is_writable
writable = refl

payload_bytes : All IsByte payload
payload_bytes = grind arith

payload_fits : 10 ≤ 16
payload_fits = omega arith

in_table : find_object_entry table 0x2000 ≡ some entry
unfolding find_object_entry
in_table = refl

has_sub : (provided subs).sub_info 1 field ≡ ok info
unfolding provided Provided.sub_info
has_sub = refl

sized : validate_download_size 10 info ≡ ok tt
unfolding validate_download_size
sized = refl

download_example :
    Downloads codes sum table
      (CanId.std 0x601)
      (CanId.std 0x581)
      0
      entry
      1
      16
      (byte_store subs 1 field.value info refl writable)
      0x2000
      payload
      payload_bytes
      payload_fits
      10
      (download codes
        (deliver sum table (CanId.std 0x601) (CanId.std 0x581) 0)
        0x2000
        1
        payload
        (client_at sum table (CanId.std 0x601) (CanId.std 0x581) 0 node))
unfolding byte_store
download_example =
    download_Stored codes sum table (CanId.std 0x601) (CanId.std 0x581) 0 entry 1 16
      (byte_store subs 1 field.value info refl writable) 0x2000 payload payload_bytes payload_fits
      in_table receiver field info has_sub sized (omega arith) (omega arith) refl refl (omega arith)
      (omega arith) (omega arith) writable

-- Six of the sixteen bytes are kept.
download-byte_field_example :
    (server : Server ByteField) × (download codes
        (deliver sum table (CanId.std 0x601) (CanId.std 0x581) 0)
        0x2000
        1
        payload
        (client_at sum table (CanId.std 0x601) (CanId.std 0x581) 0 node)
      ≡ some (ok tt, client_at sum table (CanId.std 0x601) (CanId.std 0x581) 0 server))
    × (server.state ≡ SdoState.idle)
    × (server.rx.state ≡ Receiver.ReceiverState.normal)
    × (server.rx.request ≡ none)
    × (server.od.value ≡ payload ++ replicate 6 255)
unfolding copy_at
download-byte_field_example =
    download-byte_field codes sum table (CanId.std 0x601) (CanId.std 0x581) 0 subs 0x2000 1 payload
      receiver field info in_table refl writable sized payload_fits payload_bytes (omega arith)
      (omega arith) (omega arith) (omega arith) refl (omega arith)
