-- ===== src/Sdo/Request/RoundTrip.antt =====
-- `SdoRequest::try_from` reads back what `to_bytes` wrote.
use zencan.Base.{
  ℕ, ◌<◌, ◌≡◌, refl, ◌∙◌, Bool, true, false, List, [], ◌∷◌, Option, none, some, ok, arith, length,
  ◌++◌, take_all, ◌&&◌, ◌==◌, same, bit_and,
}
use zencan.Base.Bits.{
  shr, has_bit, to_le, from_le-to_le_u32, from_le-to_le_u16, all_below, all_below_sound, IsU16,
  IsU32,
}
use zencan.Sdo.Wire.{at_object, read_index-at_object}
use zencan.Sdo.Request.{SdoRequest, ClientCommand, IsRequest}
use zencan.Sdo.Request.Build.{expedited_download}
use zencan.Sdo.Request.Encode.{
  to_bytes, download_head, segment_head, block_download_head, end_block_head, zeros,
}
use zencan.Sdo.Request.Decode.{
  from_bytes, client_command, decode, from_bytes_command, block_download_sub, decode_block_download,
}

download_head_test : Bool → Bool → ℕ → Bool
download_head_test e s n =
    let h = download_head n e s in
    (shr h 5 == 1) && (bit_and (shr h 2) 3 == n) && same (has_bit h 2) e && same (has_bit h 1) s

download_head_table : (e s : Bool) → all_below 4 (download_head_test e s) ≡ true
unfolding all_below download_head_test download_head
download_head_table true true = refl
download_head_table true false = refl
download_head_table false true = refl
download_head_table false false = refl

-- The fields of the command byte come back.
download_head_fields :
    (n : ℕ) (e s : Bool)
    → n < 4
    → let h = download_head n e s in
      (shr h 5 ≡ 1) × (bit_and (shr h 2) 3 ≡ n) × (has_bit h 2 ≡ e) × (has_bit h 1 ≡ s)
unfolding download_head_test
download_head_fields n e s lt =
    let t = all_below_sound 4 (download_head_test e s) n (download_head_table e s) lt in
    ground arith

initiate_download_lem :
    (n : ℕ) (e s : Bool) (index sub : ℕ) (value : List ℕ)
    → n < 4
    → IsU16 index
    → length value ≡ 4
    → from_bytes (at_object (download_head n e s) index sub value)
      ≡ ok (SdoRequest.initiate_download n e s index sub value)
unfolding at_object client_command decode
initiate_download_lem n e s index sub value hn hi hv =
    let (command, size, expedited, sized) = download_head_fields n e s hn in
    from_bytes_command _ ClientCommand.initiate_download (omega arith) (rw command)
    ∙ rw (
      size,
      expedited,
      sized,
      read_index-at_object _ index sub _ hi,
      take_all 4 value (omega arith),
    )

segment_head_test : Bool → Bool → ℕ → Bool
segment_head_test t c n =
    let h = segment_head t n c in
    (shr h 5 == 0) && (bit_and (shr h 1) 7 == n) && same (has_bit h 16) t && same (has_bit h 1) c

segment_head_table : (t c : Bool) → all_below 8 (segment_head_test t c) ≡ true
unfolding all_below segment_head_test segment_head
segment_head_table true true = refl
segment_head_table true false = refl
segment_head_table false true = refl
segment_head_table false false = refl

segment_head_fields :
    (t : Bool) (n : ℕ) (c : Bool)
    → n < 8
    → let h = segment_head t n c in
      (shr h 5 ≡ 0) × (bit_and (shr h 1) 7 ≡ n) × (has_bit h 16 ≡ t) × (has_bit h 1 ≡ c)
unfolding segment_head_test
segment_head_fields t n c lt =
    let e = all_below_sound 8 (segment_head_test t c) n (segment_head_table t c) lt in ground arith

download_segment_lem :
    (t : Bool) (n : ℕ) (c : Bool) (value : List ℕ)
    → n < 8
    → length value ≡ 7
    → from_bytes (segment_head t n c ∷ value) ≡ ok (SdoRequest.download_segment t n c value)
unfolding client_command decode
download_segment_lem t n c value hn hv =
    let (command, size, toggle, last) = segment_head_fields t n c hn in
    from_bytes_command _ ClientCommand.download_segment (omega arith) (rw command)
    ∙ rw (size, toggle, last, take_all 7 value (omega arith))

end_block_head_test : ℕ → Bool
end_block_head_test n =
    let h = end_block_head n in (shr h 5 == 6) && (bit_and h 1 == 1) && (bit_and (shr h 2) 7 == n)

end_block_head_fields :
    (n : ℕ)
    → n < 8
    → let h = end_block_head n in (shr h 5 ≡ 6) × (bit_and h 1 ≡ 1) × (bit_and (shr h 2) 7 ≡ n)
unfolding end_block_head_test
end_block_head_fields n lt =
    let e = all_below_sound 8 end_block_head_test n table lt in ground arith
  where
    table : all_below 8 end_block_head_test ≡ true
    table = unfold all_below end_block_head in refl

end_block_download_lem :
    (n crc : ℕ)
    → n < 8
    → IsU16 crc
    → from_bytes (end_block_head n ∷ (to_le 2 crc ++ zeros 5))
      ≡ ok (SdoRequest.end_block_download n crc)
unfolding client_command decode block_download_sub decode_block_download
end_block_download_lem n crc hn hc =
    let (command, sub, unused) = end_block_head_fields n hn in
    from_bytes_command _ ClientCommand.block_download (omega arith) (rw command)
    ∙ rw (sub, unused, from_le-to_le_u16 crc hc)

initiate_upload_lem :
    (index sub : ℕ)
    → IsU16 index
    → from_bytes (at_object 0x40 index sub (zeros 4)) ≡ ok (SdoRequest.initiate_upload index sub)
unfolding at_object client_command decode
initiate_upload_lem index sub hi =
    from_bytes_command _ ClientCommand.initiate_upload (omega arith) refl
    ∙ rw (read_index-at_object _ index sub _ hi)

abort_lem :
    (index sub abort_code : ℕ)
    → IsU16 index
    → IsU32 abort_code
    → from_bytes (at_object 0x80 index sub (to_le 4 abort_code))
      ≡ ok (SdoRequest.abort index sub abort_code)
unfolding at_object client_command decode
abort_lem index sub abort_code hi hc =
    from_bytes_command _ ClientCommand.abort (omega arith) refl
    ∙ rw (read_index-at_object _ index sub _ hi, from_le-to_le_u32 abort_code hc)

block_download_head_fields :
    (crc s : Bool)
    → let h = block_download_head crc s in
      (shr h 5 ≡ 6) × (bit_and h 1 ≡ 0) × (has_bit h 4 ≡ crc) × (has_bit h 2 ≡ s)
unfolding block_download_head
block_download_head_fields true true = (refl, refl, refl, refl)
block_download_head_fields true false = (refl, refl, refl, refl)
block_download_head_fields false true = (refl, refl, refl, refl)
block_download_head_fields false false = (refl, refl, refl, refl)

initiate_block_lem :
    (crc s : Bool) (index sub size : ℕ)
    → IsU16 index
    → IsU32 size
    → from_bytes (at_object (block_download_head crc s) index sub (to_le 4 size))
      ≡ ok (SdoRequest.initiate_block_download crc s index sub size)
unfolding at_object client_command decode block_download_sub decode_block_download
initiate_block_lem crc s index sub size hi hz =
    let (command, kind, check, sized) = block_download_head_fields crc s in
    from_bytes_command _ ClientCommand.block_download (omega arith) (rw command)
    ∙ rw (kind, check, sized, read_index-at_object _ index sub _ hi, from_le-to_le_u32 size hz)

-- The four messages that `to_bytes` does not write.
abbrev pub IsBlockUpload : SdoRequest → Type 0
IsBlockUpload (SdoRequest.initiate_block_upload index sub blksize pst) = Unit {0}
IsBlockUpload SdoRequest.end_block_upload = Unit {0}
IsBlockUpload SdoRequest.start_block_upload = Unit {0}
IsBlockUpload (SdoRequest.confirm_block ackseq blksize) = Unit {0}
IsBlockUpload _ = ⊥

-- What `to_bytes` may answer for a request.
abbrev pub Sent : SdoRequest → Option (List ℕ) → Type 0
Sent r none = IsBlockUpload r
Sent r (some p) = (length p ≡ 8) × (from_bytes p ≡ ok r)

-- A request whose fields are in range, and whose count of unused bytes fits the command byte, is
-- either one of the four block upload messages, at which `to_bytes` panics, or it is written in eight
-- bytes, from which `try_from` gives the same request.
pub from_bytes-to_bytes : (r : SdoRequest) → IsRequest r → Sent r (to_bytes r)
unfolding to_bytes at_object from_bytes client_command decode
from_bytes-to_bytes (SdoRequest.initiate_download n e s index sub value) (hn, hi, hs, (len, hv)) =
    (omega (arith, len), initiate_download_lem n e s index sub value hn hi len)
from_bytes-to_bytes (SdoRequest.download_segment t n c value) (hn, (len, hv)) =
    (omega (arith, len), download_segment_lem t n c value hn len)
from_bytes-to_bytes (SdoRequest.initiate_upload index sub) (hi, hs) =
    (refl, initiate_upload_lem index sub hi)
from_bytes-to_bytes (SdoRequest.req_upload_segment true) h = (refl, refl)
from_bytes-to_bytes (SdoRequest.req_upload_segment false) h = (refl, refl)
from_bytes-to_bytes (SdoRequest.initiate_block_download crc s index sub size) (hi, hs, hz) =
    (refl, initiate_block_lem crc s index sub size hi hz)
from_bytes-to_bytes (SdoRequest.end_block_download n crc) (hn, hc) =
    (refl, end_block_download_lem n crc hn hc)
from_bytes-to_bytes (SdoRequest.initiate_block_upload index sub blksize pst) h = tt
from_bytes-to_bytes SdoRequest.end_block_upload h = tt
from_bytes-to_bytes SdoRequest.start_block_upload h = tt
from_bytes-to_bytes (SdoRequest.confirm_block ackseq blksize) h = tt
from_bytes-to_bytes (SdoRequest.abort index sub abort_code) (hi, hs, hc) =
    (refl, abort_lem index sub abort_code hi hc)

-- An expedited download of no bytes is decoded as one of four zero bytes: the count of unused bytes, 4,
-- does not fit its two bits and runs into a reserved bit.
pub expedited_download_empty :
    (index sub : ℕ)
    → IsU16 index
    → (r : SdoRequest) × (p : List ℕ) × (expedited_download index sub [] ≡ some r)
      × (to_bytes r ≡ some p)
      × (from_bytes p ≡ ok (SdoRequest.initiate_download 0 true true index sub (zeros 4)))
unfolding expedited_download to_bytes at_object client_command decode download_head
expedited_download_empty index sub hi = (
  SdoRequest.initiate_download 4 true true index sub (zeros 4),
  at_object (download_head 4 true true) index sub (zeros 4),
  refl,
  refl,
  from_bytes_command _ ClientCommand.initiate_download (omega arith) refl
      ∙ rw (read_index-at_object (download_head 4 true true) index sub (zeros 4) hi),
)
