-- ===== src/Sdo/Response/RoundTrip.antt =====
-- `SdoResponse::try_from` reads back what `to_can_message` wrote.
use zencan.Base.{
  ℕ, ◌<◌, ◌≡◌, refl, Bool, true, false, List, Option, none, some, arith, length, take_all, ◌&&◌,
  ◌==◌, same, bit_and,
}
use zencan.Base.Bits.{shr, has_bit, from_le-to_le_u32, all_below, all_below_sound, IsU16}
use zencan.Can.{CanId, CanMessage, new_eight}
use zencan.Sdo.Wire.{at_object, at_object_bytes}
use zencan.Sdo.Response.{SdoResponse, IsResponse}
use zencan.Sdo.Response.Encode.{
  to_bytes, to_can_message, upload_head, segment_head, block_head, zeros,
}
use zencan.Sdo.Response.Decode.{
  from_message, server_command, decode, index_of, block_download_sub, decode_block_download,
}

upload_head_test : Bool → Bool → ℕ → Bool
upload_head_test e s n =
    let h = upload_head n e s in
    (shr h 5 == 2) && (bit_and (shr h 2) 3 == n) && same (has_bit h 2) e && same (has_bit h 1) s

upload_head_table : (e s : Bool) → all_below 4 (upload_head_test e s) ≡ true
unfolding all_below upload_head_test upload_head
upload_head_table true true = refl
upload_head_table true false = refl
upload_head_table false true = refl
upload_head_table false false = refl

upload_head_fields :
    (n : ℕ) (e s : Bool)
    → n < 4
    → let h = upload_head n e s in
      (shr h 5 ≡ 2) × (bit_and (shr h 2) 3 ≡ n) × (has_bit h 2 ≡ e) × (has_bit h 1 ≡ s)
unfolding upload_head_test
upload_head_fields n e s lt =
    let t = all_below_sound 4 (upload_head_test e s) n (upload_head_table e s) lt in ground arith

segment_head_test : Bool → Bool → ℕ → Bool
segment_head_test t c n =
    let h = segment_head t n c in
    (shr h 5 == 0) && (bit_and (shr h 1) 7 == n) && same (has_bit h 16) t && same (has_bit h 1) c

segment_head_table : (t c : Bool) → all_below 8 (segment_head_test t c) ≡ true
unfolding all_below segment_head_test segment_head
segment_head_table true true = refl
segment_head_table true false = refl
segment_head_table false true = refl
segment_head_table false false = refl

segment_head_fields :
    (t : Bool) (n : ℕ) (c : Bool)
    → n < 8
    → let h = segment_head t n c in
      (shr h 5 ≡ 0) × (bit_and (shr h 1) 7 ≡ n) × (has_bit h 16 ≡ t) × (has_bit h 1 ≡ c)
unfolding segment_head_test
segment_head_fields t n c lt =
    let e = all_below_sound 8 (segment_head_test t c) n (segment_head_table t c) lt in ground arith

block_head_fields :
    (sc : Bool) → let h = block_head sc in (shr h 5 ≡ 5) × (bit_and h 3 ≡ 0) × (has_bit h 4 ≡ sc)
unfolding block_head
block_head_fields true = (refl, refl, refl)
block_head_fields false = (refl, refl, refl)

index_of-at_object :
    (command index sub : ℕ) (rest : List ℕ)
    → IsU16 index
    → index_of (at_object command index sub rest) ≡ index
unfolding index_of
index_of-at_object command index sub rest h =
    rw (at_object_bytes command index sub rest h) (omega arith)

-- `none` stands for the two messages of a block upload, which `to_can_message` does not write.
abbrev pub IsBlockUpload : SdoResponse → Type 0
IsBlockUpload (SdoResponse.confirm_block_upload sc s index sub size) = Unit {0}
IsBlockUpload (SdoResponse.block_upload_end n crc) = Unit {0}
IsBlockUpload _ = ⊥

frame : CanId → List ℕ → CanMessage
frame id p = record { bytes = p; dlc = 8; rtr = false; id = id }

-- What the bytes of a response are read as.
abbrev Written : CanId → SdoResponse → Option (List ℕ) → Type 0
Written id r none = IsBlockUpload r
Written id r (some p) = (length p ≡ 8) × (from_message (frame id p) ≡ some r)

to_bytes-Written : (id : CanId) (r : SdoResponse) → IsResponse r → Written id r (to_bytes r)
unfolding to_bytes at_object frame from_message server_command decode block_download_sub
    decode_block_download
to_bytes-Written id (SdoResponse.confirm_upload n e s index sub value) (hn, hi, hs, (len, hv)) =
    let (command, size, expedited, sized) = upload_head_fields n e s hn in
    (
      omega arith,
      rw (
        command,
        size,
        expedited,
        sized,
        index_of-at_object (upload_head n e s) index sub value hi,
        take_all 4 value (omega arith),
      ),
    )
to_bytes-Written id (SdoResponse.upload_segment t n c value) (hn, (len, hv)) =
    let (command, size, toggle, last) = segment_head_fields t n c hn in
    (omega arith, rw (command, size, toggle, last, take_all 7 value (omega arith)))
to_bytes-Written id (SdoResponse.confirm_download index sub) (hi, hs) =
    (refl, rw (index_of-at_object 0x60 index sub (zeros 4) hi))
to_bytes-Written id (SdoResponse.confirm_download_segment true) h = (refl, refl)
to_bytes-Written id (SdoResponse.confirm_download_segment false) h = (refl, refl)
to_bytes-Written id (SdoResponse.confirm_block_download sc index sub blksize) (hi, hs, hb) =
    let (command, kind, check) = block_head_fields sc in
    (refl, rw (command, kind, check, index_of-at_object (block_head sc) index sub _ hi))
to_bytes-Written id (SdoResponse.confirm_block ackseq blksize) h = (refl, refl)
to_bytes-Written id SdoResponse.confirm_block_download_end h = (refl, refl)
to_bytes-Written id (SdoResponse.confirm_block_upload sc s index sub size) h = tt
to_bytes-Written id (SdoResponse.block_upload_end n crc) h = tt
to_bytes-Written id (SdoResponse.abort index sub abort_code) (hi, hs, hc) =
    (refl, rw (index_of-at_object 0x80 index sub _ hi, from_le-to_le_u32 abort_code hc))

-- What `to_can_message` may answer for a response.
abbrev pub Sent : CanId → SdoResponse → Option CanMessage → Type 0
Sent id r none = IsBlockUpload r
Sent id r (some msg) = (msg.id ≡ id) × (msg.dlc ≡ 8) × (from_message msg ≡ some r)

Sent-of-Written :
    (id : CanId) (r : SdoResponse) (p : Option (List ℕ))
    → to_bytes r ≡ p
    → Written id r p
    → Sent id r (to_can_message r id)
unfolding to_can_message frame
Sent-of-Written id r none e w = rw (e, to_can_message) w
Sent-of-Written id r (some p) e (len, back) =
    rw (e, to_can_message, new_eight id p len) (refl, refl, back)

-- A response whose fields are in range, and whose count of unused bytes fits the command byte, is
-- either one of the two block upload messages, at which `to_can_message` panics, or it is sent in a
-- frame of eight bytes under the given identifier, from which `try_from` gives the same response.
pub from_message-to_can_message :
    (id : CanId) (r : SdoResponse) → IsResponse r → Sent id r (to_can_message r id)
from_message-to_can_message id r h =
    Sent-of-Written id r (to_bytes r) refl (to_bytes-Written id r h)
