-- ===== src/Sdo/Segment.antt =====
-- `BlockSegment` of zencan-common/src/sdo.rs: one frame of a block transfer.
use zencan.Base.{
  ℕ, ◌<◌, ◌≡◌, refl, Bool, true, false, List, ◌∷◌, Option, none, some, bit_and, bit_or, ◌==◌,
  if◌then◌else◌, length, arith, ◌&&◌, same, take_all,
}
use zencan.Base.Bits.{shl8, as_u8, has_bit, all_below, all_below_sound}
use zencan.Can.{CanId, CanMessage}
use zencan.Sdo.Wire.{byte, slice}

pub record BlockSegment : Type 0 where
  pub c : Bool
  pub seqnum : ℕ
  pub payload : List ℕ

-- `BlockSegment::try_from(&[u8])`.
unfoldable pub from_bytes : List ℕ → Option BlockSegment
from_bytes value =
    if length value == 8
    then some (record {
      c = has_bit (byte value 0) 0x80;
      seqnum = bit_and (byte value 0) 0x7f;
      payload = slice value 1 8;
    })
    else none

segment_head : Bool → ℕ → ℕ
segment_head c seqnum = bit_or (shl8 (as_u8 c) 7) (bit_and seqnum 0x7f)

unfoldable pub to_bytes : BlockSegment → List ℕ
unfolding segment_head
to_bytes segment = segment_head segment.c segment.seqnum ∷ segment.payload

unfoldable pub to_can_message : BlockSegment → CanId → CanMessage
unfolding to_bytes
to_can_message segment id = record { bytes = to_bytes segment; dlc = 8; rtr = false; id = id }

head_test : Bool → ℕ → Bool
head_test c n = same (has_bit (segment_head c n) 0x80) c && (bit_and (segment_head c n) 0x7f == n)

head_table : (c : Bool) → all_below 128 (head_test c) ≡ true
unfolding all_below head_test segment_head
head_table true = refl
head_table false = refl

head_fields :
    (c : Bool) (n : ℕ)
    → n < 128
    → (has_bit (segment_head c n) 0x80 ≡ c) × (bit_and (segment_head c n) 0x7f ≡ n)
unfolding head_test
head_fields c n h = let t = all_below_sound 128 (head_test c) n (head_table c) h in ground arith

-- A segment with a sequence number of seven bits and seven bytes of data is read back from its frame.
pub segment_round_trip :
    (segment : BlockSegment)
    → segment.seqnum < 128
    → length segment.payload ≡ 7
    → from_bytes (to_bytes segment) ≡ some segment
unfolding from_bytes to_bytes
segment_round_trip segment hn hl =
    let (last, number) = head_fields segment.c segment.seqnum hn in
    ground (arith, last, number, take_all 7 segment.payload)

pub from_bytes_total :
    (value : List ℕ)
    → length value ≡ 8
    → from_bytes value
      ≡ some (record {
        c = has_bit (byte value 0) 0x80;
        seqnum = bit_and (byte value 0) 0x7f;
        payload = slice value 1 8;
      })
unfolding from_bytes
from_bytes_total value h = ground arith
