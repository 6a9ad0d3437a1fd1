-- ===== src/Sdo/Wire.antt =====
-- Bytes of SDO messages that several message types share.
use zencan.Base.{
  zero, suc, ◌≤◌, length, length-take, length-drop, All, [], ℕ, ◌+◌, ◌-◌, ◌*◌, ◌/◌, ◌%◌, ◌^◌, ◌≡◌,
  ◌∙◌, ap, arith, bit_and, bit_or, List, ◌∷◌, get_or, take, drop,
}
use zencan.Base.Bits.{IsArray, IsU32, from_le, shr, IsByte, IsU16, bit_and_ones, bit_or_high}

-- `value[i]`, which a check of the length allows.
abbrev pub byte : List ℕ → ℕ → ℕ
byte value i = get_or value i 0

-- `value[a..b]`.
abbrev pub slice : List ℕ → ℕ → ℕ → List ℕ
slice value a b = take (b - a) (drop a value)

abbrev pub as_byte : ℕ → ℕ
as_byte x = x % 256

abbrev pub shl16 : ℕ → ℕ → ℕ
shl16 x k = x * 2 ^ k % 2 ^ 16

-- A message about an object begins with the command byte, the index, low byte first, and the sub index.
unfoldable pub at_object : ℕ → ℕ → ℕ → List ℕ → List ℕ
at_object command index sub rest =
    command ∷ as_byte (bit_and index 0xff) ∷ as_byte (shr index 8) ∷ sub ∷ rest

-- `value[1] as u16 | ((value[2] as u16) << 8)`.
unfoldable pub read_index : List ℕ → ℕ
read_index value = bit_or (byte value 1) (shl16 (byte value 2) 8)

pub index_bytes : (lo hi : ℕ) → IsByte lo → IsByte hi → bit_or lo (shl16 hi 8) ≡ lo + hi * 256
index_bytes lo hi hl hh =
    ap (bit_or lo) {y = hi * 2 ^ 8} (omega arith) ∙ bit_or_high 8 lo hi (omega arith)

low_byte : (index : ℕ) → as_byte (bit_and index 0xff) ≡ index % 256
low_byte index = omega (arith, bit_and_ones 8 index)

high_byte : (index : ℕ) → IsU16 index → as_byte (shr index 8) ≡ index / 256
high_byte index h = omega arith

pub at_object_bytes :
    (command index sub : ℕ) (rest : List ℕ)
    → IsU16 index
    → at_object command index sub rest ≡ command ∷ (index % 256) ∷ (index / 256) ∷ sub ∷ rest
unfolding at_object
at_object_bytes command index sub rest h = rw (low_byte index, high_byte index h)

pub read_index-at_object :
    (command index sub : ℕ) (rest : List ℕ)
    → IsU16 index
    → read_index (at_object command index sub rest) ≡ index
unfolding read_index
read_index-at_object command index sub rest h =
    rw (at_object_bytes command index sub rest h)
      (index_bytes (index % 256) (index / 256) (omega arith) (omega arith) ∙ omega arith)

pub read_index-IsU16 :
    (value : List ℕ) → IsByte (byte value 1) → IsByte (byte value 2) → IsU16 (read_index value)
unfolding read_index
read_index-IsU16 value h1 h2 = omega (arith, index_bytes (byte value 1) (byte value 2) h1 h2)

pub byte-IsByte : (value : List ℕ) (i : ℕ) → All IsByte value → IsByte (byte value i)
byte-IsByte [] i h = omega arith
byte-IsByte (b ∷ value) zero h = h.0
byte-IsByte (b ∷ value) (suc i) h = byte-IsByte value i h.1

drop-All : (n : ℕ) (xs : List ℕ) → All IsByte xs → All IsByte (drop n xs)
drop-All zero xs h = h
drop-All (suc n) [] h = tt
drop-All (suc n) (x ∷ xs) h = drop-All n xs h.1

take-All : (n : ℕ) (xs : List ℕ) → All IsByte xs → All IsByte (take n xs)
take-All zero xs h = tt
take-All (suc n) [] h = tt
take-All (suc n) (x ∷ xs) h = (h.0, take-All n xs h.1)

pub slice-IsArray :
    (value : List ℕ) (a b : ℕ)
    → All IsByte value
    → b ≤ length value
    → IsArray (b - a) (slice value a b)
slice-IsArray value a b h le = (
  omega (arith, length-take (b - a) (drop a value), length-drop a value),
  take-All (b - a) (drop a value) (drop-All a value h),
)

pub from_le-IsU16 : (bs : List ℕ) → IsArray 2 bs → IsU16 (from_le bs)
from_le-IsU16 (a ∷ b ∷ []) h = omega arith
from_le-IsU16 [] h = absurd (omega arith)
from_le-IsU16 (a ∷ []) h = absurd (omega arith)
from_le-IsU16 (a ∷ b ∷ c ∷ bs) h = absurd (omega arith)

pub from_le-IsU32 : (bs : List ℕ) → IsArray 4 bs → IsU32 (from_le bs)
from_le-IsU32 (a ∷ b ∷ c ∷ d ∷ []) h = omega arith
from_le-IsU32 [] h = absurd (omega arith)
from_le-IsU32 (a ∷ []) h = absurd (omega arith)
from_le-IsU32 (a ∷ b ∷ []) h = absurd (omega arith)
from_le-IsU32 (a ∷ b ∷ c ∷ []) h = absurd (omega arith)
from_le-IsU32 (a ∷ b ∷ c ∷ d ∷ e ∷ bs) h = absurd (omega arith)
