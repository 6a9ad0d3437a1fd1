-- ===== src/Base/Bits.antt =====
-- Shifts, masks and little-endian bytes as arithmetic on native numbers.
use Prim.Native.Nat.{
  ℕ, zero, suc, ◌+◌, ◌-◌, ◌*◌, ◌/◌, ◌%◌, ◌^◌, ◌≤◌, ◌<◌, min, max, bit_and, bit_or, digits,
  bit_and-bitwise, bit_or-bitwise,
}
use mathlib.Core.Path.{◌≡◌, refl, ap, ◌∙◌}
use mathlib.Core.Bool.{Bool, true, false}
use mathlib.Core.List.{List, [], ◌∷◌}
use native.Mathlib.Nat.{pow-succ'}
use native.Mathlib.Omega.{arith}
use zencan.Base.Tests.{◌==◌, if◌then◌else◌}
use zencan.Base.Lists.{length, All}

-- `x >> k`, and `x << k` on a `u8`, which drops what leaves the byte.
abbrev pub shr : ℕ → ℕ → ℕ
shr x k = x / 2 ^ k

abbrev pub shl8 : ℕ → ℕ → ℕ
shl8 x k = x * 2 ^ k % 256

-- `flag as u8`.
abbrev pub as_u8 : Bool → ℕ
as_u8 true = 1
as_u8 false = 0

-- `(x & mask) != 0`.
abbrev pub has_bit : ℕ → ℕ → Bool
has_bit x mask = if bit_and x mask == 0 then false else true

abbrev pub IsByte : ℕ → Type 0
IsByte b = b < 256

abbrev pub IsU16 : ℕ → Type 0
IsU16 v = v < 2 ^ 16

abbrev pub IsU32 : ℕ → Type 0
IsU32 v = v < 2 ^ 32

-- An array `[u8; n]`.
abbrev pub IsArray : ℕ → List ℕ → Type 0
IsArray n bs = (length bs ≡ n) × All IsByte bs

-- `to_le_bytes` of an integer of n bytes, and `from_le_bytes`.
abbrev pub to_le : ℕ → ℕ → List ℕ
to_le zero v = []
to_le (suc n) v = (v % 256) ∷ to_le n (v / 256)

abbrev pub from_le : List ℕ → ℕ
from_le [] = 0
from_le (b ∷ bs) = b + 256 * from_le bs

pub from_le-to_le_u16 : (v : ℕ) → IsU16 v → from_le (to_le 2 v) ≡ v
from_le-to_le_u16 v h = omega arith

pub from_le-to_le_u32 : (v : ℕ) → IsU32 v → from_le (to_le 4 v) ≡ v
from_le-to_le_u32 v h = omega arith

low_byte : (b v : ℕ) → IsByte b → (b + 256 * v) % 256 ≡ b
low_byte b v h = omega arith

high_bytes : (b v : ℕ) → IsByte b → (b + 256 * v) / 256 ≡ v
high_bytes b v h = omega arith

pub to_le-from_le : (bs : List ℕ) → All IsByte bs → to_le (length bs) (from_le bs) ≡ bs
to_le-from_le [] h = refl
to_le-from_le (b ∷ bs) (hb, hbs) =
    rw (low_byte b (from_le bs) hb, high_bytes b (from_le bs) hb)
      (ap (◌∷◌ b) (to_le-from_le bs hbs))

pub to_le-IsArray : (n v : ℕ) → IsArray n (to_le n v)
to_le-IsArray zero v = (refl, tt)
to_le-IsArray (suc n) v =
    let (len, bytes) = to_le-IsArray n (v / 256) in (ap suc len, (omega arith, bytes))

-- A test that holds at every number below a bound, found by running it.
unfoldable pub all_below : ℕ → (ℕ → Bool) → Bool
all_below zero test = true
all_below (suc bound) test = if test bound then all_below bound test else false

pub all_below_sound :
    (bound : ℕ) (test : ℕ → Bool) (v : ℕ) → all_below bound test ≡ true → v < bound → test v ≡ true
unfolding all_below
all_below_sound zero test v passed below = absurd (omega arith)
all_below_sound (suc bound) test v passed below =
    let earlier = all_below_sound bound test v in ground (arith, earlier)

abbrev and_digits : ℕ → ℕ → ℕ → ℕ
and_digits = digits (λ b. zero) min

abbrev or_digits : ℕ → ℕ → ℕ → ℕ
or_digits = digits (λ b. b) max

-- The digit recursion does not depend on its count, once that is large enough.
digits_count :
    (z : ℕ → ℕ) (f : ℕ → ℕ → ℕ) (n m a b : ℕ) → a ≤ n → a ≤ m → digits z f n a b ≡ digits z f m a b
digits_count z f (suc i) (suc j) (suc v) w hi hj =
    let half = digits_count z f i j (suc v / 2) (w / 2) (omega arith) (omega arith) in omega arith
digits_count z f (suc i) (suc j) zero w hi hj = refl
digits_count z f (suc i) zero (suc v) w hi hj = absurd (omega arith)
digits_count z f (suc i) zero zero w hi hj = refl
digits_count z f zero (suc j) (suc v) w hi hj = absurd (omega arith)
digits_count z f zero (suc j) zero w hi hj = refl
digits_count z f zero zero v w hi hj = refl

bit_and_zero : (b : ℕ) → bit_and 0 b ≡ 0
bit_and_zero b = bit_and-bitwise 0 b

bit_or_zero : (b : ℕ) → bit_or 0 b ≡ b
bit_or_zero b = bit_or-bitwise 0 b

-- One digit at a time.
and_step : (x y : ℕ) → bit_and x y ≡ bit_and (x / 2) (y / 2) * 2 + min (x % 2) (y % 2)
and_step zero y = omega (arith, bit_and_zero y, bit_and_zero (y / 2))
and_step (suc x) y =
    let count =
      digits_count (λ c. zero) min x (suc x / 2) (suc x / 2) (y / 2) (omega arith) (omega arith) in
    omega (arith, count, bit_and-bitwise (suc x / 2) (y / 2), bit_and-bitwise (suc x) y)

or_step : (x y : ℕ) → bit_or x y ≡ bit_or (x / 2) (y / 2) * 2 + max (x % 2) (y % 2)
or_step zero y = omega (arith, bit_or_zero y, bit_or_zero (y / 2))
or_step (suc x) y =
    let count =
      digits_count (λ c. c) max x (suc x / 2) (suc x / 2) (y / 2) (omega arith) (omega arith) in
    omega (arith, count, bit_or-bitwise (suc x / 2) (y / 2), bit_or-bitwise (suc x) y)

mod_double : (a d : ℕ) → 0 < d → a % (2 * d) ≡ a / 2 % d * 2 + a % 2
mod_double a d h = grind arith

and_zero_count : (fuel x : ℕ) → x ≤ fuel → bit_and x 0 ≡ 0
and_zero_count (suc fuel) (suc x) le =
    let half = and_zero_count fuel (suc x / 2) (omega arith) in
    omega (arith, half, and_step (suc x) 0)
and_zero_count zero (suc x) le = absurd (omega arith)
and_zero_count fuel zero le = bit_and_zero 0

and_zero_all : (x : ℕ) → bit_and x 0 ≡ 0
and_zero_all x = and_zero_count x x (omega arith)

two_pow_pos : (k : ℕ) → 0 < 2 ^ k
two_pow_pos zero = omega arith
two_pow_pos (suc k) = rw pow-succ' (omega (arith, two_pow_pos k))

and_ones_step :
    (d a : ℕ) → 0 < d → bit_and (a / 2) (d - 1) ≡ a / 2 % d → bit_and a (2 * d - 1) ≡ a % (2 * d)
and_ones_step d a h ih =
    let half : (2 * d - 1) / 2 ≡ d - 1 = omega arith in
    omega (arith, and_step a (2 * d - 1), ap (bit_and (a / 2)) half, ih, mod_double a d h)

-- A mask of `k` ones keeps the remainder.
pub bit_and_ones : (k a : ℕ) → bit_and a (2 ^ k - 1) ≡ a % 2 ^ k
bit_and_ones zero a = and_zero_all a ∙ omega arith
bit_and_ones (suc k) a =
    rw pow-succ' (and_ones_step (2 ^ k) a (omega (arith, two_pow_pos k)) (bit_and_ones k (a / 2)))

or_high_step :
    (d a b : ℕ) → bit_or (a / 2) (b * d) ≡ a / 2 + b * d → bit_or a (b * (2 * d)) ≡ a + b * (2 * d)
or_high_step d a b ih =
    let half : b * (2 * d) / 2 ≡ b * d = omega arith in
    omega (arith, or_step a (b * (2 * d)), ap (bit_or (a / 2)) half, ih)

-- Fields that do not overlap: `a | (b << k)`.
pub bit_or_high : (k a b : ℕ) → a < 2 ^ k → bit_or a (b * 2 ^ k) ≡ a + b * 2 ^ k
bit_or_high zero zero b h = bit_or_zero (b * 1) ∙ omega arith
bit_or_high zero (suc a) b h = absurd (omega arith)
bit_or_high (suc k) a b h =
    rw pow-succ' (or_high_step (2 ^ k) a b (bit_or_high k (a / 2) b (omega (arith, pow-succ' 2 k))))

and_shift_step :
    (d m a : ℕ)
    → 0 < d
    → bit_and (a / 2) (m * d) ≡ bit_and (a / 2 / d) m * d
    → bit_and a (m * (2 * d)) ≡ bit_and (a / (2 * d)) m * (2 * d)
and_shift_step d m a h ih =
    let half : m * (2 * d) / 2 ≡ m * d = omega arith in
    let even : m * (2 * d) % 2 ≡ 0 = omega arith in
    let nested : a / (2 * d) ≡ a / 2 / d = grind arith in
    omega (
      arith,
      and_step a (m * (2 * d)),
      ap (bit_and (a / 2)) half,
      ih,
      ap (λ x. bit_and x m * d) nested,
    )

-- A mask that is shifted up keeps the high digits that it covers.
pub bit_and_shift : (k m a : ℕ) → bit_and a (m * 2 ^ k) ≡ bit_and (a / 2 ^ k) m * 2 ^ k
bit_and_shift zero m a =
    let one : a / 1 ≡ a = omega arith in
    let whole : m * 1 ≡ m = omega arith in
    omega (arith, ap (λ x. bit_and x m) one, ap (bit_and a) whole)
bit_and_shift (suc k) m a =
    rw pow-succ' (and_shift_step (2 ^ k) m a (two_pow_pos k) (bit_and_shift k m (a / 2)))

or_zero_count : (fuel x : ℕ) → x ≤ fuel → bit_or x 0 ≡ x
or_zero_count (suc fuel) (suc x) le =
    let half = or_zero_count fuel (suc x / 2) (omega arith) in
    omega (arith, half, or_step (suc x) 0)
or_zero_count zero (suc x) le = absurd (omega arith)
or_zero_count fuel zero le = bit_or_zero 0

or_low_step :
    (d a b : ℕ) → bit_or (b * d) (a / 2) ≡ a / 2 + b * d → bit_or (b * (2 * d)) a ≡ a + b * (2 * d)
or_low_step d a b ih =
    let half : b * (2 * d) / 2 ≡ b * d = omega arith in
    omega (arith, or_step (b * (2 * d)) a, ap (λ x. bit_or x (a / 2)) half, ih)

-- The same with the low field on the right: `(b << k) | a`.
pub bit_or_low : (k a b : ℕ) → a < 2 ^ k → bit_or (b * 2 ^ k) a ≡ a + b * 2 ^ k
bit_or_low zero zero b h = or_zero_count (b * 1) (b * 1) (omega arith) ∙ omega arith
bit_or_low zero (suc a) b h = absurd (omega arith)
bit_or_low (suc k) a b h =
    rw pow-succ' (or_low_step (2 ^ k) a b (bit_or_low k (a / 2) b (omega (arith, pow-succ' 2 k))))
