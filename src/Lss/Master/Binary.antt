-- ===== src/Lss/Master/Binary.antt =====
-- The arithmetic of a search for a number bit by bit, from the top.
use zencan.Base.{
  ℕ, zero, suc, ◌+◌, ◌*◌, ◌/◌, ◌^◌, ◌<◌, ◌≡◌, ◌≢◌, ◌∙◌, ap, refl, List, [], ◌∷◌, arith, bit_or,
  length,
}
use mathlib.Core.Path.{subst}
use native.Mathlib.Nat.{div-div-eq-div-mul, mul-div_cancel, pow-succ'}
use zencan.Base.Bits.{bit_or_low}
use zencan.Sdo.Wire.{byte}
use zencan.Lss.Master.{or_at}

pub byte-or_at :
    (id : List ℕ) (i bit : ℕ) → i < length id → byte (or_at id i bit) i ≡ bit_or (byte id i) bit
unfolding or_at
byte-or_at [] i bit h = absurd (omega arith)
byte-or_at (x ∷ id) zero bit h = refl
byte-or_at (x ∷ id) (suc i) bit h = byte-or_at id i bit (omega arith)

pub byte-or_at_other : (id : List ℕ) (i j bit : ℕ) → j ≢ i → byte (or_at id i bit) j ≡ byte id j
unfolding or_at
byte-or_at_other [] i j bit h = refl
byte-or_at_other (x ∷ id) zero zero bit h = absurd (h refl)
byte-or_at_other (x ∷ id) zero (suc j) bit h = refl
byte-or_at_other (x ∷ id) (suc i) zero bit h = refl
byte-or_at_other (x ∷ id) (suc i) (suc j) bit h = byte-or_at_other id i j bit (λ e. h (ap suc e))

pub length-or_at : (id : List ℕ) (i bit : ℕ) → length (or_at id i bit) ≡ length id
unfolding or_at
length-or_at [] i bit = refl
length-or_at (x ∷ id) zero bit = refl
length-or_at (x ∷ id) (suc i) bit = ap suc (length-or_at id i bit)

-- The bits of `i` below the k-th are zero.
abbrev pub LowZero : ℕ → ℕ → Type 0
LowZero k i = i ≡ i / 2 ^ k * 2 ^ k

two_pow_pos : (k : ℕ) → 0 < 2 ^ k
two_pow_pos zero = omega arith
two_pow_pos (suc k) = rw pow-succ' (omega (arith, two_pow_pos k))

-- With `d` for the power: what is known one bit further up.
halves : (i d : ℕ) → 0 < d → i ≡ i / (2 * d) * (2 * d) → i / d ≡ 2 * (i / (2 * d))
halves i d pos low =
    ap (λ t. t / d) {y = 2 * (i / (2 * d)) * d} (omega (arith, low))
    ∙ mul-div_cancel (2 * (i / (2 * d))) pos

same_low : (i d : ℕ) → 0 < d → i ≡ i / (2 * d) * (2 * d) → i ≡ i / d * d
same_low i d pos low = omega (arith, low, ap (λ t. t * d) (halves i d pos low))

next_quotient : (i d : ℕ) → 0 < d → i ≡ i / (2 * d) * (2 * d) → (i + d) / d ≡ 2 * (i / (2 * d)) + 1
next_quotient i d pos low =
    ap (λ t. t / d) {y = (2 * (i / (2 * d)) + 1) * d} (omega (arith, low))
    ∙ mul-div_cancel (2 * (i / (2 * d)) + 1) pos

-- A number that agrees with `i` one bit further up, but not in this bit, agrees with `i + d`.
other_bit :
    (v i d : ℕ)
    → 0 < d
    → i ≡ i / (2 * d) * (2 * d)
    → v / (2 * d) ≡ i / (2 * d)
    → v / d ≢ i / d
    → (v / d ≡ (i + d) / d) × (i + d ≡ (i + d) / d * d)
other_bit v i d pos low agree differ =
    let half : v / d / 2 ≡ v / (2 * d) = div-div-eq-div-mul v d 2 ∙ ap (λ t. v / t) (omega arith) in
    let here = halves i d pos low in
    let after = next_quotient i d pos low in
    (omega arith, omega (arith, low, ap (λ t. t * d) after))

pub LowZero-next : (b i : ℕ) → LowZero (suc b) i → LowZero b i
LowZero-next b i low =
    same_low i (2 ^ b) (two_pow_pos b) (subst (λ t. i ≡ i / t * t) (pow-succ' 2 b) low)

-- In the words of the scan: the bit is set.
pub set_bit :
    (b v i : ℕ)
    → LowZero (suc b) i
    → v / 2 ^ suc b ≡ i / 2 ^ suc b
    → v / 2 ^ b ≢ i / 2 ^ b
    → (v / 2 ^ b ≡ bit_or i (2 ^ b) / 2 ^ b) × LowZero b (bit_or i (2 ^ b))
set_bit b v i low agree differ =
    let two = pow-succ' 2 b in
    let sum : bit_or i (2 ^ b) ≡ i + 2 ^ b =
      ap (λ t. bit_or t (2 ^ b)) low
      ∙ bit_or_low (suc b) (2 ^ b) (i / 2 ^ suc b) (omega (arith, two, two_pow_pos b))
      ∙ omega (arith, low) in
    rw sum (
      other_bit v i (2 ^ b) (two_pow_pos b) (subst (λ t. i ≡ i / t * t) two low)
        (subst (λ t. v / t ≡ i / t) two agree) differ)
