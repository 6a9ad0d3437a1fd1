-- ===== src/Flags/Events.antt =====
-- An event that is set is seen after the next toggle, and only then.
use native.Mathlib.Decide.{ℕ_discrete}
use zencan.Base.{
  ℕ, zero, suc, ◌*◌, ◌/◌, ◌^◌, ◌<◌, ◌≡◌, ◌≢◌, refl, ap, Bool, true, false, ◌||◌, List, [], ◌∷◌,
  bit_and, bit_or, ◌==◌, same, All, arith, length,
}
use zencan.Base.Bits.{IsByte, has_bit, all_below, all_below_sound, bit_and_ones}
use zencan.Sdo.Wire.{byte, byte-IsByte}
use zencan.Flags.{
  ObjectFlagSync, ObjectFlags, toggle, sync_flag, or_byte, flag_bit, set_flag, get_flag,
}

bit_test : ℕ → ℕ → ℕ → Bool
bit_test k j f = same (has_bit (bit_or f (2 ^ k)) (2 ^ j)) ((j == k) || has_bit f (2 ^ j))

bit_table : all_below 8 (λ k. all_below 8 (λ j. all_below 256 (bit_test k j))) ≡ true
unfolding all_below bit_test
bit_table = refl

bit_lem :
    (k j f : ℕ)
    → k < 8
    → j < 8
    → f < 256
    → has_bit (bit_or f (2 ^ k)) (2 ^ j) ≡ ((j == k) || has_bit f (2 ^ j))
unfolding bit_test
bit_lem k j f hk hj hf =
    let t1 =
      all_below_sound 8 (λ k. all_below 8 (λ j. all_below 256 (bit_test k j))) k bit_table hk in
    let t2 = all_below_sound 8 (λ j. all_below 256 (bit_test k j)) j t1 hj in
    let t3 : bit_test k j f ≡ true = all_below_sound 256 (bit_test k j) f t2 hf in ground arith

byte-or_byte_same :
    (bank : List ℕ) (i bit : ℕ)
    → i < length bank
    → byte (or_byte bank i bit) i ≡ bit_or (byte bank i) bit
unfolding or_byte
byte-or_byte_same [] i bit h = absurd (omega arith)
byte-or_byte_same (b ∷ bank) zero bit h = refl
byte-or_byte_same (b ∷ bank) (suc i) bit h = byte-or_byte_same bank i bit (omega arith)

byte-or_byte_other :
    (bank : List ℕ) (i j bit : ℕ) → j ≢ i → byte (or_byte bank i bit) j ≡ byte bank j
unfolding or_byte
byte-or_byte_other [] i j bit h = refl
byte-or_byte_other (b ∷ bank) zero zero bit h = absurd (h refl)
byte-or_byte_other (b ∷ bank) zero (suc j) bit h = refl
byte-or_byte_other (b ∷ bank) (suc i) zero bit h = refl
byte-or_byte_other (b ∷ bank) (suc i) (suc j) bit h =
    byte-or_byte_other bank i j bit (λ e. h (ap suc e))

length-or_byte : (bank : List ℕ) (i bit : ℕ) → length (or_byte bank i bit) ≡ length bank
unfolding or_byte
length-or_byte [] i bit = refl
length-or_byte (b ∷ bank) zero bit = refl
length-or_byte (b ∷ bank) (suc i) bit = ap suc (length-or_byte bank i bit)

-- A byte of a bank after a flag is set.
bank_lem :
    (bank : List ℕ) (sub other : ℕ)
    → All IsByte bank
    → sub < length bank * 8
    → has_bit (byte (or_byte bank (sub / 8) (flag_bit sub)) (other / 8)) (flag_bit other)
      ≡ ((other == sub) || has_bit (byte bank (other / 8)) (flag_bit other))
bank_lem bank sub other bytes inside =
    let low_sub = bit_and_ones 3 sub in
    let low_other = bit_and_ones 3 other in
    elim (ℕ_discrete (other / 8) (sub / 8)) [
      | yes here ↦
          let at = byte-or_byte_same bank (sub / 8) (flag_bit sub) (omega arith) in
          let bits =
            bit_lem (bit_and sub 7) (bit_and other 7) (byte bank (sub / 8)) (omega arith)
              (omega arith) (byte-IsByte bank (sub / 8) bytes) in
          let same_test : (bit_and other 7 == bit_and sub 7) ≡ (other == sub) = ground arith in
          rw (here, at, bits, same_test) refl
      | no elsewhere ↦
          let at = byte-or_byte_other bank (sub / 8) (other / 8) (flag_bit sub) elsewhere in
          let differs : (other == sub) ≡ false = ground arith in rw (at, differs) refl
    ]

-- An event of a sub object that has a flag is set, in banks of bytes of one length. Until the next
-- toggle no flag reads differently. The toggle reports that an event is pending; after it, the flag of
-- this sub object reads as set, and every other flag as it would without the event.
pub set_flag-toggle :
    (sub other : ℕ) (sync : ObjectFlagSync) (flags : ObjectFlags)
    → length flags.flags1 ≡ length flags.flags0
    → All IsByte flags.flags0
    → All IsByte flags.flags1
    → sub < length flags.flags0 * 8
    → let (sync1, flags1) = set_flag sub sync flags in
      (get_flag other sync1 flags1 ≡ get_flag other sync flags)
      × ((toggle sync1).0 ≡ true)
      × (get_flag other (toggle sync1).1 flags1
          ≡ ((other == sub) || get_flag other (toggle sync).1 flags))
unfolding set_flag get_flag toggle sync_flag
set_flag-toggle sub other sync flags size bytes0 bytes1 inside =
    let in0 = bank_lem flags.flags0 sub other bytes0 inside in
    let in1 = bank_lem flags.flags1 sub other bytes1 (omega arith) in
    let size0 = length-or_byte flags.flags0 (sub / 8) (flag_bit sub) in ground arith
