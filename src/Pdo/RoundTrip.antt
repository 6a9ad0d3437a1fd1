-- ===== src/Pdo/RoundTrip.antt =====
-- The parameters of a PDO are read as they were written.
use zencan.Base.{
  ℕ, ◌+◌, ◌*◌, ◌/◌, ◌%◌, ◌^◌, ◌<◌, ◌≡◌, ◌∙◌, ap, sym, refl, Bool, true, false, not, some, ok, arith,
  bit_and, bit_or, if◌then◌else◌,
}
use zencan.Base.Bits.{to_le, has_bit, from_le-to_le_u32, bit_and_ones, bit_and_shift, bit_or_high}
use zencan.Can.{CanId, raw, is_extended}
use zencan.Pdo.{Pdo}
use zencan.Pdo.Comm.{or_flag, cob_value, write_cob}

-- The identifier is in the range of its kind.
abbrev pub IsCanId : CanId → Type 0
IsCanId (CanId.std id) = id < 2 ^ 11
IsCanId (CanId.extended id) = id < 2 ^ 29

bit_and_bit : (k a : ℕ) → bit_and a (1 * 2 ^ k) ≡ a / 2 ^ k % 2 * 2 ^ k
bit_and_bit k a = bit_and_shift k 1 a ∙ ap (λ x. x * 2 ^ k) (bit_and_ones 1 (a / 2 ^ k))

-- The flags of a COB-ID behind a number of 29 bits.
abbrev flagged : Bool → Bool → Bool → ℕ → ℕ
flagged invalid no_rtr ext id =
    id
    + (if ext then 2 ^ 29 else 0)
    + (if no_rtr then 2 ^ 30 else 0)
    + (if invalid then 2 ^ 31 else 0)

or_flag_sum : (k v : ℕ) (b : Bool) → v < 2 ^ k → or_flag b (2 ^ k) v ≡ v + (if b then 2 ^ k else 0)
or_flag_sum k v true h =
    let once : 1 * 2 ^ k ≡ 2 ^ k = omega arith in
    ap (bit_or v) (sym once) ∙ bit_or_high k v 1 h ∙ omega arith
or_flag_sum k v false h = omega arith

flags_sum :
    (invalid no_rtr ext : Bool) (id : ℕ)
    → id < 2 ^ 29
    → or_flag invalid (2 ^ 31) (or_flag no_rtr (2 ^ 30) (or_flag ext (2 ^ 29) id))
      ≡ flagged invalid no_rtr ext id
flags_sum invalid no_rtr ext id h =
    let first = or_flag_sum 29 id ext h in
    let second = or_flag_sum 30 (id + (if ext then 2 ^ 29 else 0)) no_rtr (ground arith) in
    let third =
      or_flag_sum 31 (id + (if ext then 2 ^ 29 else 0) + (if no_rtr then 2 ^ 30 else 0)) invalid
        (ground arith) in
    ap (λ x. or_flag invalid (2 ^ 31) (or_flag no_rtr (2 ^ 30) x)) first
    ∙ ap (λ x. or_flag invalid (2 ^ 31) x) second
    ∙ third

-- The three flags and the number are found again.
flags_found :
    (invalid no_rtr ext : Bool) (id v : ℕ)
    → id < 2 ^ 29
    → v ≡ flagged invalid no_rtr ext id
    → (v < 2 ^ 32)
      × (has_bit v (2 ^ 29) ≡ ext)
      × (has_bit v (2 ^ 30) ≡ no_rtr)
      × (has_bit v (2 ^ 31) ≡ invalid)
      × (bit_and v 0x1FFFFFFF ≡ id)
      × (bit_and v 0x7FF ≡ id % 2 ^ 11)
flags_found invalid no_rtr ext id v h e = ground (
  arith,
  bit_and_bit 29 v,
  bit_and_bit 30 v,
  bit_and_bit 31 v,
  bit_and_ones 29 v,
  bit_and_ones 11 v,
)

id_bound : (id : CanId) → IsCanId id → raw id < 2 ^ 29
unfolding raw
id_bound (CanId.std id) h = omega arith
id_bound (CanId.extended id) h = h

-- The identifier that a number with these flags stands for.
same_cob :
    (id : CanId) (v : ℕ)
    → IsCanId id
    → has_bit v (2 ^ 29) ≡ is_extended id
    → bit_and v 0x1FFFFFFF ≡ raw id
    → bit_and v 0x7FF ≡ raw id % 2 ^ 11
    → (if has_bit v (2 ^ 29)
        then CanId.extended (bit_and v 0x1FFFFFFF)
        else CanId.std (bit_and v 0x7FF))
      ≡ id
unfolding is_extended raw
same_cob (CanId.extended id) v h flag all low = rw (flag, all) refl
same_cob (CanId.std id) v h flag all low = rw (flag, low) (ap (λ x. CanId.std x) (omega arith))

not-not : (b : Bool) → not (not b) ≡ b
not-not true = refl
not-not false = refl

-- The bytes that the COB-ID of a PDO is read as, written to any PDO, give it the same identifier and
-- the same two flags, and change nothing else.
pub write_cob-cob_value :
    {S : Type 0} (pdo other : Pdo S)
    → IsCanId pdo.cob_id
    → write_cob (to_le 4 (cob_value pdo)) other
      ≡ some (
        ok tt,
        record other { cob_id = pdo.cob_id; valid = pdo.valid; rtr_disabled = pdo.rtr_disabled },
      )
unfolding write_cob cob_value
write_cob-cob_value pdo other h =
    let sum =
      flags_sum (not pdo.valid) pdo.rtr_disabled (is_extended pdo.cob_id) (raw pdo.cob_id)
        (id_bound pdo.cob_id h) in
    let (range, ext, no_rtr, invalid, all, low) =
      flags_found (not pdo.valid) pdo.rtr_disabled (is_extended pdo.cob_id) (raw pdo.cob_id)
        (cob_value pdo) (id_bound pdo.cob_id h) sum in
    let id = same_cob pdo.cob_id (cob_value pdo) h ext all low in
    rw (from_le-to_le_u32 (cob_value pdo) range, id, no_rtr, invalid, not-not pdo.valid) refl
