-- ===== src/Fields/Strings.antt =====
-- A `NullTermByteField` gives back the value that was written.
use zencan.Base.{
  ℕ, zero, suc, ◌≤◌, ◌≡◌, ◌≢◌, refl, sym, ap, ◌∙◌, List, [], ◌∷◌, ◌++◌, none, ok, arith, length,
  take, copy_at, length-copy_at, All, take-copy_at_zero, take_all,
}
use native.Mathlib.Decide.{dec_lt}
use zencan.Fields.{read_bytes}
use zencan.Fields.Bytes.{ByteField}
use zencan.Fields.NullTerm
use zencan.Fields.NullTerm.{first_zero}
use zencan.Fields.Stored.{copy_at-append}

abbrev pub NotZero : ℕ → Type 0
NotZero b = b ≢ 0

-- The first zero of what a write leaves behind. A zero that finds no room is dropped.
first_zero-written :
    (bytes v : List ℕ)
    → All NotZero bytes
    → length bytes ≤ length v
    → first_zero (copy_at 0 (bytes ++ 0 ∷ []) v) ≡ length bytes
unfolding first_zero copy_at
first_zero-written [] [] h fit = refl
first_zero-written [] (b ∷ v) h fit = refl
first_zero-written (x ∷ bytes) [] h fit = absurd (omega arith)
first_zero-written (x ∷ bytes) (b ∷ v) h fit =
    let rest = first_zero-written bytes v h.1 (omega arith) in let not_zero = h.0 in ground arith

take-written :
    (bytes v : List ℕ)
    → length bytes ≤ length v
    → take (length bytes) (copy_at 0 (bytes ++ 0 ∷ []) v) ≡ bytes
unfolding copy_at
take-written [] v fit = refl
take-written (x ∷ bytes) [] fit = absurd (omega arith)
take-written (x ∷ bytes) (b ∷ v) fit = ap (◌∷◌ x) (take-written bytes v (omega arith))

copy_at-beyond : (xs v : List ℕ) → copy_at (length v) xs v ≡ v
unfolding copy_at
copy_at-beyond [] [] = refl
copy_at-beyond (x ∷ xs) [] = refl
copy_at-beyond xs (b ∷ v) = ap (◌∷◌ b) (copy_at-beyond xs v)

abbrev written : List ℕ → ByteField → ByteField
written bytes field = record {
  value = copy_at 0 (bytes ++ 0 ∷ []) field.value;
  write_offset = none;
}

write_lem :
    (bytes : List ℕ) (field : ByteField)
    → length bytes ≤ length field.value
    → NullTerm.write bytes field ≡ (ok tt, written bytes field)
unfolding NullTerm.write
write_lem bytes field fit =
    let both = copy_at-append bytes (0 ∷ []) field.value in
    let size = length-copy_at 0 bytes field.value in
    elim (dec_lt (length bytes) (length field.value)) [
      | yes shorter ↦ ground arith
      | no full ↦
          let beyond : copy_at (length bytes) (0 ∷ []) (copy_at 0 bytes field.value)
              ≡ copy_at 0 bytes field.value =
            ap (λ i. copy_at i (0 ∷ []) (copy_at 0 bytes field.value))
              {y = length (copy_at 0 bytes field.value)} (omega arith)
            ∙ copy_at-beyond (0 ∷ []) (copy_at 0 bytes field.value) in
          ground arith
    ]

take-take : (k n : ℕ) (xs : List ℕ) → k ≤ n → take k (take n xs) ≡ take k xs
take-take zero n xs h = refl
take-take (suc k) zero xs h = absurd (omega arith)
take-take (suc k) (suc n) [] h = refl
take-take (suc k) (suc n) (x ∷ xs) h = ap (◌∷◌ x) (take-take k n xs (omega arith))

-- A read from the start into a buffer with room for the whole value.
read_bytes_all :
    (v buf : List ℕ) → length v ≤ length buf → read_bytes v 0 buf ≡ (length v, copy_at 0 v buf)
unfolding read_bytes copy_at
read_bytes_all [] buf room = refl
read_bytes_all (b ∷ v) buf room =
    let all = take_all (length (b ∷ v)) (b ∷ v) (omega arith) in ground arith

read_lem :
    (v bytes buf : List ℕ) (field : ByteField)
    → v ≡ field.value
    → length bytes ≤ length v
    → length v ≤ length buf
    → first_zero v ≡ length bytes
    → take (length bytes) v ≡ bytes
    → (buf' : List ℕ) × (NullTerm.read 0 buf field ≡ (ok (length bytes), buf', field))
      × (take (length bytes) buf' ≡ bytes)
unfolding NullTerm.read
read_lem v bytes buf field same fit room zero_at start =
    let kept = take-copy_at_zero v buf room in
    (
      copy_at 0 v buf,
      rw (← same, read_bytes_all v buf room, kept, zero_at) refl,
      sym (take-take (length bytes) (length v) (copy_at 0 v buf) fit)
          ∙ ap (λ xs. take (length bytes) xs) kept
          ∙ start,
    )

-- A value without zeros, no longer than the field, that is written to a `NullTermByteField`, is what
-- a read from the start gives, with its length, for any buffer that has room for the whole field.
pub read-write :
    (bytes buf : List ℕ) (field : ByteField)
    → All NotZero bytes
    → length bytes ≤ length field.value
    → length field.value ≤ length buf
    → (buf' : List ℕ) × (field' : ByteField) × (NullTerm.write bytes field ≡ (ok tt, field'))
      × (NullTerm.read 0 buf field' ≡ (ok (length bytes), buf', field'))
      × (take (length bytes) buf' ≡ bytes)
read-write bytes buf field h fit room =
    let v = copy_at 0 (bytes ++ 0 ∷ []) field.value in
    let (buf', found, same) =
      read_lem v bytes buf (written bytes field) refl
        (omega (arith, length-copy_at 0 (bytes ++ 0 ∷ []) field.value))
        (omega (arith, length-copy_at 0 (bytes ++ 0 ∷ []) field.value))
        (first_zero-written bytes field.value h fit) (take-written bytes field.value fit) in
    (buf', written bytes field, write_lem bytes field fit, found, same)
