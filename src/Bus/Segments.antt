-- ===== src/Bus/Segments.antt =====
-- The segments that a client cuts a payload into, seven bytes each but for the last.
use zencan.Base.{
  ℕ, zero, suc, ◌+◌, ◌-◌, ◌*◌, min, ◌≤◌, ◌≡◌, ap, ◌∙◌, List, [], ◌∷◌, ◌++◌, arith, All, length,
  take, drop, copy_at, replicate, length-copy_at, length-take, length-drop, take_all, copy_at_all,
  take-copy_at_zero, take-append_take-drop,
}
use zencan.Base.Bits.{IsByte, IsArray}
use zencan.Sdo.Wire.{slice, slice-IsArray}

abbrev pub part : List ℕ → ℕ → List ℕ
part bytes n = slice bytes (n * 7) (n * 7 + min (length bytes - n * 7) 7)

-- The bytes of a segment, with zeros behind them.
abbrev pub padded : List ℕ → List ℕ
padded bytes = copy_at 0 bytes (replicate 7 0)

pub copy_at-All :
    (i : ℕ) (xs buf : List ℕ) → All IsByte xs → All IsByte buf → All IsByte (copy_at i xs buf)
unfolding copy_at
copy_at-All zero [] buf h k = k
copy_at-All zero (x ∷ xs) [] h k = k
copy_at-All zero (x ∷ xs) (b ∷ buf) h k = (h.0, copy_at-All zero xs buf h.1 k.1)
copy_at-All (suc i) xs [] h k = k
copy_at-All (suc i) xs (b ∷ buf) h k = (k.0, copy_at-All i xs buf h k.1)

pub padded-IsArray : (bytes : List ℕ) → All IsByte bytes → IsArray 7 (padded bytes)
padded-IsArray bytes h =
    (length-copy_at 0 bytes (replicate 7 0), copy_at-All 0 bytes (replicate 7 0) h (grind arith))

pub take-padded :
    (bytes : List ℕ) → length bytes ≤ 7 → take (7 - (7 - length bytes)) (padded bytes) ≡ bytes
take-padded bytes h =
    ap (λ i. take i (padded bytes)) {y = length bytes} (omega arith)
    ∙ take-copy_at_zero bytes (replicate 7 0) h

module _ (bytes : List ℕ) (n : ℕ) where
  pub length-part : length (part bytes n) ≡ min (length bytes - n * 7) 7
  length-part = omega (
    arith,
    length-take (n * 7 + min (length bytes - n * 7) 7 - n * 7) (drop (n * 7) bytes),
    length-drop (n * 7) bytes,
  )

  pub part-All : n * 7 ≤ length bytes → All IsByte bytes → All IsByte (part bytes n)
  part-All h bs =
      (slice-IsArray bytes (n * 7) (n * 7 + min (length bytes - n * 7) 7) bs (omega arith)).1

  pub take-part :
      take (n * 7) bytes ++ part bytes n ≡ take (n * 7 + min (length bytes - n * 7) 7) bytes
  take-part =
      take-append_take-drop (n * 7) (n * 7 + min (length bytes - n * 7) 7 - n * 7) bytes
      ∙ ap (λ i. take i bytes) {y = n * 7 + min (length bytes - n * 7) 7} (omega arith)

  -- The last segment brings all that is left.
  pub last_part :
      length bytes ≤ n * 7 + 7 → n * 7 ≤ length bytes → take (n * 7) bytes ++ part bytes n ≡ bytes
  last_part h le = take-part ∙ take_all _ bytes (omega arith)

  pub middle_part :
      n * 7 + 7 ≤ length bytes → take (n * 7) bytes ++ part bytes n ≡ take ((n + 1) * 7) bytes
  middle_part h = take-part ∙ ap (λ i. take i bytes) {y = (n + 1) * 7} (omega arith)

  pub full_part : n * 7 + 7 ≤ length bytes → padded (part bytes n) ≡ part bytes n
  full_part h = copy_at_all (part bytes n) (replicate 7 0) (omega (arith, length-part))
