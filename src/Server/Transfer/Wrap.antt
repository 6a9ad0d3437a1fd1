-- ===== src/Server/Transfer/Wrap.antt =====
-- Lists of bytes that meet in the buffer.
use zencan.Base.{
  ℕ, ◌-◌, ◌≤◌, ◌<◌, ◌≡◌, sym, ap, ◌∙◌, List, ◌++◌, arith, length, take, drop, copy_at,
  take-copy_at_zero, copy_at_end, append_assoc, take-append_take-drop, length-take, length-drop,
}
use zencan.Sdo.Wire.{slice}

-- The bytes of a segment that runs over the end of the buffer: the part that fills it, and the rest.
-- The bytes of a segment join those before them.
pub joined :
    (written recv value buf : List ℕ) (off : ℕ)
    → written ++ take off buf ≡ recv
    → written ++ (take off buf ++ value) ≡ recv ++ value
joined written recv value buf off held =
    sym (append_assoc written (take off buf) value) ∙ ap (λ xs. xs ++ value) held

module _ (value buf : List ℕ) (off : ℕ) (seven : length value ≡ 7) (below : off < length buf) where
  abbrev pub room_of : ℕ
  room_of = length buf - off

  abbrev pub filled_of : List ℕ
  filled_of = copy_at off (take room_of value) buf

  pub filled_bytes : room_of ≤ 7 → filled_of ≡ take off buf ++ take room_of value
  filled_bytes h =
      copy_at_end off (take room_of value) buf (omega (arith, length-take room_of value))

  pub filled_held :
      (written recv : List ℕ) (size : ℕ)
      → room_of ≤ size
      → size ≤ 7
      → written ++ take off buf ≡ recv
      → (written ++ filled_of) ++ slice value room_of size ≡ recv ++ take size value
  filled_held written recv size h le held =
      ap (λ xs. (written ++ xs) ++ slice value room_of size) (filled_bytes (omega arith))
      ∙ ap (λ xs. xs ++ slice value room_of size)
          (sym (append_assoc written (take off buf) (take room_of value)))
      ∙ append_assoc (written ++ take off buf) (take room_of value) (slice value room_of size)
      ∙ ap (λ xs. xs ++ (take room_of value ++ slice value room_of size)) held
      ∙ ap (λ xs. recv ++ xs)
          (take-append_take-drop room_of (size - room_of) value
            ∙ ap (λ i. take i value) {y = size} (omega arith))

  pub length-slice :
      (size : ℕ) → room_of ≤ size → size ≤ 7 → length (slice value room_of size) ≡ size - room_of
  length-slice size h le =
      omega (arith, length-take (size - room_of) (drop room_of value), length-drop room_of value)

  -- The copies of the rest leave it at the start.
  pub rest_at_start :
      (size : ℕ) (other : List ℕ)
      → room_of ≤ size
      → size ≤ 7
      → 7 ≤ length other
      → take (size - room_of) (copy_at 0 (slice value room_of size) other)
        ≡ slice value room_of size
  rest_at_start size other h le long =
      ap (λ i. take i (copy_at 0 (slice value room_of size) other)) (sym (length-slice size h le))
      ∙ take-copy_at_zero (slice value room_of size) other (omega (arith, length-slice size h le))
