-- ===== src/Pdo/Data.antt =====
-- The values in the data of a PDO: the objects that are mapped, one behind the other.
use zencan.Base.{
  ℕ, zero, suc, ◌+◌, ◌-◌, ◌≤◌, ◌≡◌, ◌∙◌, ap, sym, refl, false, List, [], ◌∷◌, ◌++◌, ok, arith, ltb,
  length, length-append, length-take, length-drop, length-copy_at, take, drop, copy_at, replicate,
}
use mathlib.Core.Path.{subst}
use native.Mathlib.Nat.{zero-add, suc-add}
use zencan.Sdo.Wire.{slice}
use zencan.Pdo.{Pdo, MappingEntry, active, read_params, read_pdo_data, store_params, store_pdo_data}

-- Two copies, one behind the other, are one.
copy_at_start-append :
    (a b buf : List ℕ)
    → length a + length b ≤ length buf
    → copy_at (length a) b (copy_at 0 a buf) ≡ copy_at 0 (a ++ b) buf
unfolding copy_at
copy_at_start-append [] b buf h = refl
copy_at_start-append (x ∷ a) b [] h = absurd (omega arith)
copy_at_start-append (x ∷ a) b (y ∷ buf) h = ap (◌∷◌ x) (copy_at_start-append a b buf (omega arith))

copy_at-append :
    (i : ℕ) (a b buf : List ℕ)
    → i + (length a + length b) ≤ length buf
    → copy_at (i + length a) b (copy_at i a buf) ≡ copy_at i (a ++ b) buf
unfolding copy_at
copy_at-append zero a b buf h = rw zero-add (copy_at_start-append a b buf (omega arith))
copy_at-append (suc i) a b [] h = absurd (omega arith)
copy_at-append (suc i) a b (y ∷ buf) h =
    rw suc-add (ap (◌∷◌ y) (copy_at-append i a b buf (omega arith)))

start-copy_at :
    (a b buf : List ℕ)
    → length a + length b ≤ length buf
    → take (length a) (copy_at 0 (a ++ b) buf) ≡ a
unfolding copy_at
start-copy_at [] b buf h = refl
start-copy_at (x ∷ a) b [] h = absurd (omega arith)
start-copy_at (x ∷ a) b (y ∷ buf) h = ap (◌∷◌ x) (start-copy_at a b buf (omega arith))

drop-copy_at :
    (i : ℕ) (a b buf : List ℕ)
    → i + (length a + length b) ≤ length buf
    → take (length a) (drop i (copy_at i (a ++ b) buf)) ≡ a
unfolding copy_at
drop-copy_at zero a b buf h = start-copy_at a b buf (omega arith)
drop-copy_at (suc i) a b [] h = absurd (omega arith)
drop-copy_at (suc i) a b (y ∷ buf) h = drop-copy_at i a b buf (omega arith)

slice-copy_at :
    (i n : ℕ) (a b buf : List ℕ)
    → length a ≡ n
    → i + (length a + length b) ≤ length buf
    → slice (copy_at i (a ++ b) buf) i (i + n) ≡ a
slice-copy_at i n a b buf e h =
    let width : i + n - i ≡ length a = omega arith in rw width (drop-copy_at i a b buf h)

copy_at_nil : (i : ℕ) (buf : List ℕ) → copy_at i [] buf ≡ buf
unfolding copy_at
copy_at_nil zero buf = refl
copy_at_nil (suc i) [] = refl
copy_at_nil (suc i) (b ∷ buf) = ap (◌∷◌ b) (copy_at_nil i buf)

slice_width : (i n : ℕ) (buf : List ℕ) → i + n ≤ length buf → length (slice buf i (i + n)) ≡ n
slice_width i n buf h = omega (arith, length-take (i + n - i) (drop i buf), length-drop i buf)

fits_part : (i n m : ℕ) → i + n ≤ m → ltb m (i + n) ≡ false
fits_part i n m h = ground arith

unfoldable pub concat : List (List ℕ) → List ℕ
concat [] = []
concat (v ∷ values) = v ++ concat values

module _ {S : Type 0} where
  -- Each mapped object has its value and reads it into a part of its length.
  abbrev pub Holds : List (MappingEntry S) → List (List ℕ) → S → Type 0
  Holds [] [] s = Unit {0}
  Holds (param ∷ params) (v ∷ values) s =
      (length v ≡ param.length)
      × ((buf : List ℕ)
          → length buf ≡ param.length
          → param.object.object.read param.sub 0 buf s ≡ (ok (length v), v, s))
      × Holds params values s
  Holds _ _ s = ⊥

  -- The lengths of the mapped objects are those of the values.
  abbrev pub Fits : List (MappingEntry S) → List (List ℕ) → Type 0
  Fits [] [] = Unit {0}
  Fits (param ∷ params) (v ∷ values) = (length v ≡ param.length) × Fits params values
  Fits _ _ = ⊥

  -- Each value is written to its object.
  unfoldable pub written : List (MappingEntry S) → List (List ℕ) → S → S
  written (param ∷ params) (v ∷ values) s =
      written params values (param.object.object.write param.sub v s).1
  written _ _ s = s

  read_params-concat :
      (params : List (MappingEntry S)) (values : List (List ℕ)) (offset : ℕ) (bytes : List ℕ)
      (s : S)
      → Holds params values s
      → offset + length (concat values) ≤ length bytes
      → read_params params offset bytes s ≡ (copy_at offset (concat values) bytes, s)
  unfolding read_params concat
  read_params-concat [] [] offset bytes s holds room =
      ap (λ bs. (bs, s)) (sym (copy_at_nil offset bytes))
  read_params-concat (param ∷ params) (v ∷ values) offset bytes s (len, reads, holds) room =
      let room' : offset + (length v + length (concat values)) ≤ length bytes =
        omega (arith, length-append v (concat values)) in
      let part =
        reads (slice bytes offset (offset + param.length))
          (slice_width offset param.length bytes (omega arith)) in
      let rest =
        read_params-concat params values (offset + param.length) (copy_at offset v bytes) s holds
          (omega (arith, length-copy_at offset v bytes)) in
      rw (fits_part offset param.length (length bytes) (omega arith), part, rest)
        (ap (λ bs. (bs, s))
          (ap (λ n. copy_at (offset + n) (concat values) (copy_at offset v bytes)) (sym len)
            ∙ copy_at-append offset v (concat values) bytes room'))
  read_params-concat [] (v ∷ values) offset bytes s holds room = absurd holds
  read_params-concat (param ∷ params) [] offset bytes s holds room = absurd holds

  store_params-concat :
      (params : List (MappingEntry S)) (values : List (List ℕ)) (offset : ℕ) (bytes : List ℕ)
      (s : S)
      → Fits params values
      → offset + length (concat values) ≤ length bytes
      → store_params params offset (copy_at offset (concat values) bytes) s
        ≡ written params values s
  unfolding store_params concat written
  store_params-concat [] [] offset bytes s fits room = refl
  store_params-concat (param ∷ params) (v ∷ values) offset bytes s (len, fits) room =
      let room' : offset + (length v + length (concat values)) ≤ length bytes =
        omega (arith, length-append v (concat values)) in
      let s1 = (param.object.object.write param.sub v s).1 in
      let part = slice-copy_at offset param.length v (concat values) bytes len room' in
      let rest =
        store_params-concat params values (offset + param.length) (copy_at offset v bytes) s1 fits
          (omega (arith, length-copy_at offset v bytes)) in
      let behind : copy_at (offset + param.length) (concat values) (copy_at offset v bytes)
          ≡ copy_at offset (v ++ concat values) bytes =
        ap (λ n. copy_at (offset + n) (concat values) (copy_at offset v bytes)) (sym len)
        ∙ copy_at-append offset v (concat values) bytes room' in
      rw
        (
          fits_part offset param.length (length (copy_at offset (v ++ concat values) bytes))
              (omega (arith, length-copy_at offset (v ++ concat values) bytes)),
          part,
        )
        (subst (λ bs. store_params params (offset + param.length) bs s1 ≡ written params values s1)
          behind rest)
  store_params-concat [] (v ∷ values) offset bytes s fits room = absurd fits
  store_params-concat (param ∷ params) [] offset bytes s fits room = absurd fits

  -- The data of a PDO whose mapped objects fit its eight bytes are their values, one behind the other,
  -- and zeros; the objects stay as they are.
  pub read_pdo_data-concat :
      (pdo : Pdo S) (values : List (List ℕ)) (s : S)
      → Holds (active pdo.valid_maps pdo.mapping_params) values s
      → length (concat values) ≤ 8
      → read_pdo_data pdo (replicate 8 0) s ≡ (copy_at 0 (concat values) (replicate 8 0), s)
  unfolding read_pdo_data
  read_pdo_data-concat pdo values s holds room =
      read_params-concat (active pdo.valid_maps pdo.mapping_params) values 0 (replicate 8 0) s holds
        (omega arith)

-- The values that a PDO of one node carries are those that a PDO with a mapping of the same lengths
-- stores in another node: each is written whole to the object that is mapped there.
pub store_pdo_data-read_pdo_data :
    {S T : Type 0} (tpdo : Pdo S) (rpdo : Pdo T) (values : List (List ℕ)) (s : S) (t : T)
    → Holds (active tpdo.valid_maps tpdo.mapping_params) values s
    → Fits (active rpdo.valid_maps rpdo.mapping_params) values
    → length (concat values) ≤ 8
    → store_pdo_data rpdo (read_pdo_data tpdo (replicate 8 0) s).0 t
      ≡ written (active rpdo.valid_maps rpdo.mapping_params) values t
unfolding store_pdo_data
store_pdo_data-read_pdo_data tpdo rpdo values s t holds fits room =
    rw (read_pdo_data-concat tpdo values s holds room) (
      store_params-concat (active rpdo.valid_maps rpdo.mapping_params) values 0 (replicate 8 0) t
        fits (omega arith))
