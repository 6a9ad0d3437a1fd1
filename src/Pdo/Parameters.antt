-- ===== src/Pdo/Parameters.antt =====
-- A mapping parameter of a PDO is read as it was written.
use zencan.Base.{
  ℕ, zero, suc, ◌-◌, ◌*◌, ◌/◌, ◌%◌, ◌^◌, ◌<◌, ◌≤◌, ◌≡◌, ◌∙◌, ap, sym, refl, true, false, List, [],
  ◌∷◌, Option, some, ok, arith, bit_and, leb, ◌==◌, length, copy_at_all, Result-cases, inl, inr,
  take_all,
}
use zencan.Base.Bits.{
  to_le, from_le, shr, IsU32, IsArray, to_le-from_le, bit_and_ones, bit_and_shift,
}
use zencan.Dict.{OdEntry, find_object_entry}
use zencan.Sdo.Wire.{from_le-IsU32}
use zencan.Pdo.{Pdo, MappingEntry}
use zencan.Pdo.Mapping.{param, set_param, param_value, entry_of, read_mapping, write_mapping}

middle_byte : (v : ℕ) → shr (bit_and v 0xFF00) 8 % 256 ≡ v / 256 % 256
middle_byte v =
    let masked : bit_and v 0xFF00 ≡ v / 256 % 256 * 256 =
      bit_and_shift 8 255 v ∙ ap (λ x. x * 256) (bit_and_ones 8 (v / 256)) in
    omega (arith, masked)

module _ {S : Type 0} where
  find_object_entry-index :
      (table : List (OdEntry S)) (index : ℕ) (entry : OdEntry S)
      → find_object_entry table index ≡ some entry
      → entry.index ≡ index
  unfolding find_object_entry
  find_object_entry-index [] index entry found = cc
  find_object_entry-index (e ∷ table) index entry found =
      ground (arith, find_object_entry-index table index entry)

  param-set_param :
      (i : ℕ) (entry : MappingEntry S) (params : List (Option (MappingEntry S)))
      → i < length params
      → param (set_param i entry params) i ≡ some entry
  unfolding set_param
  param-set_param i entry [] h = absurd (omega arith)
  param-set_param zero entry (p ∷ params) h = refl
  param-set_param (suc i) entry (p ∷ params) h = param-set_param i entry params (omega arith)

  length-set_param :
      (i : ℕ) (entry : MappingEntry S) (params : List (Option (MappingEntry S)))
      → length (set_param i entry params) ≡ length params
  unfolding set_param
  length-set_param i entry [] = refl
  length-set_param zero entry (p ∷ params) = refl
  length-set_param (suc i) entry (p ∷ params) = ap suc (length-set_param i entry params)

  -- The entry that a value stands for is read as this value.
  entry_of-param_value :
      (table : List (OdEntry S)) (v : ℕ) (od : S) (entry : MappingEntry S)
      → IsU32 v
      → entry_of table v od ≡ ok entry
      → param_value (some entry) ≡ v
  unfolding entry_of param_value
  entry_of-param_value table v od entry range e = ground (
    arith,
    middle_byte v,
    bit_and_ones 8 v,
    find_object_entry-index table (shr v 16 % 2 ^ 16) entry.object,
  )

  read_stored :
      (sub : ℕ) (bytes buf : List ℕ) (pdo : Pdo S)
      → 0 < sub
      → sub ≤ length pdo.mapping_params
      → length bytes ≡ 4
      → length buf ≡ 4
      → to_le 4 (param_value (param pdo.mapping_params (sub - 1))) ≡ bytes
      → read_mapping sub 0 buf pdo ≡ some (ok 4, bytes)
  unfolding read_mapping
  read_stored sub bytes buf pdo pos le four room stored =
      let not_zero : (sub == 0) ≡ false = ground arith in
      let within : leb sub (length pdo.mapping_params) ≡ true = ground arith in
      rw
        (
          not_zero,
          within,
          stored,
          room,
          take_all 4 bytes (omega arith),
          copy_at_all bytes buf (omega arith),
        )
        refl

  write_inversion :
      (table : List (OdEntry S)) (sub : ℕ) (bytes : List ℕ) (od : S) (pdo pdo' : Pdo S)
      → 0 < sub
      → write_mapping table sub bytes od pdo ≡ some (ok tt, pdo')
      → (entry : MappingEntry S) × (entry_of table (from_le bytes) od ≡ ok entry)
        × (pdo' ≡ record pdo { mapping_params = set_param (sub - 1) entry pdo.mapping_params })
  unfolding write_mapping
  write_inversion table sub bytes od pdo pdo' pos written =
      elim (Result-cases (entry_of table (from_le bytes) od)) [
        | inl (entry, accepted) ↦ (entry, accepted, ground arith)
        | inr (e, refused) ↦ absurd (ground arith)
      ]

  -- A mapping parameter that a write of four bytes accepts is read as these bytes.
  pub read_mapping-write_mapping :
      (table : List (OdEntry S)) (sub : ℕ) (bytes buf : List ℕ) (od : S) (pdo pdo' : Pdo S)
      → 0 < sub
      → sub ≤ length pdo.mapping_params
      → IsArray 4 bytes
      → length buf ≡ 4
      → write_mapping table sub bytes od pdo ≡ some (ok tt, pdo')
      → read_mapping sub 0 buf pdo' ≡ some (ok 4, bytes)
  read_mapping-write_mapping table sub bytes buf od pdo pdo' pos le array room written =
      let (entry, accepted, after) = write_inversion table sub bytes od pdo pdo' pos written in
      let value =
        entry_of-param_value table (from_le bytes) od entry (from_le-IsU32 bytes array) accepted in
      let set = param-set_param (sub - 1) entry pdo.mapping_params (omega arith) in
      let whole : to_le 4 (from_le bytes) ≡ bytes =
        ap (λ n. to_le n (from_le bytes)) (sym array.0) ∙ to_le-from_le bytes array.1 in
      rw after (
        read_stored sub bytes buf
          (record pdo { mapping_params = set_param (sub - 1) entry pdo.mapping_params }) pos
          (omega (arith, length-set_param (sub - 1) entry pdo.mapping_params)) array.0 room
          (rw (set, value) whole))
