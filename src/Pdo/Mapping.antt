-- ===== src/Pdo/Mapping.antt =====
-- `PdoMappingObject` of zencan-node/src/pdo.rs: the mapping parameters of a PDO as an object.
use zencan.Base.{
  ℕ, zero, suc, ◌+◌, ◌-◌, ◌*◌, ◌/◌, ◌%◌, ◌^◌, true, ◌&&◌, List, [], ◌∷◌, Option, none, some, Result,
  ok, err, either, maybe, bit_and, min, leb, ltb, ◌==◌, if◌then◌else◌, length, copy_at,
}
use zencan.Base.Bits.{to_le, from_le, shr}
use zencan.Objects.{SubInfo, AccessType, DataType, PdoMapping}
use zencan.Dict.{OdEntry, find_object_entry}
use zencan.Sdo.Abort.{AbortCode}
use zencan.Sdo.Wire.{slice}
use zencan.Pdo.{Pdo, MappingEntry, n_mapping_params}
use zencan.Pdo.Comm.{PdoReads, PdoWrites, first_byte}

-- `PdoMappingObject::read_size`.
unfoldable pub mapping_size : ℕ → Result AbortCode ℕ
mapping_size sub =
    if sub == 0
    then ok 1
    else if leb sub n_mapping_params
    then ok 4
    else err AbortCode.no_such_sub_index

module _ {S : Type 0} where
  abbrev pub param : List (Option (MappingEntry S)) → ℕ → Option (MappingEntry S)
  param [] i = none
  param (p ∷ params) zero = p
  param (p ∷ params) (suc i) = param params i

  unfoldable pub set_param :
      ℕ → MappingEntry S → List (Option (MappingEntry S)) → List (Option (MappingEntry S))
  set_param i entry [] = []
  set_param zero entry (p ∷ params) = some entry ∷ params
  set_param (suc i) entry (p ∷ params) = p ∷ set_param i entry params

  -- The number that a parameter is read as: index, sub index and length in bits.
  unfoldable pub param_value : Option (MappingEntry S) → ℕ
  param_value none = 0
  param_value (some entry) =
      (entry.object.index * 2 ^ 16 + entry.sub * 2 ^ 8 + entry.length * 8) % 2 ^ 32

  -- `PdoMappingObject::read`: an offset behind the four bytes of a parameter panics.
  unfoldable pub read_mapping : ℕ → ℕ → List ℕ → Pdo S → PdoReads
  unfolding param_value first_byte copy_at
  read_mapping sub offset buf pdo =
      if sub == 0
      then if ltb offset 1 && ltb 0 (length buf)
        then first_byte pdo.valid_maps buf
        else some (ok 0, buf)
      else if leb sub (length pdo.mapping_params)
      then if leb offset 4
        then some (
          ok (min (length buf) (4 - offset)),
          copy_at 0
              (slice (to_le 4 (param_value (param pdo.mapping_params (sub - 1)))) offset
                (offset + min (length buf) (4 - offset)))
              buf,
        )
        else none
      else some (err AbortCode.no_such_sub_index, buf)

  -- `PdoMappingObject::sub_info`.
  unfoldable pub mapping_info : ℕ → Pdo S → Result AbortCode SubInfo
  mapping_info sub pdo =
      if sub == 0
      then ok (record {
        size = 1;
        data_type = DataType.u_int8;
        access_type = AccessType.rw_access;
        pdo_mapping = PdoMapping.unmapped;
        persist = true;
      })
      else if leb sub (length pdo.mapping_params)
      then ok (record {
        size = 4;
        data_type = DataType.u_int32;
        access_type = AccessType.rw_access;
        pdo_mapping = PdoMapping.unmapped;
        persist = true;
      })
      else err AbortCode.no_such_sub_index

  unfoldable pub write_valid : List ℕ → Pdo S → PdoWrites S
  write_valid [] pdo = none
  write_valid (b ∷ bytes) pdo = some (ok tt, record pdo { valid_maps = b })

  module _ (table : List (OdEntry S)) where
    -- What a value of a parameter maps, checked against the object dictionary.
    unfoldable pub entry_of : ℕ → S → Result AbortCode (MappingEntry S)
    unfolding find_object_entry
    entry_of value od =
        let object_id = shr value 16 % 2 ^ 16 in
        let mapping_sub = shr (bit_and value 0xFF00) 8 % 256 in
        let bits = bit_and value 0xFF in
        if bits % 8 == 0
        then maybe (find_object_entry table object_id) (err AbortCode.no_such_object) (λ entry.
          either (entry.object.sub_info mapping_sub od) (λ e. err e)
            (λ sub_info.
              if ltb sub_info.size (bits / 8)
              then err AbortCode.incompatible_parameter
              else ok (record { object = entry; sub = mapping_sub; length = bits / 8 % 256 })))
        else err AbortCode.incompatible_parameter

    -- `PdoMappingObject::write`: `data[0]` panics where there is no data.
    unfoldable pub write_mapping : ℕ → List ℕ → S → Pdo S → PdoWrites S
    unfolding entry_of set_param write_valid
    write_mapping sub bytes od pdo =
        if sub == 0
        then write_valid bytes pdo
        else if leb sub (length pdo.mapping_params)
        then if length bytes == 4
          then some (
              either (entry_of (from_le bytes) od) (λ e. (err e, pdo))
                (λ entry. (
                  ok tt,
                  record pdo { mapping_params = set_param (sub - 1) entry pdo.mapping_params },
                )))
          else some (err AbortCode.data_type_mismatch, pdo)
        else some (err AbortCode.no_such_sub_index, pdo)
