-- ===== src/Pdo/Comm.antt =====
-- `PdoCommObject` of zencan-node/src/pdo.rs: the communication parameters of a PDO as an object.
use zencan.Base.{
  ℕ, ◌^◌, Bool, true, not, List, [], ◌∷◌, Option, none, some, Result, ok, err, bit_and, bit_or, ltb,
  ◌==◌, if◌then◌else◌, length,
}
use zencan.Base.Bits.{to_le, from_le, has_bit}
use zencan.Can.{CanId, raw, is_extended}
use zencan.Objects.{SubInfo, AccessType, max_sub_number, new_u32, new_u8}
use zencan.Sdo.Abort.{AbortCode}
use zencan.Fields.{read_bytes}
use zencan.Pdo.{Pdo}

-- A read and a write that may panic: `none`.
abbrev pub PdoReads : Type 0
PdoReads = Option (Result AbortCode ℕ × List ℕ)

abbrev pub PdoWrites : Type 0 → Type 0
PdoWrites S = Option (Result AbortCode (Unit {0}) × Pdo S)

-- `buf[0] = value; Ok(1)`.
unfoldable pub first_byte : ℕ → List ℕ → PdoReads
first_byte value [] = none
first_byte value (b ∷ buf) = some (ok 1, value ∷ buf)

abbrev pub or_flag : Bool → ℕ → ℕ → ℕ
or_flag flag bit value = if flag then bit_or value bit else value

-- `PdoCommObject::get_sub_object`, as to the meta data.
unfoldable pub comm_info : ℕ → Option SubInfo
comm_info sub =
    if sub == 0
    then some max_sub_number
    else if sub == 1
    then some (record new_u32 { access_type = AccessType.rw_access; persist = true })
    else if sub == 2
    then some (record new_u8 { access_type = AccessType.rw_access; persist = true })
    else none

module _ {S : Type 0} where
  -- The number that the COB-ID is read as, with its three flags.
  unfoldable pub cob_value : Pdo S → ℕ
  unfolding raw is_extended
  cob_value pdo = or_flag (not pdo.valid) (2 ^ 31) (
      or_flag pdo.rtr_disabled (2 ^ 30)
        (or_flag (is_extended pdo.cob_id) (2 ^ 29) (raw pdo.cob_id)))

  -- `PdoCobSubObject::read`.
  unfoldable pub read_cob : Pdo S → ℕ → List ℕ → PdoReads
  unfolding cob_value read_bytes
  read_cob pdo offset buf = some (
    ok (read_bytes (to_le 4 (cob_value pdo)) offset buf).0,
    (read_bytes (to_le 4 (cob_value pdo)) offset buf).1,
  )

  abbrev pub stored_cob : ℕ → Pdo S → Pdo S
  stored_cob value pdo = record pdo {
    cob_id =
        if has_bit value (2 ^ 29)
        then CanId.extended (bit_and value 0x1FFFFFFF)
        else CanId.std (bit_and value 0x7FF);
    valid = not (has_bit value (2 ^ 31));
    rtr_disabled = has_bit value (2 ^ 30);
  }

  -- `PdoCobSubObject::write`.
  unfoldable pub write_cob : List ℕ → Pdo S → PdoWrites S
  write_cob bytes pdo =
      if ltb (length bytes) 4
      then some (err AbortCode.data_type_mismatch_length_low, pdo)
      else if ltb 4 (length bytes)
      then some (err AbortCode.data_type_mismatch_length_high, pdo)
      else some (ok tt, stored_cob (from_le bytes) pdo)

  -- `PdoTransmissionTypeSubObject::read`: `buf[0]` panics on an empty buffer.
  unfoldable pub read_transmission_type : Pdo S → ℕ → List ℕ → PdoReads
  unfolding first_byte
  read_transmission_type pdo offset buf =
      if ltb 1 offset then some (ok 0, buf) else first_byte pdo.transmission_type buf

  -- `PdoTransmissionTypeSubObject::write`.
  unfoldable pub write_transmission_type : List ℕ → Pdo S → PdoWrites S
  write_transmission_type [] pdo = some (err AbortCode.data_type_mismatch_length_low, pdo)
  write_transmission_type (b ∷ bytes) pdo = some (ok tt, record pdo { transmission_type = b })

  -- `PdoCommObject` as an `ObjectAccess`: the sub object of `get_sub_object` is read.
  unfoldable pub read_comm : ℕ → ℕ → List ℕ → Pdo S → PdoReads
  unfolding read_cob read_transmission_type read_bytes
  read_comm sub offset buf pdo =
      if sub == 0
      then some (ok (read_bytes (to_le 1 2) offset buf).0, (read_bytes (to_le 1 2) offset buf).1)
      else if sub == 1
      then read_cob pdo offset buf
      else if sub == 2
      then read_transmission_type pdo offset buf
      else some (err AbortCode.no_such_sub_index, buf)

  unfoldable pub write_comm : ℕ → List ℕ → Pdo S → PdoWrites S
  unfolding write_cob write_transmission_type
  write_comm sub bytes pdo =
      if sub == 0
      then some (err AbortCode.read_only, pdo)
      else if sub == 1
      then write_cob bytes pdo
      else if sub == 2
      then write_transmission_type bytes pdo
      else some (err AbortCode.no_such_sub_index, pdo)
