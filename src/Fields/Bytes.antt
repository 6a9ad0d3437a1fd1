-- ===== src/Fields/Bytes.antt =====
-- `ByteField`.
use zencan.Base.{
  ℕ, ◌+◌, List, Option, none, some, ok, err, ltb, if◌then◌else◌, length, copy_at, maybe,
}
use zencan.Sdo.Abort.{AbortCode}
use zencan.Fields.{Reads, Writes, SubObjectAccess, read_bytes}

-- `ByteField<N>`, whose value has `N` bytes.
pub record ByteField : Type 0 where
  pub value : List ℕ
  pub write_offset : Option ℕ

unfoldable pub new : List ℕ → ByteField
new value = record { value = value; write_offset = none }

unfoldable pub read : ℕ → List ℕ → ByteField → Reads ByteField
unfolding read_bytes
read offset buf field =
    let (read_len, buf') = read_bytes field.value offset buf in (ok read_len, buf', field)

unfoldable pub write : List ℕ → ByteField → Writes ByteField
unfolding copy_at
write bytes field =
    if ltb (length field.value) (length bytes)
    then (err AbortCode.data_type_mismatch_length_high, field)
    else (ok tt, record field { value = copy_at 0 bytes field.value })

unfoldable pub begin_partial : ByteField → Writes ByteField
begin_partial field = (ok tt, record field { write_offset = some 0 })

-- The offset moves on also where the bytes do not fit.
unfoldable pub write_partial : List ℕ → ByteField → Writes ByteField
unfolding copy_at
write_partial buf field =
    maybe field.write_offset (err AbortCode.general_error, field)
      λ offset.
        let field' = record field { write_offset = some (offset + length buf) } in
        if ltb (length field.value) (offset + length buf)
        then (err AbortCode.data_type_mismatch_length_high, field')
        else (ok tt, record field' { value = copy_at offset buf field.value })

unfoldable pub end_partial : ByteField → Writes ByteField
end_partial field = (ok tt, record field { write_offset = none })

unfoldable pub byte_field : SubObjectAccess ByteField
unfolding read write begin_partial write_partial end_partial
byte_field = record {
  read = read;
  write = write;
  begin_partial = begin_partial;
  write_partial = write_partial;
  end_partial = end_partial;
}
