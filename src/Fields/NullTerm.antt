-- ===== src/Fields/NullTerm.antt =====
-- `NullTermByteField<N>`, a newtype of `ByteField<N>`: a zero ends a value that is shorter.
use zencan.Base.{
  ℕ, suc, List, [], ◌∷◌, ok, err, either, ltb, ◌==◌, if◌then◌else◌, length, take, maybe,
}
use zencan.Fields.{Reads, Writes, SubObjectAccess, and_then}
use zencan.Fields.Bytes
use zencan.Fields.Bytes.{ByteField}

-- `iter().position(|b| *b == 0).unwrap_or(len)`
unfoldable pub first_zero : List ℕ → ℕ
first_zero [] = 0
first_zero (b ∷ bytes) = let rest = first_zero bytes in if b == 0 then 0 else suc rest

unfoldable pub read : ℕ → List ℕ → ByteField → Reads ByteField
unfolding Bytes.read first_zero
read offset buf field =
    let (answer, buf', field') = Bytes.read offset buf field in
    either answer (λ e. (err e, buf', field'))
      λ size. (ok (first_zero (take size buf')), buf', field')

unfoldable pub read_size : ByteField → ℕ
unfolding first_zero
read_size field = first_zero field.value

unfoldable pub write : List ℕ → ByteField → Writes ByteField
unfolding Bytes.begin_partial Bytes.write_partial Bytes.end_partial
write bytes field = and_then (Bytes.begin_partial field) λ f1.
    and_then (Bytes.write_partial bytes f1) λ f2.
      and_then
        (if ltb (length bytes) (length f2.value)
          then Bytes.write_partial (0 ∷ []) f2
          else (ok tt, f2))
        Bytes.end_partial

unfoldable pub end_partial : ByteField → Writes ByteField
unfolding Bytes.write_partial Bytes.end_partial
end_partial field =
    and_then
      (if ltb (maybe field.write_offset 0 (λ offset. offset)) (length field.value)
        then Bytes.write_partial (0 ∷ []) field
        else (ok tt, field))
      Bytes.end_partial

unfoldable pub null_term_byte_field : SubObjectAccess ByteField
unfolding read write Bytes.begin_partial Bytes.write_partial end_partial
null_term_byte_field = record {
  read = read;
  write = write;
  begin_partial = Bytes.begin_partial;
  write_partial = Bytes.write_partial;
  end_partial = end_partial;
}
