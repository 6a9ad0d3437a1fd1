-- ===== src/Fields/Constant.antt =====
-- `ConstField<N>`, whose value is no state.
use zencan.Base.{ℕ, List, ok, err}
use zencan.Sdo.Abort.{AbortCode}
use zencan.Fields.{Writes, SubObjectAccess, read_bytes}

-- The methods for a partial write that the trait provides.
abbrev pub unsupported : {S : Type 0} → S → Writes S
unsupported s = (err AbortCode.unsupported_access, s)

-- `ConstField<N>`, whose value is no state.
unfoldable pub const_field : {S : Type 0} → List ℕ → SubObjectAccess S
unfolding read_bytes
const_field bytes = record {
  read = λ offset buf s. (ok (read_bytes bytes offset buf).0, (read_bytes bytes offset buf).1, s);
  write = λ xs s. (err AbortCode.read_only, s);
  begin_partial = λ s. unsupported s;
  write_partial = λ xs s. unsupported s;
  end_partial = λ s. unsupported s;
}
