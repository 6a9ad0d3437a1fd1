-- ===== src/Fields.antt =====
-- zencan-node/src/object_dict/sub_objects.rs: the fields that store the values of sub objects, and the
-- objects that are made of them, from objects.rs beside it. This file has the interface
-- `SubObjectAccess`.
pub mod Bytes
pub mod NullTerm
pub mod Constant
pub mod Provided
pub mod Stored
pub mod Strings
use zencan.Base.{
  ℕ, zero, suc, ◌+◌, ◌-◌, min, Bool, true, false, List, [], ◌∷◌, Option, none, some, Result, ok,
  err, either, ltb, ◌==◌, if◌then◌else◌, length, take, copy_at, maybe,
}
use zencan.Sdo.Abort.{AbortCode}
use zencan.Sdo.Wire.{slice}

abbrev pub Reads : Type 0 → Type 0
Reads S = Result AbortCode ℕ × List ℕ × S

abbrev pub Writes : Type 0 → Type 0
Writes S = Result AbortCode (Unit {0}) × S

-- `dyn SubObjectAccess`, on a state as `ObjectAccess` is.
pub record SubObjectAccess (S : Type 0) : Type 0 where
  pub read : ℕ → List ℕ → S → Reads S
  pub write : List ℕ → S → Writes S
  pub begin_partial : S → Writes S
  pub write_partial : List ℕ → S → Writes S
  pub end_partial : S → Writes S

-- The bytes from `offset` on, as many as the buffer has room for.
unfoldable pub read_bytes : List ℕ → ℕ → List ℕ → ℕ × List ℕ
unfolding copy_at
read_bytes bytes offset buf =
    let read_len = min (length buf) (length bytes - offset) in
    if ltb offset (length bytes)
    then (read_len, copy_at 0 (slice bytes offset (offset + read_len)) buf)
    else (0, buf)

-- `?`: the next call is made where this one succeeded.
abbrev pub and_then : {S : Type 0} → Writes S → (S → Writes S) → Writes S
and_then (ok a, s) next = next s
and_then (err e, s) next = (err e, s)
