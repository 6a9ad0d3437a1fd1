-- ===== src/Fields/Provided.antt =====
-- `impl ObjectAccess for T: ProvidesSubObjects` in zencan-node/src/object_dict/objects.rs.
use zencan.Base.{ℕ, List, Option, Result, ok, err, if◌then◌else◌, maybe}
use zencan.Sdo.Abort.{AbortCode}
use zencan.Objects.{SubInfo, is_readable, is_writable}
use zencan.Dict.{ObjectAccess}
use zencan.Fields.{Reads, Writes, SubObjectAccess}

module _ {S : Type 0} (get_sub_object : ℕ → Option (SubInfo × SubObjectAccess S)) where
  abbrev missing : S → Writes S
  missing s = (err AbortCode.no_such_sub_index, s)

  unfoldable pub read : ℕ → ℕ → List ℕ → S → Reads S
  unfolding is_readable
  read sub offset buf s =
      maybe (get_sub_object sub) (err AbortCode.no_such_sub_index, buf, s)
        λ (info, access).
          if is_readable info.access_type
          then access.read offset buf s
          else (err AbortCode.write_only, buf, s)

  unfoldable pub write : ℕ → List ℕ → S → Writes S
  unfolding is_writable
  write sub bytes s = maybe (get_sub_object sub) (missing s) λ (info, access).
      if is_writable info.access_type then access.write bytes s else (err AbortCode.read_only, s)

  unfoldable pub begin_partial : ℕ → S → Writes S
  unfolding is_writable
  begin_partial sub s = maybe (get_sub_object sub) (missing s) λ (info, access).
      if is_writable info.access_type then access.begin_partial s else (err AbortCode.read_only, s)

  unfoldable pub write_partial : ℕ → List ℕ → S → Writes S
  write_partial sub buf s =
      maybe (get_sub_object sub) (missing s) λ (info, access). access.write_partial buf s

  unfoldable pub end_partial : ℕ → S → Writes S
  end_partial sub s = maybe (get_sub_object sub) (missing s) λ (info, access). access.end_partial s

  unfoldable pub sub_info : ℕ → S → Result AbortCode SubInfo
  sub_info sub s =
      maybe (get_sub_object sub) (err AbortCode.no_such_sub_index) λ (info, access). ok info

  unfoldable pub provided : ObjectAccess S
  unfolding read write begin_partial write_partial end_partial sub_info
  provided = record {
    read = read;
    write = write;
    begin_partial = begin_partial;
    write_partial = write_partial;
    end_partial = end_partial;
    sub_info = sub_info;
  }
