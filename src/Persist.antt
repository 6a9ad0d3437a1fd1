-- ===== src/Persist.antt =====
-- zencan-node/src/persist.rs: the values of objects as bytes for persistent storage, and back.
pub mod Reader
pub mod Kept
pub mod Saved
pub mod RoundTrip
use zencan.Base.{
  ℕ, zero, suc, ◌+◌, ◌-◌, ◌%◌, ◌^◌, Bool, true, false, List, [], ◌∷◌, ◌++◌, Option, none, some,
  Result, ok, err, either, maybe, leb, ltb, ◌==◌, if◌then◌else◌, length, replicate, take, drop,
}
use zencan.Base.Bits.{to_le, from_le}
use zencan.Objects.{ObjectCode, SubInfo}
use zencan.Dict.{ObjectAccess, OdEntry, find_object}
use zencan.Sdo.Abort.{AbortCode}
use zencan.Sdo.Wire.{byte}

-- The methods of `dyn ObjectAccess` that only storage uses, of the object at an index.
pub record ObjectShape (S : Type 0) : Type 0 where
  pub read_size : ℕ → ℕ → S → Result AbortCode ℕ
  pub object_code : ℕ → ObjectCode

pub data NodeType : Type 0 where
  object_value unknown : NodeType

-- `NodeType::from_byte`.
unfoldable pub node_type_of : ℕ → NodeType
node_type_of b = if b == 1 then object_value else unknown

abbrev pub chunk_size : ℕ
chunk_size = 32

-- `obj.read(sub, 0, &mut buf).unwrap()` with a buffer of zeros.
unfoldable pub unwrap_read : {S : Type 0} → OdEntry S → ℕ → ℕ → S → Option (List ℕ × S)
unwrap_read obj sub count s =
    let (answer, buf, s1) = obj.object.read sub 0 (replicate count 0) s in
    either answer (λ e. none) (λ read_len. some (buf, s1))

-- The objects of which sub object 0 is the count of the others.
unfoldable pub counts_subs : ObjectCode → Bool
counts_subs ObjectCode.array = true
counts_subs ObjectCode.record_object = true
counts_subs _ = false

module _ {S : Type 0} (shape : ObjectShape S) where
  -- The bytes that `serialize_object` hands out one by one; `none` is a panic. The first round of its
  -- loop copies all of the data, so there is no second one.
  unfoldable pub serialize_object : OdEntry S → ℕ → S → Option (List ℕ × S)
  unfolding unwrap_read
  serialize_object obj sub s =
      either (shape.read_size obj.index sub s) (λ e. none)
        λ size.
          let data_size = size % 2 ^ 16 in
          let head =
            to_le 2 ((data_size + 4) % 2 ^ 16) ++ (1 ∷ (to_le 2 obj.index ++ (sub ∷ []))) in
          maybe (unwrap_read obj sub chunk_size s) none λ (buf, s1).
            if leb data_size chunk_size then some (head ++ take data_size buf, s1) else none

  -- `ObjectAccess::max_sub_number`.
  unfoldable pub max_sub_number : OdEntry S → S → Option (ℕ × S)
  unfolding unwrap_read counts_subs
  max_sub_number obj s =
      if counts_subs (shape.object_code obj.index)
      then maybe (unwrap_read obj 0 1 s) none (λ (buf, s1). some (byte buf 0, s1))
      else some (0, s)

  -- `for sub in …`, with `left` sub objects to go; those that are not there, or are not persisted, are
  -- skipped.
  unfoldable pub serialize_subs : ℕ → ℕ → OdEntry S → S → Option (List ℕ × S)
  unfolding serialize_object
  serialize_subs zero sub obj s = some ([], s)
  serialize_subs (suc left) sub obj s =
      let skip = serialize_subs left (sub + 1) obj s in
      either (obj.object.sub_info sub s) (λ e. skip)
        λ info.
          if info.persist
          then maybe (serialize_object obj sub s) none (λ (bytes, s1).
            let rest = serialize_subs left (sub + 1) obj s1 in
            maybe rest none (λ (more, s2). some (bytes ++ more, s2)))
          else skip

  -- The count of sub objects, `max_sub + 1`, is a `u8`.
  unfoldable pub serialize_sm : List (OdEntry S) → S → Option (List ℕ × S)
  unfolding max_sub_number serialize_subs
  serialize_sm [] s = some ([], s)
  serialize_sm (obj ∷ objects) s = maybe (max_sub_number obj s) none λ (max_sub, s1).
      maybe (serialize_subs ((max_sub + 1) % 256) 0 obj s1) none λ (bytes, s2).
        let rest = serialize_sm objects s2 in
        maybe rest none (λ (more, s3). some (bytes ++ more, s3))

  unfoldable pub size_subs : ℕ → ℕ → OdEntry S → S → Option ℕ
  size_subs zero sub obj s = some 0
  size_subs (suc left) sub obj s =
      let rest = size_subs left (sub + 1) obj s in
      either (obj.object.sub_info sub s) (λ e. rest)
        λ info.
          if info.persist
          then either (shape.read_size obj.index sub s) (λ e. none)
              (λ size. maybe rest none (λ more. some (size + 6 + more)))
          else rest

  unfoldable pub serialized_size : List (OdEntry S) → S → Option ℕ
  unfolding max_sub_number size_subs
  serialized_size [] s = some 0
  serialized_size (obj ∷ objects) s = maybe (max_sub_number obj s) none λ (max_sub, s1).
      maybe (size_subs ((max_sub + 1) % 256) 0 obj s1) none λ size.
        let rest = serialized_size objects s1 in maybe rest none (λ more. some (size + more))

pub record ObjectValue : Type 0 where
  pub index : ℕ
  pub sub : ℕ
  pub data_bytes : List ℕ

pub data PersistNodeRef : Type 0 where
  object_value : ObjectValue → PersistNodeRef
  unknown : List ℕ → PersistNodeRef

pub data PersistReadError : Type 0 where
  node_length_short : PersistReadError

unfoldable pub from_slice : List ℕ → Result PersistReadError PersistNodeRef
unfolding node_type_of
from_slice [] = err node_length_short
from_slice (head ∷ bytes) = elim (node_type_of head) [
  | NodeType.object_value ↦
      if ltb (length bytes) 4
      then err node_length_short
      else ok (
          PersistNodeRef.object_value (record {
            index = from_le (take 2 bytes);
            sub = byte bytes 2;
            data_bytes = drop 3 bytes;
          }))
  | NodeType.unknown ↦ ok (PersistNodeRef.unknown (head ∷ bytes))
]

-- What `PersistNodeReader::next` does: the end, a slice out of range, or a node and the bytes after it.
pub data Next : Type 0 where
  ended panicked : Next
  item : PersistNodeRef → List ℕ → Next

-- `PersistNodeReader::next`; the state of the reader is the bytes of `buf` from `pos` on.
unfoldable pub next : List ℕ → Next
unfolding from_slice
next buf =
    if ltb (length buf) 2
    then ended
    else let count = from_le (take 2 buf) in
      let rest = drop 2 buf in
      if ltb (length rest) count
      then panicked
      else either (from_slice (take count rest)) (λ e. ended) (λ node. item node (drop count rest))

pub data Restored (S : Type 0) : Type 0 where
  finished : S → Restored S
  panicked out_of_fuel : Restored S

-- The body of the loop of `restore_stored_objects`: what is not in the dictionary, and a write that is
-- refused, are only logged.
unfoldable pub restore_node : {S : Type 0} → List (OdEntry S) → PersistNodeRef → S → S
unfolding find_object
restore_node od (PersistNodeRef.object_value v) s =
    maybe (find_object od v.index) s
      λ obj. either (obj.sub_info v.sub s) (λ e. s) (λ info. (obj.write v.sub v.data_bytes s).1)
restore_node od (PersistNodeRef.unknown bytes) s = s

unfoldable pub restore_loop : {S : Type 0} → ℕ → List (OdEntry S) → List ℕ → S → Restored S
unfolding next restore_node
restore_loop zero od buf s = Restored.out_of_fuel
restore_loop (suc fuel) od buf s = elim (next buf) [
  | Next.ended ↦ Restored.finished s
  | Next.panicked ↦ Restored.panicked
  | Next.item node rest ↦ restore_loop fuel od rest (restore_node od node s)
]

-- Each round takes two bytes at least, so one round more than there are bytes is enough.
unfoldable pub restore_stored_objects : {S : Type 0} → List (OdEntry S) → List ℕ → S → Restored S
unfolding restore_loop
restore_stored_objects od stored_data s = restore_loop (suc (length stored_data)) od stored_data s
