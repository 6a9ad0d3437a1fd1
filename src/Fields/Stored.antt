-- ===== src/Fields/Stored.antt =====
-- A `ByteField` keeps the contract of an object that is written, and a partial write is a write.
use zencan.Base.{
  ℕ, ◌≤◌, ◌≡◌, refl, ap, ◌∙◌, true, List, [], ◌∷◌, ◌++◌, Option, none, some, ok, arith, length,
  copy_at, length-copy_at, length-append, append_assoc, append-nil,
}
use zencan.Objects.{SubInfo, is_writable}
use zencan.Server.Transfer.Store.{Store}
use zencan.Fields.{SubObjectAccess, Writes, and_then}
use zencan.Fields.Bytes
use zencan.Fields.Bytes.{ByteField, byte_field}
use zencan.Fields.Provided
use zencan.Fields.Provided.{provided}

-- Two copies, one behind the other, are one.
pub copy_at-append :
    (xs ys buf : List ℕ) → copy_at (length xs) ys (copy_at 0 xs buf) ≡ copy_at 0 (xs ++ ys) buf
unfolding copy_at
copy_at-append [] ys buf = refl
copy_at-append (x ∷ xs) ys [] = refl
copy_at-append (x ∷ xs) ys (b ∷ buf) = ap (◌∷◌ x) (copy_at-append xs ys buf)

-- In a partial write that has stored `xs` over the value `v`.
abbrev pub opened : List ℕ → List ℕ → ByteField
opened v xs = record { value = copy_at 0 xs v; write_offset = some (length xs) }

pub opened_part :
    (v xs part : List ℕ)
    → length (xs ++ part) ≤ length v
    → Bytes.write_partial part (opened v xs) ≡ (ok tt, opened v (xs ++ part))
unfolding Bytes.write_partial
opened_part v xs part h =
    let size = length-copy_at 0 xs v in
    let sum = length-append xs part in let all = copy_at-append xs part v in ground arith

-- The parts of a partial write, in order.
unfoldable pub write_parts : List (List ℕ) → ByteField → Writes ByteField
unfolding Bytes.write_partial
write_parts [] field = (ok tt, field)
write_parts (part ∷ parts) field = and_then (Bytes.write_partial part field) (write_parts parts)

abbrev pub concat : List (List ℕ) → List ℕ
concat [] = []
concat (part ∷ parts) = part ++ concat parts

write_parts_lem :
    (v xs : List ℕ) (parts : List (List ℕ))
    → length (xs ++ concat parts) ≤ length v
    → write_parts parts (opened v xs) ≡ (ok tt, opened v (xs ++ concat parts))
unfolding write_parts
write_parts_lem v xs [] h = rw (append-nil xs) refl
write_parts_lem v xs (part ∷ parts) h =
    let all = append_assoc xs part (concat parts) in
    let sum = length-append (xs ++ part) (concat parts) in
    rw (opened_part v xs part (omega (arith, ap length all)))
      (write_parts_lem v (xs ++ part) parts (rw all h) ∙ rw all refl)

-- A partial write, in parts that fit the field together, is one write of all of them to a field that
-- has no partial write under way.
pub partial-write :
    (field : ByteField) (parts : List (List ℕ))
    → length (concat parts) ≤ length field.value
    → and_then (Bytes.begin_partial field) (λ f1. and_then (write_parts parts f1) Bytes.end_partial)
      ≡ Bytes.write (concat parts) (record field { write_offset = none })
unfolding copy_at Bytes.begin_partial Bytes.end_partial Bytes.write
partial-write field parts h =
    let begun : write_parts parts (record { value = field.value; write_offset = some 0 })
        ≡ (ok tt, opened field.value (concat parts)) =
      write_parts_lem field.value [] parts h in
    rw begun (ground arith)

pub write_fits :
    (xs : List ℕ) (field : ByteField)
    → length xs ≤ length field.value
    → Bytes.write xs field ≡ (ok tt, record field { value = copy_at 0 xs field.value })
unfolding Bytes.write
write_fits xs field fit = ground arith

-- A writable sub object that is a `ByteField` is a store with the capacity of its value `v`. What it
-- has taken is at the front, and the rest of `v` is kept.
module _ (get_sub_object : ℕ → Option (SubInfo × SubObjectAccess ByteField)) (sub : ℕ) (v : List ℕ)
    (info : SubInfo) (found : get_sub_object sub ≡ some (info, byte_field))
    (writable : is_writable info.access_type ≡ true) where
  unfoldable pub byte_store : Store (provided get_sub_object) sub (length v)
  unfolding copy_at byte_field provided Bytes.begin_partial Bytes.write Bytes.write_partial
      Bytes.end_partial Provided.begin_partial Provided.write_partial Provided.write
      Provided.end_partial
  byte_store = record {
    Ready = λ f. f.value ≡ v;
    Open = λ xs f. f ≡ opened v xs;
    Holds = λ xs f. f.value ≡ copy_at 0 xs v;
    begin_lem =
        λ s same. (record s { write_offset = some 0 }, rw (found, writable) refl, rw same refl);
    part_lem = λ xs part s at fit.
        (opened v (xs ++ part), rw (found, at) (opened_part v xs part fit), refl);
    end_lem =
        λ xs s at. (record s { write_offset = none }, rw (found, at) refl, ap (λ f. f.value) at);
    write_lem = λ xs s same fit. (
      record s { value = copy_at 0 xs s.value },
      rw (found, writable) (write_fits xs s (rw same fit)),
      ap (copy_at 0 xs) same,
    );
  }
