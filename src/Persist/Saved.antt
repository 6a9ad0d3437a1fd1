-- ===== src/Persist/Saved.antt =====
-- The persisted values of the objects of a node, and the bytes that are written for them.
use zencan.Base.{
  ℕ, zero, suc, ◌+◌, ◌%◌, ◌≤◌, ◌<◌, ◌≡◌, ◌∙◌, ap, sym, refl, true, List, [], ◌∷◌, ◌++◌, ok, arith,
  leb, length, length-append, drop, take-append, replicate, Result-cases, inl, inr, Bool-cases,
  append_assoc, All, if◌then◌else◌, some, either, ◌^◌,
}
use zencan.Base.Bits.{to_le, IsU16}
use zencan.Objects.{SubInfo}
use zencan.Dict.{OdEntry}
use zencan.Persist.{
  ObjectShape, ObjectValue, serialize_object, serialize_subs, serialize_sm, max_sub_number,
  size_subs, serialized_size, unwrap_read,
}
use zencan.Persist.Reader.{body, stored, stored_all, IsStorable}

small_size : (n : ℕ) → n ≤ 32 → n % 2 ^ 16 ≡ n
small_size n h = omega arith

node_size : (n : ℕ) → n ≤ 32 → (n + 4) % 2 ^ 16 ≡ suc (suc (suc (suc n)))
node_size n h = omega arith

within : (n : ℕ) → n ≤ 32 → leb n 32 ≡ true
within n h = ground arith

stored_all-append : (a b : List ObjectValue) → stored_all (a ++ b) ≡ stored_all a ++ stored_all b
unfolding stored_all
stored_all-append [] b = refl
stored_all-append (v ∷ a) b =
    ap (λ bytes. stored v ++ bytes) (stored_all-append a b)
    ∙ sym (append_assoc (stored v) (stored_all a) (stored_all b))

All-append :
    (P : ObjectValue → Type 0) (a b : List ObjectValue) → All P a → All P b → All P (a ++ b)
All-append P [] b in_a in_b = in_b
All-append P (x ∷ a) b (here, in_a) in_b = (here, All-append P a b in_a in_b)

-- The current value of a sub object, by index and sub index.
module _ {S : Type 0} (shape : ObjectShape S) (value : ℕ → ℕ → List ℕ) (max_sub : ℕ → ℕ) where
  abbrev pub value_at : OdEntry S → ℕ → ObjectValue
  value_at obj sub = record { index = obj.index; sub = sub; data_bytes = value obj.index sub }

  -- A persisted sub object has 1 to 32 bytes, and gives all of them to a read.
  abbrev pub Holds : OdEntry S → ℕ → S → Type 0
  Holds obj sub s =
      (0 < length (value obj.index sub))
      × (length (value obj.index sub) ≤ 32)
      × (shape.read_size obj.index sub s ≡ ok (length (value obj.index sub)))
      × ((buf : List ℕ)
          → length buf ≡ 32
          → (read_len : ℕ) × (obj.object.read sub 0 buf s
              ≡ (ok read_len, value obj.index sub ++ drop (length (value obj.index sub)) buf, s)))

  -- An object whose index is a u16, which knows how many sub objects it has, and whose persisted sub
  -- objects hold their values.
  abbrev pub IsSaved : S → OdEntry S → Type 0
  IsSaved s obj =
      IsU16 obj.index
      × (max_sub_number shape obj s ≡ some (max_sub obj.index, s))
      × ((sub : ℕ) (info : SubInfo)
          → obj.object.sub_info sub s ≡ ok info
          → info.persist ≡ true
          → Holds obj sub s)

  -- The values of the persisted sub objects, from a sub object on and for the objects of a table.
  unfoldable pub saved_subs : ℕ → ℕ → OdEntry S → S → List ObjectValue
  saved_subs zero sub obj s = []
  saved_subs (suc left) sub obj s =
      let rest = saved_subs left (sub + 1) obj s in
      either (obj.object.sub_info sub s) (λ e. rest)
        (λ info. if info.persist then value_at obj sub ∷ rest else rest)

  unfoldable pub saved : List (OdEntry S) → S → List ObjectValue
  unfolding saved_subs
  saved [] s = []
  saved (obj ∷ objects) s = saved_subs ((max_sub obj.index + 1) % 256) 0 obj s ++ saved objects s

  serialize_object-Holds :
      (obj : OdEntry S) (sub : ℕ) (s : S)
      → Holds obj sub s
      → serialize_object shape obj sub s ≡ some (stored (value_at obj sub), s)
  unfolding serialize_object unwrap_read
  serialize_object-Holds obj sub s (some_data, fits, sized, reads) =
      let (read_len, all) = reads (replicate 32 0) refl in
      rw
        (
          sized,
          all,
          small_size (length (value obj.index sub)) fits,
          within (length (value obj.index sub)) fits,
          take-append (value obj.index sub) (drop (length (value obj.index sub)) (replicate 32 0)),
        )
        (ap (λ n. some (to_le 2 n ++ body (value_at obj sub), s))
          (node_size (length (value obj.index sub)) fits))

  serialize_subs-saved_subs :
      (left sub : ℕ) (obj : OdEntry S) (s : S)
      → IsSaved s obj
      → serialize_subs shape left sub obj s ≡ some (stored_all (saved_subs left sub obj s), s)
  unfolding serialize_subs saved_subs stored_all
  serialize_subs-saved_subs zero sub obj s good = refl
  serialize_subs-saved_subs (suc left) sub obj s (index, count, holds) =
      let rest = serialize_subs-saved_subs left (sub + 1) obj s (index, count, holds) in
      elim (Result-cases (obj.object.sub_info sub s)) [
        | inr (e, bad) ↦ rw bad rest
        | inl (info, good) ↦ elim (Bool-cases info.persist) [
          | inl kept ↦
              rw (good, kept, serialize_object-Holds obj sub s (holds sub info good kept), rest)
                refl
          | inr dropped ↦ rw (good, dropped) rest
        ]
      ]

  size_subs-saved_subs :
      (left sub : ℕ) (obj : OdEntry S) (s : S)
      → IsSaved s obj
      → size_subs shape left sub obj s ≡ some (length (stored_all (saved_subs left sub obj s)))
  unfolding size_subs saved_subs stored_all
  size_subs-saved_subs zero sub obj s good = refl
  size_subs-saved_subs (suc left) sub obj s (index, count, holds) =
      let rest = size_subs-saved_subs left (sub + 1) obj s (index, count, holds) in
      elim (Result-cases (obj.object.sub_info sub s)) [
        | inr (e, bad) ↦ rw bad rest
        | inl (info, good) ↦ elim (Bool-cases info.persist) [
          | inl kept ↦
              let (some_data, fits, sized, reads) = holds sub info good kept in
              rw (good, kept, sized, rest)
                (ap some (
                  omega (
                    arith,
                    length-append (stored (value_at obj sub))
                        (stored_all (saved_subs left (sub + 1) obj s)),
                  )))
          | inr dropped ↦ rw (good, dropped) rest
        ]
      ]

  saved_subs-IsStorable :
      (left sub : ℕ) (obj : OdEntry S) (s : S)
      → IsSaved s obj
      → All IsStorable (saved_subs left sub obj s)
  unfolding saved_subs
  saved_subs-IsStorable zero sub obj s good = tt
  saved_subs-IsStorable (suc left) sub obj s (index, count, holds) =
      let rest = saved_subs-IsStorable left (sub + 1) obj s (index, count, holds) in
      elim (Result-cases (obj.object.sub_info sub s)) [
        | inr (e, bad) ↦ rw bad rest
        | inl (info, good) ↦ elim (Bool-cases info.persist) [
          | inl kept ↦
              let (some_data, fits, sized, reads) = holds sub info good kept in
              rw (good, kept) ((index, some_data, omega arith), rest)
          | inr dropped ↦ rw (good, dropped) rest
        ]
      ]

  pub serialize_sm-saved :
      (objects : List (OdEntry S)) (s : S)
      → All (IsSaved s) objects
      → serialize_sm shape objects s ≡ some (stored_all (saved objects s), s)
  unfolding serialize_sm saved stored_all
  serialize_sm-saved [] s good = refl
  serialize_sm-saved (obj ∷ objects) s ((index, count, holds), good) =
      let subs =
        serialize_subs-saved_subs ((max_sub obj.index + 1) % 256) 0 obj s (index, count, holds) in
      rw (count, subs, serialize_sm-saved objects s good)
        (ap (λ bytes. some (bytes, s))
          (sym (
            stored_all-append (saved_subs ((max_sub obj.index + 1) % 256) 0 obj s)
              (saved objects s))))

  pub serialized_size-saved :
      (objects : List (OdEntry S)) (s : S)
      → All (IsSaved s) objects
      → serialized_size shape objects s ≡ some (length (stored_all (saved objects s)))
  unfolding serialized_size saved stored_all
  serialized_size-saved [] s good = refl
  serialized_size-saved (obj ∷ objects) s ((index, count, holds), good) =
      let values = saved_subs ((max_sub obj.index + 1) % 256) 0 obj s in
      let subs =
        size_subs-saved_subs ((max_sub obj.index + 1) % 256) 0 obj s (index, count, holds) in
      rw
        (
          count,
          subs,
          serialized_size-saved objects s good,
          stored_all-append values (saved objects s),
        )
        (ap some (sym (length-append (stored_all values) (stored_all (saved objects s)))))

  pub saved-IsStorable :
      (objects : List (OdEntry S)) (s : S)
      → All (IsSaved s) objects
      → All IsStorable (saved objects s)
  unfolding saved
  saved-IsStorable [] s good = tt
  saved-IsStorable (obj ∷ objects) s (first_good, good) =
      All-append IsStorable (saved_subs ((max_sub obj.index + 1) % 256) 0 obj s) (saved objects s)
        (saved_subs-IsStorable ((max_sub obj.index + 1) % 256) 0 obj s first_good)
        (saved-IsStorable objects s good)

  saved_subs-value :
      (left sub : ℕ) (obj : OdEntry S) (s : S)
      → All (λ v. v.data_bytes ≡ value v.index v.sub) (saved_subs left sub obj s)
  unfolding saved_subs
  saved_subs-value zero sub obj s = tt
  saved_subs-value (suc left) sub obj s =
      let rest = saved_subs-value left (sub + 1) obj s in
      elim (Result-cases (obj.object.sub_info sub s)) [
        | inr (e, bad) ↦ rw bad rest
        | inl (info, good) ↦ elim (Bool-cases info.persist) [
          | inl kept ↦ rw (good, kept) (refl, rest)
          | inr dropped ↦ rw (good, dropped) rest
        ]
      ]

  pub saved-value :
      (objects : List (OdEntry S)) (s : S)
      → All (λ v. v.data_bytes ≡ value v.index v.sub) (saved objects s)
  unfolding saved
  saved-value [] s = tt
  saved-value (obj ∷ objects) s =
      All-append (λ v. v.data_bytes ≡ value v.index v.sub)
        (saved_subs ((max_sub obj.index + 1) % 256) 0 obj s) (saved objects s)
        (saved_subs-value ((max_sub obj.index + 1) % 256) 0 obj s) (saved-value objects s)
