-- ===== src/Persist/Reader.antt =====
-- The reader of stored nodes: it always comes to an end, it reads a node as it was written, and a value
-- without bytes ends it.
use zencan.Base.{
  ℕ, zero, suc, ◌+◌, ◌≤◌, ◌<◌, ◌≡◌, ◌∙◌, ap, refl, false, List, [], ◌∷◌, ◌++◌, ok, arith, ltb,
  length, length-append, length-drop, take, drop, take-append, drop-append, Result-cases, either,
  ◌⊎◌, inl, inr, Bool-cases, append_assoc, All,
}
use zencan.Base.Bits.{to_le, from_le, IsU16, from_le-to_le_u16}
use zencan.Dict.{OdEntry}
use zencan.Persist.{
  ObjectValue, PersistNodeRef, from_slice, Next, next, Restored, restore_node, restore_loop,
  restore_stored_objects,
}

-- The node of a value: type, index, sub index and data; and the node behind its length.
abbrev pub body : ObjectValue → List ℕ
body v = 1 ∷ (to_le 2 v.index ++ (v.sub ∷ v.data_bytes))

abbrev pub stored : ObjectValue → List ℕ
stored v = to_le 2 (length (body v)) ++ body v

unfoldable pub stored_all : List ObjectValue → List ℕ
stored_all [] = []
stored_all (v ∷ values) = stored v ++ stored_all values

-- What a value must be to be read back: it has data, and its numbers fit their fields.
abbrev pub IsStorable : ObjectValue → Type 0
IsStorable v = IsU16 v.index × (0 < length v.data_bytes) × IsU16 (length (body v))

long_enough : (n : ℕ) → ltb n 2 ≡ false → 2 ≤ n
long_enough n h = ground arith

not_less : (a b : ℕ) → b ≤ a → ltb a b ≡ false
not_less a b h = ground arith

next-cases :
    (buf : List ℕ)
    → (next buf ≡ Next.ended)
      ⊎ ((next buf ≡ Next.panicked)
          ⊎ ((node : PersistNodeRef) × (rest : List ℕ) × (next buf ≡ Next.item node rest)
              × (2 + length rest ≤ length buf)))
unfolding next
next-cases buf = elim (Bool-cases (ltb (length buf) 2)) [
  | inl short ↦ inl (rw short refl)
  | inr long ↦ elim (Bool-cases (ltb (length (drop 2 buf)) (from_le (take 2 buf)))) [
    | inl out ↦ inr (inl (rw (long, out) refl))
    | inr within ↦ elim (Result-cases (from_slice (take (from_le (take 2 buf)) (drop 2 buf)))) [
      | inr (e, bad) ↦ inl (rw (long, within, bad) refl)
      | inl (node, good) ↦ inr (
          inr (
            node,
            drop (from_le (take 2 buf)) (drop 2 buf),
            rw (long, within, good) refl,
            omega (
              arith,
              length-drop (from_le (take 2 buf)) (drop 2 buf),
              length-drop 2 buf,
              long_enough (length buf) long,
            ),
          ))
    ]
  ]
]

from_slice-body :
    (v : ObjectValue)
    → IsU16 v.index
    → 0 < length v.data_bytes
    → from_slice (body v) ≡ ok (PersistNodeRef.object_value v)
unfolding from_slice
from_slice-body v small some_data =
    let long : ltb (suc (suc (suc (length v.data_bytes)))) 4 ≡ false =
      not_less (suc (suc (suc (length v.data_bytes)))) 4 (omega arith) in
    rw long (
      ap (λ i. ok (PersistNodeRef.object_value (record v { index = i })))
        (from_le-to_le_u16 v.index small))

-- The bytes of a node behind their count.
next-counted :
    (bytes more : List ℕ)
    → IsU16 (length bytes)
    → next (to_le 2 (length bytes) ++ (bytes ++ more))
      ≡ either (from_slice bytes) (λ e. Next.ended) (λ node. Next.item node more)
unfolding next
next-counted bytes more fits =
    rw
      (
        not_less (length (to_le 2 (length bytes) ++ (bytes ++ more))) 2 (omega arith),
        from_le-to_le_u16 (length bytes) fits,
        not_less (length (bytes ++ more)) (length bytes) (omega (arith, length-append bytes more)),
        take-append bytes more,
        drop-append bytes more,
      )
      refl

next-stored :
    (v : ObjectValue) (more : List ℕ)
    → IsStorable v
    → next (stored v ++ more) ≡ Next.item (PersistNodeRef.object_value v) more
next-stored v more (small, some_data, fits) =
    next-counted (body v) more fits
    ∙ ap (λ r. either r (λ e. Next.ended) (λ node. Next.item node more))
        (from_slice-body v small some_data)

next-stored_empty :
    (i sub : ℕ) (more : List ℕ)
    → next (stored (record { index = i; sub = sub; data_bytes = [] }) ++ more) ≡ Next.ended
unfolding from_slice
next-stored_empty i sub more =
    next-counted (body (record { index = i; sub = sub; data_bytes = [] })) more (omega arith)

module _ {S : Type 0} (od : List (OdEntry S)) where
  -- How the loop over the nodes of a buffer goes, step by step, without a bound on the steps.
  pub data Reads : List ℕ → S → Restored S → Type 0 where
    at_end : {buf : List ℕ} {s : S} → next buf ≡ Next.ended → Reads buf s (Restored.finished s)
    out_of_range : {buf : List ℕ} {s : S} → next buf ≡ Next.panicked → Reads buf s Restored.panicked
    one_node :
        {buf rest : List ℕ} {s : S} {node : PersistNodeRef} {last : Restored S}
        → next buf ≡ Next.item node rest
        → Reads rest (restore_node od node s) last
        → Reads buf s last

  restore_loop-Reads :
      (fuel : ℕ) (buf : List ℕ) (s : S)
      → length buf < fuel
      → Reads buf s (restore_loop fuel od buf s)
  unfolding restore_loop
  restore_loop-Reads zero buf s h = absurd (omega arith)
  restore_loop-Reads (suc fuel) buf s h = elim (next-cases buf) [
    | inl e ↦ rw (e, restore_loop) (at_end e)
    | inr (inl e) ↦ rw (e, restore_loop) (out_of_range e)
    | inr (inr (node, rest, e, shorter)) ↦
        rw (e, restore_loop)
          (one_node e (restore_loop-Reads fuel rest (restore_node od node s) (omega arith)))
  ]

  -- Restoring comes to an end whatever the bytes are, and never for lack of rounds: it ends as the
  -- reader ends, at the end of the nodes or with a node that is out of range.
  pub restore_stored_objects-Reads :
      (stored_data : List ℕ) (s : S) → Reads stored_data s (restore_stored_objects od stored_data s)
  unfolding restore_stored_objects
  restore_stored_objects-Reads stored_data s =
      restore_loop-Reads (suc (length stored_data)) stored_data s (omega arith)

  restore_loop_fuel :
      (fuel fuel' : ℕ) (buf : List ℕ) (s : S)
      → length buf < fuel
      → length buf < fuel'
      → restore_loop fuel od buf s ≡ restore_loop fuel' od buf s
  unfolding restore_loop
  restore_loop_fuel zero fuel' buf s h h' = absurd (omega arith)
  restore_loop_fuel (suc fuel) zero buf s h h' = absurd (omega arith)
  restore_loop_fuel (suc fuel) (suc fuel') buf s h h' = elim (next-cases buf) [
    | inl e ↦ rw (e, restore_loop) refl
    | inr (inl e) ↦ rw (e, restore_loop) refl
    | inr (inr (node, rest, e, shorter)) ↦
        rw (e, restore_loop)
          (restore_loop_fuel fuel fuel' rest (restore_node od node s) (omega arith) (omega arith))
  ]

  restore_stored_objects-item :
      (buf rest : List ℕ) (node : PersistNodeRef) (s : S)
      → next buf ≡ Next.item node rest
      → 2 + length rest ≤ length buf
      → restore_stored_objects od buf s ≡ restore_stored_objects od rest (restore_node od node s)
  unfolding restore_stored_objects restore_loop
  restore_stored_objects-item buf rest node s e shorter =
      rw (e, restore_loop)
        (restore_loop_fuel (length buf) (suc (length rest)) rest (restore_node od node s)
          (omega arith) (omega arith))

  -- Each value is restored, one after the other.
  unfoldable pub restore_values : List ObjectValue → S → S
  restore_values [] s = s
  restore_values (v ∷ values) s =
      restore_values values (restore_node od (PersistNodeRef.object_value v) s)

  -- Nodes of values that have data are restored in their order, and restoring goes on with the bytes
  -- behind them.
  pub restore_stored_objects-stored_all :
      (values : List ObjectValue) (more : List ℕ) (s : S)
      → All IsStorable values
      → restore_stored_objects od (stored_all values ++ more) s
        ≡ restore_stored_objects od more (restore_values values s)
  unfolding stored_all restore_values
  restore_stored_objects-stored_all [] more s all = refl
  restore_stored_objects-stored_all (v ∷ values) more s (storable, all) =
      let behind = stored_all values ++ more in
      ap (λ buf. restore_stored_objects od buf s) (append_assoc (stored v) (stored_all values) more)
      ∙ restore_stored_objects-item (stored v ++ behind) behind (PersistNodeRef.object_value v) s
          (next-stored v behind storable) (omega (arith, length-append (stored v) behind))
      ∙ restore_stored_objects-stored_all values more
          (restore_node od (PersistNodeRef.object_value v) s) all

  -- A value without data ends restoring: what is stored behind it is left out.
  pub restore_stored_objects-empty :
      (i sub : ℕ) (more : List ℕ) (s : S)
      → restore_stored_objects od
          (stored (record { index = i; sub = sub; data_bytes = [] }) ++ more)
          s
        ≡ Restored.finished s
  unfolding restore_stored_objects restore_loop
  restore_stored_objects-empty i sub more s = rw (next-stored_empty i sub more, restore_loop) refl
