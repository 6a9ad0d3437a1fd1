-- ===== src/Persist/Kept.antt =====
-- What restoring makes of the objects: each takes its value, and the others keep theirs.
use zencan.Base.{
  Bool, true, false, Bool-cases, inl, inr, if◌then◌else◌, ◌==◌, ◌&&◌, arith, ℕ, ◌≡◌, refl, sym, ap,
  ◌∙◌, List, [], ◌∷◌, some, ok, All,
}
use zencan.Base.Search.{any}
use zencan.Objects.{SubInfo}
use zencan.Dict.{ObjectAccess, OdEntry, find_object}
use zencan.Persist.{ObjectValue, PersistNodeRef, restore_node}
use zencan.Persist.Reader.{restore_values}

-- Whether a value is that of a sub object.
abbrev pub is_of : ℕ → ℕ → ObjectValue → Bool
is_of i j v = (v.index == i) && (v.sub == j)

-- The value of a sub object that had `old`, with what is among the values in its place.
abbrev pub recalled : List ObjectValue → List ℕ → List ℕ → ℕ → ℕ → List ℕ
recalled values new old i j = if any (is_of i j) values then new else old

is_of-true : (i j : ℕ) (v : ObjectValue) → is_of i j v ≡ true → (v.index ≡ i) × (v.sub ≡ j)
is_of-true i j v h = ground arith

is_of-false : (i j : ℕ) (v : ObjectValue) → is_of i j v ≡ false → v.index ≡ i → v.sub ≡ j → ⊥
is_of-false i j v h e f = ground arith

if_same : (test : Bool) (x : List ℕ) → (if test then x else x) ≡ x
if_same true x = refl
if_same false x = refl

-- `get` is the value of a sub object, by index and sub index; `Ready` is what holds of the objects
-- whenever one is written.
module _ {S : Type 0} (od : List (OdEntry S)) (get : ℕ → ℕ → S → List ℕ) (Ready : S → Type 0) where
  abbrev pub Other : ℕ → ℕ → ObjectValue → Type 0
  Other i j v = v.index ≡ i → v.sub ≡ j → ⊥

  -- The sub object of a value is in the dictionary. It takes these bytes as its value, and the other
  -- sub objects keep theirs.
  abbrev pub TakesBack : ObjectValue → Type 0
  TakesBack v =
      (obj : ObjectAccess S) × (find_object od v.index ≡ some obj)
      × ((t : S)
          → Ready t
          → (info : SubInfo) × (t' : S) × (obj.sub_info v.sub t ≡ ok info)
            × (obj.write v.sub v.data_bytes t ≡ (ok tt, t'))
            × Ready t'
            × (get v.index v.sub t' ≡ v.data_bytes)
            × ((i j : ℕ) → Other i j v → get i j t' ≡ get i j t))

  -- What restoring one value does.
  abbrev Takes : ObjectValue → S → S → Type 0
  Takes v t t' =
      Ready t'
      × (get v.index v.sub t' ≡ v.data_bytes)
      × ((i j : ℕ) → Other i j v → get i j t' ≡ get i j t)

  restore_node-Takes :
      (v : ObjectValue) (t : S)
      → TakesBack v
      → Ready t
      → Takes v t (restore_node od (PersistNodeRef.object_value v) t)
  unfolding restore_node
  restore_node-Takes v t (obj, found, takes) ready =
      let (info, t', is_sub, written, ready', taken, kept) = takes t ready in
      simp (found, is_sub, written) (ready', taken, kept)

  -- After all values are restored, a sub object that has one among them has it, and any other is as it
  -- was.
  pub restore_values-recalled :
      (value : ℕ → ℕ → List ℕ) (values : List ObjectValue) (t : S) (i j : ℕ)
      → All TakesBack values
      → All (λ v. v.data_bytes ≡ value v.index v.sub) values
      → Ready t
      → get i j (restore_values od values t) ≡ recalled values (value i j) (get i j t) i j
  unfolding restore_values
  restore_values-recalled value [] t i j takes saved ready = refl
  restore_values-recalled value (v ∷ values) t i j (takes_v, takes) (saved_v, saved) ready =
      let (ready', taken, kept) = restore_node-Takes v t takes_v ready in
      let t' = restore_node od (PersistNodeRef.object_value v) t in
      let rest = restore_values-recalled value values t' i j takes saved ready' in
      elim (Bool-cases (is_of i j v)) [
        | inl hit ↦
            let (same_index, same_sub) = is_of-true i j v hit in
            let has : get i j t' ≡ value i j =
              ap (λ a. get a j t') (sym same_index)
              ∙ ap (λ b. get v.index b t') (sym same_sub)
              ∙ taken
              ∙ saved_v
              ∙ ap (λ a. value a v.sub) same_index
              ∙ ap (value i) same_sub in
            rw (hit, rest, has) (if_same (any (is_of i j) values) (value i j))
        | inr miss ↦ rw (miss, rest, kept i j (is_of-false i j v miss)) refl
      ]
