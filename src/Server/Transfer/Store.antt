-- ===== src/Server/Transfer/Store.antt =====
-- What a transfer relies on of an object that is written. A partial write is one `begin_partial`, parts
-- in order, and one `end_partial`. This is for objects that take writes and partial writes of any length
-- up to a capacity, as a `ByteField` does. It asks more than `ObjectAccess` does of every object: most
-- sub objects have a fixed length and no partial writes, and are outside of it.
use zencan.Base.{ℕ, ◌≤◌, ◌≡◌, List, [], ◌++◌, ok, length}
use zencan.Dict.{ObjectAccess}

-- `Ready`: what holds before a transfer. `Open xs`: a partial write is under way and has taken `xs`.
-- `Holds xs`: the last write, or the last partial write, has taken `xs` and is complete. Up to `capacity`
-- bytes are accepted.
pub record Store {S : Type 0} (object : ObjectAccess S) (sub capacity : ℕ) : Type 1 where
  pub Ready : S → Type 0
  pub Open : List ℕ → S → Type 0
  pub Holds : List ℕ → S → Type 0
  pub begin_lem :
      (s : S) → Ready s → (s' : S) × (object.begin_partial sub s ≡ (ok tt, s')) × Open [] s'
  pub part_lem :
      (xs part : List ℕ) (s : S)
      → Open xs s
      → length (xs ++ part) ≤ capacity
      → (s' : S) × (object.write_partial sub part s ≡ (ok tt, s')) × Open (xs ++ part) s'
  pub end_lem :
      (xs : List ℕ) (s : S)
      → Open xs s
      → (s' : S) × (object.end_partial sub s ≡ (ok tt, s')) × Holds xs s'
  pub write_lem :
      (xs : List ℕ) (s : S)
      → Ready s
      → length xs ≤ capacity
      → (s' : S) × (object.write sub xs s ≡ (ok tt, s')) × Holds xs s'
