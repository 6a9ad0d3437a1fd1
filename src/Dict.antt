-- ===== src/Dict.antt =====
-- zencan-node/src/object_dict: the interface of objects, the table of objects and its lookup.
use zencan.Base.{Option, maybe, [], ◌∷◌, none, some, ◌==◌, if◌then◌else◌, ℕ, List, Result}
use zencan.Objects.{SubInfo}
use zencan.Sdo.Abort.{AbortCode}

-- `dyn ObjectAccess`, as the SDO server uses it: its methods on the state `S` that all objects share.
-- An object stores its value behind a shared reference, so each method also returns the state after
-- it. `read` is given the buffer and returns the count of bytes read with the buffer after it.
pub record ObjectAccess (S : Type 0) : Type 0 where
  pub read : ℕ → ℕ → List ℕ → S → Result AbortCode ℕ × List ℕ × S
  pub write : ℕ → List ℕ → S → Result AbortCode (Unit {0}) × S
  pub begin_partial : ℕ → S → Result AbortCode (Unit {0}) × S
  pub write_partial : ℕ → List ℕ → S → Result AbortCode (Unit {0}) × S
  pub end_partial : ℕ → S → Result AbortCode (Unit {0}) × S
  pub sub_info : ℕ → S → Result AbortCode SubInfo

pub record OdEntry (S : Type 0) : Type 0 where
  pub index : ℕ
  pub object : ObjectAccess S

-- `binary_search_by_key` on a table sorted by index finds the entry with that index, if there is one;
-- in a table without duplicates it is the first one.
unfoldable pub find_object_entry : {S : Type 0} → List (OdEntry S) → ℕ → Option (OdEntry S)
find_object_entry [] index = none
find_object_entry (entry ∷ table) index =
    if entry.index == index then some entry else find_object_entry table index

unfoldable pub find_object : {S : Type 0} → List (OdEntry S) → ℕ → Option (ObjectAccess S)
unfolding find_object_entry
find_object table index = maybe (find_object_entry table index) none (λ entry. some entry.object)
