-- ===== src/Pdo.antt =====
-- zencan-node/src/pdo.rs: `Pdo`, the state of one process data object, with its data in and out.
pub mod Comm
pub mod Mapping
pub mod Sync
pub mod RoundTrip
pub mod Parameters
pub mod Data
use zencan.Base.{
  ℕ, ◌+◌, ◌-◌, ◌%◌, Bool, true, false, not, List, [], ◌∷◌, Option, none, some, Result, maybe, leb,
  ltb, ◌==◌, if◌then◌else◌, length, replicate, take, drop, copy_at,
}
use zencan.Can.{CanId}
use zencan.Dict.{OdEntry}
use zencan.Sdo.Wire.{slice}

abbrev pub n_mapping_params : ℕ
n_mapping_params = 8

pub record MappingEntry (S : Type 0) : Type 0 where
  pub object : OdEntry S
  pub sub : ℕ
  pub length : ℕ

pub record Pdo (S : Type 0) : Type 0 where
  pub cob_id : CanId
  pub valid : Bool
  pub rtr_disabled : Bool
  pub transmission_type : ℕ
  pub sync_counter : ℕ
  pub buffered_value : Option (List ℕ)
  pub valid_maps : ℕ
  pub mapping_params : List (Option (MappingEntry S))

-- The methods of `dyn ObjectAccess` about events, of the object at an index.
pub record ObjectEvents (S : Type 0) : Type 0 where
  pub read_event_flag : ℕ → ℕ → S → Bool
  pub clear_events : ℕ → S → S

module _ {S : Type 0} where
  unfoldable pub new : Pdo S
  new = record {
    cob_id = CanId.std 0;
    valid = false;
    rtr_disabled = false;
    transmission_type = 0;
    sync_counter = 0;
    buffered_value = none;
    valid_maps = 0;
    mapping_params = replicate n_mapping_params none;
  }

  -- Whether the PDO is to be sent for a SYNC. The counter is a `u8`, which wraps around.
  unfoldable pub sync_update : Pdo S → Bool × Pdo S
  sync_update pdo =
      let cnt = (pdo.sync_counter + 1) % 256 in
      if not pdo.valid
      then (false, pdo)
      else if pdo.transmission_type == 0
      then (true, pdo)
      else if leb pdo.transmission_type 240
      then (cnt == pdo.transmission_type, record pdo { sync_counter = cnt })
      else (false, pdo)

  module _ (events : ObjectEvents S) where
    unfoldable pub any_event : List (Option (MappingEntry S)) → S → Bool
    any_event [] s = false
    any_event (none ∷ params) s = false
    any_event (some param ∷ params) s =
        let rest = any_event params s in
        if events.read_event_flag param.object.index param.sub s then true else rest

    unfoldable pub read_events : Pdo S → S → Bool
    unfolding any_event
    read_events pdo s = if not pdo.valid then false else any_event pdo.mapping_params s

    unfoldable pub clear_params : List (Option (MappingEntry S)) → S → S
    clear_params [] s = s
    clear_params (none ∷ params) s = s
    clear_params (some param ∷ params) s =
        clear_params params (events.clear_events param.object.index s)

    unfoldable pub clear_events : Pdo S → S → S
    unfolding clear_params
    clear_events pdo s = clear_params pdo.mapping_params s

  -- The parameters that count: at most `valid_maps`, up to the first that is not set.
  unfoldable pub active : ℕ → List (Option (MappingEntry S)) → List (MappingEntry S)
  active valid_maps [] = []
  active valid_maps (none ∷ params) = []
  active valid_maps (some param ∷ params) =
      let rest = active (valid_maps - 1) params in if valid_maps == 0 then [] else param ∷ rest

  -- The loop of `store_pdo_data`; what an object answers to the write is dropped.
  unfoldable pub store_params : List (MappingEntry S) → ℕ → List ℕ → S → S
  store_params [] offset bytes s = s
  store_params (param ∷ params) offset bytes s =
      let rest =
        store_params params (offset + param.length) bytes
          (param.object.object.write param.sub (slice bytes offset (offset + param.length)) s).1 in
      if ltb (length bytes) (offset + param.length) then s else rest

  unfoldable pub store_pdo_data : Pdo S → List ℕ → S → S
  unfolding active store_params
  store_pdo_data pdo bytes s = store_params (active pdo.valid_maps pdo.mapping_params) 0 bytes s

  -- The loop of `read_pdo_data`: each object reads into its part of the data, which has the length of
  -- the part before and after.
  unfoldable pub read_params : List (MappingEntry S) → ℕ → List ℕ → S → List ℕ × S
  unfolding copy_at
  read_params [] offset bytes s = (bytes, s)
  read_params (param ∷ params) offset bytes s =
      let (answer, part, s1) =
        param.object.object.read param.sub 0 (slice bytes offset (offset + param.length)) s in
      let rest = read_params params (offset + param.length) (copy_at offset part bytes) s1 in
      if ltb (length bytes) (offset + param.length) then (bytes, s) else rest

  unfoldable pub read_pdo_data : Pdo S → List ℕ → S → List ℕ × S
  unfolding active read_params
  read_pdo_data pdo bytes s = read_params (active pdo.valid_maps pdo.mapping_params) 0 bytes s
