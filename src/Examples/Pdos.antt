-- ===== src/Examples/Pdos.antt =====
-- The theorems on PDOs at concrete inputs.
use zencan.Base.{
  ℕ, ◌%◌, ◌≤◌, ◌≡◌, refl, true, List, [], ◌∷◌, none, some, ok, arith, ◌==◌, length, replicate,
}
use zencan.Base.Bits.{to_le}
use zencan.Can.{CanId}
use zencan.Objects.{new_u32}
use zencan.Dict.{ObjectAccess, OdEntry}
use zencan.Pdo.{Pdo, sync_update, active, read_pdo_data, store_pdo_data}
use zencan.Pdo.Comm.{cob_value, write_cob}
use zencan.Pdo.Mapping.{write_mapping, read_mapping}
use zencan.Pdo.Sync.{syncs, sync_update-syncs}
use zencan.Pdo.RoundTrip.{write_cob-cob_value}
use zencan.Pdo.Parameters.{read_mapping-write_mapping}
use zencan.Pdo.Data.{Holds, Fits, concat, written, store_pdo_data-read_pdo_data}

-- An object with a value of two bytes, which is the whole state.
abbrev value_object : ObjectAccess (List ℕ)
value_object = record {
  read = λ sub offset buf s. (ok (length s), s, s);
  write = λ sub bytes s. (ok tt, bytes);
  begin_partial = λ sub s. (ok tt, s);
  write_partial = λ sub bytes s. (ok tt, s);
  end_partial = λ sub s. (ok tt, s);
  sub_info = λ sub s. ok new_u32;
}

abbrev entry : OdEntry (List ℕ)
entry = record { index = 0x2000; object = value_object }

abbrev mapped : Pdo (List ℕ)
mapped = record {
  cob_id = CanId.std 0x181;
  valid = true;
  rtr_disabled = true;
  transmission_type = 3;
  sync_counter = 0;
  buffered_value = none;
  valid_maps = 1;
  mapping_params = some (record { object = entry; sub = 1; length = 2 }) ∷ replicate 7 none;
}

abbrev two_bytes : List ℕ
two_bytes = 7 ∷ 9 ∷ []

sync_example : (sync_update (syncs 5 mapped)).0 ≡ ((6 % 256) == 3)
sync_example = sync_update-syncs 5 mapped refl (omega arith) (omega arith) refl

write_cob_example :
    write_cob (to_le 4 (cob_value mapped)) mapped
    ≡ some (ok tt, record mapped { cob_id = CanId.std 0x181; valid = true; rtr_disabled = true })
write_cob_example = write_cob-cob_value mapped mapped (omega arith)

abbrev map_value : List ℕ
map_value = 16 ∷ 1 ∷ 0x00 ∷ 0x20 ∷ []

abbrev remapped : Pdo (List ℕ)
remapped = record mapped {
  mapping_params =
      some (record { object = entry; sub = 1; length = 2 })
      ∷ some (record { object = entry; sub = 1; length = 2 })
      ∷ replicate 6 none;
}

map_value_written : write_mapping (entry ∷ []) 2 map_value two_bytes mapped ≡ some (ok tt, remapped)
unfolding write_mapping
map_value_written = refl

read_mapping_example : read_mapping 2 0 (replicate 4 0) remapped ≡ some (ok 4, map_value)
read_mapping_example =
    read_mapping-write_mapping (entry ∷ []) 2 map_value (replicate 4 0) two_bytes mapped remapped
      (omega arith) (omega arith) (refl, omega arith) refl map_value_written

mapped_Holds : Holds (active 1 mapped.mapping_params) (two_bytes ∷ []) two_bytes
unfolding active
mapped_Holds = (refl, λ buf h. refl, tt)

mapped_Fits : Fits (active 1 mapped.mapping_params) (two_bytes ∷ [])
unfolding active
mapped_Fits = (refl, tt)

room : length (concat (two_bytes ∷ [])) ≤ 8
unfolding concat
room = omega arith

store_pdo_data_example :
    store_pdo_data mapped (read_pdo_data mapped (replicate 8 0) two_bytes).0 []
    ≡ written (active 1 mapped.mapping_params) (two_bytes ∷ []) []
store_pdo_data_example =
    store_pdo_data-read_pdo_data mapped mapped (two_bytes ∷ []) two_bytes [] mapped_Holds
      mapped_Fits room

read_pdo_data_runs : (read_pdo_data mapped (replicate 8 0) two_bytes).0 ≡ 7 ∷ 9 ∷ replicate 6 0
unfolding read_pdo_data
read_pdo_data_runs = refl
