-- ===== src/Node/Pdos.antt =====
-- The part of `Node::process` that runs in the state Operational: TPDOs are sent, RPDOs are stored.
use zencan.Base.{
  ℕ, zero, suc, ◌+◌, Bool, true, false, not, List, [], ◌∷◌, ◌++◌, Option, none, some, maybe, leb,
  if◌then◌else◌, ◌&&◌, replicate,
}
use zencan.Can
use zencan.Can.{CanMessage}
use zencan.Node.{NodeStateAccess}
use zencan.Pdo.{
  Pdo, ObjectEvents, sync_update, read_events, clear_events, read_pdo_data, store_pdo_data,
}

module _ {S : Type 0} (state : NodeStateAccess S) (events : ObjectEvents S) where
  -- The data of a PDO as a frame; `none` is a panic.
  unfoldable pub send_pdo : Pdo S → S → Option (List CanMessage × S)
  unfolding read_pdo_data Can.new
  send_pdo pdo s =
      let (bytes, s1) = read_pdo_data pdo (replicate 8 0) s in
      maybe (Can.new pdo.cob_id bytes) none (λ msg. some (msg ∷ [], s1))

  unfoldable pub send_tpdo : ℕ → Bool → Bool → S → Option (List CanMessage × S)
  unfolding send_pdo sync_update read_events
  send_tpdo i global_trigger sync s =
      let pdo = state.tpdo i s in
      if not pdo.valid
      then some ([], s)
      else if leb 254 pdo.transmission_type
      then if global_trigger && read_events events pdo s then send_pdo pdo s else some ([], s)
      else if sync
      then if (sync_update pdo).0
        then send_pdo (sync_update pdo).1 (state.set_tpdo i (sync_update pdo).1 s)
        else some ([], state.set_tpdo i (sync_update pdo).1 s)
      else some ([], s)

  -- The loop over the TPDOs, with `left` to go.
  unfoldable pub send_tpdos : ℕ → ℕ → Bool → Bool → S → Option (List CanMessage × S)
  unfolding send_tpdo
  send_tpdos zero i global_trigger sync s = some ([], s)
  send_tpdos (suc left) i global_trigger sync s =
      maybe (send_tpdo i global_trigger sync s) none λ (sent, s1).
        let rest = send_tpdos left (i + 1) global_trigger sync s1 in
        maybe rest none (λ (more, s2). some (sent ++ more, s2))

  unfoldable pub clear_tpdos : ℕ → ℕ → S → S
  unfolding clear_events
  clear_tpdos zero i s = s
  clear_tpdos (suc left) i s = clear_tpdos left (i + 1) (clear_events events (state.tpdo i s) s)

  -- The loop over the RPDOs; whether one of them had data.
  unfoldable pub take_rpdos : ℕ → ℕ → S → Bool × S
  unfolding store_pdo_data
  take_rpdos zero i s = (false, s)
  take_rpdos (suc left) i s =
      let pdo = state.rpdo i s in
      let skip = take_rpdos left (i + 1) s in
      if not pdo.valid
      then skip
      else maybe pdo.buffered_value skip (λ new_data.
        let taken = record pdo { buffered_value = none } in
        let rest =
          take_rpdos left (i + 1) (store_pdo_data taken new_data (state.set_rpdo i taken s)) in
        (true, rest.1))

  -- The frames, whether objects were updated, and the objects after it.
  unfoldable pub process_pdos : Bool → S → Option (List CanMessage × Bool × S)
  unfolding send_tpdos clear_tpdos take_rpdos
  process_pdos sync s =
      let (global_trigger, s1) = state.toggle s in
      maybe (send_tpdos state.n_tpdos 0 global_trigger sync s1) none λ (sent, s2).
        let (updated, s3) = take_rpdos state.n_rpdos 0 (clear_tpdos state.n_tpdos 0 s2) in
        some (sent, updated, s3)
