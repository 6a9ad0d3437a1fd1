-- ===== src/Node/Returns.antt =====
-- When a call of `Node::process` returns: the parts that cannot panic.
use zencan.Base.{
  ℕ, zero, suc, ◌+◌, ◌≡◌, refl, ◌∙◌, Bool, true, false, List, [], ◌∷◌, Option, none, some, not,
  ◌&&◌, leb, ltb, Bool-cases, inl, inr, if◌then◌else◌, length, replicate, length-copy_at, maybe, ap,
  ◌%◌, ◌-◌, ◌^◌,
}
use zencan.Can.{new_eight}
use zencan.Can
use zencan.Dict.{OdEntry}
use zencan.Nmt.{NmtState}
use zencan.Node.Boot.{Run, in_nmt_state, leave_bootup, boot_up, start_automatically}
use zencan.Node.{NodeStateAccess}
use zencan.Node.Pdos.{send_pdo, send_tpdo, send_tpdos, process_pdos}
use zencan.Node.Process.{run_pdos}
use zencan.Pdo.{
  Pdo, MappingEntry, ObjectEvents, active, read_params, read_pdo_data, sync_update, read_events,
}
use zencan.Sdo.Wire.{slice}
use zencan.Lss
use zencan.Nmt.{NmtCommand, command_message}
use zencan.Node.Mailbox.{store_message}
use zencan.Node.Commands.{next_state, present_id, process-commanded}
use zencan.Node.{Node, NodeMbox}
use zencan.Node.Commands.{pending, message_of-command_message}
use zencan.Node.{read_identity}
use zencan.Node.Waking.{leave_bootup-left}
use zencan.Node.Commands.{start_automatically-settled, reassign-begun}
use zencan.Node.Phases.{run_sdo-Keeps}
use zencan.Node.Steps.{begun}
use zencan.Node.Process.{process, run_protocols, run_heartbeat}
use zencan.Node.Process.{take_message, run_nmt, run_lss, run_sdo}
use zencan.Server
use zencan.Server.Idle
use zencan.Server.Receiver.{take_request}
use zencan.Server.State.{Crc, SdoState}

abbrev pub Returns : {A : Type 0} → Option A → Type 0
Returns {A = A} o = (a : A) × (o ≡ some a)

Returns-if :
    {A : Type 0} (test : Bool) (x y : Option A)
    → Returns x
    → Returns y
    → Returns (if test then x else y)
Returns-if true x y a b = a
Returns-if false x y a b = b

Returns-maybe :
    {A B : Type 0} (o : Option A) (next : A → Option B)
    → Returns o
    → ((a : A) → Returns (next a))
    → Returns (maybe o none next)
Returns-maybe none next (a, e) k = absurd cc
Returns-maybe (some x) next r k = k x

module _ {S : Type 0} where
  length-read_params :
      (params : List (MappingEntry S)) (offset : ℕ) (bytes : List ℕ) (s : S)
      → length (read_params params offset bytes s).0 ≡ length bytes
  unfolding read_params
  length-read_params [] offset bytes s = refl
  length-read_params (param ∷ params) offset bytes s =
      elim (Bool-cases (ltb (length bytes) (offset + param.length))) [
        | inl over ↦ rw over refl
        | inr fits ↦ rw fits (
            length-read_params params (offset + param.length) _ _
            ∙ length-copy_at offset
                (param.object.object.read param.sub 0 (slice bytes offset (offset + param.length))
                  s).1
                bytes)
      ]

  module _ (state : NodeStateAccess S) (events : ObjectEvents S) where
    send_pdo-Returns : (pdo : Pdo S) (s : S) → Returns (send_pdo state events pdo s)
    unfolding send_pdo read_pdo_data
    send_pdo-Returns pdo s =
        let params = active pdo.valid_maps pdo.mapping_params in
        Returns-maybe (Can.new pdo.cob_id (read_params params 0 (replicate 8 0) s).0) _
          (_, new_eight pdo.cob_id _ (length-read_params params 0 (replicate 8 0) s))
          (λ msg. (_, refl))

    send_tpdo-Returns :
        (i : ℕ) (global_trigger sync : Bool) (s : S)
        → Returns (send_tpdo state events i global_trigger sync s)
    unfolding send_tpdo
    send_tpdo-Returns i global_trigger sync s =
        Returns-if (not (state.tpdo i s).valid) _ _ (_, refl)
          (Returns-if (leb 254 (state.tpdo i s).transmission_type) _ _
            (Returns-if (global_trigger && read_events events (state.tpdo i s) s) _ _
              (send_pdo-Returns (state.tpdo i s) s) (_, refl))
            (Returns-if sync _ _
              (Returns-if (sync_update (state.tpdo i s)).0 _ _
                (send_pdo-Returns (sync_update (state.tpdo i s)).1
                  (state.set_tpdo i (sync_update (state.tpdo i s)).1 s))
                (([], state.set_tpdo i (sync_update (state.tpdo i s)).1 s), refl))
              (([], s), refl)))

    send_tpdos-Returns :
        (left i : ℕ) (global_trigger sync : Bool) (s : S)
        → Returns (send_tpdos state events left i global_trigger sync s)
    unfolding send_tpdos
    send_tpdos-Returns zero i global_trigger sync s = (_, refl)
    send_tpdos-Returns (suc left) i global_trigger sync s =
        Returns-maybe (send_tpdo state events i global_trigger sync s) _
          (send_tpdo-Returns i global_trigger sync s)
          (λ (sent, s1).
            Returns-maybe (send_tpdos state events left (i + 1) global_trigger sync s1) _
              (send_tpdos-Returns left (i + 1) global_trigger sync s1) (λ more. (_, refl)))

    run_pdos-Returns :
        (crc16 : Crc) (table : List (OdEntry S)) (run : Run S)
        → Returns (run_pdos crc16 table state events run)
    unfolding run_pdos process_pdos
    run_pdos-Returns crc16 table run =
        Returns-if (in_nmt_state run.node.nmt_state NmtState.operational) _ _
          (Returns-maybe (process_pdos state events run.mbox.sync_flag run.od) _
            (Returns-maybe
              (send_tpdos state events state.n_tpdos 0 (state.toggle run.od).0 run.mbox.sync_flag
                (state.toggle run.od).1)
              _
              (send_tpdos-Returns state.n_tpdos 0 (state.toggle run.od).0 run.mbox.sync_flag
                (state.toggle run.od).1)
              (λ sent. (_, refl)))
            (λ done. (_, refl)))
          (_, refl)

  -- The mailbox has no SDO and no LSS request, no block is under way, and a NMT command, if any.
  abbrev pub IsQuiet : Node S → NodeMbox → Option NmtCommand → Type 0
  IsQuiet node mbox cmd =
      (mbox.sdo_receiver.request ≡ none)
      × (node.sdo_server ≡ SdoState.idle)
      × (mbox.lss_receiver.rx_req ≡ none)
      × (mbox.nmt_mbox ≡ pending cmd)

  run_nmt-Returns :
      (run : Run S) (cmd : Option NmtCommand)
      → run.mbox.nmt_mbox ≡ pending cmd
      → (after : Run S) × (run_nmt run ≡ some after)
        × (after.mbox.lss_receiver ≡ run.mbox.lss_receiver)
  unfolding run_nmt take_message
  run_nmt-Returns run none e = simp e (run, refl, refl)
  run_nmt-Returns run (some cmd) e = simp (e, message_of-command_message cmd) (_, refl, refl)

  run_lss-Returns : (run : Run S) → run.mbox.lss_receiver.rx_req ≡ none → Returns (run_lss run)
  unfolding run_lss Lss.process
  run_lss-Returns run e = simp e (_, refl)

  run_sdo-Returns :
      (crc16 : Crc) (table : List (OdEntry S)) (elapsed : ℕ) (run : Run S)
      → run.mbox.sdo_receiver.request ≡ none
      → run.node.sdo_server ≡ SdoState.idle
      → (after : Run S) × (run_sdo crc16 table elapsed run ≡ some after)
        × (after.mbox.lss_receiver ≡ run.mbox.lss_receiver)
  unfolding run_sdo Server.process Server.update Idle.idle take_request
  run_sdo-Returns crc16 table elapsed run no_request is_idle =
      simp (is_idle, no_request) (_, refl, refl)

  leave_bootup-Returns :
      (table : List (OdEntry S)) (run : Run S)
      → Returns (read_identity table run.od)
      → Returns (leave_bootup table run)
  unfolding leave_bootup boot_up
  leave_bootup-Returns table run readable =
      Returns-if (in_nmt_state run.node.nmt_state NmtState.bootup) _ _
        (Returns-maybe (read_identity table run.od) _ readable (λ identity. (_, refl))) (run, refl)

  process-Returns :
      (crc16 : Crc) (table : List (OdEntry S)) (state : NodeStateAccess S) (events : ObjectEvents S)
      (now_us : ℕ) (node : Node S) (mbox : NodeMbox) (od : S) (cmd : Option NmtCommand)
      → IsQuiet node mbox cmd
      → Returns (read_identity table od)
      → Returns (process crc16 table state events now_us node mbox od)
  unfolding process run_protocols
  process-Returns crc16 table state events now_us node mbox od cmd (sdo, idle, lss, nmt) readable =
      let elapsed : ℕ = (now_us + 2 ^ 64 - node.last_process_time_us) % 2 ^ 64 % 2 ^ 32 in
      let start = begun now_us node mbox od in
      let (booted, boots) = leave_bootup-Returns table start readable in
      let (_, _, _, same_mail, same_sdo, same_lss, same_server) =
        leave_bootup-left table start booted boots in
      let (_, _, start_server) =
        start_automatically-settled crc16 table state events booted.node booted.node.node_id
          booted.node.auto_start refl refl in
      let (_, _, _, begun_server) = reassign-begun crc16 table state events now_us node in
      let ready : Run S = record booted { node = start_automatically booted.node } in
      let (served, serves, lss_same) =
        run_sdo-Returns crc16 table elapsed ready (ap (λ r. r.request) same_sdo ∙ sdo)
          (start_server ∙ same_server ∙ begun_server ∙ idle) in
      let kept = run_sdo-Keeps crc16 table elapsed ready served serves in
      let (obeyed, commands, lss_left) =
        run_nmt-Returns served cmd (kept.nmt_mbox_same ∙ same_mail ∙ nmt) in
      let (selected, selects) =
        run_lss-Returns obeyed (ap (λ r. r.rx_req) (lss_left ∙ lss_same ∙ same_lss) ∙ lss) in
      simp (boots, serves, commands, selects)
        (run_pdos-Returns state events crc16 table (run_heartbeat now_us selected))

  -- A node with no SDO transfer and no LSS request at hand, whose identity can be read, takes a command
  -- that reaches its mailbox: the next call of `process` returns, and the state of the node and its node
  -- ID are those of the NMT state machine that `next_state` writes out, for that command. An earlier
  -- command that is still in the mailbox is lost.
  pub process-store_message :
      (crc16 : Crc) (table : List (OdEntry S)) (state : NodeStateAccess S) (events : ObjectEvents S)
      (now_us : ℕ) (node : Node S) (mbox : NodeMbox) (od : S) (earlier : Option NmtCommand)
      (cmd : NmtCommand)
      → IsQuiet node mbox earlier
      → Returns (read_identity table od)
      → let stored = store_message state (command_message cmd) mbox od in
        (run : Run S) × (process crc16 table state events now_us node stored.mbox stored.od
          ≡ some run)
        × (run.node.nmt_state
            ≡ next_state node.node_id node.reassigned_node_id node.auto_start node.nmt_state
                (some cmd))
        × (run.node.node_id ≡ present_id node.node_id node.reassigned_node_id)
  unfolding store_message command_message
  process-store_message crc16 table state events now_us node mbox od earlier cmd quiet readable =
      let (sdo, idle, lss, nmt) = quiet in
      let after : NodeMbox = record mbox { nmt_mbox = pending (some cmd) } in
      let (run, returns) =
        process-Returns crc16 table state events now_us node after od (some cmd)
          (sdo, idle, lss, refl) readable in
      let (obeys, id, _) =
        process-commanded crc16 table state events now_us node after od (some cmd) run refl
          returns in
      (run, returns, obeys, id)
