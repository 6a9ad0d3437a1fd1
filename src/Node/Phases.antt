-- ===== src/Node/Phases.antt =====
-- What the parts of `Node::process` leave as it is.
use zencan.Base.{
  ℕ, ◌≡◌, refl, ◌∙◌, sym, ap, List, [], ◌∷◌, ◌++◌, Option, none, some, Result, maybe, either,
  append-nil, append_assoc, Bool, Bool-cases, true, false, if◌then◌else◌, ok, err, inl, inr,
}
use mathlib.Core.Path.{subst}
use zencan.Can.{CanMessage, lss_resp_id}
use zencan.Lss.{LssEvent}
use zencan.Dict.{OdEntry}
use zencan.Node.Boot.{Run, in_nmt_state, sdo_tx_cob_id}
use zencan.Node.{NodeStateAccess}
use zencan.Node.Process.{run_sdo, take_event, run_lss, run_pdos}
use zencan.Pdo.{ObjectEvents}
use zencan.Lss
use zencan.Lss.Message.Response
use zencan.Lss.{NodeId, LssSlave, LssReceiver}
use zencan.Nmt.{NmtState}
use zencan.Node.Pdos.{process_pdos}
use zencan.Node.{set_node_id}
use zencan.Sdo.Response.Encode.{to_can_message}
use zencan.Server
use zencan.Server.Receiver.{SdoReceiver}
use zencan.Server.State.{SdoState}
use zencan.Server.State.{Crc}

-- To undo a step that may panic.
pub maybe-some :
    {A B : Type 0} (o : Option A) (next : A → Option B) (b : B)
    → maybe o none next ≡ some b
    → (a : A) × (o ≡ some a) × (next a ≡ some b)
maybe-some none next b h = absurd cc
maybe-some (some a) next b h = (a, refl, h)

-- The parts of the state that only NMT, booting and heartbeats touch; and frames are only added.
pub record Keeps {S : Type 0} (run run' : Run S) : Type 0 where
  pub nmt_state_same : run'.node.nmt_state ≡ run.node.nmt_state
  pub node_id_same : run'.node.node_id ≡ run.node.node_id
  pub next_same : run'.node.next_heartbeat_time_us ≡ run.node.next_heartbeat_time_us
  pub period_same : run'.node.heartbeat_period_ms ≡ run.node.heartbeat_period_ms
  pub last_same : run'.node.last_process_time_us ≡ run.node.last_process_time_us
  pub nmt_mbox_same : run'.mbox.nmt_mbox ≡ run.mbox.nmt_mbox
  pub cob_id_same : run'.mbox.sdo_cob_id ≡ run.mbox.sdo_cob_id
  pub sent_more : (more : List CanMessage) × (run'.sent ≡ run.sent ++ more)

pub some_injective : {A : Type 0} (a b : A) → some a ≡ some b → a ≡ b
some_injective a b h = cc

module _ {S : Type 0} where
  -- Where a step gives a run, it keeps those parts.
  abbrev KeptBy : Run S → Option (Run S) → Type 0
  KeptBy run none = Unit {0}
  KeptBy run (some run') = Keeps run run'

  KeptBy-some :
      (run run' : Run S) (o : Option (Run S)) → KeptBy run o → o ≡ some run' → Keeps run run'
  KeptBy-some run run' none k h = absurd cc
  KeptBy-some run run' (some r) k h = subst (λ x. Keeps run x) (some_injective r run' h) k

  KeptBy-maybe :
      {A : Type 0} (run : Run S) (o : Option A) (absent : Option (Run S))
      (next : A → Option (Run S))
      → KeptBy run absent
      → ((a : A) → KeptBy run (next a))
      → KeptBy run (maybe o absent next)
  KeptBy-maybe run none absent next k ks = k
  KeptBy-maybe run (some a) absent next k ks = ks a

  Keeps-if :
      (run : Run S) (test : Bool) (x y : Run S)
      → Keeps run x
      → Keeps run y
      → Keeps run (if test then x else y)
  Keeps-if run true x y k l = k
  Keeps-if run false x y k l = l

  Keeps-maybe :
      {A : Type 0} (run : Run S) (o : Option A) (absent : Run S) (next : A → Run S)
      → Keeps run absent
      → ((a : A) → Keeps run (next a))
      → Keeps run (maybe o absent next)
  Keeps-maybe run none absent next k ks = k
  Keeps-maybe run (some a) absent next k ks = ks a

  Keeps-either :
      {E A : Type 0} (run : Run S) (r : Result E A) (fail : E → Run S) (next : A → Run S)
      → ((e : E) → Keeps run (fail e))
      → ((a : A) → Keeps run (next a))
      → Keeps run (either r fail next)
  Keeps-either run (err e) fail next k ks = k e
  Keeps-either run (ok a) fail next k ks = ks a

  -- A run that differs from another in other parts.
  abbrev changed :
      Run S
      → SdoState S
      → LssSlave
      → Option NodeId
      → SdoReceiver
      → LssReceiver
      → Bool
      → S
      → List CanMessage
      → Bool
      → List NodeId
      → Run S
  changed run server slave reassigned rx lss_rx sync od sent updated stored = record run {
    node = record run.node {
      sdo_server = server;
      lss_slave = slave;
      reassigned_node_id = reassigned;
    };
    mbox = record run.mbox { sdo_receiver = rx; lss_receiver = lss_rx; sync_flag = sync };
    od = od;
    sent = sent;
    update_flag = updated;
    stored_ids = stored;
  }

  keeps :
      (run : Run S) (server : SdoState S) (slave : LssSlave) (reassigned : Option NodeId)
      (rx : SdoReceiver) (lss_rx : LssReceiver) (sync : Bool) (od : S) (sent : List CanMessage)
      (updated : Bool) (stored : List NodeId) (more : List CanMessage)
      → sent ≡ run.sent ++ more
      → Keeps run (changed run server slave reassigned rx lss_rx sync od sent updated stored)
  keeps run server slave reassigned rx lss_rx sync od sent updated stored more e = record {
    nmt_state_same = refl;
    node_id_same = refl;
    next_same = refl;
    period_same = refl;
    last_same = refl;
    nmt_mbox_same = refl;
    cob_id_same = refl;
    sent_more = (more, e);
  }

  pub run_sdo-Keeps :
      (crc16 : Crc) (table : List (OdEntry S)) (elapsed : ℕ) (run run' : Run S)
      → run_sdo crc16 table elapsed run ≡ some run'
      → Keeps run run'
  unfolding run_sdo
  run_sdo-Keeps crc16 table elapsed run run' h =
      KeptBy-some run run' (run_sdo crc16 table elapsed run)
        (KeptBy-maybe run
          (Server.process crc16 table
            (record { state = run.node.sdo_server; rx = run.mbox.sdo_receiver; od = run.od })
            elapsed)
          none _ tt
          (λ p.
            KeptBy-maybe run p.response _ _
              (keeps run _ _ _ _ _ _ _ _ _ _ [] (sym (append-nil run.sent)))
              (λ resp.
                KeptBy-maybe run (to_can_message resp (sdo_tx_cob_id run.node.node_id)) none _ tt
                  (λ msg. keeps run _ _ _ _ _ _ _ _ _ _ (msg ∷ []) refl))))
        h

  -- What an event changes.
  take_event-Keeps : (event : Option LssEvent) (run : Run S) → Keeps run (take_event event run)
  unfolding take_event set_node_id
  take_event-Keeps none run = keeps run _ _ _ _ _ _ _ _ _ _ [] (sym (append-nil run.sent))
  take_event-Keeps (some LssEvent.store_configuration) run =
      Keeps-if run run.node.store_node_config _ _
        (keeps run _ _ _ _ _ _ _ _ _ _ [] (sym (append-nil run.sent)))
        (keeps run _ _ _ _ _ _ _ _ _ _ [] (sym (append-nil run.sent)))
  take_event-Keeps (some (LssEvent.activate_bit_timing table index delay)) run =
      keeps run _ _ _ _ _ _ _ _ _ _ [] (sym (append-nil run.sent))
  take_event-Keeps (some (LssEvent.configure_node_id node_id)) run =
      keeps run _ _ _ _ _ _ _ _ _ _ [] (sym (append-nil run.sent))

  pub Keeps-trans : (a b c : Run S) → Keeps a b → Keeps b c → Keeps a c
  Keeps-trans a b c k l = record {
    nmt_state_same = l.nmt_state_same ∙ k.nmt_state_same;
    node_id_same = l.node_id_same ∙ k.node_id_same;
    next_same = l.next_same ∙ k.next_same;
    period_same = l.period_same ∙ k.period_same;
    last_same = l.last_same ∙ k.last_same;
    nmt_mbox_same = l.nmt_mbox_same ∙ k.nmt_mbox_same;
    cob_id_same = l.cob_id_same ∙ k.cob_id_same;
    sent_more = (
      k.sent_more.0 ++ l.sent_more.0,
      l.sent_more.1
          ∙ ap (λ sent. sent ++ l.sent_more.0) k.sent_more.1
          ∙ append_assoc a.sent k.sent_more.0 l.sent_more.0,
    );
  }

  pub run_lss-Keeps : (run run' : Run S) → run_lss run ≡ some run' → Keeps run run'
  unfolding run_lss
  run_lss-Keeps run run' h =
      KeptBy-some run run' (run_lss run)
        (KeptBy-maybe run (Lss.process run.mbox.lss_receiver run.node.lss_slave).1 none _ tt
          (λ (result, slave).
            Keeps-either run result _ _
              (λ e. keeps run _ _ _ _ _ _ _ _ _ _ [] (sym (append-nil run.sent)))
              (λ response.
                Keeps-maybe run response _ _
                  (keeps run _ _ _ _ _ _ _ _ _ _ [] (sym (append-nil run.sent)))
                  (λ resp.
                    Keeps-trans run _ _
                      (keeps run _ _ _ _ _ _ _ _ _ _ (Response.to_can_message resp lss_resp_id ∷ [])
                        refl)
                      (take_event-Keeps (Lss.pending_event slave).0 _)))))
        h

  pub run_pdos-Keeps :
      (crc16 : Crc) (table : List (OdEntry S)) (state : NodeStateAccess S) (events : ObjectEvents S)
      (run run' : Run S)
      → run_pdos crc16 table state events run ≡ some run'
      → Keeps run run'
  unfolding run_pdos
  run_pdos-Keeps crc16 table state events run run' h =
      KeptBy-some run run' (run_pdos crc16 table state events run)
        (elim (Bool-cases (in_nmt_state run.node.nmt_state NmtState.operational)) [
          | inr idle ↦ rw idle (keeps run _ _ _ _ _ _ _ _ _ _ [] (sym (append-nil run.sent)))
          | inl operational ↦ rw operational (
              KeptBy-maybe run (process_pdos state events run.mbox.sync_flag run.od) none _ tt
                (λ (sent, updated, od). keeps run _ _ _ _ _ _ _ _ _ _ sent refl))
        ])
        h
