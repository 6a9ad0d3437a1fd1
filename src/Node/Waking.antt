-- ===== src/Node/Waking.antt =====
-- What booting and heartbeats leave as it is, and the state that booting ends in.
use zencan.Base.{
  ℕ, ◌≡◌, refl, Bool, true, false, Option, none, some, Bool-cases, if◌then◌else◌, inl, inr, maybe,
  List,
}
use mathlib.Core.Path.{subst}
use zencan.Dict.{OdEntry}
use zencan.Lss.{NodeId}
use zencan.Nmt.{NmtState}
use zencan.Node.Boot.{Run, leave_bootup, boot_up, send_heartbeat, in_nmt_state, heartbeat_with}
use zencan.Node.{is_configured, read_identity}
use zencan.Node.Phases.{some_injective}
use zencan.Node.Process.{run_heartbeat, catch_up}

-- What `leave_bootup` makes of the state.
unfoldable pub left_bootup : NmtState → NmtState
left_bootup nmt_state =
    if in_nmt_state nmt_state NmtState.bootup then NmtState.pre_operational else nmt_state

module _ {S : Type 0} where
  -- The parts that a heartbeat and booting leave.
  abbrev pub Stays : Run S → Run S → Type 0
  Stays run run' =
      (run'.node.nmt_state ≡ run.node.nmt_state)
      × (run'.node.node_id ≡ run.node.node_id)
      × (run'.node.auto_start ≡ run.node.auto_start)
      × (run'.mbox.nmt_mbox ≡ run.mbox.nmt_mbox)
      × (run'.mbox.sdo_receiver ≡ run.mbox.sdo_receiver)
      × (run'.mbox.lss_receiver ≡ run.mbox.lss_receiver)
      × (run'.node.sdo_server ≡ run.node.sdo_server)

  abbrev StaysBy : Run S → Option (Run S) → Type 0
  StaysBy run none = Unit {0}
  StaysBy run (some run') = Stays run run'

  Stays-if :
      (run : Run S) (test : Bool) (x y : Run S)
      → Stays run x
      → Stays run y
      → Stays run (if test then x else y)
  Stays-if run true x y k l = k
  Stays-if run false x y k l = l

  send_heartbeat-Stays :
      (run : Run S) (node_id : NodeId) → run.node.node_id ≡ node_id → Stays run (send_heartbeat run)
  unfolding send_heartbeat heartbeat_with
  send_heartbeat-Stays run NodeId.unconfigured e = rw e (refl, refl, refl, refl, refl, refl, refl)
  send_heartbeat-Stays run (NodeId.configured id) e =
      rw e (refl, refl, refl, refl, refl, refl, refl)

  StaysBy-maybe :
      {A : Type 0} (run : Run S) (o : Option A) (next : A → Option (Run S))
      → ((a : A) → StaysBy run (next a))
      → StaysBy run (maybe o none next)
  StaysBy-maybe run none next ks = tt
  StaysBy-maybe run (some a) next ks = ks a

  StaysBy-some :
      (run run' : Run S) (o : Option (Run S)) → StaysBy run o → o ≡ some run' → Stays run run'
  StaysBy-some run run' none k h = absurd cc
  StaysBy-some run run' (some r) k h = subst (λ x. Stays run x) (some_injective r run' h) k

  boot_up-Stays :
      (table : List (OdEntry S)) (run booted : Run S)
      → boot_up table run ≡ some booted
      → Stays run booted
  unfolding boot_up
  boot_up-Stays table run booted h =
      StaysBy-some run booted (boot_up table run)
        (StaysBy-maybe run (read_identity table run.od) _ (λ (identity, od).
          Stays-if run (is_configured run.node.node_id) _ _
            (send_heartbeat-Stays _ run.node.node_id refl)
            (refl, refl, refl, refl, refl, refl, refl)))
        h

  pub leave_bootup-left :
      (table : List (OdEntry S)) (run booted : Run S)
      → leave_bootup table run ≡ some booted
      → (booted.node.nmt_state ≡ left_bootup run.node.nmt_state)
        × (booted.node.node_id ≡ run.node.node_id)
        × (booted.node.auto_start ≡ run.node.auto_start)
        × (booted.mbox.nmt_mbox ≡ run.mbox.nmt_mbox)
        × (booted.mbox.sdo_receiver ≡ run.mbox.sdo_receiver)
        × (booted.mbox.lss_receiver ≡ run.mbox.lss_receiver)
        × (booted.node.sdo_server ≡ run.node.sdo_server)
  unfolding leave_bootup left_bootup
  leave_bootup-left table run booted h =
      elim (Bool-cases (in_nmt_state run.node.nmt_state NmtState.bootup)) [
        | inl boots ↦ simp boots (
            boot_up-Stays table
              (record run { node = record run.node { nmt_state = NmtState.pre_operational } })
              booted (simp boots at h))
        | inr awake ↦ simp awake (
            subst (λ r. Stays run r) (some_injective run booted (simp awake at h))
              (refl, refl, refl, refl, refl, refl, refl))
      ]

  pub run_heartbeat-Stays : (now_us : ℕ) (run : Run S) → Stays run (run_heartbeat now_us run)
  unfolding run_heartbeat catch_up
  run_heartbeat-Stays now_us run =
      Stays-if run _ _ run
        (Stays-if run _ _ _ (send_heartbeat-Stays run run.node.node_id refl)
          (send_heartbeat-Stays run run.node.node_id refl))
        (refl, refl, refl, refl, refl, refl, refl)
