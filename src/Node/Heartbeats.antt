-- ===== src/Node/Heartbeats.antt =====
-- When `Node::process` sends heartbeats.
use zencan.Base.{
  ℕ, ◌+◌, ◌*◌, ◌%◌, ◌^◌, ◌≤◌, ◌<◌, ◌≡◌, refl, sym, ap, ◌∙◌, Bool, true, false, List, [], ◌∷◌, ◌++◌,
  none, some, Bool-cases, inl, inr, leb, ltb, ◌==◌, arith, append_assoc,
}
use mathlib.Core.Path.{subst}
use zencan.Can.{CanMessage}
use zencan.Dict.{OdEntry}
use zencan.Lss.{NodeId}
use zencan.Nmt.{NmtState, heartbeat_message}
use zencan.Node.Boot.{Run, reassign, leave_bootup, send_heartbeat, in_nmt_state, heartbeat_with}
use zencan.Node.{NodeStateAccess, NodeMbox, Node}
use zencan.Node.Phases.{Keeps, some_injective}
use zencan.Node.Process.{run_nmt, run_heartbeat, catch_up, process}
use zencan.Node.Steps.{begun, process-Steps}
use zencan.Pdo.{ObjectEvents}
use zencan.Server.State.{Crc}
use zencan.Node.Timing.{
  timing, Keeps-timing, start_automatically-timing, run_nmt-TimedBy, TimedBy-some,
}

-- The frames have a heartbeat of the node among them, with the state that it is in.
abbrev pub Beats : {S : Type 0} → ℕ → Run S → Type 0
Beats id run =
    (earlier later : List CanMessage) × (toggle : Bool) × (run.sent
      ≡ earlier
        ++ (heartbeat_message (record { node = id; toggle = toggle; state = run.node.nmt_state })
            ∷ later))

-- The next heartbeat is due at most one period after the last call.
abbrev pub IsPaced : {S : Type 0} → Node S → Type 0
IsPaced node =
    node.next_heartbeat_time_us ≤ node.last_process_time_us + node.heartbeat_period_ms * 1000

module _ {S : Type 0} where
  send_heartbeat_configured :
      (run : Run S) (id : ℕ)
      → run.node.node_id ≡ NodeId.configured id
      → send_heartbeat run ≡ heartbeat_with id run
  unfolding send_heartbeat
  send_heartbeat_configured run id named = rw named refl

  run_heartbeat_due :
      (now_us : ℕ) (run : Run S) (id : ℕ)
      → run.node.node_id ≡ NodeId.configured id
      → 0 < run.node.heartbeat_period_ms
      → run.node.next_heartbeat_time_us ≤ now_us
      → run_heartbeat now_us run ≡ catch_up now_us (heartbeat_with id run)
  unfolding run_heartbeat
  run_heartbeat_due now_us run id named period due =
      let on : (run.node.heartbeat_period_ms == 0) ≡ false = ground arith in
      let is_due : leb run.node.next_heartbeat_time_us now_us ≡ true = ground arith in
      simp (on, is_due) (ap (catch_up now_us) (send_heartbeat_configured run id named))

  run_heartbeat_later :
      (now_us : ℕ) (run : Run S)
      → now_us < run.node.next_heartbeat_time_us
      → run_heartbeat now_us run ≡ run
  unfolding run_heartbeat
  run_heartbeat_later now_us run later =
      let is_later : leb run.node.next_heartbeat_time_us now_us ≡ false = ground arith in
      elim (Bool-cases (run.node.heartbeat_period_ms == 0)) [
        | inl off ↦ simp (off, is_later) refl
        | inr on ↦ simp (on, is_later) refl
      ]

  catch_up-IsPaced :
      (now_us : ℕ) (run : Run S) (id : ℕ)
      → run.node.last_process_time_us ≡ now_us
      → run.node.next_heartbeat_time_us ≤ now_us
      → now_us + run.node.heartbeat_period_ms * 1000 < 2 ^ 64
      → IsPaced (catch_up now_us (heartbeat_with id run)).node
        × (now_us ≤ (catch_up now_us (heartbeat_with id run)).node.next_heartbeat_time_us)
        × Beats id (catch_up now_us (heartbeat_with id run))
  unfolding heartbeat_with catch_up
  catch_up-IsPaced now_us run id last due small =
      let wrap : (run.node.next_heartbeat_time_us + run.node.heartbeat_period_ms * 1000) % 2 ^ 64
          ≡ run.node.next_heartbeat_time_us + run.node.heartbeat_period_ms * 1000 =
        omega arith in
      elim (Bool-cases
        (ltb (run.node.next_heartbeat_time_us + run.node.heartbeat_period_ms * 1000) now_us)) [
          | inl behind ↦
              simp (wrap, behind)
                (omega arith, omega arith, (run.sent, [], run.node.heartbeat_toggle, refl))
          | inr ahead ↦
              let enough : now_us
                  ≤ run.node.next_heartbeat_time_us + run.node.heartbeat_period_ms * 1000 =
                ground arith in
              simp (wrap, ahead)
                (omega arith, enough, (run.sent, [], run.node.heartbeat_toggle, refl))
        ]

  reassign_kept : (node : Node S) → node.reassigned_node_id ≡ none → reassign node ≡ node
  unfolding reassign
  reassign_kept node kept = simp kept refl

  leave_bootup_awake :
      (table : List (OdEntry S)) (run booted : Run S)
      → in_nmt_state run.node.nmt_state NmtState.bootup ≡ false
      → leave_bootup table run ≡ some booted
      → run ≡ booted
  unfolding leave_bootup
  leave_bootup_awake table run booted awake h = some_injective run booted (simp awake at h)

  Keeps-IsPaced :
      (now_us : ℕ) (run run' : Run S)
      → Keeps run run'
      → IsPaced run.node
      → now_us ≤ run.node.next_heartbeat_time_us
      → IsPaced run'.node × (now_us ≤ run'.node.next_heartbeat_time_us)
  Keeps-IsPaced now_us run run' k paced later =
      rw (k.next_same, k.period_same, k.last_same) (paced, later)

  Keeps-Beats : (id : ℕ) (run run' : Run S) → Keeps run run' → Beats id run → Beats id run'
  Keeps-Beats id run run' k (earlier, later, toggle, e) =
      let (more, grown) = k.sent_more in
      rw k.nmt_state_same (
        earlier,
        later ++ more,
        toggle,
        grown ∙ ap (λ sent. sent ++ more) e ∙ append_assoc earlier _ more,
      )

  heartbeat-IsPaced :
      (now_us : ℕ) (selected run : Run S) (id : ℕ)
      → selected.node.node_id ≡ NodeId.configured id
      → selected.node.last_process_time_us ≡ now_us
      → 0 < selected.node.heartbeat_period_ms
      → IsPaced selected.node
      → now_us + selected.node.heartbeat_period_ms * 1000 < 2 ^ 64
      → Keeps (run_heartbeat now_us selected) run
      → IsPaced run.node
        × (now_us ≤ run.node.next_heartbeat_time_us)
        × (selected.node.next_heartbeat_time_us ≤ now_us → Beats id run)
  heartbeat-IsPaced now_us selected run id named last period paced small keeps =
      elim (Bool-cases (ltb now_us selected.node.next_heartbeat_time_us)) [
        | inl later ↦
            let is_later : now_us < selected.node.next_heartbeat_time_us = ground arith in
            let kept =
              subst (λ r. Keeps r run) (run_heartbeat_later now_us selected is_later) keeps in
            let (paced', ahead) = Keeps-IsPaced now_us selected run kept paced (omega arith) in
            (paced', ahead, λ due. absurd (omega arith))
        | inr due ↦
            let is_due : selected.node.next_heartbeat_time_us ≤ now_us = ground arith in
            let kept =
              subst (λ r. Keeps r run) (run_heartbeat_due now_us selected id named period is_due)
                keeps in
            let (paced_then, ahead_then, beats) =
              catch_up-IsPaced now_us selected id last is_due small in
            let (paced', ahead) = Keeps-IsPaced now_us _ run kept paced_then ahead_then in
            (paced', ahead, λ is_due. Keeps-Beats id _ run kept beats)
      ]

  -- A configured node that does not boot, of which the next heartbeat is due at most one period after
  -- its last call, sends a heartbeat with its state whenever a call of `process` comes when it is due;
  -- after the call the next one is due not before the call and at most one period after it. Times are
  -- below 2^64, and the call returns.
  pub process-IsPaced :
      (crc16 : Crc) (table : List (OdEntry S)) (state : NodeStateAccess S) (events : ObjectEvents S)
      (now_us : ℕ) (node : Node S) (mbox : NodeMbox) (od : S) (run : Run S) (id : ℕ)
      → node.node_id ≡ NodeId.configured id
      → node.reassigned_node_id ≡ none
      → in_nmt_state node.nmt_state NmtState.bootup ≡ false
      → 0 < node.heartbeat_period_ms
      → IsPaced node
      → node.last_process_time_us ≤ now_us
      → now_us + node.heartbeat_period_ms * 1000 < 2 ^ 64
      → process crc16 table state events now_us node mbox od ≡ some run
      → IsPaced run.node
        × (now_us ≤ run.node.next_heartbeat_time_us)
        × (node.next_heartbeat_time_us ≤ now_us → Beats id run)
  process-IsPaced crc16 table state events now_us node mbox od run id named kept awake period paced
        later small h =
      let steps = process-Steps crc16 table state events now_us node mbox od run h in
      let start : Run S = begun now_us node mbox od in
      let begins : start.node ≡ record node { last_process_time_us = now_us } =
        reassign_kept (record node { last_process_time_us = now_us }) kept in
      let booted = leave_bootup_awake table start steps.booted (rw begins awake) steps.boots in
      let same : timing steps.selected.node ≡ timing start.node =
        Keeps-timing steps.commanded steps.selected steps.selects
        ∙ TimedBy-some steps.served steps.commanded (run_nmt steps.served)
            (run_nmt-TimedBy steps.served) steps.commands
        ∙ Keeps-timing _ steps.served steps.serves
        ∙ start_automatically-timing steps.booted.node
        ∙ ap (λ r. timing r.node) (sym booted) in
      let all : timing steps.selected.node
          ≡ (NodeId.configured id, node.next_heartbeat_time_us, node.heartbeat_period_ms, now_us) =
        same
        ∙ ap timing begins
        ∙ ap (λ i. (i, node.next_heartbeat_time_us, node.heartbeat_period_ms, now_us)) named in
      let id_now = ap (λ (i, n, p, l). i) all in
      let next_now = ap (λ (i, n, p, l). n) all in
      let period_now = ap (λ (i, n, p, l). p) all in
      let last_now = ap (λ (i, n, p, l). l) all in
      let (paced_after, ahead, beats) =
        heartbeat-IsPaced now_us steps.selected run id id_now last_now (omega arith) (omega arith)
          (omega arith) steps.exchanges in
      (paced_after, ahead, λ due. beats (omega arith))
