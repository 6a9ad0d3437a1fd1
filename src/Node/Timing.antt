-- ===== src/Node/Timing.antt =====
-- What decides on heartbeats, and which parts of `Node::process` leave it.
use zencan.Base.{
  ℕ, ◌≡◌, refl, Option, none, some, Bool-cases, inl, inr, ◌&&◌, ◌||◌, ◌==◌, maybe, either, Result,
  ok, err,
}
use mathlib.Core.Path.{subst}
use zencan.Lss.{NodeId}
use zencan.Message.{ZencanMessage, message_of}
use zencan.Nmt.{NmtCommand}
use zencan.Node.Boot.{Run, start_automatically}
use zencan.Node.{Node, is_configured}
use zencan.Node.Phases.{Keeps, some_injective}
use zencan.Node.Process.{run_nmt, take_command, take_message}

module _ {S : Type 0} where
  -- What decides on heartbeats.
  abbrev pub timing : Node S → NodeId × ℕ × ℕ × ℕ
  timing node = (
    node.node_id, node.next_heartbeat_time_us, node.heartbeat_period_ms, node.last_process_time_us,
  )

  pub Keeps-timing : (run run' : Run S) → Keeps run run' → timing run'.node ≡ timing run.node
  Keeps-timing run run' k = rw (k.node_id_same, k.next_same, k.period_same, k.last_same) refl

  pub start_automatically-timing : (node : Node S) → timing (start_automatically node) ≡ timing node
  unfolding start_automatically
  start_automatically-timing node =
      elim (Bool-cases (node.auto_start && is_configured node.node_id)) [
        | inl starts ↦ simp starts refl
        | inr waits ↦ simp waits refl
      ]

  take_command-timing :
      (cmd : NmtCommand) (node : Node S) (node_id : NodeId)
      → node.node_id ≡ node_id
      → timing (take_command cmd node) ≡ timing node
  unfolding take_command
  take_command-timing cmd node NodeId.unconfigured e = rw e refl
  take_command-timing cmd node (NodeId.configured id) e =
      elim (Bool-cases ((cmd.node == 0) || (cmd.node == id))) [
        | inl addressed ↦ rw (e, addressed) refl
        | inr other ↦ rw (e, other) refl
      ]

  abbrev pub TimedBy : Run S → Option (Run S) → Type 0
  TimedBy run none = Unit {0}
  TimedBy run (some run') = timing run'.node ≡ timing run.node

  take_message-timing :
      (open_msg : ZencanMessage) (run : Run S)
      → timing (take_message open_msg run).node ≡ timing run.node
  unfolding take_message
  take_message-timing (ZencanMessage.nmt_command cmd) run =
      take_command-timing cmd run.node run.node.node_id refl
  take_message-timing _ run = refl

  TimedBy-maybe :
      {A : Type 0} (run : Run S) (o : Option A) (absent : Option (Run S))
      (next : A → Option (Run S))
      → TimedBy run absent
      → ((a : A) → TimedBy run (next a))
      → TimedBy run (maybe o absent next)
  TimedBy-maybe run none absent next k ks = k
  TimedBy-maybe run (some a) absent next k ks = ks a

  timing-either :
      {E A : Type 0} (run : Run S) (r : Result E A) (fail : E → Run S) (next : A → Run S)
      → ((e : E) → timing (fail e).node ≡ timing run.node)
      → ((a : A) → timing (next a).node ≡ timing run.node)
      → timing (either r fail next).node ≡ timing run.node
  timing-either run (err e) fail next k ks = k e
  timing-either run (ok a) fail next k ks = ks a

  pub run_nmt-TimedBy : (run : Run S) → TimedBy run (run_nmt run)
  unfolding run_nmt
  run_nmt-TimedBy run = TimedBy-maybe run run.mbox.nmt_mbox (some run) _ refl (λ msg.
      TimedBy-maybe run (message_of msg) none _ tt (λ converted.
        timing-either run converted _ _ (λ e. refl)
          (λ open_msg.
            take_message-timing open_msg
              (record run { mbox = record run.mbox { nmt_mbox = none } }))))

  pub TimedBy-some :
      (run run' : Run S) (o : Option (Run S))
      → TimedBy run o
      → o ≡ some run'
      → timing run'.node ≡ timing run.node
  TimedBy-some run run' none k h = absurd cc
  TimedBy-some run run' (some r) k h =
      subst (λ x. timing x.node ≡ timing run.node) (some_injective r run' h) k
