-- ===== src/Node/Steps.antt =====
-- A call of `Node::process` that returns, as the sequence of its parts.
use zencan.Base.{ℕ, ◌+◌, ◌-◌, ◌%◌, ◌^◌, ◌≡◌, false, List, [], some}
use zencan.Dict.{OdEntry}
use zencan.Node.Boot.{Run, reassign, leave_bootup, start_automatically}
use zencan.Node.{NodeStateAccess, NodeMbox, Node}
use zencan.Node.Process.{run_sdo, run_nmt, run_lss, run_heartbeat, run_protocols, process}
use zencan.Node.Phases.{
  Keeps, run_sdo-Keeps, run_lss-Keeps, run_pdos-Keeps, maybe-some, some_injective,
}
use zencan.Pdo.{ObjectEvents}
use zencan.Server.State.{Crc}

-- The run with which a call begins.
abbrev pub begun : {S : Type 0} → ℕ → Node S → NodeMbox → S → Run S
begun now_us node mbox od = record {
  node = reassign (record node { last_process_time_us = now_us });
  mbox = mbox;
  od = od;
  sent = [];
  update_flag = false;
  stored_ids = [];
}

module _ {S : Type 0} (crc16 : Crc) (table : List (OdEntry S)) (state : NodeStateAccess S)
    (events : ObjectEvents S) where
  -- The runs after the parts of a call: each of those that the theorems name, and what the others keep.
  pub record Steps (now_us : ℕ) (node : Node S) (mbox : NodeMbox) (od : S) (run : Run S)
      : Type 0 where
    pub booted : Run S
    pub served : Run S
    pub commanded : Run S
    pub selected : Run S
    pub boots : leave_bootup table (begun now_us node mbox od) ≡ some booted
    pub serves : Keeps (record booted { node = start_automatically booted.node }) served
    pub commands : run_nmt served ≡ some commanded
    pub selects : Keeps commanded selected
    pub exchanges : Keeps (run_heartbeat now_us selected) run

  pub process-Steps :
      (now_us : ℕ) (node : Node S) (mbox : NodeMbox) (od : S) (run : Run S)
      → process crc16 table state events now_us node mbox od ≡ some run
      → Steps now_us node mbox od run
  unfolding process run_protocols
  process-Steps now_us node mbox od run h =
      let elapsed : ℕ = (now_us + 2 ^ 64 - node.last_process_time_us) % 2 ^ 64 % 2 ^ 32 in
      let start = begun now_us node mbox od in
      let (before, protocols, pdos) =
        maybe-some (run_protocols crc16 table state events now_us elapsed start) _ run h in
      let (booted, boots, h1) = maybe-some (leave_bootup table start) _ before protocols in
      let (served, serves, h2) =
        maybe-some
          (run_sdo crc16 table elapsed (record booted { node = start_automatically booted.node })) _
          before h1 in
      let (commanded, commands, h3) = maybe-some (run_nmt served) _ before h2 in
      let (selected, selects, h4) = maybe-some (run_lss commanded) _ before h3 in
      let last = some_injective (run_heartbeat now_us selected) before h4 in
      record {
        booted = booted;
        served = served;
        commanded = commanded;
        selected = selected;
        boots = boots;
        serves = run_sdo-Keeps crc16 table elapsed _ served serves;
        commands = commands;
        selects = run_lss-Keeps commanded selected selects;
        exchanges = run_pdos-Keeps crc16 table state events _ run (rw last pdos);
      }
