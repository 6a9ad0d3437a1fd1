-- ===== src/Lss/Master/Send.antt =====
-- What comes of one question of the fast scan to all slaves on the bus.
use zencan.Base.{
  ℕ, ◌<◌, ◌≡◌, ◌∙◌, ap, refl, Bool, true, List, [], ◌∷◌, map, some, arith, if◌then◌else◌,
  Bool-cases, inl, inr, All,
}
use zencan.Base.Bits.{IsU32}
use zencan.Base.Search.{any, map_fixed, All-imp}
use zencan.Can.{CanMessage}
use zencan.Sdo.Wire.{byte}
use zencan.Lss.{LssRequest}
use zencan.Lss.Message.Request.{to_can_message}
use zencan.Lss.Master.{LssMaster, has_identify, send_fs}
use zencan.Lss.Master.Bus.{Slave, bus, deliver_all}
use zencan.Lss.Master.Answer.{IsQuiet, hit, moved, asked, asked_bit, identify}

has_identify_one : (msgs : List CanMessage) → has_identify (identify ∷ msgs) ≡ true
unfolding has_identify identify
has_identify_one msgs = refl

-- The master's frame that a question is sent as.
abbrev question : ℕ → ℕ → ℕ → ℕ → CanMessage
question id bit_check sub next = to_can_message (LssRequest.fast_scan id bit_check sub next)

abbrev pub Predicts : ℕ → ℕ → ℕ → ℕ → (Slave → Bool) → (Slave → Slave) → Slave → Type 0
Predicts id bit_check sub next test step node =
    asked id bit_check sub next node
    ≡ some (if test node then identify ∷ [] else [], if test node then step node else node)

-- What all slaves do with a question, where it is known what one does.
deliver_all_lem :
    (id bit_check sub next : ℕ) (test : Slave → Bool) (step : Slave → Slave) (nodes : List Slave)
    → All (Predicts id bit_check sub next test step) nodes
    → (has_identify (deliver_all (question id bit_check sub next) nodes).0 ≡ any test nodes)
      × ((deliver_all (question id bit_check sub next) nodes).1
          ≡ map (λ node. if test node then step node else node) nodes)
unfolding deliver_all has_identify identify
deliver_all_lem id bit_check sub next test step [] all = (refl, refl)
deliver_all_lem id bit_check sub next test step (node ∷ nodes) all =
    let (heard, after) = deliver_all_lem id bit_check sub next test step nodes all.1 in
    rw all.0 (elim (Bool-cases (test node)) [
      | inl answers ↦ rw answers (refl, ap (◌∷◌ (step node)) after)
      | inr silent ↦ rw silent (heard, ap (◌∷◌ node) after)
    ])

-- A master with no frames left to read, on a bus with these slaves.
abbrev pub master : List Slave → LssMaster (List Slave)
master nodes = record { inbox = []; network = nodes }

abbrev pub hits : List ℕ → ℕ → ℕ → Slave → Bool
hits id bit_check sub node = hit (byte id sub) bit_check sub node.slave

abbrev pub step : ℕ → ℕ → ℕ → Slave → Slave
step bit_check sub next node = record node { slave = moved bit_check sub next node.slave }

pub sent :
    (id : List ℕ) (bit_check sub next : ℕ) (test : Slave → Bool) (act : Slave → Slave)
    (nodes : List Slave)
    → All (Predicts (byte id sub) bit_check sub next test act) nodes
    → send_fs bus id bit_check sub next (master nodes)
      ≡ (any test nodes, master (map (λ node. if test node then act node else node) nodes))
unfolding send_fs bus
sent id bit_check sub next test act nodes all =
    let (heard, after) = deliver_all_lem (byte id sub) bit_check sub next test act nodes all in
    rw (heard, after) refl

pub sent_bit :
    (id : List ℕ) (bit_check sub next : ℕ) (nodes : List Slave)
    → IsU32 (byte id sub)
    → bit_check < 32
    → sub < 4
    → All IsQuiet nodes
    → send_fs bus id bit_check sub next (master nodes) ≡ (
      any (hits id bit_check sub) nodes,
      master (
          map
            (λ node. if hits id bit_check sub node then step bit_check sub next node else node)
            nodes),
    )
sent_bit id bit_check sub next nodes hi hb hs quiet =
    sent id bit_check sub next (hits id bit_check sub) (step bit_check sub next) nodes (
      All-imp IsQuiet
        (Predicts (byte id sub) bit_check sub next (hits id bit_check sub)
          (step bit_check sub next))
        nodes (λ node q. asked_bit (byte id sub) bit_check sub next node hi hb hs q) quiet)

-- A question that names the word it is about as the next one leaves the slaves as they are.
stays :
    (id : List ℕ) (bit_check sub : ℕ) (node : Slave)
    → (if hits id bit_check sub node then step bit_check sub sub node else node) ≡ node
stays id bit_check sub node = ground arith

pub sent_same :
    (id : List ℕ) (bit_check sub : ℕ) (nodes : List Slave)
    → IsU32 (byte id sub)
    → bit_check < 32
    → sub < 4
    → All IsQuiet nodes
    → send_fs bus id bit_check sub sub (master nodes)
      ≡ (any (hits id bit_check sub) nodes, master nodes)
sent_same id bit_check sub nodes hi hb hs quiet =
    sent_bit id bit_check sub sub nodes hi hb hs quiet
    ∙ ap (λ ns. (any (hits id bit_check sub) nodes, master ns))
        (map_fixed
          (λ node. if hits id bit_check sub node then step bit_check sub sub node else node) IsQuiet
          nodes (λ node q. stays id bit_check sub node) quiet)
