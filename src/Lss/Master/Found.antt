-- ===== src/Lss/Master/Found.antt =====
-- The fast scan as a whole: on a bus with slaves that have no node ID, the identity that the master puts
-- together bit by bit is that of one of them, which is then ready to be configured.
use zencan.Base.{
  ℕ, zero, suc, ◌≡◌, ◌∙◌, refl, Bool, true, false, List, [], ◌∷◌, map, none, some, arith,
  if◌then◌else◌, Bool-cases, inl, inr, All,
}
use zencan.Base.Search.{
  any, Any, any_of_Any, any_none, map-All, map-Any, map_fixed, All-imp, Any-imp,
}
use zencan.Sdo.Wire.{byte}
use zencan.Lss.{same_node, by_addr, LssIdentity, LssState}
use zencan.Lss.Master.{send_fs, fast_scan}
use zencan.Lss.Master.Bus.{Slave, bus}
use zencan.Lss.Master.Answer.{listens, IsQuiet, rewound, asked_confirm}
use zencan.Lss.Master.Send.{master, sent, Predicts}
use zencan.Lss.Master.Words.{Tracks, Agrees, IsScanned}
use zencan.Lss.Master.Scan.{configs, configs-map, rounds, IsFound}

abbrev hears : Slave → Bool
hears node = listens node.slave

abbrev back : Slave → Slave
back node = record node { slave = rewound node.slave }

-- What a slave does when the scan begins.
begun : Slave → Slave
begun node = if hears node then back node else node

abbrev zeros : List ℕ
zeros = 0 ∷ 0 ∷ 0 ∷ 0 ∷ []

begin_sent :
    (nodes : List Slave)
    → All IsQuiet nodes
    → send_fs bus zeros 0x80 0 0 (master nodes) ≡ (any hears nodes, master (map begun nodes))
unfolding begun
begin_sent nodes quiet = sent zeros 0x80 0 0 hears back nodes (
    All-imp IsQuiet (Predicts 0 0x80 0 0 hears back) nodes
      (λ node q. asked_confirm 0 node (omega arith) q) quiet)

begun-config : (node : Slave) → (begun node).slave.config ≡ node.slave.config
unfolding begun
begun-config node = ground arith

begun-IsQuiet : (node : Slave) → IsQuiet node → IsQuiet (begun node)
unfolding begun
begun-IsQuiet node q = elim (Bool-cases (hears node)) [
  | inl hearing ↦ rw hearing (record {
    no_request = q.no_request;
    no_store = q.no_store;
    settled = q.settled;
    words = q.words;
  })
  | inr deaf ↦ rw deaf q
]

begun_sub :
    (node : Slave) → listens (begun node).slave ≡ true → (begun node).slave.fast_scan_sub ≡ 0
unfolding begun same_node
begun_sub node h = ground arith

begun_listens : (node : Slave) → hears node ≡ true → hears (begun node) ≡ true
unfolding begun same_node
begun_listens node h = ground arith

byte-zeros : (j : ℕ) → byte zeros j ≡ 0
byte-zeros zero = refl
byte-zeros (suc zero) = refl
byte-zeros (suc (suc zero)) = refl
byte-zeros (suc (suc (suc zero))) = refl
byte-zeros (suc (suc (suc (suc j)))) = refl

begun-Tracks : (node : Slave) → IsQuiet node → Tracks zeros 0 (begun node)
begun-Tracks node q = record {
  quiet = begun-IsQuiet node q;
  not_ahead = λ l. omega (arith, begun_sub node l);
  before = λ l at j below. absurd (omega arith);
}

begun-Agrees : (node : Slave) → IsQuiet node → hears node ≡ true → Agrees zeros 0 32 (begun node)
begun-Agrees node q h = record {
  listening = begun_listens node h;
  at_sub = begun_sub node (begun_listens node h);
  earlier = λ j below. absurd (omega arith);
  here = rw (begun-config node) (omega (arith, q.words 0));
}

begun-IsScanned :
    (nodes : List Slave)
    → All IsQuiet nodes
    → Any (λ node. hears node ≡ true) nodes
    → IsScanned zeros 0 32 (map begun nodes)
begun-IsScanned nodes quiet heard = record {
  four = refl;
  low = refl;
  later = λ j h. byte-zeros j;
  in_range = λ j. rw (byte-zeros j) (omega arith);
  tracked = map-All begun IsQuiet (Tracks zeros 0) nodes begun-Tracks quiet;
  found =
      map-Any begun IsQuiet (λ node. hears node ≡ true) (Agrees zeros 0 32) nodes begun-Agrees quiet
        heard;
}

-- The identity that the words make up.
identity_of : List ℕ → LssIdentity
identity_of id = record {
  vendor_id = byte id 0;
  product_code = byte id 1;
  revision = byte id 2;
  serial = byte id 3;
}

IsFound-identity :
    (id : List ℕ) (node : Slave)
    → IsFound id node
    → (node.slave.config.identity ≡ identity_of id) × (node.slave.state ≡ LssState.configuring)
unfolding identity_of by_addr
IsFound-identity id node f =
    let w0 = f.words_found 0 (omega arith) in
    let w1 = f.words_found 1 (omega arith) in
    let w2 = f.words_found 2 (omega arith) in
    let w3 = f.words_found 3 (omega arith) in let c = f.configuring in ground arith

-- On a bus with at least one waiting slave that has no node ID, and with slaves that have no event to
-- raise, the fast scan ends with an identity. The slaves keep their configuration, and one of them has
-- that identity and is then in the state `Configuring`.
pub fast_scan-Any :
    (nodes : List Slave)
    → All IsQuiet nodes
    → Any (λ node. listens node.slave ≡ true) nodes
    → (identity : LssIdentity) × (nodes' : List Slave) × (fast_scan bus (master nodes)
        ≡ (some identity, master nodes'))
      × (configs nodes' ≡ configs nodes)
      × Any
          (λ node.
            (node.slave.config.identity ≡ identity) × (node.slave.state ≡ LssState.configuring))
          nodes'
unfolding fast_scan identity_of
fast_scan-Any nodes quiet heard =
    let start = begin_sent nodes quiet in
    let some_one : any hears nodes ≡ true =
      any_of_Any hears IsQuiet (λ node. hears node ≡ true) nodes (λ node q h. h) quiet heard in
    let (id, nodes', found, bus', kept, at_one) =
      rounds 3 0 zeros (map begun nodes) refl (begun-IsScanned nodes quiet heard) in
    (
      identity_of id,
      nodes',
      rw (start, some_one, found, bus') refl,
      kept ∙ configs-map begun nodes begun-config,
      Any-imp (IsFound id)
          (λ node.
            (node.slave.config.identity ≡ identity_of id)
            × (node.slave.state ≡ LssState.configuring))
          nodes' (IsFound-identity id) at_one,
    )

-- With no waiting slave without a node ID, the fast scan finds nothing, and the slaves stay as they are.
pub fast_scan-none :
    (nodes : List Slave)
    → All IsQuiet nodes
    → All (λ node. listens node.slave ≡ false) nodes
    → fast_scan bus (master nodes) ≡ (none, master nodes)
unfolding fast_scan begun
fast_scan-none nodes quiet deaf =
    let no_one = any_none hears (λ node. hears node ≡ false) nodes (λ node h. h) deaf in
    let stay = map_fixed begun (λ node. hears node ≡ false) nodes (λ node h. rw h refl) deaf in
    rw (begin_sent nodes quiet, no_one, stay) refl
