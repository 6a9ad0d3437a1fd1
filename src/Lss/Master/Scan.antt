-- ===== src/Lss/Master/Scan.antt =====
-- The rounds of the fast scan, one for each word of an identity.
use mathlib.Core.Path.{subst}
use zencan.Base.{
  ℕ, zero, suc, ◌+◌, ◌%◌, ◌<◌, ◌≡◌, ◌∙◌, ap, sym, refl, true, false, List, [], ◌∷◌, map, Option,
  some, arith, ltb, ◌==◌, if◌then◌else◌, Bool-cases, ==_iff, inl, inr,
}
use zencan.Base.Search.{Any, any_of_Any, map-All, map-Any, All-imp}
use zencan.Sdo.Wire.{byte}
use zencan.Lss.{same_node, LssState, LssConfig}
use zencan.Lss.Master.{LssMaster, send_fs, scan_bits, scan_subs}
use zencan.Lss.Master.Bus.{Slave, bus}
use zencan.Lss.Master.Answer.{word, IsQuiet}
use zencan.Lss.Master.Send.{master, hits, step, sent_bit}
use zencan.Lss.Master.Words.{Before, Tracks, Agrees, IsScanned, scan_bits-IsScanned, hit_parts}

-- The answer to the last question about a word.
answered_step : List ℕ → ℕ → ℕ → Slave → Slave
answered_step id sub next node = if hits id 0 sub node then step 0 sub next node else node

abbrev pub configs : List Slave → List LssConfig
configs nodes = map (λ node. node.slave.config) nodes

pub configs-map :
    (f : Slave → Slave) (nodes : List Slave)
    → ((node : Slave) → (f node).slave.config ≡ node.slave.config)
    → configs (map f nodes) ≡ configs nodes
configs-map f [] keep = refl
configs-map f (node ∷ nodes) keep = rw (keep node, configs-map f nodes keep) refl

step-config :
    (id : List ℕ) (sub next : ℕ) (node : Slave)
    → (answered_step id sub next node).slave.config ≡ node.slave.config
unfolding answered_step
step-config id sub next node = ground arith

step-IsQuiet :
    (id : List ℕ) (sub next : ℕ) (node : Slave)
    → IsQuiet node
    → IsQuiet (answered_step id sub next node)
unfolding answered_step
step-IsQuiet id sub next node q = elim (Bool-cases (hits id 0 sub node)) [
  | inl answers ↦ rw answers (record {
    no_request = q.no_request;
    no_store = q.no_store;
    settled = q.settled;
    words = q.words;
  })
  | inr silent ↦ rw silent q
]

Agrees-hit :
    (id : List ℕ) (sub : ℕ) (node : Slave)
    → Tracks id sub node
    → Agrees id sub 0 node
    → hits id 0 sub node ≡ true
Agrees-hit id sub node t a =
    let l = a.listening in let h = a.here in let s = a.at_sub in ground arith

-- The words up to `sub`, where the slave has answered the last question about `sub`.
up_to :
    (id : List ℕ) (sub : ℕ) (node : Slave)
    → Tracks id sub node
    → hits id 0 sub node ≡ true
    → Before id (suc sub) node
up_to id sub node t h j below =
    let (listening, at, here) = hit_parts (byte id sub) 0 sub node.slave h in
    elim (Bool-cases (j == sub)) [
      | inl same ↦
          let e = (==_iff j sub).0 same in
          subst (λ k. word node.slave.config.identity k ≡ byte id k) (sym e) (omega arith)
      | inr other ↦ t.before listening at j (ground arith)
    ]

answered_hit :
    (id : List ℕ) (sub next : ℕ) (node : Slave)
    → hits id 0 sub node ≡ true
    → answered_step id sub next node ≡ step 0 sub next node
unfolding answered_step
answered_hit id sub next node h = rw h refl

not_back : (sub : ℕ) → ltb (suc sub) sub ≡ false
not_back sub = ground arith

module _ (id : List ℕ) (sub : ℕ) where
  next_Tracks :
      (node : Slave)
      → Tracks id sub node
      → Tracks id (suc sub) (answered_step id sub (suc sub) node)
  unfolding answered_step
  next_Tracks node t = elim (Bool-cases (hits id 0 sub node)) [
    | inl answers ↦ record {
      quiet = step-IsQuiet id sub (suc sub) node t.quiet;
      not_ahead = λ l. rw (answered_hit id sub (suc sub) node answers) (omega arith);
      before = λ l at j below.
          rw (step-config id sub (suc sub) node) (up_to id sub node t answers j below);
    }
    | inr silent ↦ silent_Tracks silent
  ]
    where
      silent_Tracks :
          hits id 0 sub node ≡ false → Tracks id (suc sub) (answered_step id sub (suc sub) node)
      silent_Tracks silent = rw silent (record {
        quiet = t.quiet;
        not_ahead = λ l. omega (arith, t.not_ahead l);
        before = λ l at. absurd (omega (arith, t.not_ahead l));
      })

  next_Agrees :
      (node : Slave)
      → Tracks id sub node
      → Agrees id sub 0 node
      → byte id (suc sub) ≡ 0
      → Agrees id (suc sub) 32 (answered_step id sub (suc sub) node)
  unfolding same_node
  next_Agrees node t a zero_word =
      let answers = Agrees-hit id sub node t a in
      rw (answered_hit id sub (suc sub) node answers) (record {
        listening = rw (not_back sub) a.listening;
        at_sub = refl;
        earlier = up_to id sub node t answers;
        here = rw zero_word (omega (arith, t.quiet.words (suc sub)));
      })

  next_IsScanned :
      (nodes : List Slave)
      → IsScanned id sub 0 nodes
      → IsScanned id (suc sub) 32 (map (answered_step id sub (suc sub)) nodes)
  next_IsScanned nodes s =
      let zero_word = s.later (suc sub) (omega arith) in
      record {
        four = s.four;
        low = rw zero_word refl;
        later = λ j h. s.later j (omega arith);
        in_range = s.in_range;
        tracked =
            map-All (answered_step id sub (suc sub)) (Tracks id sub) (Tracks id (suc sub)) nodes
              next_Tracks s.tracked;
        found =
            map-Any (answered_step id sub (suc sub)) (Tracks id sub) (Agrees id sub 0)
              (Agrees id (suc sub) 32) nodes (λ node t a. next_Agrees node t a zero_word) s.tracked
              s.found;
      }

  -- The master hears an answer to the last question about a word.
  last_answered :
      (next : ℕ) (nodes : List Slave)
      → sub < 4
      → IsScanned id sub 0 nodes
      → send_fs bus id 0 sub next (master nodes)
        ≡ (true, master (map (answered_step id sub next) nodes))
  unfolding answered_step
  last_answered next nodes hs s =
      sent_bit id 0 sub next nodes (s.in_range sub) (omega arith) hs
        (All-imp (Tracks id sub) IsQuiet nodes (λ node t. t.quiet) s.tracked)
      ∙ ap (λ b. (b, master (map (answered_step id sub next) nodes)))
          (any_of_Any (hits id 0 sub) (Tracks id sub) (Agrees id sub 0) nodes (Agrees-hit id sub)
            s.tracked s.found)

-- The slave has the words that were found, and is ready to be configured.
pub record IsFound (id : List ℕ) (node : Slave) : Type 0 where
  pub words_found : Before id 4 node
  pub configuring : node.slave.state ≡ LssState.configuring

last_IsFound :
    (id : List ℕ) (node : Slave)
    → Tracks id 3 node
    → Agrees id 3 0 node
    → IsFound id (answered_step id 3 0 node)
last_IsFound id node t a =
    let answers = Agrees-hit id 3 node t a in
    rw (answered_hit id 3 0 node answers)
      (record { words_found = up_to id 3 node t answers; configuring = refl })

-- What `scan_subs` ends with.
abbrev pub Scan : List LssConfig → Option (List ℕ) × LssMaster (List Slave) → Type 0
Scan before (result, m) =
    (id : List ℕ) × (nodes : List Slave) × (result ≡ some id)
    × (m ≡ master nodes)
    × (configs nodes ≡ before)
    × Any (IsFound id) nodes

-- One round: the bits of a word, and the last question about it.
round :
    (left sub after next : ℕ) (id : List ℕ) (nodes : List Slave)
    → sub < 4
    → sub + 1 ≡ after
    → (sub + 1) % 4 ≡ next
    → IsScanned id sub 32 nodes
    → (id1 : List ℕ) × IsScanned id1 sub 0 nodes
      × (scan_subs bus (suc left) sub sub id (master nodes)
          ≡ scan_subs bus left after next id1 (master (map (answered_step id1 sub next) nodes)))
unfolding scan_subs
round left sub after next id nodes hs plus wrap s =
    let (same_bus, found) = scan_bits-IsScanned 32 id sub nodes (omega arith) hs s in
    let id1 = (scan_bits bus 32 id sub sub (master nodes)).0 in
    let heard = last_answered id1 sub ((sub + 1) % 4) nodes hs found in
    (
      id1,
      found,
      rw (same_bus, heard)
          (ap
              (λ a.
                scan_subs bus left a ((sub + 1) % 4) id1
                  (master (map (answered_step id1 sub ((sub + 1) % 4)) nodes)))
              plus
            ∙ ap
                (λ n. scan_subs bus left after n id1 (master (map (answered_step id1 sub n) nodes)))
                wrap),
    )

last_Scan :
    (id : List ℕ) (nodes : List Slave)
    → IsScanned id 3 0 nodes
    → Scan (configs nodes) (scan_subs bus zero 4 0 id (master (map (answered_step id 3 0) nodes)))
unfolding scan_subs
last_Scan id nodes found = (
  id,
  map (answered_step id 3 0) nodes,
  refl,
  refl,
  configs-map (answered_step id 3 0) nodes (step-config id 3 0),
  map-Any (answered_step id 3 0) (Tracks id 3) (Agrees id 3 0) (IsFound id) nodes (last_IsFound id)
      found.tracked found.found,
)

pub rounds :
    (left sub : ℕ) (id : List ℕ) (nodes : List Slave)
    → sub + suc left ≡ 4
    → IsScanned id sub 32 nodes
    → Scan (configs nodes) (scan_subs bus (suc left) sub sub id (master nodes))
rounds (suc left) sub id nodes e s =
    let (id1, found, run) =
      round (suc left) sub (suc sub) (suc sub) id nodes (omega arith) (omega arith) (omega arith)
        s in
    let nodes1 = map (answered_step id1 sub (suc sub)) nodes in
    subst (Scan (configs nodes)) (sym run) (
      subst
        (λ before. Scan before (scan_subs bus (suc left) (suc sub) (suc sub) id1 (master nodes1)))
        (configs-map (answered_step id1 sub (suc sub)) nodes (step-config id1 sub (suc sub)))
        (rounds left (suc sub) id1 nodes1 (omega arith) (next_IsScanned id1 sub nodes found)))
rounds zero sub id nodes e s =
    let three : sub ≡ 3 = omega arith in
    let (id1, found, run) =
      round zero 3 4 0 id nodes (omega arith) refl refl
        (subst (λ k. IsScanned id k 32 nodes) three s) in
    subst (λ k. Scan (configs nodes) (scan_subs bus 1 k k id (master nodes))) (sym three)
      (subst (Scan (configs nodes)) (sym run) (last_Scan id1 nodes found))
