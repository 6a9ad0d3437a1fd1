-- ===== src/Lss/Master/Answer.antt =====
-- How one slave answers a request of the fast scan.
use zencan.Base.{
  ℕ, ◌-◌, ◌*◌, ◌/◌, ◌%◌, ◌^◌, ◌<◌, ◌≡◌, ◌∙◌, ap, sym, refl, Bool, true, false, ◌&&◌, List, [], ◌∷◌,
  Option, none, some, ok, maybe, arith, bit_and, ltb, ◌==◌, if◌then◌else◌,
}
use native.Mathlib.Nat.{div-lt_iff_lt-mul, mod-eq_of_lt, mul-div_cancel}
use zencan.Base.Bits.{IsU32, bit_and_shift, bit_and_ones, all_below, all_below_sound}
use zencan.Can.{CanMessage, payload, same_id, lss_req_id, lss_resp_id}
use zencan.Lss.{
  NodeId, LssIdentity, LssState, LssRequest, LssResponse, LssReceiver, LssSlave, by_addr, mask_of,
  same_node, in_state, process, process_request, scan, handle_req, pending_event,
}
use zencan.Lss.Message.Request.{from_bytes, from_bytes-bytes, to_can_message as to_frame}
use zencan.Lss.Message.Response.{to_can_message}
use zencan.Lss.Master.Bus.{Slave, store_lss, run_lss}

-- `by_addr`, at the addresses that it has.
abbrev pub word : LssIdentity → ℕ → ℕ
unfolding by_addr
word identity sub = maybe (by_addr identity sub) 0 (λ value. value)

abbrev pub listens : LssSlave → Bool
unfolding same_node
listens slave =
    same_node slave.config.node_id NodeId.unconfigured && in_state slave.state LssState.waiting

-- A slave between two requests, with no event to raise.
pub record IsQuiet (node : Slave) : Type 0 where
  pub no_request : node.rx.rx_req ≡ none
  pub no_store : node.slave.store_config_flag ≡ false
  pub settled : node.slave.pending_node_id ≡ node.slave.config.node_id
  pub words : (sub : ℕ) → IsU32 (word node.slave.config.identity sub)

-- The slave agrees with `id` in the bits from `bit_check` up.
abbrev pub hit : ℕ → ℕ → ℕ → LssSlave → Bool
hit id bit_check sub slave =
    listens slave
    && (slave.fast_scan_sub == sub)
    && (word slave.config.identity sub / 2 ^ bit_check == id / 2 ^ bit_check)

abbrev pub moved : ℕ → ℕ → ℕ → LssSlave → LssSlave
moved bit_check sub next slave = record slave {
  fast_scan_sub = next;
  state = if (bit_check == 0) && ltb next sub then LssState.configuring else slave.state;
}

abbrev mask_test : ℕ → Bool
mask_test b = mask_of b == (2 ^ (32 - b) - 1) * 2 ^ b

mask_table : all_below 32 mask_test ≡ true
unfolding all_below
mask_table = refl

split_test : ℕ → Bool
split_test b = 2 ^ (32 - b) * 2 ^ b == 2 ^ 32 && ltb 0 (2 ^ b)

split_table : all_below 32 split_test ≡ true
unfolding all_below split_test
split_table = refl

split_bits : (b : ℕ) → b < 32 → (2 ^ (32 - b) * 2 ^ b ≡ 2 ^ 32) × (0 < 2 ^ b)
unfolding split_test
split_bits b hb = let t = all_below_sound 32 split_test b split_table hb in ground arith

quotient_bound : (a d e : ℕ) → 0 < d → a < e * d → a / d < e
quotient_bound a d e pos h = (div-lt_iff_lt-mul pos).1 h

quotient_mod : (a b : ℕ) → IsU32 a → b < 32 → a / 2 ^ b % 2 ^ (32 - b) ≡ a / 2 ^ b
quotient_mod a b h hb =
    let (whole, pos) = split_bits b hb in
    mod-eq_of_lt (quotient_bound a (2 ^ b) (2 ^ (32 - b)) pos (omega (arith, whole)))

-- The mask of the scan drops the low bits.
masked : (a b : ℕ) → IsU32 a → b < 32 → bit_and a (mask_of b) ≡ a / 2 ^ b * 2 ^ b
masked a b h hb =
    let t = all_below_sound 32 mask_test b mask_table hb in
    let shape : mask_of b ≡ (2 ^ (32 - b) - 1) * 2 ^ b = ground arith in
    ap (bit_and a) shape
    ∙ bit_and_shift b (2 ^ (32 - b) - 1) a
    ∙ ap (λ x. x * 2 ^ b) (bit_and_ones (32 - b) (a / 2 ^ b) ∙ quotient_mod a b h hb)

scale : (x y d : ℕ) → x ≡ y → x * d ≡ y * d
scale x y d e = ap (λ t. t * d) e

unscale : (x y d : ℕ) → 0 < d → x * d ≡ y * d → x ≡ y
unscale x y d pos e = sym (mul-div_cancel x pos) ∙ ap (λ t. t / d) e ∙ mul-div_cancel y pos

same_scaled : (x y d : ℕ) → 0 < d → (x * d == y * d) ≡ (x == y)
same_scaled x y d pos = ground (arith, scale x y d, unscale x y d pos)

mask_equal :
    (v id b : ℕ)
    → IsU32 v
    → IsU32 id
    → b < 32
    → (bit_and v (mask_of b) == bit_and id (mask_of b)) ≡ (v / 2 ^ b == id / 2 ^ b)
mask_equal v id b hv hi hb =
    rw (masked v b hv hb, masked id b hi hb)
      (same_scaled (v / 2 ^ b) (id / 2 ^ b) (2 ^ b) (split_bits b hb).1)

-- `NodeMbox::store_message` and `Node::process` on a request of the scan.
abbrev pub asked : ℕ → ℕ → ℕ → ℕ → Slave → Option (List CanMessage × Slave)
asked id bit_check sub next node =
    run_lss (record node {
      rx = store_lss (to_frame (LssRequest.fast_scan id bit_check sub next)) node.rx;
    })

stored_request :
    (msg : CanMessage) (request : LssRequest) (rx : LssReceiver)
    → same_id msg.id lss_req_id ≡ true
    → from_bytes (payload msg) ≡ ok request
    → store_lss msg rx ≡ (handle_req rx request).1
unfolding store_lss
stored_request msg request rx own read = rw (own, read) refl

own_id : (request : LssRequest) → same_id (to_frame request).id lss_req_id ≡ true
unfolding to_frame
own_id request = refl

stored :
    (id bit_check sub next : ℕ) (rx : LssReceiver)
    → IsU32 id
    → store_lss (to_frame (LssRequest.fast_scan id bit_check sub next)) rx
      ≡ record rx { rx_req = some (LssRequest.fast_scan id bit_check sub next) }
unfolding handle_req
stored id bit_check sub next rx h =
    let request = LssRequest.fast_scan id bit_check sub next in
    stored_request (to_frame request) request rx (own_id request) (from_bytes-bytes request h)

unfoldable pub identify : CanMessage
unfolding to_can_message
identify = to_can_message LssResponse.identify_slave lss_resp_id

no_event :
    (slave : LssSlave)
    → slave.store_config_flag ≡ false
    → slave.pending_node_id ≡ slave.config.node_id
    → (pending_event slave).1 ≡ slave
unfolding pending_event
no_event slave no_store settled = ground arith

known :
    (identity : LssIdentity) (sub : ℕ) → sub < 4 → by_addr identity sub ≡ some (word identity sub)
unfolding by_addr word
known identity sub h = ground arith

-- A question about one bit, or the last one about a word.
pub asked_bit :
    (id bit_check sub next : ℕ) (node : Slave)
    → IsU32 id
    → bit_check < 32
    → sub < 4
    → IsQuiet node
    → asked id bit_check sub next node
      ≡ some (
        if hit id bit_check sub node.slave then identify ∷ [] else [],
        if hit id bit_check sub node.slave
            then record node { slave = moved bit_check sub next node.slave }
            else node,
      )
unfolding run_lss process scan process_request identify
asked_bit id bit_check sub next node hi hb hs quiet = ground (
  arith,
  stored id bit_check sub next node.rx,
  known node.slave.config.identity sub,
  mask_equal (word node.slave.config.identity sub) id bit_check (quiet.words sub),
  no_event (moved bit_check sub next node.slave),
)

abbrev pub rewound : LssSlave → LssSlave
rewound slave = record slave { fast_scan_sub = 0 }

-- The question whether there is a slave at all.
pub asked_confirm :
    (id : ℕ) (node : Slave)
    → IsU32 id
    → IsQuiet node
    → asked id 0x80 0 0 node
      ≡ some (
        if listens node.slave then identify ∷ [] else [],
        if listens node.slave then record node { slave = rewound node.slave } else node,
      )
unfolding run_lss process scan process_request identify
asked_confirm id node hi quiet =
    ground (arith, stored id 0x80 0 0 node.rx, no_event (rewound node.slave))
