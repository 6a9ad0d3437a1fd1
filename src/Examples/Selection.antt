-- ===== src/Examples/Selection.antt =====
-- The LSS slave at a concrete identity.
use zencan.Base.{ℕ, ◌≡◌, ◌≢◌, refl, ap, inr, true, false, none, some, ok, arith}
use zencan.Lss.{
  NodeId, LssIdentity, LssState, LssRequest, LssResponse, LssReceiver, LssSlave, LssEvent, process,
  process_request, pending_event,
}
use zencan.Lss.Selection.{named, selected, not_selected, waiting_silent, out_of_range_accepted}

abbrev identity : LssIdentity
identity = record { vendor_id = 1; product_code = 2; revision = 3; serial = 4 }

abbrev other : LssIdentity
other = record { vendor_id = 1; product_code = 2; revision = 3; serial = 5 }

abbrev rx : LssReceiver
rx = record {
  selected_identity = record { vendor_id = 0; product_code = 0; revision = 0; serial = 0 };
  rx_req = none;
}

abbrev slave : LssSlave
slave = record {
  state = LssState.waiting;
  config = record { identity = identity; node_id = NodeId.configured 5; store_supported = true };
  fast_scan_sub = 0;
  pending_node_id = NodeId.configured 5;
  store_config_flag = false;
}

abbrev chosen : LssSlave
chosen = record slave { state = LssState.configuring }

selected_example :
    (process (named rx identity) slave).1
    ≡ some (ok (some LssResponse.switch_state_response), chosen)
selected_example = selected rx slave refl

differs : identity ≢ other
differs e = absurd (omega (arith, ap (λ i. i.serial) e))

not_selected_example : (process (named rx other) slave).1 ≡ some (ok none, slave)
not_selected_example = not_selected rx slave other refl differs

waiting_silent_example :
    process_request (LssRequest.configure_node_id 7) identity slave ≡ some (ok none, slave)
waiting_silent_example = waiting_silent (LssRequest.configure_node_id 7) identity slave tt refl

new_id : NodeId.configured 5 ≢ NodeId.configured 200
new_id e = absurd (omega (arith, ap id_of e))
  where
    id_of : NodeId → ℕ
    id_of NodeId.unconfigured = 0
    id_of (NodeId.configured id) = id

out_of_range_accepted_example :
    (slave' : LssSlave) × (process_request (LssRequest.configure_node_id 200) identity chosen
      ≡ some (ok (some (LssResponse.configure_node_id_ack 0 0)), slave'))
    × ((pending_event slave').0 ≡ some (LssEvent.configure_node_id (NodeId.configured 200)))
out_of_range_accepted_example =
    out_of_range_accepted 200 identity chosen refl (inr (omega arith, omega arith)) new_id
