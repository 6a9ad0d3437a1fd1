-- ===== src/Lss/Selection.antt =====
-- A slave is selected by its identity, and only a selected slave is configured.
use zencan.Base.{
  ℕ, ◌≡◌, ◌≢◌, ◌<◌, refl, true, false, none, some, ok, arith, ◌==◌, Bool-cases, inl, inr, ◌⊎◌, ap,
}
use zencan.Lss.{
  NodeId, LssIdentity, LssState, LssRequest, LssResponse, LssReceiver, LssSlave, handle_req,
  process, process_request, same_identity, node_id_of, pending_event, same_node, LssEvent,
}

-- The receiver after the four requests that name an identity, in the order of the standard.
abbrev pub named : LssReceiver → LssIdentity → LssReceiver
unfolding handle_req
named rx identity =
    (handle_req
      (handle_req
        (handle_req (handle_req rx (LssRequest.switch_state_vendor identity.vendor_id)).1
          (LssRequest.switch_state_product identity.product_code)).1
        (LssRequest.switch_state_revision identity.revision)).1
      (LssRequest.switch_state_serial identity.serial)).1

same_identity_sound : (a b : LssIdentity) → same_identity a b ≡ true → a ≡ b
unfolding same_identity
same_identity_sound a b e = ground arith

same_node_other :
    (id : ℕ) (node : NodeId)
    → node ≢ NodeId.configured id
    → same_node (NodeId.configured id) node ≡ false
unfolding same_node
same_node_other id NodeId.unconfigured h = refl
same_node_other id (NodeId.configured a) h =
    let different : a ≢ id = λ e. h (ap (λ x. NodeId.configured x) e) in ground arith

-- A waiting slave whose identity is named by the four requests becomes the one to configure and
-- says so.
pub selected :
    (rx : LssReceiver) (slave : LssSlave)
    → slave.state ≡ LssState.waiting
    → (process (named rx slave.config.identity) slave).1
      ≡ some (
        ok (some LssResponse.switch_state_response),
        record slave { state = LssState.configuring },
      )
unfolding named process same_identity
selected rx slave at = ground arith

-- A waiting slave of another identity does not answer and stays as it is.
pub not_selected :
    (rx : LssReceiver) (slave : LssSlave) (identity : LssIdentity)
    → slave.state ≡ LssState.waiting
    → slave.config.identity ≢ identity
    → (process (named rx identity) slave).1 ≡ some (ok none, slave)
unfolding named process same_identity
not_selected rx slave identity at other =
    elim (Bool-cases (same_identity slave.config.identity identity)) [
      | inl same ↦ absurd (other (same_identity_sound slave.config.identity identity same))
      | inr differ ↦ ground arith
    ]

-- The requests that are meant for a slave that is selected.
abbrev pub IsConfiguration : LssRequest → Type 0
IsConfiguration (LssRequest.switch_mode_global mode) = ⊥
IsConfiguration (LssRequest.switch_state_serial serial) = ⊥
IsConfiguration (LssRequest.fast_scan id bit_check sub next) = ⊥
IsConfiguration _ = Unit {0}

-- A waiting slave does not answer the requests that configure a slave or inquire about it, and stays
-- as it is.
pub waiting_silent :
    (r : LssRequest) (identity : LssIdentity) (slave : LssSlave)
    → IsConfiguration r
    → slave.state ≡ LssState.waiting
    → process_request r identity slave ≡ some (ok none, slave)
unfolding process_request
waiting_silent r identity slave h at = ground arith

-- A slave that is being configured takes every node ID between 128 and 254, and also 0, without an
-- error, and asks the node to use it if it is not the one it has.
pub out_of_range_accepted :
    (id : ℕ) (identity : LssIdentity) (slave : LssSlave)
    → slave.state ≡ LssState.configuring
    → (id ≡ 0) ⊎ ((127 < id) × (id < 255))
    → slave.config.node_id ≢ NodeId.configured id
    → (slave' : LssSlave) × (process_request (LssRequest.configure_node_id id) identity slave
        ≡ some (ok (some (LssResponse.configure_node_id_ack 0 0)), slave'))
      × ((pending_event slave').0 ≡ some (LssEvent.configure_node_id (NodeId.configured id)))
unfolding process_request pending_event node_id_of
out_of_range_accepted id identity slave at range differs =
    let out : (id == 255) ≡ false = ground arith in
    let other = same_node_other id slave.config.node_id differs in
    (record slave { pending_node_id = NodeId.configured id }, ground arith, rw other refl)
