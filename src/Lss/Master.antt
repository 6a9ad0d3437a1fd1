-- ===== src/Lss/Master.antt =====
-- zencan-client/src/lss_master.rs: `LssMaster`, which finds and configures the slaves on a bus.
pub mod Answer
pub mod Bus
pub mod Binary
pub mod Send
pub mod Words
pub mod Scan
pub mod Found
use zencan.Base.{
  ℕ, zero, suc, ◌+◌, ◌%◌, ◌^◌, ◌<◌, Bool, true, false, ◌||◌, List, [], ◌∷◌, ◌++◌, Option, none,
  some, Result, ok, err, either, maybe, bit_or, ◌==◌, if◌then◌else◌,
}
use zencan.Can.{CanMessage}
use zencan.Client.{Network}
use zencan.Sdo.Wire.{byte}
use zencan.Lss.{LssIdentity, LssRequest, LssResponse, NodeId, raw}
use zencan.Lss.Message.Request.{to_can_message}
use zencan.Lss.Message.Response.{from_message}

-- `LssMaster`, with the frames that the receiver has and the master has not taken.
pub record LssMaster (N : Type 0) : Type 0 where
  pub inbox : List CanMessage
  pub network : N

pub data LssError : Type 0 where
  timeout : LssError
  bit_timing_config_error : (error spec_error : ℕ) → LssError
  node_id_config_error : (error spec_error : ℕ) → LssError
  node_store_config_error : (error spec_error : ℕ) → LssError

-- The first frame that is an LSS response; others are skipped. At the end of the frames the time is
-- over.
unfoldable pub receive : List CanMessage → Option LssResponse × List CanMessage
unfolding from_message
receive [] = (none, [])
receive (msg ∷ inbox) =
    let rest = receive inbox in
    either (from_message msg) (λ e. rest) (λ lss_resp. (some lss_resp, inbox))

-- Whether one of the frames says that a slave is there.
unfoldable pub has_identify : List CanMessage → Bool
unfolding from_message
has_identify [] = false
has_identify (msg ∷ inbox) =
    either (from_message msg) (λ e. false)
      (λ response. elim response [ LssResponse.identify_slave ↦ true | _ ↦ false ])
    || has_identify inbox

-- `id[i] |= bit`.
unfoldable pub or_at : List ℕ → ℕ → ℕ → List ℕ
or_at [] i bit = []
or_at (x ∷ id) zero bit = bit_or x bit ∷ id
or_at (x ∷ id) (suc i) bit = x ∷ or_at id i bit

module _ {N : Type 0} (network : Network N) where
  -- `waits` is false for a timeout of zero: then only the frames that are there already are seen.
  unfoldable pub send_and_receive :
      LssRequest → Bool → LssMaster N → Option LssResponse × LssMaster N
  unfolding to_can_message receive
  send_and_receive msg waits master =
      maybe (network (to_can_message msg) master.network) (none, master)
        λ (arrived, n).
          if waits
          then (
            (receive (master.inbox ++ arrived)).0,
            record { inbox = (receive (master.inbox ++ arrived)).1; network = n },
          )
          else (
            (receive master.inbox).0,
            record { inbox = (receive master.inbox).1 ++ arrived; network = n },
          )

  -- Four requests whose answer is not waited for, and one whose answer is.
  unfoldable pub enter_config_by_identity :
      ℕ → ℕ → ℕ → ℕ → LssMaster N → Result LssError (Unit {0}) × LssMaster N
  unfolding send_and_receive
  enter_config_by_identity vendor_id product_code revision serial master =
      let m1 = (send_and_receive (LssRequest.switch_mode_global 0) false master).1 in
      let m2 = (send_and_receive (LssRequest.switch_state_vendor vendor_id) false m1).1 in
      let m3 = (send_and_receive (LssRequest.switch_state_product product_code) false m2).1 in
      let m4 = (send_and_receive (LssRequest.switch_state_revision revision) false m3).1 in
      let (response, m5) = send_and_receive (LssRequest.switch_state_serial serial) true m4 in
      (
        maybe response (err LssError.timeout) (λ lss_resp. elim lss_resp [
          | LssResponse.switch_state_response ↦ ok tt
          | _ ↦ err LssError.timeout
        ]),
        m5,
      )

  unfoldable pub set_baud_rate : ℕ → ℕ → LssMaster N → Result LssError (Unit {0}) × LssMaster N
  unfolding send_and_receive
  set_baud_rate table index master =
      let (response, m1) =
        send_and_receive (LssRequest.configure_bit_timing table index) true master in
      (
        maybe response (err LssError.timeout) (λ lss_resp. elim lss_resp [
          | LssResponse.configure_bit_timing_ack error spec_error ↦
              if error == 0 then ok tt else err (LssError.bit_timing_config_error error spec_error)
          | _ ↦ err LssError.timeout
        ]),
        m1,
      )

  unfoldable pub set_node_id : NodeId → LssMaster N → Result LssError (Unit {0}) × LssMaster N
  unfolding send_and_receive raw
  set_node_id node_id master =
      let (response, m1) =
        send_and_receive (LssRequest.configure_node_id (raw node_id)) true master in
      (
        maybe response (err LssError.timeout) (λ lss_resp. elim lss_resp [
          | LssResponse.configure_node_id_ack error spec_error ↦
              if error == 0 then ok tt else err (LssError.node_id_config_error error spec_error)
          | _ ↦ err LssError.timeout
        ]),
        m1,
      )

  unfoldable pub store_config : LssMaster N → Result LssError (Unit {0}) × LssMaster N
  unfolding send_and_receive
  store_config master =
      let (response, m1) = send_and_receive LssRequest.store_configuration true master in
      (
        maybe response (err LssError.timeout) (λ lss_resp. elim lss_resp [
          | LssResponse.store_configuration_ack error spec_error ↦
              if error == 0 then ok tt else err (LssError.node_store_config_error error spec_error)
          | _ ↦ err LssError.timeout
        ]),
        m1,
      )

  unfoldable pub configure_by_identity :
      LssIdentity → NodeId → ℕ → ℕ → LssMaster N → Result LssError (Unit {0}) × LssMaster N
  unfolding enter_config_by_identity set_node_id set_baud_rate
  configure_by_identity identity node_id baud_rate_table baud_rate_index master =
      let (entered, m1) =
        enter_config_by_identity identity.vendor_id identity.product_code identity.revision
          identity.serial master in
      either entered (λ e. (err e, m1))
        λ _.
          let (named, m2) = set_node_id node_id m1 in
          either named (λ e. (err e, m2)) λ _. set_baud_rate baud_rate_table baud_rate_index m2

  -- The closure of `fast_scan`: it always waits for the whole timeout and takes every frame. A frame
  -- that is not sent has no answer.
  unfoldable pub send_fs : List ℕ → ℕ → ℕ → ℕ → LssMaster N → Bool × LssMaster N
  unfolding to_can_message has_identify
  send_fs id bit_check sub next master =
      maybe
        (network (to_can_message (LssRequest.fast_scan (byte id sub) bit_check sub next))
          master.network)
        (has_identify master.inbox, record { inbox = []; network = master.network })
        λ (arrived, n). (has_identify (master.inbox ++ arrived), record { inbox = []; network = n })

  -- `while bit_check > 0`, at the bits below `bit_check`.
  unfoldable pub scan_bits : ℕ → List ℕ → ℕ → ℕ → LssMaster N → List ℕ × LssMaster N
  unfolding send_fs or_at
  scan_bits zero id sub next master = (id, master)
  scan_bits (suc bit_check) id sub next master =
      let (answered, m1) = send_fs id bit_check sub next master in
      scan_bits bit_check (if answered then id else or_at id sub (2 ^ bit_check)) sub next m1

  -- `while sub < 4`, with `left` rounds to go.
  unfoldable pub scan_subs : ℕ → ℕ → ℕ → List ℕ → LssMaster N → Option (List ℕ) × LssMaster N
  unfolding scan_bits send_fs
  scan_subs zero sub next id master = (some id, master)
  scan_subs (suc left) sub next id master =
      let (id1, m1) = scan_bits 32 id sub next master in
      let next1 = (sub + 1) % 4 in
      let (answered, m2) = send_fs id1 0 sub next1 m1 in
      let rest = scan_subs left (sub + 1) next1 id1 m2 in if answered then rest else (none, m2)

  unfoldable pub fast_scan : LssMaster N → Option LssIdentity × LssMaster N
  fast_scan master =
      let id : List ℕ = 0 ∷ 0 ∷ 0 ∷ 0 ∷ [] in
      let (answered, m1) = send_fs id 0x80 0 0 master in
      let (found, m2) = scan_subs 4 0 0 id m1 in
      if answered
      then (
        maybe found none λ id1. some (record {
          vendor_id = byte id1 0;
          product_code = byte id1 1;
          revision = byte id1 2;
          serial = byte id1 3;
        }),
        m2,
      )
      else (none, m1)
