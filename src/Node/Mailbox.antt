-- ===== src/Node/Mailbox.antt =====
-- `NodeMbox::store_message`: what the receiving thread does with a frame.
use zencan.Base.{
  ℕ, zero, suc, ◌+◌, Bool, true, false, Option, none, some, Result, ok, err, either, maybe,
  if◌then◌else◌, ◌&&◌, copy_at, replicate,
}
use zencan.Can.{CanMessage, payload, same_id, nmt_cmd_id, sync_id, lss_req_id}
use zencan.Lss
use zencan.Lss.Message.Request.{from_bytes}
use zencan.Node.{NodeStateAccess, NodeMbox}
use zencan.Server.Receiver

-- What comes of a frame: the answer, whether a call of `process` is asked for, and the state after it.
pub record Stored (S : Type 0) : Type 0 where
  pub answer : Result CanMessage (Unit {0})
  pub notified : Bool
  pub mbox : NodeMbox
  pub od : S

unfoldable pub store_lss : {S : Type 0} → CanMessage → NodeMbox → S → Stored S
unfolding from_bytes Lss.handle_req
store_lss msg mbox s =
    either (from_bytes (payload msg))
      (λ e. record { answer = err msg; notified = false; mbox = mbox; od = s })
      λ lss_req.
        let (notified, rx) = Lss.handle_req mbox.lss_receiver lss_req in
        record {
          answer = ok tt;
          notified = notified;
          mbox = record mbox { lss_receiver = rx };
          od = s;
        }

unfoldable pub store_sdo : CanMessage → NodeMbox → NodeMbox
unfolding Receiver.handle_req
store_sdo msg mbox = maybe mbox.sdo_cob_id mbox λ cob_id.
    if same_id msg.id cob_id
    then record mbox { sdo_receiver = (Receiver.handle_req mbox.sdo_receiver (payload msg)).1 }
    else mbox

module _ {S : Type 0} (state : NodeStateAccess S) where
  -- The loop over the RPDOs, with `left` to go; `none` if none of them has the identifier.
  unfoldable pub store_rpdo : ℕ → ℕ → CanMessage → S → Option S
  unfolding copy_at
  store_rpdo zero i msg s = none
  store_rpdo (suc left) i msg s =
      let rest = store_rpdo left (i + 1) msg s in
      if (state.rpdo i s).valid && same_id msg.id (state.rpdo i s).cob_id
      then some (
          state.set_rpdo i
            (record (state.rpdo i s) {
              buffered_value = some (copy_at 0 (payload msg) (replicate 8 0));
            })
            s)
      else rest

  unfoldable pub store_message : CanMessage → NodeMbox → S → Stored S
  unfolding store_lss store_rpdo store_sdo
  store_message msg mbox s =
      if same_id msg.id nmt_cmd_id
      then record {
        answer = ok tt;
        notified = true;
        mbox = record mbox { nmt_mbox = some msg };
        od = s;
      }
      else if same_id msg.id sync_id
      then record {
        answer = ok tt;
        notified = true;
        mbox = record mbox { sync_flag = true };
        od = s;
      }
      else if same_id msg.id lss_req_id
      then store_lss msg mbox s
      else maybe (store_rpdo state.n_rpdos 0 msg s)
          (record { answer = err msg; notified = false; mbox = store_sdo msg mbox; od = s })
          (λ s'. record { answer = ok tt; notified = false; mbox = mbox; od = s' })
