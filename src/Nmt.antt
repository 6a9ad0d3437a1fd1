-- ===== src/Nmt.antt =====
-- zencan-common/src/messages.rs: NMT commands, NMT states and heartbeats.
use zencan.Base.{
  ℕ, ◌<◌, ◌≡◌, refl, Bool, true, false, [], ◌∷◌, Option, none, some, Result, ok, err, either,
  bit_and, bit_or, ◌==◌, ◌&&◌, leb, if◌then◌else◌, length, arith,
}
use zencan.Base.Bits.{has_bit, all_below, all_below_sound}
use zencan.Can.{CanId, CanMessage, MessageError, raw, same_id, payload, nmt_cmd_id, heartbeat_id}
use zencan.Sdo.Wire.{byte}

pub data NmtCommandSpecifier : Type 0 where
  start stop enter_pre_op reset_app reset_comm : NmtCommandSpecifier

-- `cmd.cs as u8`.
unfoldable specifier_code : NmtCommandSpecifier → ℕ
specifier_code start = 1
specifier_code stop = 2
specifier_code enter_pre_op = 128
specifier_code reset_app = 129
specifier_code reset_comm = 130

-- `NmtCommandSpecifier::from_byte`.
unfoldable specifier_of : ℕ → Result MessageError NmtCommandSpecifier
specifier_of b =
    if b == 1
    then ok start
    else if b == 2
    then ok stop
    else if b == 128
    then ok enter_pre_op
    else if b == 129
    then ok reset_app
    else if b == 130
    then ok reset_comm
    else err MessageError.invalid_field

pub record NmtCommand : Type 0 where
  pub cs : NmtCommandSpecifier
  pub node : ℕ

-- `NmtCommand::try_from(CanMessage)`.
unfoldable pub command_of : CanMessage → Result MessageError NmtCommand
unfolding specifier_of
command_of msg =
    if same_id msg.id nmt_cmd_id
    then if leb 2 (length (payload msg))
      then either (specifier_of (byte (payload msg) 0)) err
          (λ cs. ok (record { cs = cs; node = byte (payload msg) 1 }))
      else err MessageError.message_too_short
    else err (MessageError.unexpected_id msg.id nmt_cmd_id)

-- `CanMessage::from(NmtCommand)`.
unfoldable pub command_message : NmtCommand → CanMessage
unfolding specifier_code
command_message cmd = record {
  bytes = specifier_code cmd.cs ∷ cmd.node ∷ 0 ∷ 0 ∷ 0 ∷ 0 ∷ 0 ∷ 0 ∷ [];
  dlc = 2;
  rtr = false;
  id = nmt_cmd_id;
}

specifier_of-specifier_code : (cs : NmtCommandSpecifier) → specifier_of (specifier_code cs) ≡ ok cs
unfolding specifier_of specifier_code
specifier_of-specifier_code start = refl
specifier_of-specifier_code stop = refl
specifier_of-specifier_code enter_pre_op = refl
specifier_of-specifier_code reset_app = refl
specifier_of-specifier_code reset_comm = refl

-- Every NMT command is read back from its frame.
pub command_of-command_message : (cmd : NmtCommand) → command_of (command_message cmd) ≡ ok cmd
unfolding command_of command_message
command_of-command_message cmd = rw (specifier_of-specifier_code cmd.cs) refl

pub data NmtState : Type 0 where
  bootup stopped operational pre_operational : NmtState

-- `value.state as u8`.
unfoldable state_code : NmtState → ℕ
state_code bootup = 0
state_code stopped = 4
state_code operational = 5
state_code pre_operational = 127

-- `NmtState::try_from(u8)`, whose error is the number.
unfoldable state_of : ℕ → Result ℕ NmtState
state_of value =
    if value == 0
    then ok bootup
    else if value == 4
    then ok stopped
    else if value == 5
    then ok operational
    else if value == 127
    then ok pre_operational
    else err value

pub record Heartbeat : Type 0 where
  pub node : ℕ
  pub toggle : Bool
  pub state : NmtState

heartbeat_head : Bool → NmtState → ℕ
unfolding state_code
heartbeat_head toggle state = if toggle then bit_or (state_code state) 0x80 else state_code state

-- `CanMessage::from(Heartbeat)`.
unfoldable pub heartbeat_message : Heartbeat → CanMessage
unfolding heartbeat_head
heartbeat_message value = record {
  bytes = heartbeat_head value.toggle value.state ∷ 0 ∷ 0 ∷ 0 ∷ 0 ∷ 0 ∷ 0 ∷ 0 ∷ [];
  dlc = 1;
  rtr = false;
  id = CanId.std (bit_or heartbeat_id value.node);
}

-- The branch of `ZencanMessage::try_from` for heartbeats; `none` where it is not taken.
unfoldable pub heartbeat_of : CanMessage → Option (Result MessageError Heartbeat)
unfolding state_of raw
heartbeat_of msg =
    if bit_and (raw msg.id) 0xFFFF_FF80 == heartbeat_id
    then some (
        either (state_of (bit_and (byte msg.bytes 0) 0x7f))
          (λ value. err (MessageError.invalid_nmt_state value))
          λ state. ok (record {
            node = bit_and (raw msg.id) 0x7f;
            toggle = has_bit (byte msg.bytes 0) 0x80;
            state = state;
          }))
    else none

head_state : (t : Bool) (s : NmtState) → state_of (bit_and (heartbeat_head t s) 0x7f) ≡ ok s
unfolding state_of heartbeat_head state_code
head_state true bootup = refl
head_state true stopped = refl
head_state true operational = refl
head_state true pre_operational = refl
head_state false bootup = refl
head_state false stopped = refl
head_state false operational = refl
head_state false pre_operational = refl

head_toggle : (t : Bool) (s : NmtState) → has_bit (heartbeat_head t s) 0x80 ≡ t
unfolding heartbeat_head state_code
head_toggle true bootup = refl
head_toggle true stopped = refl
head_toggle true operational = refl
head_toggle true pre_operational = refl
head_toggle false bootup = refl
head_toggle false stopped = refl
head_toggle false operational = refl
head_toggle false pre_operational = refl

id_test : ℕ → Bool
id_test node =
    (bit_and (bit_or heartbeat_id node) 0xFFFF_FF80 == heartbeat_id)
    && (bit_and (bit_or heartbeat_id node) 0x7f == node)

id_table : all_below 128 id_test ≡ true
unfolding all_below id_test
id_table = refl

id_fields :
    (node : ℕ)
    → node < 128
    → ((bit_and (bit_or heartbeat_id node) 0xFFFF_FF80 == heartbeat_id) ≡ true)
      × (bit_and (bit_or heartbeat_id node) 0x7f ≡ node)
unfolding id_test
id_fields node h = let t = all_below_sound 128 id_test node id_table h in ground arith

-- The heartbeat of a node below 128 is read back from its frame.
pub heartbeat_of-heartbeat_message :
    (value : Heartbeat)
    → value.node < 128
    → heartbeat_of (heartbeat_message value) ≡ some (ok value)
unfolding heartbeat_of heartbeat_message raw
heartbeat_of-heartbeat_message value h =
    let (base, low) = id_fields value.node h in
    rw (base, head_state value.toggle value.state, head_toggle value.toggle value.state, low) refl
