-- ===== src/Examples/Network.antt =====
-- The theorems on NMT commands and heartbeats at concrete inputs, and their frames as bytes.
use zencan.Base.{◌≡◌, refl, true, [], ◌∷◌, some, ok, arith}
use zencan.Can.{CanId, payload}
use zencan.Nmt.{
  NmtCommandSpecifier, NmtCommand, command_of, command_message, command_of-command_message,
  NmtState, Heartbeat, heartbeat_of, heartbeat_message, heartbeat_of-heartbeat_message,
}

abbrev reset_seven : NmtCommand
reset_seven = record { cs = NmtCommandSpecifier.reset_app; node = 7 }

reset_seven_bytes : payload (command_message reset_seven) ≡ 129 ∷ 7 ∷ []
unfolding command_message
reset_seven_bytes = refl

command_of-command_message_example : command_of (command_message reset_seven) ≡ ok reset_seven
command_of-command_message_example = command_of-command_message reset_seven

abbrev operational_five : Heartbeat
operational_five = record { node = 5; toggle = true; state = NmtState.operational }

heartbeat_id_five : (heartbeat_message operational_five).id ≡ CanId.std 0x705
unfolding heartbeat_message
heartbeat_id_five = refl

heartbeat_of-heartbeat_message_example :
    heartbeat_of (heartbeat_message operational_five) ≡ some (ok operational_five)
heartbeat_of-heartbeat_message_example =
    heartbeat_of-heartbeat_message operational_five (omega arith)
