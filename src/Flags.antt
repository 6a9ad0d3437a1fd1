-- ===== src/Flags.antt =====
-- zencan-node/src/object_dict/object_flags.rs: the event flags of sub objects, in two banks that a
-- toggle swaps. The application sets flags in one bank while the node reads the other.
pub mod Events
use zencan.Base.{
  ℕ, zero, suc, ◌*◌, ◌/◌, ◌%◌, ◌^◌, Bool, true, false, not, ◌||◌, List, [], ◌∷◌, bit_and, bit_or,
  leb, ◌==◌, if◌then◌else◌, length, replicate,
}
use zencan.Base.Bits.{has_bit}
use zencan.Sdo.Wire.{byte}

-- `ObjectFlagSync`, which all objects share.
pub record ObjectFlagSync : Type 0 where
  pub toggle : Bool
  pub global_flag : Bool

unfoldable pub toggle : ObjectFlagSync → Bool × ObjectFlagSync
toggle sync = (sync.global_flag, record { toggle = not sync.toggle; global_flag = false })

unfoldable pub sync_flag : Bool → ObjectFlagSync → Bool × ObjectFlagSync
sync_flag setting sync = (sync.toggle, record sync { global_flag = sync.global_flag || setting })

-- `ObjectFlags<N>`: each bank has `N` bytes.
pub record ObjectFlags : Type 0 where
  pub flags0 : List ℕ
  pub flags1 : List ℕ

-- `f[i] |= bit`
unfoldable pub or_byte : List ℕ → ℕ → ℕ → List ℕ
or_byte [] i bit = []
or_byte (b ∷ bank) zero bit = bit_or b bit ∷ bank
or_byte (b ∷ bank) (suc i) bit = b ∷ or_byte bank i bit

-- `1 << (sub & 7)`
abbrev pub flag_bit : ℕ → ℕ
flag_bit sub = 2 ^ bit_and sub 7

unfoldable pub set_flag : ℕ → ObjectFlagSync → ObjectFlags → ObjectFlagSync × ObjectFlags
unfolding sync_flag or_byte
set_flag sub sync flags =
    let (bank0, sync') = sync_flag true sync in
    if leb (length flags.flags0 * 8) sub
    then (sync, flags)
    else if bank0
    then (sync', record flags { flags0 = or_byte flags.flags0 (sub / 8) (flag_bit sub) })
    else (sync', record flags { flags1 = or_byte flags.flags1 (sub / 8) (flag_bit sub) })

unfoldable pub get_flag : ℕ → ObjectFlagSync → ObjectFlags → Bool
unfolding sync_flag
get_flag sub sync flags =
    let bank = if (sync_flag false sync).0 then flags.flags1 else flags.flags0 in
    if leb (length flags.flags0 * 8) sub
    then false
    else has_bit (byte bank (sub / 8)) (flag_bit sub)

unfoldable pub clear : ObjectFlagSync → ObjectFlags → ObjectFlags
unfolding sync_flag
clear sync flags =
    if (sync_flag false sync).0
    then record flags { flags1 = replicate (length flags.flags1) 0 }
    else record flags { flags0 = replicate (length flags.flags0) 0 }
