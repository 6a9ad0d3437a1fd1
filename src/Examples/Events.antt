-- ===== src/Examples/Events.antt =====
-- Events of sub objects at concrete flags.
use zencan.Base.{◌≡◌, refl, true, false, ◌||◌, [], ◌∷◌, ◌==◌, arith}
use zencan.Flags.{ObjectFlagSync, ObjectFlags, toggle, set_flag, get_flag}
use zencan.Flags.Events.{set_flag-toggle}

abbrev sync : ObjectFlagSync
sync = record { toggle = false; global_flag = false }

abbrev flags : ObjectFlags
flags = record { flags0 = 1 ∷ 0 ∷ []; flags1 = 0 ∷ 4 ∷ [] }

set_flag-toggle_example :
    (get_flag 9 (set_flag 12 sync flags).0 (set_flag 12 sync flags).1 ≡ get_flag 9 sync flags)
    × ((toggle (set_flag 12 sync flags).0).0 ≡ true)
    × (get_flag 9 (toggle (set_flag 12 sync flags).0).1 (set_flag 12 sync flags).1
        ≡ ((9 == 12) || get_flag 9 (toggle sync).1 flags))
set_flag-toggle_example =
    set_flag-toggle 12 9 sync flags refl (omega arith, (omega arith, tt))
      (omega arith, (omega arith, tt)) (omega arith)
