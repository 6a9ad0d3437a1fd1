-- ===== src/Server/Transfer/Plan.antt =====
-- Where the segments of a transfer stand in the buffer, and the states between them.
use native.Mathlib.Nat.{mod-lt}
use zencan.Base.{ok, some, Bool, ◌⊎◌, ◌≢◌, ℕ, ◌+◌, ◌-◌, ◌*◌, ◌%◌, ◌≤◌, ◌<◌, ◌≡◌, arith}
use zencan.Dict.{OdEntry, ObjectAccess}
use zencan.Server.State.{Segmented}

abbrev pub offset_of : ℕ → ℕ → ℕ
offset_of len k = k * 7 % len

pub offset_lt : (len k : ℕ) → 0 < len → offset_of len k < len
offset_lt len k pos = mod-lt (k * 7) pos

-- The offset of the next segment.
pub offset_inside :
    (len k : ℕ) → 0 < len → offset_of len k + 7 < len → offset_of len (k + 1) ≡ offset_of len k + 7
offset_inside len k pos h = grind arith

pub offset_wraps :
    (len k : ℕ)
    → 7 ≤ len
    → len ≤ offset_of len k + 7
    → offset_of len (k + 1) ≡ offset_of len k + 7 - len
offset_wraps len k pos h = grind arith

module _ {S : Type 0} where
  -- The state after `k` segments.
  abbrev pub after : OdEntry S → ℕ → ℕ → Bool → Segmented S
  after entry sub k t = record {
    entry = entry;
    sub = sub;
    toggle_state = t;
    segment_counter = k;
    bytes_in_buffer = some 0;
  }

  -- The write that the flush of the buffer goes to: one that is begun for it, or the open one.
  abbrev pub Opened : ObjectAccess S → ℕ → ℕ → ℕ → S → S → Type 0
  Opened object sub len k s s1 =
      ((k * 7 ≡ offset_of len k) × (object.begin_partial sub s ≡ (ok tt, s1)))
      ⊎ ((k * 7 ≢ offset_of len k) × (s ≡ s1))
