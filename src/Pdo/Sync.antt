-- ===== src/Pdo/Sync.antt =====
-- When a PDO is sent for a SYNC.
use zencan.Base.{ℕ, zero, suc, ◌+◌, ◌%◌, ◌<◌, ◌≤◌, ◌≡◌, true, ◌==◌, arith}
use zencan.Pdo.{Pdo, sync_update}

module _ {S : Type 0} where
  -- The PDO after a number of SYNCs.
  pub syncs : ℕ → Pdo S → Pdo S
  unfolding sync_update
  syncs zero pdo = pdo
  syncs (suc k) pdo = (sync_update (syncs k pdo)).1

  syncs_state :
      (k : ℕ) (pdo : Pdo S)
      → pdo.valid ≡ true
      → 0 < pdo.transmission_type
      → pdo.transmission_type ≤ 240
      → pdo.sync_counter ≡ 0
      → syncs k pdo ≡ record pdo { sync_counter = k % 256 }
  unfolding syncs sync_update
  syncs_state zero pdo valid pos le start = ground arith
  syncs_state (suc k) pdo valid pos le start =
      let before = syncs_state k pdo valid pos le start in rw (before, syncs) (ground arith)

  -- A valid PDO whose transmission type is a number of SYNCs, and which has counted none, is sent for
  -- a SYNC exactly if the count of SYNCs up to it, modulo 256, is that number: once in 256 SYNCs.
  pub sync_update-syncs :
      (k : ℕ) (pdo : Pdo S)
      → pdo.valid ≡ true
      → 0 < pdo.transmission_type
      → pdo.transmission_type ≤ 240
      → pdo.sync_counter ≡ 0
      → (sync_update (syncs k pdo)).0 ≡ (((k + 1) % 256) == pdo.transmission_type)
  unfolding sync_update
  sync_update-syncs k pdo valid pos le start =
      let before = syncs_state k pdo valid pos le start in rw before (ground arith)
