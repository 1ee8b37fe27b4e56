-- ===== src/Guarantees/Passes/Sweeps.antt =====
-- src/nexusflow/orchestration/scheduler.py: sweeps that find nothing to do.
use nexusflow.Base.{ℕ, ◌+◌, ◌≡◌, List, Result, ok}
use nexusflow.Domain.AttemptState
use nexusflow.Orchestration.Pass.{Setting, World}
use nexusflow.Orchestration.Registry.{find_lost_sessions}
use nexusflow.Guarantees.Drained.Pass.{Undisturbed}

-- The pass returned 0, and neither the database nor a delivery queue is changed.
abbrev pub IsIdle : World → Result ℕ × World → Type 0
IsIdle w (result, after) = (result ≡ ok 0) × (after.db ≡ w.db) × (after.deliveries ≡ w.deliveries)

module _ (setting : Setting) (undisturbed : Undisturbed setting) (w : World) where
  abbrev pub lost_ids : List ℕ
  unfolding find_lost_sessions
  lost_ids =
      find_lost_sessions (setting.monotonic (w.instant + 1)) (setting.registry (w.instant + 1))
