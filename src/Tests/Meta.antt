-- ===== src/Tests/Meta.antt =====
-- Metadata sent to the gatekeeper, at concrete logs.
use timelock_drive.Prelude.{ℕ, Bool, true, false}
use timelock_drive.Logs.{Logs}
use timelock_drive.Metadata.{Driver, Outcome, returned, stopped, send_hd_metadata}
use timelock_drive.Tests.Blocks.{nearly_full}
use timelock_drive.Tests.Write.{answers, fresh_driver}

abbrev dirty_logs : Logs (ℕ → Bool)
dirty_logs = record nearly_full { tdmd_dirty = true; map_dirty = true }

abbrev dirty : Driver (ℕ → Bool) ℕ
dirty = fresh_driver dirty_logs

abbrev state_of : Outcome (Driver (ℕ → Bool) ℕ) → Driver (ℕ → Bool) ℕ
state_of (returned d) = d
state_of stopped = dirty

abbrev sent_hd : Driver (ℕ → Bool) ℕ
sent_hd = state_of (send_hd_metadata (answers 0) 9 false dirty)
