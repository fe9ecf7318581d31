-- ===== src/Flush.antt =====
-- Flushing and ending: `flush_pending_metadata` of versioning_td_driver/src/versioning.c, and
-- `device_flush` and `terminate` of versioning_td_driver/src/versioning_td_driver.c. The result 0 is
-- `true`, -1 is `false`; the log file and the closing of the connection are left out.
pub mod Bounds
pub mod Incomplete
use timelock_drive.Prelude.{ℕ, ◌+◌, Bool, true, false, ◌&&◌, Option, none, some, if◌then◌else◌, ltb}
use timelock_drive.Constants.{DiskCommand, sync, finish, length_td_log_block}
use timelock_drive.Control.{control_header, is_sync, after_first_byte}
use timelock_drive.Logs.{Logs, push_td}
use timelock_drive.Gatekeeper.{Gatekeeper}
use timelock_drive.Metadata.{Driver, Outcome, returned, stopped, send_hd_metadata, send_metadata}
use timelock_drive.Gc.{and_then}
use timelock_drive.Write.{Modes}

-- The version log block that is about to be sent goes into the timelock log, if that is in use and has room.
unfoldable pub log_vmd : {E : Type 0} → Bool → Logs E → Logs E
log_vmd td_metadata l =
    if td_metadata && l.tdmd_dirty && ltb l.tdmd_idx length_td_log_block
    then record (push_td l.current_vmd_block l) { tdmd_dirty = true }
    else l

module _ {A E G : Type 0} (gk : Gatekeeper A G) where
  -- `send_control_command` in the driver's state.
  unfoldable pub control : DiskCommand → Driver E G → Bool × Driver E G
  control command d =
      let (reply, g) = gk.on_command (control_header command) d.gatekeeper in
      let (ok, md_cache) = after_first_byte (is_sync command) reply.first_byte reply d.md_cache in
      (ok, record d { md_cache = md_cache; gatekeeper = g })

  -- A SYNC, and what follows if it succeeds.
  unfoldable pub synced :
      (Driver E G → Outcome (Bool × Driver E G)) → Driver E G → Outcome (Bool × Driver E G)
  synced rest d = let (ok, d') = control sync d in if ok then rest d' else returned (false, d')

  module _ (m : Modes) (now : ℕ) where
    -- The last SYNC.
    unfoldable pub flush_end : Driver E G → Outcome (Bool × Driver E G)
    flush_end d = synced (λ d'. returned (true, d')) d

    -- The timelock log, and what follows.
    unfoldable pub flush_hd : Driver E G → Outcome (Bool × Driver E G)
    flush_hd d =
        if m.td_metadata && d.logs.tdmd_dirty
        then synced (λ d'. and_then (send_hd_metadata gk now m.read_only_mode d') flush_end) d
        else flush_end d

    unfoldable pub flush_pending_metadata : Driver E G → Outcome (Bool × Driver E G)
    flush_pending_metadata d =
        if d.logs.map_dirty
        then synced (λ d'. and_then (send_metadata gk m.read_only_mode d') flush_hd)
            (record d { logs = log_vmd m.td_metadata d.logs })
        else flush_hd d

    unfoldable pub device_flush : Driver E G → Outcome (Bool × Driver E G)
    device_flush d = if m.read_only_mode then returned (true, d) else flush_pending_metadata d

    -- FINISH, if the flush was complete.
    unfoldable pub finish_if : Bool × Driver E G → Outcome (Bool × Driver E G)
    finish_if (flushed, d) = returned (if flushed then control finish d else (false, d))

    unfoldable pub terminate : Driver E G → Outcome (Bool × Driver E G)
    terminate d =
        if m.read_only_mode
        then returned (true, d)
        else and_then (flush_pending_metadata d) finish_if
