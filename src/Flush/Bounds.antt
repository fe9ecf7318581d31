-- ===== src/Flush/Bounds.antt =====
-- Flushing keeps the positions in both log blocks within their arrays.
use timelock_drive.Prelude.{ℕ, ◌≡◌, refl, Bool, false, ◌&&◌, arith}
use timelock_drive.Constants.{DiskCommand, sync}
use timelock_drive.Logs.{Logs}
use timelock_drive.Logs.Bounds.{InBounds}
use timelock_drive.Gatekeeper.{Gatekeeper}
use timelock_drive.Metadata.{Driver, Outcome, returned}
use timelock_drive.Metadata.Bounds.{OnReturn, send_hd_metadata-InBounds, send_metadata-InBounds}
use timelock_drive.Gc.Bounds.{and_then-OnReturn, if-OnReturn}
use timelock_drive.Write.{Modes}
use timelock_drive.Flush.{
  log_vmd, control, synced, flush_end, flush_hd, flush_pending_metadata, device_flush,
}

log_vmd-InBounds : {E : Type 0} → (td : Bool) (l : Logs E) → InBounds l → InBounds (log_vmd td l)
unfolding log_vmd
log_vmd-InBounds td l h = ground arith

module _ {A E G : Type 0} (gk : Gatekeeper A G) where
  abbrev Fits : Driver E G → Type 0
  Fits d = InBounds d.logs

  -- The same of a result with a state.
  abbrev ResultFits : Bool × Driver E G → Type 0
  ResultFits r = InBounds r.1.logs

  control-logs : (command : DiskCommand) (d : Driver E G) → (control gk command d).1.logs ≡ d.logs
  unfolding control
  control-logs command d = refl

  synced-Fits :
      (rest : Driver E G → Outcome (Bool × Driver E G)) (d : Driver E G)
      → Fits d
      → ((d' : Driver E G) → Fits d' → OnReturn ResultFits (rest d'))
      → OnReturn ResultFits (synced gk rest d)
  unfolding synced control
  synced-Fits rest d h next =
      let c = control gk sync d in
      if-OnReturn ResultFits c.0 (rest c.1) (returned (false, c.1)) (next c.1 h) h

  module _ (m : Modes) (now : ℕ) where
    flush_end-Fits : (d : Driver E G) → Fits d → OnReturn ResultFits (flush_end gk m now d)
    unfolding flush_end
    flush_end-Fits d h = synced-Fits _ d h (λ d' h'. h')

    flush_hd-Fits : (d : Driver E G) → Fits d → OnReturn ResultFits (flush_hd gk m now d)
    unfolding flush_hd
    flush_hd-Fits d h =
        if-OnReturn ResultFits (m.td_metadata && d.logs.tdmd_dirty) _ _
          (synced-Fits _ d h (λ d' h'.
            and_then-OnReturn Fits ResultFits _ _
              (send_hd_metadata-InBounds gk now m.read_only_mode d' h') flush_end-Fits))
          (flush_end-Fits d h)

    pub flush_pending_metadata-Fits :
        (d : Driver E G) → Fits d → OnReturn ResultFits (flush_pending_metadata gk m now d)
    unfolding flush_pending_metadata
    flush_pending_metadata-Fits d h =
        if-OnReturn ResultFits d.logs.map_dirty _ _
          (synced-Fits _ _ (log_vmd-InBounds m.td_metadata d.logs h) (λ d' h'.
            and_then-OnReturn Fits ResultFits _ _ (send_metadata-InBounds gk m.read_only_mode d' h')
              flush_hd-Fits))
          (flush_hd-Fits d h)

    pub device_flush-Fits :
        (d : Driver E G) → Fits d → OnReturn ResultFits (device_flush gk m now d)
    unfolding device_flush
    device_flush-Fits d h =
        if-OnReturn ResultFits m.read_only_mode _ _ h (flush_pending_metadata-Fits d h)
