-- ===== src/Run.antt =====
-- The driver over time: its operations one after the other, as the write lock orders them. Each is
-- one step; between two steps the gatekeeper keeps its state.
use timelock_drive.Prelude.{ℕ, ◌≡◌, subst, Bool, List}
use timelock_drive.Logs.{EpochMap}
use timelock_drive.Logs.Bounds.{InBounds}
use timelock_drive.Gatekeeper.{Gatekeeper}
use timelock_drive.Metadata.{Driver, Outcome, returned, send_hd_metadata, send_metadata}
use timelock_drive.Metadata.Bounds.{OnReturn, send_hd_metadata-InBounds, send_metadata-InBounds}
use timelock_drive.Write.{Modes, device_write_wrapper}
use timelock_drive.Write.Bounds.{device_write_wrapper-InBounds}
use timelock_drive.Gc.{perform_gc, flush_epoch_timelock_set}
use timelock_drive.Gc.Bounds.{perform_gc-Fits, flush_epoch_timelock_set-Fits}
use timelock_drive.Flush.{device_flush}
use timelock_drive.Flush.Bounds.{device_flush-Fits}

module _ {A E G : Type 0} (gk : Gatekeeper A G) (ops : EpochMap E) (keys : E → List ℕ)
    (m : Modes) where
  -- A step of the driver: a write, a flush, a block collected, an epoch closed, or log blocks sent by
  -- a daemon. It ends with a state that the operation returns.
  pub data Step : Driver E G → Driver E G → Type 0 where
    writes :
        (fuel now : ℕ) (b : List A) (offset : ℕ) (d d' : Driver E G)
        → (device_write_wrapper gk ops fuel now m b offset d).1 ≡ d'
        → Step d d'
    flushes :
        (now : ℕ) (ok : Bool) (d d' : Driver E G)
        → device_flush gk m now d ≡ returned (ok, d')
        → Step d d'
    collects :
        (now later : ℕ) (d d' : Driver E G)
        → perform_gc gk now later m.read_only_mode d ≡ returned d'
        → Step d d'
    closes_epoch :
        (now : ℕ) (d d' : Driver E G)
        → flush_epoch_timelock_set gk ops keys now m.read_only_mode d ≡ returned d'
        → Step d d'
    sends_hd :
        (now : ℕ) (d d' : Driver E G)
        → send_hd_metadata gk now m.read_only_mode d ≡ returned d'
        → Step d d'
    sends_map : (d d' : Driver E G) → send_metadata gk m.read_only_mode d ≡ returned d' → Step d d'

  -- Any number of steps.
  pub data Steps : Driver E G → Driver E G → Type 0 where
    done : (d : Driver E G) → Steps d d
    step : (d e f : Driver E G) → Step d e → Steps e f → Steps d f

  returned-OnReturn :
      (d d' : Driver E G) (o : Outcome (Driver E G))
      → OnReturn (λ (x : Driver E G). InBounds x.logs) o
      → o ≡ returned d'
      → InBounds d'.logs
  returned-OnReturn d d' o h e = subst (OnReturn (λ (x : Driver E G). InBounds x.logs)) e h

  Step-InBounds : (d d' : Driver E G) → Step d d' → InBounds d.logs → InBounds d'.logs
  Step-InBounds _ _ (writes fuel now b offset d d' e) h =
      subst (λ (x : Driver E G). InBounds x.logs) e
        (device_write_wrapper-InBounds gk ops fuel now m b offset d h)
  Step-InBounds _ _ (flushes now ok d d' e) h =
      subst (OnReturn (λ (r : Bool × Driver E G). InBounds r.1.logs)) e
        (device_flush-Fits gk m now d h)
  Step-InBounds _ _ (collects now later d d' e) h =
      returned-OnReturn d d' _ (perform_gc-Fits gk now later m.read_only_mode d h) e
  Step-InBounds _ _ (closes_epoch now d d' e) h =
      returned-OnReturn d d' _ (flush_epoch_timelock_set-Fits gk ops keys now m.read_only_mode d h)
        e
  Step-InBounds _ _ (sends_hd now d d' e) h =
      returned-OnReturn d d' _ (send_hd_metadata-InBounds gk now m.read_only_mode d h) e
  Step-InBounds _ _ (sends_map d d' e) h =
      returned-OnReturn d d' _ (send_metadata-InBounds gk m.read_only_mode d h) e

  -- However many writes, flushes, collections, closings of an epoch and sendings of log blocks follow
  -- one another, in whatever order and whatever the gatekeeper answers, the positions in both log
  -- blocks stay within their arrays.
  pub Steps-InBounds : (d d' : Driver E G) → Steps d d' → InBounds d.logs → InBounds d'.logs
  Steps-InBounds _ _ (done d) h = h
  Steps-InBounds _ _ (step d e f s rest) h = Steps-InBounds e f rest (Step-InBounds d e s h)
