-- ===== src/Gc/Bounds.antt =====
-- Collecting blocks keeps the positions in both log blocks within their arrays.
use timelock_drive.Prelude.{
  ℕ, Bool, true, false, Option, none, some, List, [], ◌∷◌, if◌then◌else◌, ◌==◌, arith,
}
use timelock_drive.BlockList.{Store}
use timelock_drive.Logs.{EpochMap, Logs, begin_td}
use timelock_drive.Logs.Bounds.{InBounds}
use timelock_drive.Gatekeeper.{Gatekeeper}
use timelock_drive.Metadata.{Driver, Outcome, returned, stopped}
use timelock_drive.Metadata.Bounds.{OnReturn, send_hd_metadata-InBounds}
use timelock_drive.Gc.{
  and_then, take_collected, begin_gc, log_collected, stamp, wait_expiry, send_if, gc_entry,
  gc_taken, perform_gc, epoch_timelock_physical_block, timelock_lbas, flush_epoch_timelock_set,
}

pub and_then-OnReturn {ℓ} :
    {S T : Type ℓ}
    → (P : S → Type 0) (Q : T → Type 0) (o : Outcome S) (f : S → Outcome T) → OnReturn P o
    → ((s : S) → P s → OnReturn Q (f s))
    → OnReturn Q (and_then o f)
and_then-OnReturn P Q (returned s) f h next = next s h
and_then-OnReturn P Q stopped f h next = tt

pub if-OnReturn {ℓ} :
    {S : Type ℓ}
    → (P : S → Type 0) (c : Bool) (x y : Outcome S) → OnReturn P x
    → OnReturn P y
    → OnReturn P (if c then x else y)
if-OnReturn P true x y hx hy = hx
if-OnReturn P false x y hx hy = hy

log_collected-InBounds :
    {E : Type 0} → (pba : ℕ) (l : Logs E) → InBounds l → InBounds (log_collected pba l)
unfolding log_collected
log_collected-InBounds pba l h = ground arith

begin_gc-InBounds : {E : Type 0} → (l : Logs E) → InBounds l → InBounds (begin_gc l)
unfolding begin_gc
begin_gc-InBounds l h = ground arith

begin_td-InBounds : {E : Type 0} → (l : Logs E) → InBounds l → InBounds (begin_td l)
unfolding begin_td
begin_td-InBounds l h = ground arith

module _ {A E G : Type 0} (gk : Gatekeeper A G) where
  -- The positions are in bounds.
  abbrev pub Fits : Driver E G → Type 0
  Fits d = InBounds d.logs

  send_if-Fits :
      (send : Bool) (now : ℕ) (b : Bool) (d : Driver E G)
      → Fits d
      → OnReturn Fits (send_if gk send now b d)
  unfolding send_if
  send_if-Fits true now b d h = send_hd_metadata-InBounds gk now b d h
  send_if-Fits false now b d h = h

  gc_taken-Fits :
      (now later : ℕ) (b : Bool) (d : Driver E G) (o : Option (ℕ × Store))
      → Fits d
      → OnReturn Fits (gc_taken gk now later b d o)
  unfolding gc_taken gc_entry wait_expiry
  gc_taken-Fits now later b d none h = h
  gc_taken-Fits now later b d (some (p, store)) h =
      let l = record d.logs { store = store } in
      and_then-OnReturn Fits Fits _ _
        (send_if-Fits _ now b _ (
          log_collected-InBounds (store.cell p).physical_block_id (begin_gc l)
            (begin_gc-InBounds l h)))
        (λ d' h'. h')

  pub perform_gc-Fits :
      (now later : ℕ) (b : Bool) (d : Driver E G)
      → Fits d
      → OnReturn Fits (perform_gc gk now later b d)
  unfolding perform_gc
  perform_gc-Fits now later b d h = gc_taken-Fits now later b d (take_collected d.logs.store) h

  epoch_timelock_physical_block-Fits :
      (now : ℕ) (b : Bool) (p : ℕ) (d : Driver E G)
      → Fits d
      → OnReturn Fits (epoch_timelock_physical_block gk now b p d)
  unfolding epoch_timelock_physical_block
  epoch_timelock_physical_block-Fits now b p d h = send_if-Fits _ now b _ (
      log_collected-InBounds (d.logs.store.cell p).physical_block_id _
        (begin_td-InBounds (record d.logs { store = stamp now p d.logs.store }) h))

  timelock_lbas-Fits :
      (now : ℕ) (b : Bool) (lbas : List ℕ) (d : Driver E G)
      → Fits d
      → OnReturn Fits (timelock_lbas gk now b lbas d)
  unfolding timelock_lbas
  timelock_lbas-Fits now b [] d h = h
  timelock_lbas-Fits now b (lba ∷ lbas) d h =
      and_then-OnReturn Fits Fits _ _
        (if-OnReturn Fits (d.logs.l2pmap lba == 0) _ _ h
          (epoch_timelock_physical_block-Fits now b (d.logs.l2pmap lba) d h))
        (λ d' h'. timelock_lbas-Fits now b lbas d' h')

  pub flush_epoch_timelock_set-Fits :
      (ops : EpochMap E) (keys : E → List ℕ) (now : ℕ) (b : Bool) (d : Driver E G)
      → Fits d
      → OnReturn Fits (flush_epoch_timelock_set gk ops keys now b d)
  unfolding flush_epoch_timelock_set
  flush_epoch_timelock_set-Fits ops keys now b d h =
      and_then-OnReturn Fits Fits _ _ (timelock_lbas-Fits now b (keys d.logs.epoch_map) _ h)
        (λ d' h'. send_hd_metadata-InBounds gk now b d' h')
