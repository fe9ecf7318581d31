-- ===== src/Flush/Incomplete.antt =====
-- A flush that reports success with the version log block unwritten.
use timelock_drive.Prelude.{
  ℕ, zero, suc, ◌+◌, ◌-◌, ◌≡◌, refl, sym, ap, ◌∙◌, Bool, true, false, ◌&&◌, update, arith, ltb,
  if_true, if_false,
}
use timelock_drive.Constants.{sync, length_version_log_block, length_td_log_block}
use timelock_drive.BlockList.{pop_nth_in_freelist}
use timelock_drive.Logs.{Logs}
use timelock_drive.Logs.Prepare.{prepare_vmd_write-Prepared, unprepared, prepared}
use timelock_drive.Gatekeeper.{Gatekeeper}
use timelock_drive.Metadata.{
  Driver, Outcome, returned, pad_map, no_entry, send_dirty_map, send_metadata,
}
use timelock_drive.Gc.{and_then}
use timelock_drive.Write.{Modes}
use timelock_drive.Flush.{log_vmd, control, synced, flush_end, flush_hd, flush_pending_metadata}

record Same {E : Type 0} (l l' : Logs E) : Type 0 where
  store : l'.store ≡ l.store
  dirty : l'.map_dirty ≡ l.map_dirty

pad_map-Same : {E : Type 0} → (n : ℕ) (l : Logs E) → Same l (pad_map n l)
unfolding pad_map
pad_map-Same zero l = record { store = refl; dirty = refl }
pad_map-Same (suc n) l =
    let next = record l {
      l2p_block = record l.l2p_block { map = update l.l2p_block.map l.map_idx no_entry };
      map_idx = l.map_idx + 1;
    } in
    let ih = pad_map-Same n next in record { store = ih.store; dirty = ih.dirty }

module _ {A E G : Type 0} (gk : Gatekeeper A G) where
  padded : Driver E G → Driver E G
  padded d = record d { logs = pad_map (length_version_log_block - d.logs.map_idx) d.logs }

  send_metadata-short :
      (b : Bool) (d : Driver E G)
      → d.logs.map_dirty ≡ true
      → (pop_nth_in_freelist length_version_log_block d.logs.store).0 ≡ 0
      → send_metadata gk b d ≡ returned (padded d)
  unfolding send_metadata send_dirty_map padded
  send_metadata-short b d dirty short =
      let same = pad_map-Same (length_version_log_block - d.logs.map_idx) d.logs in
      if_true d.logs.map_dirty _ _ dirty ∙ elim (prepare_vmd_write-Prepared b (padded d).logs) [
        | unprepared z e ↦ rw (send_dirty_map, e) refl
        | prepared p store ne at e commit ↦ absurd (
            ne (
              ap (λ r. r.0) (sym at)
              ∙ ap (λ s. (pop_nth_in_freelist length_version_log_block s).0) same.store
              ∙ short))
      ]

  module _ (m : Modes) (now : ℕ) (d : Driver E G) where
    control-logs : (d : Driver E G) → (control gk sync d).1.logs ≡ d.logs
    unfolding control
    control-logs d = refl

    synced-ok :
        (rest : Driver E G → Outcome (Bool × Driver E G)) (d : Driver E G)
        → (control gk sync d).0 ≡ true
        → synced gk rest d ≡ rest (control gk sync d).1
    unfolding synced
    synced-ok rest d ok = if_true (control gk sync d).0 _ _ ok

    log_vmd-off : (l : Logs E) → m.td_metadata ≡ false → log_vmd m.td_metadata l ≡ l
    unfolding log_vmd
    log_vmd-off l off =
        if_false (m.td_metadata && l.tdmd_dirty && ltb l.tdmd_idx length_td_log_block) _ _
          (ground (arith, off))

    -- With no timelock log and a dirty version log block, if every SYNC succeeds and the free list is
    -- too short for the next block of the log, `flush_pending_metadata` returns 0 and the version log
    -- block is as dirty as before: it was not written.
    pub flush_pending_metadata-unwritten :
        m.td_metadata ≡ false
        → d.logs.map_dirty ≡ true
        → ((x : Driver E G) → (control gk sync x).0 ≡ true)
        → (pop_nth_in_freelist length_version_log_block d.logs.store).0 ≡ 0
        → (d' : Driver E G) × (flush_pending_metadata gk m now d ≡ returned (true, d'))
          × (d'.logs.map_dirty ≡ true)
    unfolding flush_pending_metadata flush_hd flush_end padded
    flush_pending_metadata-unwritten no_td dirty ok short =
        let start = record d { logs = log_vmd m.td_metadata d.logs } in
        let c1 = (control gk sync start).1 in
        let same : c1.logs ≡ d.logs = control-logs start ∙ log_vmd-off d.logs no_td in
        let short1 =
          ap (λ l. (pop_nth_in_freelist length_version_log_block l.store).0) same ∙ short in
        let dirty1 = ap (λ l. l.map_dirty) same ∙ dirty in
        let unsent = send_metadata-short m.read_only_mode c1 dirty1 short1 in
        let d' = (control gk sync (padded c1)).1 in
        (
          d',
          if_true d.logs.map_dirty _ _ dirty
              ∙ synced-ok (λ x. and_then (send_metadata gk m.read_only_mode x) (flush_hd gk m now))
                  start (ok start)
              ∙ ap (λ o. and_then o (flush_hd gk m now)) unsent
              ∙ if_false (m.td_metadata && (padded c1).logs.tdmd_dirty) _ _ (ground (arith, no_td))
              ∙ synced-ok (λ x. returned (true, x)) (padded c1) (ok (padded c1)),
          ap (λ l. l.map_dirty) (control-logs (padded c1))
              ∙ (pad_map-Same (length_version_log_block - c1.logs.map_idx) c1.logs).dirty
              ∙ dirty1,
        )
