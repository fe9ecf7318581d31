-- ===== src/Metadata/Sent.antt =====
-- How `send_hd_metadata` and `send_metadata` end.
use timelock_drive.Prelude.{
  ℕ, ◌-◌, ◌≡◌, ◌≢◌, refl, sym, subst, Bool, true, false, ◌||◌, none, some, List, [], ◌==◌,
  Bool-cases, Option-cases, if_true, if_false, arith, inl, inr,
}
use timelock_drive.Constants.{TdMetadataLogBlock, length_td_log_block, length_version_log_block}
use timelock_drive.BlockList.{Store}
use timelock_drive.MdIndex.{collect_tdlog_needed_md_indices}
use timelock_drive.Control.{CachedTdMetadataBlock, Reply}
use timelock_drive.Logs.{Logs, commit_tdmd_write, commit_vmd_write}
use timelock_drive.Logs.Commit.{after_tdmd, after_vmd}
use timelock_drive.Logs.Prepare.{
  unprepared, prepared, marked, prepare_tdmd_write-Prepared, prepare_vmd_write-Prepared,
}
use timelock_drive.Gatekeeper.{Gatekeeper, WriteMessage, timelock_block, version_block}
use timelock_drive.Metadata.Membership.{evicted_in, first_of-zero}
use timelock_drive.Metadata.{
  log_message, Driver, Outcome, returned, stopped, merge_evicted, note_sent, pick_unsent,
  take_response, pad_td, pad_map, send_hd_message, send_hd_prepared, send_dirty_hd,
  send_hd_metadata, send_dirty_map, vmd_sent, note_vmd_sent, send_vmd_message, send_metadata,
}

abbrev pub Belief : Type 0
Belief = (ℕ → CachedTdMetadataBlock) × (ℕ → Bool)

-- The response is a rejection or cut short, or it brings evicted blocks, perhaps none.
pub data ResponseEnds (reply : Reply) (cm : Belief) : Type 0 where
  rejected : take_response reply cm ≡ none → ResponseEnds reply cm
  accepted :
      take_response reply cm ≡ some (merge_evicted (evicted_in reply) cm) → ResponseEnds reply cm

pub take_response-ResponseEnds : (reply : Reply) (cm : Belief) → ResponseEnds reply cm
unfolding take_response merge_evicted
take_response-ResponseEnds reply cm = elim (Option-cases reply.first_byte) [
  | inl cut ↦ rejected (rw cut refl)
  | inr (success, e) ↦ elim (Bool-cases (success == 255 || success == 254)) [
    | inl denied ↦ rejected (rw (e, denied) refl)
    | inr fine ↦ elim (Bool-cases (success == 0)) [
      | inl zero_evicted ↦
          let evicts_none : evicted_in reply ≡ [] =
            rw e (first_of-zero success (reply.evicted success) (ground (arith, zero_evicted))) in
          accepted (rw (evicts_none, e, fine, zero_evicted) refl)
      | inr some_evicted ↦ elim (Option-cases (reply.evicted success)) [
        | inl short ↦ rejected (rw (e, fine, some_evicted, short) refl)
        | inr (blocks, f) ↦ accepted (rw (e, fine, some_evicted, f) refl)
      ]
    ]
  ]
]

module _ {A E G : Type 0} (gk : Gatekeeper A G) where
  abbrev pub padded_td : Driver E G → Logs E
  padded_td d = pad_td (length_td_log_block - d.logs.tdmd_idx) d.logs

  -- The request for a timelock log block, at the address of the present one, with the metadata blocks
  -- needed that are not believed to be held.
  abbrev pub hd_request : List ℕ → TdMetadataLogBlock → Driver E G → WriteMessage A
  hd_request needed block d =
      log_message gk (padded_td d).current_tdmd_block (pick_unsent d.md_cache_membership needed [])
        (timelock_block block) d

  -- The state once the response is taken.
  abbrev pub hd_after : ℕ → Bool → ℕ → Store → List ℕ → Driver E G → Driver E G
  hd_after now b p store needed d =
      let l = after_tdmd now b p store (padded_td d) in
      let answer = gk.on_write (hd_request needed l.td_md_block d) d.gatekeeper in
      let merged = merge_evicted (evicted_in answer.0) (d.md_cache, d.md_cache_membership) in
      record {
        logs = record l { tdmd_dirty = false };
        md_cache = merged.0;
        md_cache_membership = note_sent (pick_unsent d.md_cache_membership needed []) merged.1;
        gatekeeper = answer.1;
      }

  -- `send_hd_metadata` does nothing, finds no entry, ends the process, or has its block written.
  pub data HdEnds (now : ℕ) (b : Bool) (d : Driver E G) (o : Outcome (Driver E G)) : Type 0 where
    clean : d.logs.tdmd_dirty ≡ false → o ≡ returned d → HdEnds now b d o
    no_entry :
        d.logs.tdmd_dirty ≡ true → o ≡ returned (record d { logs = padded_td d }) → HdEnds now b d o
    halted : o ≡ stopped → HdEnds now b d o
    written :
        (p : ℕ) (store : Store) (needed : List ℕ)
        → p ≢ 0
        → collect_tdlog_needed_md_indices (after_tdmd now b p store (padded_td d)).td_md_block
          ≡ some needed
        → o ≡ returned (hd_after now b p store needed d)
        → HdEnds now b d o

  hd_message-Ends :
      (now : ℕ) (b : Bool) (d : Driver E G) (p : ℕ) (store : Store) (needed : List ℕ)
      → p ≢ 0
      → collect_tdlog_needed_md_indices (after_tdmd now b p store (padded_td d)).td_md_block
        ≡ some needed
      → commit_tdmd_write p
          (after_tdmd now b p store (padded_td d)).td_md_block
          (marked b p store (padded_td d))
        ≡ after_tdmd now b p store (padded_td d)
      → HdEnds now b d (
          send_hd_message gk p
            (after_tdmd now b p store (padded_td d)).td_md_block
            needed
            (record d { logs = marked b p store (padded_td d) }))
  unfolding send_hd_message
  hd_message-Ends now b d p store needed ne c commit =
      let l = after_tdmd now b p store (padded_td d) in
      let d' = record d { logs = marked b p store (padded_td d) } in
      let r =
        gk.on_write
          (log_message gk d'.logs.current_tdmd_block (pick_unsent d.md_cache_membership needed [])
            (timelock_block l.td_md_block) d')
          d.gatekeeper in
      elim (take_response-ResponseEnds r.0 (d.md_cache, d.md_cache_membership)) [
        | rejected e ↦ halted (rw (send_hd_message, e) refl)
        | accepted e ↦ written p store needed ne c (rw (send_hd_message, e, commit) refl)
      ]

  send_dirty_hd-HdEnds :
      (now : ℕ) (b : Bool) (d : Driver E G)
      → d.logs.tdmd_dirty ≡ true
      → HdEnds now b d (send_dirty_hd gk now b d)
  unfolding send_dirty_hd send_hd_prepared
  send_dirty_hd-HdEnds now b d dirty = elim (prepare_tdmd_write-Prepared now b (padded_td d)) [
    | unprepared z e ↦ no_entry dirty (rw (send_dirty_hd, e) refl)
    | prepared p store ne at e commit ↦
        elim (Option-cases
          (collect_tdlog_needed_md_indices (after_tdmd now b p store (padded_td d)).td_md_block)) [
            | inl abort ↦ halted (rw (send_dirty_hd, e, send_hd_prepared, abort) refl)
            | inr (needed, c) ↦
                rw (send_dirty_hd, e, send_hd_prepared, c)
                  (hd_message-Ends now b d p store needed ne c commit)
          ]
  ]

  pub send_hd_metadata-HdEnds :
      (now : ℕ) (b : Bool) (d : Driver E G) → HdEnds now b d (send_hd_metadata gk now b d)
  unfolding send_hd_metadata
  send_hd_metadata-HdEnds now b d = elim (Bool-cases d.logs.tdmd_dirty) [
    | inr c ↦ clean c (if_false d.logs.tdmd_dirty _ _ c)
    | inl dirty ↦
        subst (HdEnds now b d) (sym (if_true d.logs.tdmd_dirty _ _ dirty))
          (send_dirty_hd-HdEnds now b d dirty)
  ]

  abbrev pub padded_map : Driver E G → Logs E
  padded_map d = pad_map (length_version_log_block - d.logs.map_idx) d.logs

  -- `send_metadata`, likewise.
  pub data VmdEnds (b : Bool) (d : Driver E G) (o : Outcome (Driver E G)) : Type 0 where
    clean : d.logs.map_dirty ≡ false → o ≡ returned d → VmdEnds b d o
    no_entry :
        d.logs.map_dirty ≡ true → o ≡ returned (record d { logs = padded_map d }) → VmdEnds b d o
    halted : o ≡ stopped → VmdEnds b d o
    written :
        (p : ℕ) (store : Store) (blocks : List CachedTdMetadataBlock) (g : G)
        → p ≢ 0
        → o
          ≡ returned (record {
            logs = record (after_vmd b p store (padded_map d)) { map_dirty = false };
            md_cache = (merge_evicted blocks (d.md_cache, d.md_cache_membership)).0;
            md_cache_membership =
                note_vmd_sent
                  (vmd_sent (record d { logs = padded_map d }))
                  (merge_evicted blocks (d.md_cache, d.md_cache_membership)).1;
            gatekeeper = g;
          })
        → VmdEnds b d o

  vmd_message-Ends :
      (b : Bool) (d : Driver E G) (p : ℕ) (store : Store)
      → p ≢ 0
      → commit_vmd_write p
          (after_vmd b p store (padded_map d)).l2p_block
          (marked b p store (padded_map d))
        ≡ after_vmd b p store (padded_map d)
      → VmdEnds b d (
          send_vmd_message gk p
            (after_vmd b p store (padded_map d)).l2p_block
            (record d { logs = marked b p store (padded_map d) }))
  unfolding send_vmd_message
  vmd_message-Ends b d p store ne commit =
      let l = after_vmd b p store (padded_map d) in
      let d' = record d { logs = marked b p store (padded_map d) } in
      let r =
        gk.on_write
          (log_message gk d'.logs.current_vmd_block (vmd_sent d') (version_block l.l2p_block) d')
          d.gatekeeper in
      elim (take_response-ResponseEnds r.0 (d.md_cache, d.md_cache_membership)) [
        | rejected e ↦ halted (rw (send_vmd_message, e) refl)
        | accepted e ↦
            written p store (evicted_in r.0) r.1 ne (rw (send_vmd_message, e, commit) refl)
      ]

  send_dirty_map-VmdEnds :
      (b : Bool) (d : Driver E G) → d.logs.map_dirty ≡ true → VmdEnds b d (send_dirty_map gk b d)
  unfolding send_dirty_map
  send_dirty_map-VmdEnds b d dirty = elim (prepare_vmd_write-Prepared b (padded_map d)) [
    | unprepared z e ↦ no_entry dirty (rw (send_dirty_map, e) refl)
    | prepared p store ne at e commit ↦
        rw (send_dirty_map, e) (vmd_message-Ends b d p store ne commit)
  ]

  pub send_metadata-VmdEnds : (b : Bool) (d : Driver E G) → VmdEnds b d (send_metadata gk b d)
  unfolding send_metadata
  send_metadata-VmdEnds b d = elim (Bool-cases d.logs.map_dirty) [
    | inr c ↦ clean c (if_false d.logs.map_dirty _ _ c)
    | inl dirty ↦
        subst (VmdEnds b d) (sym (if_true d.logs.map_dirty _ _ dirty))
          (send_dirty_map-VmdEnds b d dirty)
  ]
