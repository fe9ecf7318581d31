-- ===== src/Metadata.antt =====
-- Metadata on its way to the gatekeeper: `note_md_membership_update`, `send_hd_metadata` and
-- `send_metadata` of versioning_td_driver/src/versioning.c. Each writes its log block, sends the
-- cached metadata blocks that the gatekeeper is not believed to hold, and takes back the ones that it
-- evicts. `NO_NETWORK` is not defined; `malloc` succeeds.
pub mod Membership
pub mod Sent
pub mod Bounds
pub mod Belief
use timelock_drive.Prelude.{
  ℕ, zero, suc, ◌+◌, ◌-◌, ◌/◌, Bool, true, false, not, ◌&&◌, ◌||◌, Option, none, some, List, [],
  ◌∷◌, ◌++◌, if◌then◌else◌, ltb, leb, ◌==◌, update, take, length, map,
}
use timelock_drive.Constants.{
  TdMetadataLogBlock, DataRange, uint32_max, total_num_metadata_blocks, metadata_entries_per_block,
  max_md_blocks_in_header, length_td_log_block, length_version_log_block,
}
use timelock_drive.BlockList.{Store}
use timelock_drive.Recovery.{L2PEntry, L2PBlock}
use timelock_drive.MdIndex.{collect_tdlog_needed_md_indices}
use timelock_drive.Control.{CachedTdMetadataBlock, is_merged, Reply}
use timelock_drive.Logs.{
  Logs, push_td, prepare_tdmd_write, prepare_vmd_write, commit_tdmd_write, commit_vmd_write,
}
use timelock_drive.Gatekeeper.{
  Payload, version_block, timelock_block, WriteMessage, write_message, Gatekeeper,
}

-- The driver's state beside the logs: its copies of all metadata blocks, which of them it believes
-- to be in the gatekeeper's cache, and the gatekeeper.
pub record Driver (E G : Type 0) : Type 0 where
  pub logs : Logs E
  pub md_cache : ℕ → CachedTdMetadataBlock
  pub md_cache_membership : ℕ → Bool
  pub gatekeeper : G

-- How a call ends: it returns, or the process does, in `exit` or `abort`.
pub data Outcome {ℓ} (S : Type ℓ) : Type ℓ where
  returned : S → Outcome S
  stopped : Outcome S

unfoldable pub note_md_membership_update : ℕ → Bool → (ℕ → Bool) → ℕ → Bool
note_md_membership_update idx new_value membership =
    if leb total_num_metadata_blocks idx then membership else update membership idx new_value

-- One evicted block: with a real hash it is kept, and it has left the gatekeeper's cache.
abbrev pub merge_block :
    CachedTdMetadataBlock
    → (ℕ → CachedTdMetadataBlock) × (ℕ → Bool)
    → (ℕ → CachedTdMetadataBlock) × (ℕ → Bool)
merge_block block cm =
    if is_merged block
    then (update cm.0 block.idx block, note_md_membership_update block.idx false cm.1)
    else cm

-- The loop over the evicted blocks.
unfoldable pub merge_evicted :
    List CachedTdMetadataBlock
    → (ℕ → CachedTdMetadataBlock) × (ℕ → Bool)
    → (ℕ → CachedTdMetadataBlock) × (ℕ → Bool)
merge_evicted [] cm = cm
merge_evicted (block ∷ blocks) cm = merge_evicted blocks (merge_block block cm)

-- The loop over the blocks that were sent.
unfoldable pub note_sent : List ℕ → (ℕ → Bool) → ℕ → Bool
note_sent [] membership = membership
note_sent (idx ∷ sent) membership = note_sent sent (
    if ltb idx total_num_metadata_blocks
    then note_md_membership_update idx true membership
    else membership)

-- The loop that picks the blocks to send; `sent` holds those picked so far.
unfoldable pub pick_unsent : (ℕ → Bool) → List ℕ → List ℕ → List ℕ
pick_unsent membership [] sent = sent
pick_unsent membership (idx ∷ needed) sent =
    let skip = pick_unsent membership needed sent in
    let pick = pick_unsent membership needed (sent ++ idx ∷ []) in
    if leb total_num_metadata_blocks idx
    then skip
    else if leb max_md_blocks_in_header (length sent)
    then sent
    else if membership idx
    then skip
    else pick

-- What the two functions do with the response: `none` is the end of the process, on a short read or
-- a rejection. A count above the most that a header holds is only logged.
unfoldable pub take_response :
    Reply
    → (ℕ → CachedTdMetadataBlock) × (ℕ → Bool)
    → Option ((ℕ → CachedTdMetadataBlock) × (ℕ → Bool))
take_response reply cm = elim reply.first_byte [
  | none ↦ none
  | some success ↦
      if success == 255 || success == 254
      then none
      else if success == 0
      then some cm
      else elim (reply.evicted success) [
        | none ↦ none
        | some blocks ↦ some (merge_evicted (take success blocks) cm)
      ]
]

-- The rest of the timelock log block is filled with its own address: `n` positions.
unfoldable pub pad_td : {E : Type 0} → ℕ → Logs E → Logs E
pad_td zero l = l
pad_td (suc n) l = pad_td n (push_td l.current_tdmd_block l)

abbrev pub no_entry : L2PEntry
no_entry = record { logical_block_address = uint32_max; physical_block_address = uint32_max }

-- The rest of the version log block is filled with entries that are none.
unfoldable pub pad_map : {E : Type 0} → ℕ → Logs E → Logs E
pad_map zero l = l
pad_map (suc n) l = pad_map n (record l {
  l2p_block = record l.l2p_block { map = update l.l2p_block.map l.map_idx no_entry };
  map_idx = l.map_idx + 1;
})

-- The metadata block of the version log block, if it has to be sent.
abbrev pub vmd_sent : {E G : Type 0} → Driver E G → List ℕ
vmd_sent d =
    let md_idx = d.logs.current_vmd_block / metadata_entries_per_block in
    if d.md_cache_membership md_idx then [] else md_idx ∷ []

abbrev pub note_vmd_sent : List ℕ → (ℕ → Bool) → ℕ → Bool
note_vmd_sent [] membership = membership
note_vmd_sent (md_idx ∷ sent) membership = note_md_membership_update md_idx true membership

module _ {A E G : Type 0} (gk : Gatekeeper A G) where
  -- The request for a log block at `pba`, with the metadata blocks listed.
  abbrev pub log_message : ℕ → List ℕ → Payload A → Driver E G → WriteMessage A
  log_message pba sent block d =
      write_message (record { pba = pba; num_blocks = 1 } ∷ []) (map d.md_cache sent) (block ∷ [])

  -- `send_hd_metadata` from the collected indices on: `p` is the entry reserved, `prepared` the block.
  unfoldable pub send_hd_message :
      ℕ → TdMetadataLogBlock → List ℕ → Driver E G → Outcome (Driver E G)
  send_hd_message p prepared needed d =
      let sent = pick_unsent d.md_cache_membership needed [] in
      let (reply, g) =
        gk.on_write (log_message d.logs.current_tdmd_block sent (timelock_block prepared) d)
          d.gatekeeper in
      elim (take_response reply (d.md_cache, d.md_cache_membership)) [
        | none ↦ stopped
        | some (md_cache, membership) ↦ returned (record {
          logs = record (commit_tdmd_write p prepared d.logs) { tdmd_dirty = false };
          md_cache = md_cache;
          md_cache_membership = note_sent sent membership;
          gatekeeper = g;
        })
      ]

  -- With the entry reserved and the block prepared; the collection may `abort`.
  unfoldable pub send_hd_prepared : ℕ → TdMetadataLogBlock → Driver E G → Outcome (Driver E G)
  send_hd_prepared p prepared d = elim (collect_tdlog_needed_md_indices prepared) [
    | none ↦ stopped
    | some needed ↦ send_hd_message p prepared needed d
  ]

  -- `send_hd_metadata` on a dirty log block. When no entry can be reserved, the padded block stays.
  unfoldable pub send_dirty_hd : ℕ → Bool → Driver E G → Outcome (Driver E G)
  send_dirty_hd now read_only_mode d =
      let padded = pad_td (length_td_log_block - d.logs.tdmd_idx) d.logs in
      elim (prepare_tdmd_write now read_only_mode padded) [
        | none ↦ returned (record d { logs = padded })
        | some (p, prepared, l) ↦ send_hd_prepared p prepared (record d { logs = l })
      ]

  -- `now` is `__rdtsc() >> 32`.
  unfoldable pub send_hd_metadata : ℕ → Bool → Driver E G → Outcome (Driver E G)
  send_hd_metadata now read_only_mode d =
      if d.logs.tdmd_dirty then send_dirty_hd now read_only_mode d else returned d

  -- `send_metadata` with the block prepared.
  pub send_vmd_message : ℕ → L2PBlock → Driver E G → Outcome (Driver E G)
  send_vmd_message p prepared d =
      let sent = vmd_sent d in
      let (reply, g) =
        gk.on_write (log_message d.logs.current_vmd_block sent (version_block prepared) d)
          d.gatekeeper in
      elim (take_response reply (d.md_cache, d.md_cache_membership)) [
        | none ↦ stopped
        | some (md_cache, membership) ↦ returned (record {
          logs = record (commit_vmd_write p prepared d.logs) { map_dirty = false };
          md_cache = md_cache;
          md_cache_membership = note_vmd_sent sent membership;
          gatekeeper = g;
        })
      ]

  -- `send_metadata` on a dirty log block.
  unfoldable pub send_dirty_map : Bool → Driver E G → Outcome (Driver E G)
  send_dirty_map read_only_mode d =
      let padded = pad_map (length_version_log_block - d.logs.map_idx) d.logs in
      elim (prepare_vmd_write read_only_mode padded) [
        | none ↦ returned (record d { logs = padded })
        | some (p, prepared, l) ↦ send_vmd_message p prepared (record d { logs = l })
      ]

  unfoldable pub send_metadata : Bool → Driver E G → Outcome (Driver E G)
  send_metadata read_only_mode d =
      if d.logs.map_dirty then send_dirty_map read_only_mode d else returned d
