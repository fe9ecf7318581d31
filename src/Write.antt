-- ===== src/Write.antt =====
-- The write path of versioning_td_driver/src/versioning_td_driver.c: `device_write` after the
-- allocation, and `device_write_wrapper`. The data is a list of whole blocks. `malloc` succeeds; the
-- flags and the start of the daemons and the log file are left out.
pub mod Allocate
pub mod Ends
pub mod Failure
pub mod Interleave
pub mod Layout
pub mod Bounds
pub mod Membership
pub mod Remap
pub mod Stored
pub mod View
pub mod ReadBack
pub mod Refines
unfoldable pub use Allocate.*
use timelock_drive.Prelude.{
  ℕ, zero, suc, ◌+◌, ◌-◌, ◌*◌, ◌/◌, ◌%◌, ◌^◌, Bool, true, false, not, ◌&&◌, ◌||◌, Option, none,
  some, List, [], ◌∷◌, ◌++◌, if◌then◌else◌, ltb, ◌==◌, leb, update, take, drop, length, map,
}
use timelock_drive.Constants.{
  TdMetadataLogBlock, DataRange, block_size, metadata_entries_per_block, max_md_blocks_in_header,
  max_mapping_count,
}
use timelock_drive.Recovery.{L2PBlock}
use timelock_drive.MdIndex.{md_block_already_queued, add_tdlog_referenced_md_blocks}
use timelock_drive.Control.{CachedTdMetadataBlock, Reply}
use timelock_drive.Ranges.{merge_ranges}
use timelock_drive.Ranges.Blocks.{slice}
use timelock_drive.Logs.{
  EpochMap, Logs, RangeRet, find_free_range, set_pointer_and_reset_tdmd, set_pointer_and_reset_vmd,
}
use timelock_drive.Gatekeeper.{
  Payload, data_block, version_block, timelock_block, WriteMessage, write_message, Gatekeeper,
}
use timelock_drive.Metadata.{Driver, note_md_membership_update, merge_evicted}

-- The metadata blocks to send: those not believed to be in the gatekeeper's cache.
unfoldable pub unsent : (ℕ → Bool) → List ℕ → List ℕ
unsent membership [] = []
unsent membership (md ∷ touched) =
    if not (membership md) then md ∷ unsent membership touched else unsent membership touched

-- The metadata blocks touched, with those that a timelock log block carried along refers to.
abbrev pub referenced : Modes → Option (Carried TdMetadataLogBlock) → List ℕ → List ℕ
referenced m none touched = touched
referenced m (some h) touched =
    if m.versioning_metadata && m.td_metadata
    then add_tdlog_referenced_md_blocks h.block touched
    else touched

-- `n` blocks of the write buffer from `from` on.
abbrev pub copy : {A : Type 0} → List A → ℕ → ℕ → List (Payload A)
copy write_buffer from n = map data_block (take n (drop from write_buffer))

-- The blocks of the message; `none` is a tie that fails.
unfoldable pub layout :
    {A : Type 0}
    → List A
    → Option (Carried L2PBlock)
    → Option (Carried TdMetadataLogBlock)
    → Option (List (Payload A))
layout b none none = some (map data_block b)
layout b (some v) none =
    some (copy b 0 v.offset ++ version_block v.block ∷ copy b v.offset (length b - v.offset))
layout b none (some h) =
    some (copy b 0 h.offset ++ timelock_block h.block ∷ copy b h.offset (length b - h.offset))
layout b (some v) (some h) =
    if v.offset == h.offset && ltb 0 v.offset
    then (if ltb h.tie_breaker v.tie_breaker || ltb v.tie_breaker h.tie_breaker
        then some (
            copy b 0 v.offset
            ++ timelock_block h.block
              ∷ version_block v.block
              ∷ copy b v.offset (length b - v.offset))
        else none)
    else if ltb v.offset h.offset
    then some (
        copy b 0 v.offset
        ++ version_block v.block
          ∷ (copy b v.offset (h.offset - v.offset)
              ++ timelock_block h.block ∷ copy b h.offset (length b - h.offset)))
    else some (
        copy b 0 h.offset
        ++ timelock_block h.block
          ∷ (copy b h.offset (v.offset - h.offset)
              ++ version_block v.block ∷ copy b v.offset (length b - v.offset)))

-- The loop over the metadata blocks that were sent.
unfoldable pub note_written : List ℕ → (ℕ → Bool) → ℕ → Bool
note_written [] membership = membership
note_written (md ∷ mds) membership = note_written mds (note_md_membership_update md true membership)

-- What comes after the first byte of the response: the result, the cache and the membership.
unfoldable pub take_evictions :
    ℕ
    → Reply
    → (ℕ → CachedTdMetadataBlock) × (ℕ → Bool)
    → WriteResult × (ℕ → CachedTdMetadataBlock) × (ℕ → Bool)
take_evictions success reply cm =
    if success == 0
    then (written, cm.0, cm.1)
    else if ltb max_md_blocks_in_header success
    then (write_fail too_many_evicted_blocks, cm.0, cm.1)
    else elim (reply.evicted success) [
      | none ↦ (write_fail evict_recv_short, cm.0, cm.1)
      | some blocks ↦
          let merged = merge_evicted (take success blocks) cm in (written, merged.0, merged.1)
    ]

-- The same from the first byte on; `none` is a short read of it.
unfoldable pub after_byte :
    List ℕ
    → Option ℕ
    → Reply
    → (ℕ → CachedTdMetadataBlock) × (ℕ → Bool)
    → WriteResult × (ℕ → CachedTdMetadataBlock) × (ℕ → Bool)
after_byte md_blocks none reply cm = (write_fail write_recv_short, cm.0, cm.1)
after_byte md_blocks (some success) reply cm =
    if success == 255
    then (write_fail checker_write_denied, cm.0, cm.1)
    else if success == 254
    then (write_fail checker_freshness_reject, cm.0, cm.1)
    else take_evictions success reply (cm.0, note_written md_blocks cm.1)

-- What `device_write` does with the response.
abbrev pub write_response :
    List ℕ
    → Reply
    → (ℕ → CachedTdMetadataBlock) × (ℕ → Bool)
    → WriteResult × (ℕ → CachedTdMetadataBlock) × (ℕ → Bool)
write_response md_blocks reply cm = after_byte md_blocks reply.first_byte reply cm

-- The metadata blocks that go with the request.
abbrev pub md_blocks_of : {E G : Type 0} → Modes → Alloc E → Driver E G → List ℕ
md_blocks_of m a d =
    if m.versioning_metadata
    then unsent d.md_cache_membership (referenced m a.hd a.touched_md_blocks)
    else []

-- The request, with the blocks of its payload.
abbrev pub request :
    {A E G : Type 0} → Modes → List (Payload A) → Alloc E → Driver E G → WriteMessage A
request m payload a d =
    let (ranges, range_count) = merge_ranges a.ranges a.range_count in
    write_message (slice ranges 0 range_count) (map d.md_cache (md_blocks_of m a d)) payload

module _ {A E G : Type 0} (gk : Gatekeeper A G) (m : Modes) where
  -- The message goes out, and the response comes in.
  unfoldable pub exchange : WriteMessage A → List ℕ → Driver E G → WriteResult × Driver E G
  exchange message md_blocks d =
      let (reply, g) = gk.on_write message d.gatekeeper in
      let (result, md_cache, membership) =
        write_response md_blocks reply (d.md_cache, d.md_cache_membership) in
      (result, record d { md_cache = md_cache; md_cache_membership = membership; gatekeeper = g })

  -- `device_write` from the end of the loop on.
  unfoldable pub write_allocated : List A → Alloc E → Driver E G → WriteResult × Driver E G
  write_allocated b a d =
      if ltb (length b) a.cur_lba_offset
      then (write_fail num_blocks_underflow, d)
      else if ltb max_md_blocks_in_header (length (md_blocks_of m a d))
      then (write_fail too_many_md_blocks_postmerge, d)
      else elim (layout b a.version a.hd) [
        | none ↦ (write_fail tie_break_failed, d)
        | some payload ↦ exchange (request m payload a d) (md_blocks_of m a d) d
      ]

  -- What `device_write` does with the end of the loop: nothing is rolled back.
  unfoldable pub after_alloc : List A → Driver E G → Round E → WriteResult × Driver E G
  after_alloc b d (go_on a) = write_allocated b a (record d { logs = a.logs })
  after_alloc b d (fail stage a) = (write_fail stage, record d { logs = a.logs })

-- After a chunk, the loop goes on, unless it failed.
abbrev pub after_chunk : {S : Type 0} → (S → WriteResult × S) → WriteResult × S → WriteResult × S
after_chunk rest (written, d) = rest d
after_chunk rest (erofs, d) = (erofs, d)
after_chunk rest (write_fail stage, d) = (write_fail stage, d)

module _ {A E G : Type 0} (gk : Gatekeeper A G) (ops : EpochMap E) (fuel now : ℕ) (m : Modes) where
  -- The offset is in bytes; `now` is `__rdtsc() >> 32`, and `fuel` is for the expired entries.
  unfoldable pub device_write : List A → ℕ → Driver E G → WriteResult × Driver E G
  device_write b write_buffer_offset d =
      let lba = write_buffer_offset / block_size % 2 ^ 32 in
      let round = alloc_loop ops fuel now m lba (length b) max_mapping_count (start_alloc d.logs) in
      if m.read_only_mode then (erofs, d) else after_alloc gk m b d round

  -- The loop of `device_write_wrapper`, on fuel: chunks of MAX_MAPPING_COUNT blocks.
  pub write_chunks : ℕ → List A → ℕ → Driver E G → WriteResult × Driver E G
  write_chunks zero b cur_offset d = (written, d)
  write_chunks (suc n) [] cur_offset d = (written, d)
  write_chunks (suc n) (x ∷ xs) cur_offset d =
      let chunk = take max_mapping_count (x ∷ xs) in
      after_chunk
        (write_chunks n (drop max_mapping_count (x ∷ xs)) (cur_offset + block_size * length chunk))
        (device_write chunk cur_offset d)

  -- As many rounds as there are blocks are enough.
  pub device_write_wrapper : List A → ℕ → Driver E G → WriteResult × Driver E G
  device_write_wrapper b offset d =
      if m.read_only_mode then (erofs, d) else write_chunks (length b) b offset d
