-- ===== src/Cache.antt =====
-- The metadata cache at start-up: `build_cache` of versioning_td_driver/src/versioning.c. What arrives
-- from the gatekeeper is given as lists, which end where a receive falls short; that receive has written
-- to its place what did arrive. The log file, with the checksums in it, is left out.
pub mod Built
use timelock_drive.Prelude.{
  ℕ, zero, suc, ◌+◌, Bool, false, Option, none, some, List, [], ◌∷◌, ◌++◌, if◌then◌else◌, ltb, leb,
  ◌==◌, update, take, get_or, length,
}
use timelock_drive.Constants.{
  MessageHeader, DataRange, init_counters, uint32_max, total_num_metadata_blocks, data_range_size,
}
use timelock_drive.Control.{CachedTdMetadataBlock}
use timelock_drive.Metadata.{note_md_membership_update}

-- The request: a header and one range.
abbrev pub init_header : MessageHeader
init_header = record {
  payload_size = data_range_size;
  num_data_ranges = 1;
  num_md_blocks = 0;
  disk_cmd = init_counters;
}

abbrev pub init_range : DataRange
init_range = record { pba = 0; num_blocks = 1 }

-- RECOVERY_MAX_MD_REQUEST
abbrev pub recovery_max_md_request : ℕ
recovery_max_md_request = 4

-- The loop of the first phase: each block goes to the next place. `broken` is what the place of a block
-- that arrives in part holds afterwards; with it the loop ends.
unfoldable pub receive_blocks :
    ℕ
    → List CachedTdMetadataBlock
    → Option CachedTdMetadataBlock
    → (ℕ → CachedTdMetadataBlock)
    → ℕ
    → CachedTdMetadataBlock
receive_blocks cache_idx [] none md_cache = md_cache
receive_blocks cache_idx [] (some broken) md_cache = update md_cache cache_idx broken
receive_blocks cache_idx (block ∷ blocks) broken md_cache =
    receive_blocks (cache_idx + 1) blocks broken (update md_cache cache_idx block)

-- What arrives in a step of the second phase, once its count has: the indices needed, the count of the
-- blocks updated, if it arrives, and these blocks.
pub record RecoveryStep : Type 0 where
  pub n_needed : ℕ
  pub needed_idx : List ℕ
  pub n_updated : Option ℕ
  pub updated : List CachedTdMetadataBlock

-- The blocks that the driver answers with, from `k` on, `n` of them. `stale` is what the array of
-- indices holds where none has arrived; `zero_block` stands in for an index out of range.
unfoldable pub answer :
    CachedTdMetadataBlock
    → (ℕ → ℕ)
    → List ℕ
    → ℕ
    → ℕ
    → (ℕ → CachedTdMetadataBlock)
    → List CachedTdMetadataBlock
answer zero_block stale needed_idx k zero md_cache = []
answer zero_block stale needed_idx k (suc n) md_cache =
    let idx = get_or needed_idx k (stale k) in
    (if leb total_num_metadata_blocks idx then zero_block else md_cache idx)
    ∷ answer zero_block stale needed_idx (k + 1) n md_cache

-- The loop over the blocks updated.
unfoldable pub apply_updates :
    List CachedTdMetadataBlock → (ℕ → CachedTdMetadataBlock) → ℕ → CachedTdMetadataBlock
apply_updates [] md_cache = md_cache
apply_updates (updated ∷ rest) md_cache = apply_updates rest (
    if ltb updated.idx total_num_metadata_blocks
    then update md_cache updated.idx updated
    else md_cache)

-- The end of a step: with the count of the blocks updated, if it arrives, it goes on to the next.
unfoldable pub with_updates :
    ((ℕ → CachedTdMetadataBlock) × List CachedTdMetadataBlock
      → (ℕ → CachedTdMetadataBlock) × List CachedTdMetadataBlock)
    → List CachedTdMetadataBlock
    → (ℕ → CachedTdMetadataBlock) × List CachedTdMetadataBlock
    → Option ℕ
    → (ℕ → CachedTdMetadataBlock) × List CachedTdMetadataBlock
with_updates next updated cs none = cs
with_updates next updated cs (some n) = next (apply_updates (take n updated) cs.0, cs.1)

-- The loops that reset the membership, from block `i` on, `n` of them.
unfoldable pub reset_membership : ℕ → ℕ → (ℕ → Bool) → ℕ → Bool
reset_membership i zero membership = membership
reset_membership i (suc n) membership =
    reset_membership (i + 1) n (note_md_membership_update i false membership)

module _ (zero_block : CachedTdMetadataBlock) (stale : ℕ → ℕ) where
  -- The second phase: the cache, and the blocks sent so far.
  unfoldable pub recovery_steps :
      List RecoveryStep
      → (ℕ → CachedTdMetadataBlock) × List CachedTdMetadataBlock
      → (ℕ → CachedTdMetadataBlock) × List CachedTdMetadataBlock
  recovery_steps [] cs = cs
  recovery_steps (step ∷ steps) cs =
      let sent = cs.1 ++ answer zero_block stale step.needed_idx 0 step.n_needed cs.0 in
      let rest = with_updates (recovery_steps steps) step.updated (cs.0, sent) step.n_updated in
      if step.n_needed == uint32_max
      then cs
      else if ltb recovery_max_md_request step.n_needed
      then cs
      else rest

  -- The cache, the blocks sent, and the membership. The first phase is for total_num_metadata_blocks
  -- blocks, `blocks` being those that arrive, and `broken` what is left of one after them. The reset at the end of the recovery is followed by
  -- another of the same.
  unfoldable pub build_cache :
      List CachedTdMetadataBlock
      → Option CachedTdMetadataBlock
      → List RecoveryStep
      → (ℕ → CachedTdMetadataBlock)
      → (ℕ → Bool)
      → ((ℕ → CachedTdMetadataBlock) × List CachedTdMetadataBlock) × (ℕ → Bool)
  build_cache blocks broken steps md_cache membership =
      let last = if ltb (length blocks) total_num_metadata_blocks then broken else none in
      (
        recovery_steps steps
            (receive_blocks 0 (take total_num_metadata_blocks blocks) last md_cache, []),
        reset_membership 0 total_num_metadata_blocks membership,
      )
