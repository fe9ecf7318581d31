-- ===== src/Control.antt =====
-- `send_control_command` of versioning_td_driver/src/versioning.c with `hash_is_all_ff`: a command
-- without data, and the cached metadata blocks that SYNC brings back.
pub mod Merge
use timelock_drive.Prelude.{
  ℕ, zero, suc, ◌+◌, Bool, true, false, not, ◌&&◌, Option, none, some, List, [], ◌∷◌, if◌then◌else◌,
  ltb, ◌==◌, update, take, length,
}
use timelock_drive.Constants.{
  DiskCommand, read, write, sync, init_counters, finish, timelock, unfreeze, get_md_tag, identify,
  MessageHeader, MetadataEntry, max_md_blocks_in_header, total_num_metadata_blocks,
}

-- `arr` is the array of METADATA_ENTRIES_PER_BLOCK entries.
pub record TdMetadataBlock : Type 0 where
  pub arr : ℕ → MetadataEntry

-- `hash` is an array of 32 bytes.
pub record CachedTdMetadataBlock : Type 0 where
  pub mdblock : TdMetadataBlock
  pub idx : ℕ
  pub counter : ℕ
  pub hash : ℕ → ℕ

-- The loop of `hash_is_all_ff` from index `i` on.
pub bytes_all_ff : (ℕ → ℕ) → ℕ → ℕ → Bool
bytes_all_ff hash i zero = true
bytes_all_ff hash i (suc n) = (hash i == 255) && bytes_all_ff hash (i + 1) n

pub hash_is_all_ff : (ℕ → ℕ) → Bool
hash_is_all_ff hash = bytes_all_ff hash 0 32

-- The block has a real hash and an index of the cache.
abbrev pub is_merged : CachedTdMetadataBlock → Bool
is_merged b = not (hash_is_all_ff b.hash) && ltb b.idx total_num_metadata_blocks

-- The loop over the blocks received, into `md_cache`.
pub merge_blocks :
    List CachedTdMetadataBlock → (ℕ → CachedTdMetadataBlock) → ℕ → CachedTdMetadataBlock
merge_blocks [] md_cache = md_cache
merge_blocks (sb ∷ blocks) md_cache =
    merge_blocks blocks (if is_merged sb then update md_cache sb.idx sb else md_cache)

-- The message: a header alone.
abbrev pub control_header : DiskCommand → MessageHeader
control_header command = record {
  payload_size = 0;
  num_data_ranges = 0;
  num_md_blocks = 0;
  disk_cmd = command;
}

-- What the calls of `gk_recv` deliver after the message: the byte of the count or of the response,
-- and the evicted blocks; `none` where less arrives than was asked for.
pub record Reply : Type 0 where
  pub first_byte : Option ℕ
  pub evicted : ℕ → Option (List CachedTdMetadataBlock)

-- The result, and the cache; `malloc` succeeds.
abbrev pub take_evicted :
    ℕ
    → Option (List CachedTdMetadataBlock)
    → (ℕ → CachedTdMetadataBlock)
    → Bool × (ℕ → CachedTdMetadataBlock)
take_evicted num_evicted none md_cache = (false, md_cache)
take_evicted num_evicted (some blocks) md_cache =
    (true, merge_blocks (take num_evicted blocks) md_cache)

-- What comes after the first byte of the response to SYNC.
unfoldable pub after_count :
    ℕ → Reply → (ℕ → CachedTdMetadataBlock) → Bool × (ℕ → CachedTdMetadataBlock)
after_count num_evicted reply md_cache =
    if ltb max_md_blocks_in_header num_evicted
    then (false, md_cache)
    else if num_evicted == 0
    then (true, md_cache)
    else take_evicted num_evicted (reply.evicted num_evicted) md_cache

abbrev pub is_sync : DiskCommand → Bool
is_sync sync = true
is_sync read = false
is_sync write = false
is_sync init_counters = false
is_sync finish = false
is_sync timelock = false
is_sync unfreeze = false
is_sync get_md_tag = false
is_sync identify = false

abbrev pub after_first_byte :
    Bool → Option ℕ → Reply → (ℕ → CachedTdMetadataBlock) → Bool × (ℕ → CachedTdMetadataBlock)
after_first_byte is_sync none reply md_cache = (false, md_cache)
after_first_byte true (some num_evicted) reply md_cache = after_count num_evicted reply md_cache
after_first_byte false (some success) reply md_cache = (true, md_cache)

-- `respond` is the gatekeeper and the transport. `true` is the result 0, `false` is -1.
module _ (respond : MessageHeader → Reply) where
  pub send_control_command :
      DiskCommand → (ℕ → CachedTdMetadataBlock) → Bool × (ℕ → CachedTdMetadataBlock)
  send_control_command command md_cache =
      let reply = respond (control_header command) in
      after_first_byte (is_sync command) reply.first_byte reply md_cache
