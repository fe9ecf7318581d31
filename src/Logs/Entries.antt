-- ===== src/Logs/Entries.antt =====
-- The state of the two logs of versioning_td_driver/src/versioning.c, and what `find_free_range` does
-- with one block: its entries in the logs, and in the mapping. The epoch map is a khash table, a
-- parameter here; a pointer to an entry is a cell of the store.

use timelock_drive.Prelude.{ℕ, ◌+◌, Bool, true, false, ◌&&◌, ◌||◌, if◌then◌else◌, ltb, ◌==◌, update}
use timelock_drive.Constants.{
  TdMetadataLogBlock, uint32_max, length_version_log_block, length_td_log_block,
}
use timelock_drive.BlockList.{Store, enqueue_list, collect_list, mark_reserved_block}
use timelock_drive.Recovery.{L2PBlock}

-- WRITE_KEEP_DURATION_SECS
abbrev pub write_keep_duration_secs : ℕ
write_keep_duration_secs = 60

-- `kh_get`, `kh_put` with whether its `ret` is not 0, and `kh_del` on the epoch map.
pub record EpochMap (E : Type 0) : Type 0 where
  pub kh_get : E → ℕ → Bool
  pub kh_put : E → ℕ → E × Bool
  pub kh_del : E → ℕ → E

-- The -1 that `leftover_vmd_block` starts with is 0 here: the source tests only whether it is
-- positive.
pub record Logs (E : Type 0) : Type 0 where
  pub store : Store
  pub l2pmap : ℕ → ℕ
  pub p2lmap : ℕ → ℕ
  pub epoch_mode : Bool
  pub epoch_map : E
  pub l2p_block : L2PBlock
  pub td_md_block : TdMetadataLogBlock
  pub map_idx : ℕ
  pub tdmd_idx : ℕ
  pub current_vmd_block : ℕ
  pub current_tdmd_block : ℕ
  pub leftover_vmd_block : ℕ
  pub map_dirty : Bool
  pub tdmd_dirty : Bool

pub record RangeRet : Type 0 where
  pub versioning_found : Bool
  pub tdmd_found : Bool
  pub epoch_reuse : Bool

-- `td_md_block->arr[tdmd_idx++] = pba`
abbrev pub push_td : {E : Type 0} → ℕ → Logs E → Logs E
push_td pba l = record l {
  td_md_block = record l.td_md_block { arr = update l.td_md_block.arr l.tdmd_idx pba };
  tdmd_idx = l.tdmd_idx + 1;
}

-- `l2p_block->map[map_idx++]`
abbrev pub push_map : {E : Type 0} → ℕ → ℕ → Logs E → Logs E
push_map lba pba l = record l {
  l2p_block = record l.l2p_block {
    map =
        update l.l2p_block.map l.map_idx
          (record { logical_block_address = lba; physical_block_address = pba });
  };
  map_idx = l.map_idx + 1;
  map_dirty = true;
}

-- A new timelock log block begins with its own address and a version log block left over.
unfoldable pub begin_td : {E : Type 0} → Logs E → Logs E
begin_td l =
    let own = push_td l.current_tdmd_block l in
    if l.tdmd_idx == 0
    then (if ltb 0 l.leftover_vmd_block
        then record (push_td l.leftover_vmd_block own) { leftover_vmd_block = 0 }
        else own)
    else l

-- The end of the log update: a full version log block goes into the timelock log, at once or later.
unfoldable pub end_td : {E : Type 0} → Logs E → Logs E
end_td l =
    if l.map_idx == length_version_log_block
    then (if l.tdmd_idx == length_td_log_block
        then record l { leftover_vmd_block = l.current_vmd_block }
        else record (push_td l.current_vmd_block l) { tdmd_dirty = true })
    else l

-- The log entries for one block.
unfoldable pub log_block : {E : Type 0} → Bool → ℕ → ℕ → Logs E → Logs E
log_block td_metadata lba pba l =
    if td_metadata
    then end_td (record (push_td pba (push_map lba pba (begin_td l))) { tdmd_dirty = true })
    else push_map lba pba l

-- The condition under which the loop returns after a block; `end_td` fills no version log block.
abbrev pub is_full : {E : Type 0} → Bool → Logs E → Bool
is_full td_metadata l =
    (l.map_idx == length_version_log_block) || (td_metadata && l.tdmd_idx == length_td_log_block)

abbrev pub note_epoch : {E : Type 0} → EpochMap E → ℕ → Logs E → Logs E
note_epoch ops lba l =
    let put = ops.kh_put l.epoch_map lba in
    if ops.kh_get l.epoch_map lba
    then l
    else record l { epoch_map = if put.1 then put.0 else ops.kh_del put.0 lba }

-- The old entry of the logical block, if there is one, goes to the list of blocks to collect.
unfoldable pub retire : {E : Type 0} → ℕ → Logs E → Logs E
retire lba l =
    let old = l.l2pmap lba in
    if old == 0 then l else record l {
      p2lmap = update l.p2lmap (l.store.cell old).physical_block_id uint32_max;
      store = enqueue_list collect_list old l.store;
    }

-- The new entry takes its place; `mark_reserved_block` has the two statements on the segment.
unfoldable pub install : {E : Type 0} → ℕ → ℕ → Logs E → Logs E
install lba front l =
    let cell =
      update l.store.cell front
        (record (l.store.cell front) { keep_duration = write_keep_duration_secs }) in
    record l {
      l2pmap = update l.l2pmap lba front;
      p2lmap = update l.p2lmap (l.store.cell front).physical_block_id lba;
      store = mark_reserved_block false front (record l.store { cell = cell });
    }
