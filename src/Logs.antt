-- ===== src/Logs.antt =====
-- The two logs of versioning_td_driver/src/versioning.c and the blocks that they take: what
-- `find_free_range` allocates and logs, and how a full log block is prepared and committed.

pub mod Bounds
pub mod Commit
pub mod Entries
pub mod Found
pub mod Prepare
pub mod Range
unfoldable pub use Entries.*
use timelock_drive.Prelude.{
  ℕ, zero, suc, ◌+◌, ◌-◌, ◌%◌, ◌^◌, Bool, true, false, not, ◌&&◌, ◌||◌, Option, none, some,
  if◌then◌else◌, ltb, ◌==◌, update, ◌>>=◌,
}
use timelock_drive.Constants.{
  DataRange, TdMetadataLogBlock, uint32_max, length_version_log_block, length_td_log_block,
}
use timelock_drive.BlockList.{
  BlockEntry, Store, enqueue_list, collect_list, mark_reserved_block, pop_top_of_freelist,
  pop_nth_in_freelist,
}
use timelock_drive.Recovery.{L2PEntry, L2PBlock}

-- How a round of the loop ends: on to the next block, or with what the function returns (`none` is
-- NULL). The range found so far goes along.
pub data Round (E : Type 0) : Type 0 where
  go_on : Logs E → DataRange → Round E
  return : Option RangeRet → Logs E → DataRange → Round E

abbrev pub fresh_ret : RangeRet
fresh_ret = record { versioning_found = false; tdmd_found = false; epoch_reuse = false }

-- The rest of a round, with the entry taken from the free list: `l` has the list without it.
unfoldable pub use_entry :
    {E : Type 0} → EpochMap E → Bool → Bool → ℕ → ℕ → DataRange → Logs E → Round E
use_entry ops versioning_metadata td_metadata lba front range l =
    let range' = record range { num_blocks = (range.num_blocks + 1) % 2 ^ 8 } in
    let pba = (l.store.cell front).physical_block_id in
    let mapped = install lba front (retire lba l) in
    let logged = log_block td_metadata lba pba (note_epoch ops lba mapped) in
    if versioning_metadata
    then (if is_full td_metadata logged
        then return (some fresh_ret) logged range'
        else go_on logged range')
    else go_on mapped range'

-- What the loop does with the result of `pop_top_of_freelist`, `peek` being the list's head before.
unfoldable pub after_pop :
    {E : Type 0}
    → EpochMap E
    → Bool
    → Bool
    → ℕ
    → ℕ
    → DataRange
    → Logs E
    → Option (ℕ × Store)
    → Round E
after_pop ops vm td lba peek range l none = return none l range
after_pop ops vm td lba peek range l (some (front, store)) =
    let popped = record l { store = store } in
    if front == peek then use_entry ops vm td lba front range popped else return none popped range

-- One round of the loop: `i` is its index, `lba` the first logical block.
unfoldable pub take_block :
    {E : Type 0} → EpochMap E → ℕ → ℕ → Bool → Bool → ℕ → ℕ → DataRange → Logs E → Round E
take_block ops fuel now versioning_metadata td_metadata lba i range l =
    let peek = l.store.freelist.head in
    let pba = (l.store.cell peek).physical_block_id in
    let range' = if i == 0 then record range { pba = pba } else range in
    let next = pop_top_of_freelist fuel now l.store in
    if peek == 0
    then return none l range
    else if not (i == 0) && not (pba == (range.pba + range.num_blocks) % 2 ^ 32)
    then return (some fresh_ret) l range
    else after_pop ops versioning_metadata td_metadata ((lba + i) % 2 ^ 32) peek range' l next

-- The rounds from index `i` on.
unfoldable pub take_blocks :
    {E : Type 0}
    → EpochMap E
    → ℕ
    → ℕ
    → Bool
    → Bool
    → ℕ
    → ℕ
    → ℕ
    → DataRange
    → Logs E
    → Option RangeRet × Logs E × DataRange
take_blocks ops fuel now vm tm lba i zero range l = (some fresh_ret, l, range)
take_blocks ops fuel now vm tm lba i (suc n) range l =
    elim (take_block ops fuel now vm tm lba i range l) [
      | go_on l' range' ↦ take_blocks ops fuel now vm tm lba (i + 1) n range' l'
      | return r l' range' ↦ (r, l', range')
    ]

-- The block of an epoch is written again in place.
abbrev pub reuses : {E : Type 0} → EpochMap E → ℕ → ℕ → Logs E → Bool
reuses ops lba num_blocks l =
    l.epoch_mode && (num_blocks == 1) && ops.kh_get l.epoch_map lba && not (l.l2pmap lba == 0)

-- `fuel` and `now` are for `move_expired_to_free`, which `pop_top_of_freelist` calls when the list
-- is empty.
unfoldable pub find_free_range :
    {E : Type 0}
    → EpochMap E
    → ℕ
    → ℕ
    → ℕ
    → Bool
    → Bool
    → DataRange
    → ℕ
    → Logs E
    → Option RangeRet × Logs E × DataRange
find_free_range ops fuel now lba versioning_metadata td_metadata range num_blocks l =
    let blocks =
      take_blocks ops fuel now versioning_metadata td_metadata lba 0 num_blocks
        (record range { num_blocks = 0 }) l in
    if td_metadata && l.tdmd_idx == length_td_log_block
    then (
      some (record fresh_ret { tdmd_found = true }),
      l,
      record { pba = l.current_tdmd_block; num_blocks = 1 },
    )
    else if l.map_idx == length_version_log_block
    then (
      some (record fresh_ret { versioning_found = true }),
      l,
      record { pba = l.current_vmd_block; num_blocks = 1 },
    )
    else if reuses ops lba num_blocks l
    then (
      some (record fresh_ret { epoch_reuse = true }),
      l,
      record { pba = (l.store.cell (l.l2pmap lba)).physical_block_id; num_blocks = 1 },
    )
    else blocks

-- `reserve_next_tdmd_block` and `reserve_next_vmd_block`: an entry further down the free list;
-- `none` is -1.
unfoldable pub reserve_next : {E : Type 0} → ℕ → Bool → Logs E → Option (ℕ × Logs E)
reserve_next n read_only_mode l =
    let (p, store) = pop_nth_in_freelist n l.store in
    if p == 0
    then none
    else some (p, record l { store = mark_reserved_block read_only_mode p store })

-- `now` is `__rdtsc() >> 32`.
unfoldable pub prepare_tdmd_write :
    {E : Type 0} → ℕ → Bool → Logs E → Option (ℕ × TdMetadataLogBlock × Logs E)
prepare_tdmd_write now read_only_mode l = do
  (p, l') ← reserve_next (length_td_log_block - 2) read_only_mode l
  some (
    p,
    record l'.td_md_block {
      keep_duration = write_keep_duration_secs;
      current_time = now;
      pointer_next = (l'.store.cell p).physical_block_id;
    },
    l',
  )

pub prepare_vmd_write : {E : Type 0} → Bool → Logs E → Option (ℕ × L2PBlock × Logs E)
prepare_vmd_write read_only_mode l = do
  (p, l') ← reserve_next length_version_log_block read_only_mode l
  some (p, record l'.l2p_block { ptr = (l'.store.cell p).physical_block_id }, l')

unfoldable pub commit_tdmd_write : {E : Type 0} → ℕ → TdMetadataLogBlock → Logs E → Logs E
commit_tdmd_write p prepared l = if p == 0 then l else record l {
  td_md_block = prepared;
  current_tdmd_block = (l.store.cell p).physical_block_id;
  tdmd_idx = 0;
}

pub commit_vmd_write : {E : Type 0} → ℕ → L2PBlock → Logs E → Logs E
commit_vmd_write p prepared l = if p == 0 then l else record l {
  l2p_block = prepared;
  current_vmd_block = (l.store.cell p).physical_block_id;
  map_idx = 0;
}

-- `none` is -1.
pub set_pointer_and_reset_tdmd : {E : Type 0} → ℕ → Bool → Logs E → Option (Logs E)
set_pointer_and_reset_tdmd now read_only_mode l = do
  (p, prepared, l') ← prepare_tdmd_write now read_only_mode l
  some (commit_tdmd_write p prepared l')

pub set_pointer_and_reset_vmd : {E : Type 0} → Bool → Logs E → Option (Logs E)
set_pointer_and_reset_vmd read_only_mode l = do
  (p, prepared, l') ← prepare_vmd_write read_only_mode l
  some (commit_vmd_write p prepared l')
