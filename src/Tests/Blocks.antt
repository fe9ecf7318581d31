-- ===== src/Tests/Blocks.antt =====
-- The log blocks: recovery, the metadata blocks referred to, and allocation, at concrete blocks.
use timelock_drive.Prelude.{
  ℕ, ◌+◌, ◌*◌, ◌-◌, ◌≤◌, ◌≡◌, ◌≢◌, ◌⊎◌, refl, Bool, true, false, not, ◌&&◌, none, some, [], ◌∷◌,
  length, if◌then◌else◌, ltb, ◌==◌, arith, update,
}
use timelock_drive.Constants.{
  MetadataEntry, TdMetadataLogBlock, DataRange, uint32_max, length_version_log_block,
  length_td_log_block, max_md_blocks_in_header,
}
use timelock_drive.BlockList.{Store, pop_nth_in_freelist}
use timelock_drive.Recovery.{
  L2PBlock, Tables, reset_diagnostics, parse_metadata, parse_metadata_recovery,
}
use timelock_drive.Recovery.Newest.{mapped, newest, is_named, Allocated, parse_metadata_lem}
use timelock_drive.Recovery.Timestamp.{parse_metadata_recovery-old, parse_metadata_recovery-newer}
use timelock_drive.MdIndex.{
  md_block_already_queued, collect_entry, collect_entries, collect_tdlog_needed_md_indices,
  add_tdlog_referenced_md_blocks,
}
use timelock_drive.MdIndex.Complete.{
  IsDistinct, refers_any, AllReferred, collect_tdlog_needed_md_indices_lem,
  collect_tdlog_needed_md_indices-abort,
}
use timelock_drive.Logs.{EpochMap, Logs, take_blocks, find_free_range, set_pointer_and_reset_tdmd}
use timelock_drive.Logs.Bounds.{FreeRange, find_free_range-InBounds}
use timelock_drive.Logs.Range.{IsBacked, take_blocks_lem}
use timelock_drive.Logs.Commit.{set_pointer_and_reset_tdmd_lem}
use timelock_drive.Tests.Lists.{four_free}

-- A version log block with one entry, and the tables before it is read.
abbrev pub one_entry : L2PBlock
one_entry = record {
  ptr = 0;
  seed = 0;
  map = λ i.
      if i == 0
      then record { logical_block_address = 3; physical_block_address = 100 }
      else record { logical_block_address = uint32_max; physical_block_address = uint32_max };
}

abbrev no_tables : Tables
no_tables = record {
  cell = four_free.cell;
  brk = 1;
  l2pmap = λ _. 0;
  p2lmap = λ _. uint32_max;
  mark_free_blocks = λ _. true;
}

abbrev written_at_50 : MetadataEntry
written_at_50 = record { keep_duration = 60; time_written = 50 }

no_tables-Allocated : Allocated no_tables
no_tables-Allocated = (omega arith, λ lba. omega arith)

parse_metadata_lem_example :
    ((lba : ℕ)
      → mapped (parse_metadata written_at_50 one_entry no_tables) lba
        ≡ newest one_entry.map lba 0 length_version_log_block (mapped no_tables lba))
    × ((pba : ℕ)
        → (parse_metadata written_at_50 one_entry no_tables).mark_free_blocks pba
          ≡ (true && not (is_named one_entry.map pba 0 length_version_log_block)))
    × Allocated (parse_metadata written_at_50 one_entry no_tables)
parse_metadata_lem_example =
    parse_metadata_lem written_at_50 one_entry no_tables no_tables-Allocated

parse_metadata_recovery-old_example :
    (parse_metadata_recovery written_at_50 one_entry 60 (no_tables, reset_diagnostics)).0
    ≡ parse_metadata written_at_50 one_entry no_tables
parse_metadata_recovery-old_example =
    parse_metadata_recovery-old written_at_50 one_entry 60 (no_tables, reset_diagnostics) refl
      (omega arith)

parse_metadata_recovery-newer_example :
    let t' =
      (parse_metadata_recovery written_at_50 one_entry 40 (no_tables, reset_diagnostics)).0 in
    ((lba : ℕ) → mapped t' lba ≡ mapped no_tables lba)
    × ((pba : ℕ)
        → t'.mark_free_blocks pba
          ≡ (true && not (is_named one_entry.map pba 0 length_version_log_block)))
parse_metadata_recovery-newer_example =
    parse_metadata_recovery-newer written_at_50 one_entry 40 (no_tables, reset_diagnostics) refl
      (omega arith)

-- A timelock log block with the address `address i` at index `i`.
abbrev log_of : (ℕ → ℕ) → TdMetadataLogBlock
log_of address = record { arr = address; keep_duration = 60; current_time = 0; pointer_next = 0 }

abbrev pub two_blocks : TdMetadataLogBlock
two_blocks = log_of (λ i. if ltb i 3 then i * 500 else uint32_max)

abbrev six_blocks : TdMetadataLogBlock
six_blocks = log_of (λ i. if ltb i 6 then i * 512 else uint32_max)

pub two_blocks-collected : collect_tdlog_needed_md_indices two_blocks ≡ some (0 ∷ 1 ∷ [])
unfolding collect_tdlog_needed_md_indices collect_entries collect_entry md_block_already_queued
two_blocks-collected = refl

six_blocks-abort : collect_tdlog_needed_md_indices six_blocks ≡ none
unfolding collect_tdlog_needed_md_indices collect_entries collect_entry md_block_already_queued
six_blocks-abort = refl

collect_tdlog_needed_md_indices_lem_example :
    IsDistinct (0 ∷ 1 ∷ [])
    × (2 ≤ max_md_blocks_in_header)
    × ((md : ℕ)
        → md_block_already_queued (0 ∷ 1 ∷ []) md
          ≡ refers_any two_blocks.arr 0 length_td_log_block md)
    × (add_tdlog_referenced_md_blocks two_blocks [] ≡ 0 ∷ 1 ∷ [])
collect_tdlog_needed_md_indices_lem_example =
    collect_tdlog_needed_md_indices_lem two_blocks (0 ∷ 1 ∷ []) two_blocks-collected

collect_tdlog_needed_md_indices-abort_example :
    let queued = add_tdlog_referenced_md_blocks six_blocks [] in
    IsDistinct queued
    × (length queued ≡ max_md_blocks_in_header)
    × AllReferred six_blocks.arr queued
    × ((extra : ℕ) × (refers_any six_blocks.arr 0 length_td_log_block extra ≡ true)
        × (md_block_already_queued queued extra ≡ false))
collect_tdlog_needed_md_indices-abort_example =
    collect_tdlog_needed_md_indices-abort six_blocks six_blocks-abort

-- The epoch map as a set of logical blocks.
abbrev pub set_ops : EpochMap (ℕ → Bool)
set_ops = record {
  kh_get = λ m k. m k;
  kh_put = λ m k. (update m k true, not (m k));
  kh_del = λ m k. update m k false;
}

-- Every entry is free, each chained to the next.
abbrev pub all_free : Store
all_free = record four_free {
  cell = λ p. record {
    next = p + 1;
    physical_block_id = p + 10;
    keep_duration = 60;
    time_written = 0;
  };
}

-- Logs with one free position in each log block.
abbrev pub nearly_full : Logs (ℕ → Bool)
nearly_full = record {
  store = all_free;
  l2pmap = λ _. 0;
  p2lmap = λ _. uint32_max;
  epoch_mode = true;
  epoch_map = λ _. false;
  l2p_block = one_entry;
  td_md_block = two_blocks;
  map_idx = 510;
  tdmd_idx = 1020;
  current_vmd_block = 300;
  current_tdmd_block = 301;
  leftover_vmd_block = 0;
  map_dirty = false;
  tdmd_dirty = false;
}

abbrev no_range : DataRange
no_range = record { pba = 0; num_blocks = 0 }

find_free_range-InBounds_example :
    FreeRange true nearly_full (find_free_range set_ops 0 0 7 true true no_range 2 nearly_full)
find_free_range-InBounds_example =
    find_free_range-InBounds set_ops 0 0 7 true true no_range 2 nearly_full
      (omega arith, omega arith)

take_blocks_lem_example :
    let (r, l', range') = take_blocks set_ops 0 0 true true 7 0 2 no_range nearly_full in
    IsBacked 7 range'.num_blocks range' l'
take_blocks_lem_example =
    take_blocks_lem set_ops 0 0 true true 7 2 no_range nearly_full refl (omega arith) (omega arith)

set_pointer_and_reset_tdmd_lem_example :
    let (p, store) = pop_nth_in_freelist (length_td_log_block - 2) all_free in
    ((p ≡ 0) × (set_pointer_and_reset_tdmd 9 false nearly_full ≡ none))
    ⊎ ((l' : Logs (ℕ → Bool)) × (set_pointer_and_reset_tdmd 9 false nearly_full ≡ some l')
        × (p ≢ 0)
        × (l'.tdmd_idx ≡ 0)
        × (l'.td_md_block.pointer_next ≡ l'.current_tdmd_block)
        × (l'.current_tdmd_block ≡ (store.cell p).physical_block_id)
        × (l'.td_md_block.keep_duration ≡ 60)
        × (l'.td_md_block.current_time ≡ 9)
        × (l'.td_md_block.arr ≡ two_blocks.arr)
        × (l'.l2p_block ≡ one_entry)
        × (l'.map_idx ≡ 510))
set_pointer_and_reset_tdmd_lem_example = set_pointer_and_reset_tdmd_lem 9 false nearly_full
