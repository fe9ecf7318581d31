-- ===== src/Scan.antt =====
-- The walk of `scan_disk` in versioning_td_driver/src/versioning.c over the version log: each block is
-- read, checked, parsed into the tables, and followed. Then the
-- free list is built. Not here: the bootstrap of the log pointers before the walk.
pub mod Replay
pub mod FreeList
use timelock_drive.Prelude.{
  ℕ, zero, suc, ◌+◌, ◌/◌, ◌%◌, Bool, true, false, not, ◌&&◌, ◌||◌, Option, none, some, List, [],
  ◌∷◌, if◌then◌else◌, leb, ◌==◌, update,
}
use timelock_drive.Constants.{MetadataEntry, total_physical_num_blocks, metadata_entries_per_block}
use timelock_drive.Read.{ReadMessage, read_message}
use timelock_drive.Recovery.{L2PBlock, Tables, Diagnostics, parse_metadata, parse_metadata_recovery}
use timelock_drive.BlockList.{BlockEntry, Store, enqueue_list, free_list, count_free}
use timelock_drive.Control.{CachedTdMetadataBlock}

-- The buffer `l2p_block` is left out: its contents after the walk are those of the last read.
pub record ScanState : Type 0 where
  pub tables : Tables
  pub diagnostics : Diagnostics
  pub current_vmd_block : ℕ
  pub current_seed : ℕ

-- `md_cache` does not change during the walk.
module _ (md_cache : ℕ → CachedTdMetadataBlock) (recovery_timestamp : ℕ) where
  abbrev pub entry_of : ℕ → MetadataEntry
  entry_of pba =
      (md_cache (pba / metadata_entries_per_block)).mdblock.arr (pba % metadata_entries_per_block)

  -- The tables and diagnostics after a block.
  abbrev pub parse_block : ℕ → L2PBlock → Tables × Diagnostics → Tables × Diagnostics
  parse_block pba block (tables, diagnostics) =
      let recovered =
        parse_metadata_recovery (entry_of pba) block recovery_timestamp (tables, diagnostics) in
      if recovery_timestamp == 0
      then (parse_metadata (entry_of pba) block tables, diagnostics)
      else recovered

  -- A block that is part of the log: it is parsed, and the block that it points to is reserved.
  pub accept : ℕ → L2PBlock → ScanState → ScanState
  accept pba block s =
      let parsed = parse_block pba block (s.tables, s.diagnostics) in
      record {
        tables = record parsed.0 {
          mark_free_blocks = update parsed.0.mark_free_blocks block.ptr false;
        };
        diagnostics = parsed.1;
        current_vmd_block = block.ptr;
        current_seed = block.seed;
      }

  -- Where the walk stops: at a block of another log, or one that points off the disk.
  abbrev pub is_end : Bool → L2PBlock → ScanState → Bool
  is_end first block s =
      ((not (s.current_seed == block.seed) && not first) || block.seed == 0)
      || leb total_physical_num_blocks block.ptr

  -- A round with the block read; `none` is a short read.
  abbrev pub after_block :
      Bool → ℕ → ScanState → Option L2PBlock → (ℕ → ScanState → Option ScanState) → Option ScanState
  after_block first pba s none next = some s
  after_block first pba s (some block) next =
      if is_end first block s then some s else next block.ptr (accept pba block s)

  -- The loop from the block at `pba`, on fuel; `none` means that the fuel ran out. `respond` is the
  -- gatekeeper and the transport.
  pub chase : (ReadMessage → Option L2PBlock) → ℕ → Bool → ℕ → ScanState → Option ScanState
  chase respond zero first pba s = none
  chase respond (suc fuel) first pba s =
      after_block first pba s (respond (read_message (record { pba = pba; num_blocks = 1 } ∷ [])))
        (chase respond fuel false)

-- One round of the loop that builds the free list: an entry for a free block, at `brk`, the address
-- that `malloc` returns.
pub free_entry : (ℕ → Bool) → ℕ → Store × ℕ → Store × ℕ
free_entry marks i (s, brk) =
    let entry : BlockEntry = record {
      next = 0;
      physical_block_id = i;
      keep_duration = 0;
      time_written = 0;
    } in
    if marks i
    then (
      count_free brk (enqueue_list free_list brk (record s { cell = update s.cell brk entry })),
      brk + 1,
    )
    else (s, brk)

-- The rounds from block `i` on.
pub init_freelist : (ℕ → Bool) → ℕ → ℕ → Store × ℕ → Store × ℕ
init_freelist marks i zero sb = sb
init_freelist marks i (suc n) sb = init_freelist marks (i + 1) n (free_entry marks i sb)
