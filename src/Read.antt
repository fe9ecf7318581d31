-- ===== src/Read.antt =====
-- `device_read` and `device_read_wrapper` of versioning_td_driver/src/versioning_td_driver.c.
-- Buffers are lists of blocks: every length there is a multiple of BLOCK_SIZE. `mapping` is
-- `l2pmap`, read through to the entry's `physical_block_id`.
pub mod Coalesce
pub mod Scatter
pub mod Chunks
use timelock_drive.Prelude.{
  ℕ, zero, suc, ◌+◌, ◌-◌, ◌*◌, ◌/◌, ◌%◌, ◌^◌, Bool, true, false, Option, none, some, List, [], ◌∷◌,
  ◌++◌, length, replicate, if◌then◌else◌, ltb, ◌==◌,
}
use timelock_drive.Constants.{
  DiskCommand, read, MessageHeader, DataRange, block_size, data_range_size, max_mapping_count,
}
use timelock_drive.Ranges.Blocks.{total_blocks}

-- The triggers that every request resets.
pub record Triggers : Type 0 where
  pub do_gc : Bool
  pub do_sync : Bool

-- The variables of the loop over the blocks: the range being built, the ranges saved, and
-- `unmapped`, oldest first.
pub record Scan : Type 0 where
  pub cur_range_start_pba : ℕ
  pub cur_range_blocks : ℕ
  pub ranges : List DataRange
  pub unmapped : List Bool

-- `ranges[range_count++] = …`, where the number of blocks is cut to a `uint8_t`.
abbrev pub save_range : Scan → List DataRange
save_range s =
    s.ranges ++ record { pba = s.cur_range_start_pba; num_blocks = s.cur_range_blocks % 2 ^ 8 } ∷ []

-- One round of the loop.
pub scan_block : Option ℕ → Scan → Scan
scan_block (some pba) s =
    if s.cur_range_blocks == 0
    then record {
      cur_range_start_pba = pba;
      cur_range_blocks = 1;
      ranges = s.ranges;
      unmapped = s.unmapped ++ false ∷ [];
    }
    else if pba == (s.cur_range_start_pba + s.cur_range_blocks) % 2 ^ 32
    then record s { cur_range_blocks = s.cur_range_blocks + 1; unmapped = s.unmapped ++ false ∷ [] }
    else record {
      cur_range_start_pba = pba;
      cur_range_blocks = 1;
      ranges = save_range s;
      unmapped = s.unmapped ++ false ∷ [];
    }
scan_block none s =
    if ltb 0 s.cur_range_blocks
    then record s {
      cur_range_blocks = 0;
      ranges = save_range s;
      unmapped = s.unmapped ++ true ∷ [];
    }
    else record s { unmapped = s.unmapped ++ true ∷ [] }

-- The loop, from the logical block `lba` on, for at most max_mapping_count blocks, which the arrays
-- hold.
pub scan_blocks : (ℕ → Option ℕ) → ℕ → ℕ → Scan → Scan
unfolding scan_block
scan_blocks mapping lba zero s = s
scan_blocks mapping lba (suc n) s = scan_blocks mapping (lba + 1) n (scan_block (mapping lba) s)

abbrev pub no_scan : Scan
no_scan = record { cur_range_start_pba = 0; cur_range_blocks = 0; ranges = []; unmapped = [] }

-- The final range is saved, if any.
pub finish : Scan → List DataRange
finish s = if ltb 0 s.cur_range_blocks then save_range s else s.ranges

-- The READ request: its header and ranges.
pub record ReadMessage : Type 0 where
  pub header : MessageHeader
  pub ranges : List DataRange

abbrev pub read_message : List DataRange → ReadMessage
read_message ranges = record {
  header = record {
    payload_size = data_range_size * length ranges % 2 ^ 32;
    num_data_ranges = length ranges;
    num_md_blocks = 0;
    disk_cmd = read;
  };
  ranges = ranges;
}

-- The copy of the mapped blocks to their places in the zeroed buffer.
pub scatter {ℓ} : {A : Type ℓ} → A → List Bool → List A → List A
scatter zero_block [] from = []
scatter zero_block (true ∷ us) from = zero_block ∷ scatter zero_block us from
scatter zero_block (false ∷ us) [] = zero_block ∷ scatter zero_block us []
scatter zero_block (false ∷ us) (b ∷ from) = b ∷ scatter zero_block us from

abbrev pub max_chunk_size : ℕ
max_chunk_size = max_mapping_count * block_size

-- `chunk_size`: what remains, or the most that one request takes.
abbrev pub chunk_of : ℕ → ℕ
chunk_of remaining = if ltb max_chunk_size remaining then max_chunk_size else remaining

-- How `device_read` ends: it writes past the end of its arrays, it returns -1, or it returns 0 with
-- these blocks in the buffer.
pub data ReadResult {ℓ} (A : Type ℓ) : Type ℓ where
  overrun : ReadResult A
  failed : ReadResult A
  done : List A → ReadResult A

-- `respond` is the gatekeeper and the transport: the blocks that `gk_recv` has delivered when it
-- returns, fewer than were asked for if the connection broke.
module _ {ℓ} {A : Type ℓ} (zero_block : A) (respond : ReadMessage → List A) where
  -- The request for the mapped blocks and what comes of it, if there are any. The buffer that is
  -- malloc'ed is there.
  pub fetch : List DataRange → List Bool → ℕ → ReadResult A
  unfolding scatter
  fetch ranges unmapped num_blocks =
      let temp = respond (read_message ranges) in
      if ltb 0 (length ranges)
      then (if length temp == total_blocks ranges
          then done (scatter zero_block unmapped temp)
          else failed)
      else done (replicate num_blocks zero_block)

module _ {ℓ} {A : Type ℓ} (zero_block : A) (respond : ReadMessage → List A)
    (mapping : ℕ → Option ℕ) where
  -- `block` is the offset in blocks, which `logical_block_address` holds in 32 bits. Each round of the
  -- loop writes to `unmapped`, which has max_mapping_count entries.
  pub device_read : ℕ → ℕ → Triggers → ReadResult A × Triggers
  unfolding scan_blocks finish fetch
  device_read block num_blocks t =
      let s = scan_blocks mapping (block % 2 ^ 32) num_blocks no_scan in
      (
        if ltb max_mapping_count num_blocks
            then overrun
            else fetch zero_block respond (finish s) s.unmapped num_blocks,
        record { do_gc = false; do_sync = false },
      )

  -- `if (rc != 0) return rc;`, and on with the loop otherwise.
  abbrev pub after_chunk :
      ReadResult A
      → Triggers
      → (List A → Option (ReadResult A) × Triggers)
      → Option (ReadResult A) × Triggers
  after_chunk overrun t next = (some overrun, t)
  after_chunk failed t next = (some failed, t)
  after_chunk (done blocks) t next = next blocks

  -- The wrapper's loop, on fuel; `buffer` is what is in the buffer so far. The first result is `none`
  -- if the fuel ran out. `remaining` is a `uint32_t`, and never less than the chunk.
  pub read_chunks : ℕ → ℕ → ℕ → List A → Triggers → Option (ReadResult A) × Triggers
  read_chunks zero cur_offset remaining buffer t = (none, t)
  read_chunks (suc fuel) cur_offset remaining buffer t =
      let chunk_size = chunk_of remaining in
      let (res, t') = device_read (cur_offset / block_size) (chunk_size / block_size) t in
      let next = λ (blocks : List A).
        read_chunks fuel ((cur_offset + chunk_size) % 2 ^ 64) (remaining - chunk_size)
          (buffer ++ blocks) t' in
      if remaining == 0 then (some (done buffer), t) else after_chunk res t' next

  -- `size` is a `uint32_t`.
  pub device_read_wrapper : ℕ → ℕ → ℕ → Triggers → Option (ReadResult A) × Triggers
  device_read_wrapper fuel offset size t = read_chunks fuel offset (size % 2 ^ 32) [] t
