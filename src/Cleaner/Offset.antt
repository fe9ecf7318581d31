-- ===== src/Cleaner/Offset.antt =====
-- The logical block that the cleaner moves.
use timelock_drive.Prelude.{
  ℕ, ◌+◌, ◌*◌, ◌/◌, ◌%◌, ◌^◌, ◌≤◌, ◌≡◌, ap, ◌∙◌, false, List, [], ◌∷◌, map, arith,
}
use timelock_drive.Constants.{DataRange, block_size, total_logical_num_blocks}
use timelock_drive.Ranges.Blocks.{expand}
use timelock_drive.Read.{ReadMessage, read_message, ReadResult, Triggers}
use timelock_drive.Read.Coalesce.{Fits}
use timelock_drive.Read.Scatter.{device_read-contents}
use timelock_drive.Logs.{EpochMap}
use timelock_drive.Gatekeeper.{Gatekeeper}
use timelock_drive.Metadata.{Driver}
use timelock_drive.Write.{Modes, device_write}
use timelock_drive.Write.View.{mapping_of, view}
use timelock_drive.Cleaner.{byte_offset, into_buffer, read_at, relocate}

-- The offset is that of the block's number modulo 2 ^ 20.
byte_offset_lem : (lba : ℕ) → byte_offset lba ≡ lba % 2 ^ 20 * block_size
byte_offset_lem lba = omega arith

module _ {A E G : Type 0} (gk : Gatekeeper A G) (on_read : G → ReadMessage → List A)
    (zero_block : A) (ops : EpochMap E) (fuel now : ℕ) (m : Modes) (d : Driver E G) (disk : ℕ → A)
    (serves : (rs : List DataRange) → on_read d.gatekeeper (read_message rs) ≡ map disk (expand rs))
    (fits : Fits (mapping_of d.logs) 1) where
  read_at-view :
      (lba : ℕ)
      → lba + 1 ≤ total_logical_num_blocks
      → read_at gk on_read zero_block ops fuel now m (lba * block_size) d
        ≡ view zero_block disk d.logs lba
  unfolding read_at
  read_at-view lba small =
      let t : Triggers = record { do_gc = false; do_sync = false } in
      let start : lba * block_size / block_size ≡ lba = omega arith in
      rw start (
        ap (λ (r : ReadResult A × Triggers). into_buffer gk on_read zero_block ops fuel now m r.0)
          (device_read-contents zero_block (on_read d.gatekeeper) (mapping_of d.logs) lba 1 t disk
            serves (omega arith) small fits))

  -- If the gatekeeper answers a read with the blocks of the disk, then to move a logical block the
  -- cleaner takes what the virtual disk has at the block whose number is the same modulo 2 ^ 20, and
  -- writes that to that same block: the offset in bytes is computed in 32 bits. The physical addresses
  -- are below 2 ^ 32 - 1.
  pub relocate-wraps :
      (lba : ℕ)
      → relocate gk on_read zero_block ops fuel now m lba d
        ≡ (device_write gk ops fuel now m
            (view zero_block disk d.logs (lba % 2 ^ 20) ∷ [])
            (lba % 2 ^ 20 * block_size)
            d).1
  unfolding relocate
  relocate-wraps lba =
      ap
        (λ offset.
          (device_write gk ops fuel now m
            (read_at gk on_read zero_block ops fuel now m offset d ∷ []) offset d).1)
        (byte_offset_lem lba)
      ∙ ap
          (λ (block : A).
            (device_write gk ops fuel now m (block ∷ []) (lba % 2 ^ 20 * block_size) d).1)
          (read_at-view (lba % 2 ^ 20) (omega arith))
