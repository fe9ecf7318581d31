-- ===== src/Cleaner.antt =====
-- The segment cleaner: `segment_cleaner` of versioning_td_driver/src/versioning.c. The share of a
-- segment that is clean is its number of free blocks over 1024, so 98 % is 1004 of them, 2 % is 20,
-- and less than 10 % of the 2560 segments is less than 256; as floats these are exact.
pub mod Victim
pub mod Offset
use timelock_drive.Prelude.{
  ℕ, zero, suc, ◌+◌, ◌-◌, ◌*◌, ◌/◌, ◌%◌, ◌^◌, Bool, true, false, not, ◌&&◌, Option, none, some,
  List, [], ◌∷◌, if◌then◌else◌, ltb, leb, ◌==◌, update,
}
use timelock_drive.Constants.{block_size, blocks_per_segment, total_physical_num_blocks, uint32_max}
use timelock_drive.BlockList.{SegmentInfo, Store}
use timelock_drive.Read.{ReadMessage, ReadResult, overrun, failed, done, device_read, Triggers}
use timelock_drive.Logs.{EpochMap, Logs}
use timelock_drive.Gatekeeper.{Gatekeeper}
use timelock_drive.Metadata.{Driver}
use timelock_drive.Write.{Modes, WriteResult, device_write}
use timelock_drive.Write.View.{mapping_of}

-- TOTAL_NUM_SEGMENTS
abbrev pub total_num_segments : ℕ
total_num_segments = total_physical_num_blocks / blocks_per_segment

-- `target_segment`, where `none` is -1, `most_clean` and `clean_segments`.
pub record Choice : Type 0 where
  pub target_segment : Option ℕ
  pub most_clean : ℕ
  pub clean_segments : ℕ

-- One round of the loop over the segments, without the hot bit's reset.
unfoldable pub weigh : ℕ → SegmentInfo → Choice → Choice
weigh i segment c =
    if leb 1004 segment.free_blocks
    then record c { clean_segments = c.clean_segments + 1 }
    else if ltb 20 segment.free_blocks
        && not segment.hot_bit
        && ltb c.most_clean segment.free_blocks
    then record c { most_clean = segment.free_blocks; target_segment = some i }
    else c

-- The rounds from segment `i` on, `n` of them: each resets the hot bit.
unfoldable pub weigh_all : ℕ → ℕ → (ℕ → SegmentInfo) → Choice → Choice × (ℕ → SegmentInfo)
weigh_all i zero segments c = (c, segments)
weigh_all i (suc n) segments c =
    weigh_all (i + 1) n (update segments i (record (segments i) { hot_bit = false }))
      (weigh i (segments i) c)

abbrev pub no_choice : Choice
no_choice = record { target_segment = none; most_clean = 0; clean_segments = 0 }

-- The segment to clean, if any.
abbrev pub victim : Choice → Option ℕ
victim c = if ltb c.clean_segments 256 then c.target_segment else none

-- The offset in bytes of a logical block, in an `unsigned int`.
abbrev pub byte_offset : ℕ → ℕ
byte_offset logical_address = logical_address * block_size % 2 ^ 32

module _ {A E G : Type 0} (gk : Gatekeeper A G) (on_read : G → ReadMessage → List A)
    (zero_block : A) (ops : EpochMap E) (fuel now : ℕ) (m : Modes) where
  -- The one block that `device_read` leaves in the buffer, which it fills with zeros first.
  abbrev pub into_buffer : ReadResult A → A
  into_buffer overrun = zero_block
  into_buffer failed = zero_block
  into_buffer (done []) = zero_block
  into_buffer (done (x ∷ xs)) = x

  -- `device_read` of the block at an offset in bytes.
  unfoldable pub read_at : ℕ → Driver E G → A
  read_at offset d =
      into_buffer
        (device_read zero_block (on_read d.gatekeeper) (mapping_of d.logs) (offset / block_size) 1
          (record { do_gc = false; do_sync = false })).0

  -- A logical block is read and written again; the results of the calls are not looked at.
  unfoldable pub relocate : ℕ → Driver E G → Driver E G
  relocate logical_address d =
      let offset = byte_offset logical_address in
      (device_write gk ops fuel now m (read_at offset d ∷ []) offset d).1

  -- The loop over the blocks of the segment, from `pba` on, `n` of them.
  unfoldable pub relocate_all : ℕ → ℕ → Driver E G → Driver E G
  relocate_all pba zero d = d
  relocate_all pba (suc n) d =
      let moved = relocate (d.logs.p2lmap pba) d in
      relocate_all (pba + 1) n (if d.logs.p2lmap pba == uint32_max then d else moved)

  -- The cleaning of a segment, which counts as free from the start.
  unfoldable pub clean_segment : Option ℕ → (ℕ → SegmentInfo) → Driver E G → Driver E G
  clean_segment none segments d = record d {
    logs = record d.logs { store = record d.logs.store { segment_list = segments } };
  }
  clean_segment (some target) segments d =
      let free =
        update segments target (record (segments target) { free_blocks = blocks_per_segment }) in
      relocate_all (target * blocks_per_segment) blocks_per_segment
        (record d { logs = record d.logs { store = record d.logs.store { segment_list = free } } })

  unfoldable pub segment_cleaner : Driver E G → Driver E G
  segment_cleaner d =
      let (c, segments) = weigh_all 0 total_num_segments d.logs.store.segment_list no_choice in
      if m.read_only_mode then d else clean_segment (victim c) segments d
