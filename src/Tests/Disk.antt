-- ===== src/Tests/Disk.antt =====
-- A write to a disk that stores it.
use timelock_drive.Prelude.{
  ℕ, ◌+◌, ◌*◌, ◌%◌, ◌^◌, ◌≡◌, ◌≢◌, refl, ap, Bool, false, none, some, List, [], ◌∷◌, map, arith,
  ◌<◌, ◌≤◌, if◌then◌else◌, ◌==◌,
}
use timelock_drive.Constants.{block_size}
use timelock_drive.MdIndex.{md_block_already_queued}
use timelock_drive.Ranges.Blocks.{expand}
use timelock_drive.BlockList.{pop_top_of_freelist, pop_head, mark_reserved_block, enqueue_list}
use timelock_drive.Logs.{
  find_free_range, take_blocks, take_block, after_pop, use_entry, retire, install, log_block,
  begin_td, end_td,
}
use timelock_drive.Gatekeeper.{Payload, data_block, WriteMessage, Gatekeeper}
use timelock_drive.Metadata.{Driver, note_md_membership_update}
use timelock_drive.Write.{
  Alloc, Round, go_on, fail, written, start_alloc, device_write, after_alloc, alloc_loop,
  alloc_round, use_range, use_touched, take_range, touch_md_blocks, write_allocated, layout,
  exchange, after_byte, take_evictions, unsent, note_written,
}
use timelock_drive.Write.Stored.{put}
use timelock_drive.Write.View.{overwrite}
use timelock_drive.Write.ReadBack.{OneRange}
use timelock_drive.Write.Refines.{Unmapped, virtual_disk, device_write-refines}
use timelock_drive.BlockList.{SegmentInfo}
use timelock_drive.Read.{ReadMessage}
use timelock_drive.Read.Coalesce.{Fits}
use timelock_drive.Write.View.{mapping_of, view}
use timelock_drive.Cleaner.{relocate, weigh_all, no_choice}
use timelock_drive.Cleaner.Offset.{relocate-wraps}
use timelock_drive.Cleaner.Victim.{Eligible, weigh_all_lem}
use timelock_drive.Tests.Blocks.{set_ops}
use timelock_drive.Tests.Startup.{cached}
use timelock_drive.Tests.Write.{both_logs, empty_logs, two_data}

abbrev Disk : Type 0
Disk = ℕ → Payload ℕ

-- It stores every request, and evicts nothing.
abbrev storing : Gatekeeper ℕ Disk
storing = record {
  on_write = λ message disk. (
    record { first_byte = some 0; evicted = λ _. none },
    put (expand message.ranges) message.payload disk,
  );
  on_command = λ _ disk. (record { first_byte = some 0; evicted = λ _. none }, disk);
}

abbrev same_disk : Disk → Disk
same_disk disk = disk

storing-stores :
    (message : WriteMessage ℕ) (disk : Disk) (s : ℕ)
    → (storing.on_write message disk).0.first_byte ≡ some s
    → s ≢ 255
    → s ≢ 254
    → same_disk (storing.on_write message disk).1
      ≡ put (expand message.ranges) message.payload (same_disk disk)
storing-stores message disk s e a b = refl

abbrev empty : Driver (ℕ → Bool) Disk
empty = record {
  logs = empty_logs;
  md_cache = λ i. cached i 0;
  md_cache_membership = λ _. false;
  gatekeeper = λ _. data_block 0;
}

abbrev allocated : Round (ℕ → Bool) → Alloc (ℕ → Bool)
allocated (go_on a) = a
allocated (fail stage a) = a

abbrev first_alloc : Alloc (ℕ → Bool)
first_alloc = allocated (alloc_round set_ops 0 9 both_logs 7 2 (start_alloc empty_logs))

empty-OneRange :
    OneRange storing same_disk storing-stores set_ops 0 9 both_logs two_data 7 empty first_alloc
unfolding alloc_round use_range use_touched take_range touch_md_blocks find_free_range take_blocks
    take_block after_pop use_entry retire install log_block begin_td end_td pop_top_of_freelist
    pop_head mark_reserved_block enqueue_list md_block_already_queued
empty-OneRange = record {
  some_data = omega arith;
  few = omega arith;
  small = omega arith;
  no_epoch = refl;
  round = refl;
  whole = refl;
  fits = omega arith;
}

empty-Unmapped : (pba n : ℕ) → Unmapped empty_logs pba n
empty-Unmapped pba n i p h = absurd cc

abbrev after_two : Driver (ℕ → Bool) Disk
after_two = (device_write storing set_ops 0 9 both_logs two_data 28672 empty).1

two-stored : (device_write storing set_ops 0 9 both_logs two_data 28672 empty).0 ≡ written
unfolding device_write after_alloc alloc_loop alloc_round use_range use_touched take_range
    touch_md_blocks write_allocated layout exchange after_byte take_evictions unsent note_written
    find_free_range take_blocks take_block after_pop use_entry retire install log_block begin_td
    end_td pop_top_of_freelist pop_head mark_reserved_block enqueue_list md_block_already_queued
    note_md_membership_update
two-stored = refl

device_write-refines_example :
    virtual_disk storing same_disk storing-stores (data_block 0) after_two 8
    ≡ overwrite 7
        (map data_block two_data)
        (virtual_disk storing same_disk storing-stores (data_block 0) empty)
        8
device_write-refines_example =
    device_write-refines storing same_disk storing-stores set_ops 0 9 both_logs two_data 7 empty
      after_two first_alloc empty-OneRange (empty-Unmapped (first_alloc.ranges 0).pba 2)
      (ap (λ r. (r, after_two)) two-stored) (data_block 0) 8

abbrev content : Payload ℕ → ℕ
content (data_block x) = x
content _ = 0

-- The read side of the same disk.
abbrev reading : Disk → ReadMessage → List ℕ
reading disk message = map (λ p. content (disk p)) (expand message.ranges)

-- The logical block 7 has the entry 1.
abbrev seventh_mapped : Driver (ℕ → Bool) Disk
seventh_mapped = record empty {
  logs = record empty_logs { l2pmap = λ lba. if lba == 7 then 1 else 0 };
  gatekeeper = λ p. data_block (p + 100);
}

seventh_mapped-Fits : Fits (mapping_of seventh_mapped.logs) 1
seventh_mapped-Fits i p e = ground arith

relocate-wraps_example :
    relocate storing reading 0 set_ops 0 9 both_logs 1048583 seventh_mapped
    ≡ (device_write storing set_ops 0 9 both_logs
        (view 0 (λ p. p + 100) seventh_mapped.logs (1048583 % 2 ^ 20) ∷ [])
        (1048583 % 2 ^ 20 * block_size)
        seventh_mapped).1
relocate-wraps_example =
    relocate-wraps storing reading 0 set_ops 0 9 both_logs seventh_mapped (λ p. p + 100)
      (λ rs. refl) seventh_mapped-Fits 1048583

-- Segment 1 is half free; the others are in use.
abbrev half_free : ℕ → SegmentInfo
half_free i = record { free_blocks = if i == 1 then 512 else 20; hot_bit = false }

weigh_all_lem_example :
    ((t : ℕ)
      → (weigh_all 0 3 half_free no_choice).0.target_segment ≡ some t
      → (t < 3)
        × Eligible (half_free t)
        × ((half_free t).free_blocks ≡ (weigh_all 0 3 half_free no_choice).0.most_clean))
    × ((j : ℕ)
        → j < 3
        → Eligible (half_free j)
        → (half_free j).free_blocks ≤ (weigh_all 0 3 half_free no_choice).0.most_clean)
weigh_all_lem_example = weigh_all_lem half_free 3
