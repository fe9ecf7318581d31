-- ===== src/Tests/Write.antt =====
-- Writes, at concrete disks.
use timelock_drive.Prelude.{
  if◌then◌else◌, ℕ, ◌+◌, ◌≡◌, refl, ap, Bool, true, false, none, some, List, [], ◌∷◌, arith,
}
use timelock_drive.MdIndex.{md_block_already_queued}
use timelock_drive.BlockList.{pop_top_of_freelist, pop_head, mark_reserved_block, enqueue_list}
use timelock_drive.Logs.{
  Logs, find_free_range, take_blocks, take_block, after_pop, use_entry, retire, install, log_block,
  begin_td, end_td,
}
use timelock_drive.Gatekeeper.{Gatekeeper}
use timelock_drive.Metadata.{Driver, note_md_membership_update}
use timelock_drive.Write.{
  Modes, written, write_fail, checker_write_denied, device_write, after_alloc, alloc_loop,
  alloc_round, use_range, use_touched, take_range, touch_md_blocks, write_allocated, layout,
  exchange, after_byte, take_evictions, unsent, note_written, Carried, Alloc, Round, go_on, fail,
  start_alloc,
}
use timelock_drive.Logs.Range.{IsBacked}
use timelock_drive.Write.Ends.{allocation}
use timelock_drive.Write.Failure.{logs_of, device_write-failed}
use timelock_drive.Write.Membership.{Accepted, device_write_lem}
use timelock_drive.Write.Interleave.{interleave}
use timelock_drive.Write.Layout.{carried_at, ties, layout_lem}
use timelock_drive.Write.Remap.{alloc_round-IsBacked}
use timelock_drive.Tests.Blocks.{set_ops, nearly_full, one_entry, two_blocks}
use timelock_drive.Tests.Startup.{cached}

-- A gatekeeper that counts the requests and answers each with one byte.
abbrev pub answers : ℕ → Gatekeeper ℕ ℕ
answers byte = record {
  on_write = λ _ g. (record { first_byte = some byte; evicted = λ _. none }, g + 1);
  on_command = λ _ g. (record { first_byte = some byte; evicted = λ _. none }, g + 1);
}

abbrev pub both_logs : Modes
both_logs = record { read_only_mode = false; versioning_metadata = true; td_metadata = true }

abbrev pub empty_logs : Logs (ℕ → Bool)
empty_logs = record nearly_full { map_idx = 0; tdmd_idx = 0; epoch_mode = false }

abbrev pub fresh_driver : Logs (ℕ → Bool) → Driver (ℕ → Bool) ℕ
fresh_driver l = record {
  logs = l;
  md_cache = λ i. cached i 0;
  md_cache_membership = λ _. false;
  gatekeeper = 0;
}

abbrev pub two_data : List ℕ
two_data = 5 ∷ 6 ∷ []

abbrev three_data : List ℕ
three_data = 5 ∷ 6 ∷ 7 ∷ []

two_blocks-written :
    (device_write (answers 0) set_ops 0 9 both_logs two_data 28672 (fresh_driver empty_logs)).0
    ≡ written
unfolding device_write after_alloc alloc_loop alloc_round use_range use_touched take_range
    touch_md_blocks write_allocated layout exchange after_byte take_evictions unsent note_written
    find_free_range take_blocks take_block after_pop use_entry retire install log_block begin_td
    end_td pop_top_of_freelist pop_head mark_reserved_block enqueue_list md_block_already_queued
    note_md_membership_update
two_blocks-written = refl

abbrev two_written : Driver (ℕ → Bool) ℕ
two_written =
    (device_write (answers 0) set_ops 0 9 both_logs two_data 28672 (fresh_driver empty_logs)).1

device_write_lem_example :
    Accepted (answers 0) set_ops 0 9 both_logs two_data 28672 (fresh_driver empty_logs) two_written
device_write_lem_example =
    device_write_lem (answers 0) set_ops 0 9 both_logs two_data 28672 (fresh_driver empty_logs)
      two_written (ap (λ r. (r, two_written)) two_blocks-written)

two_blocks-denied :
    (device_write (answers 255) set_ops 0 9 both_logs two_data 28672 (fresh_driver empty_logs)).0
    ≡ write_fail checker_write_denied
unfolding device_write after_alloc alloc_loop alloc_round use_range use_touched take_range
    touch_md_blocks write_allocated layout exchange after_byte take_evictions unsent note_written
    find_free_range take_blocks take_block after_pop use_entry retire install log_block begin_td
    end_td pop_top_of_freelist pop_head mark_reserved_block enqueue_list md_block_already_queued
    note_md_membership_update
two_blocks-denied = refl

abbrev two_denied : Driver (ℕ → Bool) ℕ
two_denied =
    (device_write (answers 255) set_ops 0 9 both_logs two_data 28672 (fresh_driver empty_logs)).1

device_write-failed_example :
    (two_denied.logs ≡ logs_of (allocation set_ops 0 9 both_logs two_data 28672 empty_logs))
    × (two_denied.md_cache ≡ (fresh_driver empty_logs).md_cache)
device_write-failed_example =
    device_write-failed (answers 255) set_ops 0 9 both_logs two_data 28672 (fresh_driver empty_logs)
      two_denied checker_write_denied (ap (λ r. (r, two_denied)) two_blocks-denied)

abbrev carried : {B : Type 0} → ℕ → ℕ → B → Carried B
carried offset tie block = record { offset = offset; tie_breaker = tie; block = block }

layout_lem_example :
    layout three_data (some (carried 2 40 one_entry)) (some (carried 1 30 two_blocks)) ≡ (
      if ties (some (carried 2 40 one_entry)) (some (carried 1 30 two_blocks))
      then none
      else some (
          interleave
            (carried_at (some (carried 2 40 one_entry)) (some (carried 1 30 two_blocks)))
            three_data
            0))
layout_lem_example =
    layout_lem three_data (some (carried 2 40 one_entry)) (some (carried 1 30 two_blocks))
      (omega arith) (omega arith)

-- One block of the data has its place already.
abbrev second_round : Alloc (ℕ → Bool)
second_round = record (start_alloc empty_logs) { cur_lba_offset = 1; range_count = 1 }

abbrev alloc_of : Round (ℕ → Bool) → Alloc (ℕ → Bool)
alloc_of (go_on a) = a
alloc_of (fail stage a) = a

abbrev third_round : Alloc (ℕ → Bool)
third_round = alloc_of (alloc_round set_ops 0 9 both_logs 7 2 second_round)

second_round-goes_on :
    (alloc_round set_ops 0 9 both_logs 7 2 second_round ≡ go_on third_round)
    × (third_round.cur_lba_offset ≡ 3)
unfolding alloc_round use_range use_touched take_range touch_md_blocks find_free_range take_blocks
    take_block after_pop use_entry retire install log_block begin_td end_td pop_top_of_freelist
    pop_head mark_reserved_block enqueue_list md_block_already_queued
second_round-goes_on = (refl, refl)

alloc_round-IsBacked_example :
    let r = third_round.ranges 1 in
    (third_round.cur_lba_offset ≡ 1 + r.num_blocks) × IsBacked 7 r.num_blocks r third_round.logs
alloc_round-IsBacked_example =
    alloc_round-IsBacked set_ops 0 9 both_logs 7 2 second_round third_round second_round-goes_on.0
      (omega (arith, second_round-goes_on.1)) refl (omega arith) (omega arith)
