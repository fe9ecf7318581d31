-- ===== src/Ranges.antt =====
-- `merge_ranges` of versioning_td_driver/src/versioning_td_driver.c: neighbouring ranges of a
-- write request are joined in place.
pub mod Blocks
pub mod Merge
use timelock_drive.Prelude.{ℕ, zero, suc, ◌+◌, ◌-◌, ◌%◌, ◌^◌, if◌then◌else◌, ◌==◌, update}
use timelock_drive.Constants.{DataRange}

-- `ranges[w].num_blocks += n` in a `uint8_t`.
abbrev pub extend : DataRange → ℕ → DataRange
extend r n = record r { num_blocks = (r.num_blocks + n) % 2 ^ 8 }

-- The array after the loop, and the last `write_idx`; `rounds` counts what `read_idx` has to go.
pub merge_loop : ℕ → ℕ → ℕ → (ℕ → DataRange) → (ℕ → DataRange) × ℕ
merge_loop zero read_idx write_idx ranges = (ranges, write_idx)
merge_loop (suc rounds) read_idx write_idx ranges =
    let last = ranges write_idx in
    let cur = ranges read_idx in
    let merged =
      merge_loop rounds (read_idx + 1) write_idx
        (update ranges write_idx (extend last cur.num_blocks)) in
    let copied =
      merge_loop rounds (read_idx + 1) (write_idx + 1) (update ranges (write_idx + 1) cur) in
    if (last.pba + last.num_blocks) % 2 ^ 32 == cur.pba then merged else copied

-- The array, and the new length.
pub merge_ranges : (ℕ → DataRange) → ℕ → (ℕ → DataRange) × ℕ
unfolding merge_loop
merge_ranges ranges count =
    let (ranges', write_idx) = merge_loop (count - 1) 1 0 ranges in
    if count == 0 then (ranges, 0) else (ranges', write_idx + 1)
