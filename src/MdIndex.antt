-- ===== src/MdIndex.antt =====
-- The metadata blocks that a timelock log block refers to: `collect_tdlog_needed_md_indices` of
-- versioning_td_driver/src/versioning.c, and `md_block_already_queued` and
-- `add_tdlog_referenced_md_blocks` of versioning_td_driver/src/versioning_td_driver.c. The array and
-- its count are one list.

pub mod Complete
use timelock_drive.Prelude.{
  ℕ, zero, suc, ◌+◌, ◌/◌, Bool, true, false, ◌||◌, Option, none, some, List, [], ◌∷◌, ◌++◌,
  if◌then◌else◌, leb, ◌==◌, length,
}
use timelock_drive.Constants.{
  TdMetadataLogBlock, total_physical_num_blocks, metadata_entries_per_block,
  total_num_metadata_blocks, max_md_blocks_in_header, length_td_log_block,
}

unfoldable pub md_block_already_queued : List ℕ → ℕ → Bool
md_block_already_queued [] md_block = false
md_block_already_queued (x ∷ xs) md_block = (x == md_block) || md_block_already_queued xs md_block

-- One round of the loop of `collect_tdlog_needed_md_indices`, whose inner loop is the test above;
-- `none` is the call of `abort`.
unfoldable pub collect_entry : ℕ → List ℕ → Option (List ℕ)
collect_entry pba out =
    let md_idx = pba / metadata_entries_per_block in
    if leb total_physical_num_blocks pba
    then some out
    else if md_block_already_queued out md_idx
    then some out
    else if leb max_md_blocks_in_header (length out)
    then none
    else some (out ++ md_idx ∷ [])

-- The rounds from index `i` on.
unfoldable pub collect_entries : (ℕ → ℕ) → ℕ → ℕ → List ℕ → Option (List ℕ)
collect_entries arr i zero out = some out
collect_entries arr i (suc n) out = elim (collect_entry (arr i) out) [
  | none ↦ none
  | some out' ↦ collect_entries arr (i + 1) n out'
]

unfoldable pub collect_tdlog_needed_md_indices : TdMetadataLogBlock → Option (List ℕ)
collect_tdlog_needed_md_indices hdlog = collect_entries hdlog.arr 0 length_td_log_block []

-- A round either goes on to the next index or returns.
pub data Round : Type 0 where
  go_on : List ℕ → Round
  return : List ℕ → Round

pub add_entry : ℕ → List ℕ → Round
add_entry pba md_blocks =
    let md_idx = pba / metadata_entries_per_block in
    if leb total_physical_num_blocks pba
    then go_on md_blocks
    else if leb total_num_metadata_blocks md_idx
    then go_on md_blocks
    else if md_block_already_queued md_blocks md_idx
    then go_on md_blocks
    else if leb max_md_blocks_in_header (length md_blocks)
    then return md_blocks
    else go_on (md_blocks ++ md_idx ∷ [])

pub add_entries : (ℕ → ℕ) → ℕ → ℕ → List ℕ → List ℕ
add_entries arr i zero md_blocks = md_blocks
add_entries arr i (suc n) md_blocks = elim (add_entry (arr i) md_blocks) [
  | go_on more ↦ add_entries arr (i + 1) n more
  | return done ↦ done
]

pub add_tdlog_referenced_md_blocks : TdMetadataLogBlock → List ℕ → List ℕ
add_tdlog_referenced_md_blocks hdlog md_blocks =
    add_entries hdlog.arr 0 length_td_log_block md_blocks
