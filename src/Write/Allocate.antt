-- ===== src/Write/Allocate.antt =====
-- The allocation loop of `device_write` of versioning_td_driver/src/versioning_td_driver.c: the ranges
-- for the data, and the log blocks that are full and go along. -1 in an offset is `none`, and
-- `num_blocks` is `num_blocks_const` less `cur_lba_offset`.
use timelock_drive.Prelude.{
  ℕ, zero, suc, ◌+◌, ◌-◌, ◌/◌, ◌%◌, ◌^◌, Bool, not, Option, none, some, List, [], ◌∷◌, ◌++◌,
  if◌then◌else◌, ltb, leb, update, length,
}
use timelock_drive.Constants.{
  TdMetadataLogBlock, DataRange, metadata_entries_per_block, max_md_blocks_in_header,
}
use timelock_drive.Recovery.{L2PBlock}
use timelock_drive.MdIndex.{md_block_already_queued}
use timelock_drive.Logs.{
  EpochMap, Logs, RangeRet, find_free_range, set_pointer_and_reset_tdmd, set_pointer_and_reset_vmd,
}

-- The modes of the driver.
pub record Modes : Type 0 where
  pub read_only_mode : Bool
  pub versioning_metadata : Bool
  pub td_metadata : Bool

-- `write_fail_stage`
pub data FailStage : Type 0 where
  range_count_exceeded find_free_range_null too_many_md_blocks_initial : FailStage
  unexpected_tdmd_found set_pointer_reset_hdmd_failed set_pointer_reset_vmd_failed : FailStage
  num_blocks_underflow too_many_md_blocks_postmerge tie_break_failed : FailStage
  write_recv_short checker_write_denied checker_freshness_reject : FailStage
  too_many_evicted_blocks evict_recv_short : FailStage

-- 0, -EROFS and -1.
pub data WriteResult : Type 0 where
  written erofs : WriteResult
  write_fail : FailStage → WriteResult

-- A log block that goes along: its offset in the data, the tie breaker, and the copy.
pub record Carried (B : Type 0) : Type 0 where
  pub offset : ℕ
  pub tie_breaker : ℕ
  pub block : B

-- The variables of the allocation loop.
pub record Alloc (E : Type 0) : Type 0 where
  pub logs : Logs E
  pub ranges : ℕ → DataRange
  pub range_count : ℕ
  pub touched_md_blocks : List ℕ
  pub cur_lba_offset : ℕ
  pub hd : Option (Carried TdMetadataLogBlock)
  pub version : Option (Carried L2PBlock)

-- A round goes on to the next, or fails; so does the loop.
pub data Round (E : Type 0) : Type 0 where
  go_on : Alloc E → Round E
  fail : FailStage → Alloc E → Round E

-- After a round, the loop goes on, unless it failed.
abbrev pub after_round : {E : Type 0} → (Alloc E → Round E) → Round E → Round E
after_round next (go_on a) = next a
after_round next (fail stage a) = fail stage a

-- The loop over the metadata blocks that a range touches, `n` of them; `none` is too many.
unfoldable pub touch_md_blocks : ℕ → ℕ → List ℕ → Option (List ℕ)
touch_md_blocks zero md_block touched = some touched
touch_md_blocks (suc n) md_block touched =
    let same = touch_md_blocks n (md_block + 1) touched in
    let more = touch_md_blocks n (md_block + 1) (touched ++ md_block ∷ []) in
    if md_block_already_queued touched md_block
    then same
    else if leb max_md_blocks_in_header (length touched)
    then none
    else more

-- How many metadata blocks a range touches, in 32-bit words.
abbrev pub touched_count : DataRange → ℕ
touched_count r =
    ((r.pba + r.num_blocks + 2 ^ 32 - 1) % 2 ^ 32 / metadata_entries_per_block + 1)
    - r.pba / metadata_entries_per_block

module _ {E : Type 0} (ops : EpochMap E) (fuel now : ℕ) (m : Modes) where
  -- The range is the timelock log block.
  unfoldable pub carry_hd : DataRange → Alloc E → Round E
  carry_hd r a =
      if not m.td_metadata
      then fail unexpected_tdmd_found a
      else elim (set_pointer_and_reset_tdmd now m.read_only_mode a.logs) [
        | none ↦ fail set_pointer_reset_hdmd_failed a
        | some l ↦ go_on (record a {
          logs = l;
          hd =
              some
                (record { offset = a.cur_lba_offset; tie_breaker = r.pba; block = l.td_md_block });
          range_count = a.range_count + 1;
        })
      ]

  -- The range is the version log block.
  unfoldable pub carry_version : DataRange → Alloc E → Round E
  carry_version r a = elim (set_pointer_and_reset_vmd m.read_only_mode a.logs) [
    | none ↦ fail set_pointer_reset_vmd_failed a
    | some l ↦ go_on (record a {
      logs = l;
      version =
          some (record { offset = a.cur_lba_offset; tie_breaker = r.pba; block = l.l2p_block });
      range_count = a.range_count + 1;
    })
  ]

  -- The rest of a round, with the range found.
  unfoldable pub take_range : RangeRet → DataRange → Alloc E → Round E
  take_range ret r a =
      if ret.tdmd_found
      then carry_hd r a
      else if ret.versioning_found
      then carry_version r a
      else go_on (record a {
        cur_lba_offset = a.cur_lba_offset + r.num_blocks;
        range_count = a.range_count + 1;
      })

  -- With the metadata blocks that are touched now.
  unfoldable pub use_touched : RangeRet → DataRange → Alloc E → Option (List ℕ) → Round E
  use_touched ret r a none = fail too_many_md_blocks_initial a
  use_touched ret r a (some touched) = take_range ret r (record a { touched_md_blocks = touched })

  -- What a round does with the result of `find_free_range`.
  unfoldable pub use_range : Option RangeRet → DataRange → Alloc E → Round E
  use_range none r a = fail find_free_range_null a
  use_range (some ret) r a =
      let count = if m.versioning_metadata then touched_count r else 0 in
      use_touched ret r a
        (touch_md_blocks count (r.pba / metadata_entries_per_block) a.touched_md_blocks)

  -- A round of the loop. `find_free_range` is given the first logical block of the request.
  unfoldable pub alloc_round : ℕ → ℕ → Alloc E → Round E
  alloc_round lba num_blocks a =
      let (ret, l, r) =
        find_free_range ops fuel now lba m.versioning_metadata m.td_metadata
          (a.ranges a.range_count) num_blocks a.logs in
      use_range ret r (record a { logs = l; ranges = update a.ranges a.range_count r })

  -- The loop, with `slots` ranges left of MAX_MAPPING_COUNT.
  unfoldable pub alloc_loop : ℕ → ℕ → ℕ → Alloc E → Round E
  alloc_loop lba n zero a = if ltb a.cur_lba_offset n then fail range_count_exceeded a else go_on a
  alloc_loop lba n (suc slots) a =
      let rest = after_round (alloc_loop lba n slots) (alloc_round lba (n - a.cur_lba_offset) a) in
      if ltb a.cur_lba_offset n then rest else go_on a

-- The variables before the loop.
abbrev pub start_alloc : {E : Type 0} → Logs E → Alloc E
start_alloc l = record {
  logs = l;
  ranges = λ _. record { pba = 0; num_blocks = 0 };
  range_count = 0;
  touched_md_blocks = [];
  cur_lba_offset = 0;
  hd = none;
  version = none;
}
