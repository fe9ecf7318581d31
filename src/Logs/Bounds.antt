-- ===== src/Logs/Bounds.antt =====
-- The positions in the two log blocks stay within the blocks, whatever `find_free_range` logs.
use timelock_drive.Prelude.{
  ℕ, zero, suc, ◌+◌, ◌%◌, ◌^◌, ◌<◌, ◌≤◌, ◌≡◌, ◌≢◌, ◌∙◌, if_true, if_false, refl, Bool, true, false,
  ◌&&◌, Option, none, some, if◌then◌else◌, ◌==◌, arith, Bool-cases, inl, inr,
}
use timelock_drive.Constants.{DataRange, length_version_log_block, length_td_log_block}
use timelock_drive.BlockList.{Store, pop_top_of_freelist}
use timelock_drive.Logs.{
  EpochMap, Logs, RangeRet, push_td, push_map, begin_td, end_td, log_block, is_full, note_epoch,
  retire, install, Round, go_on, return, use_entry, after_pop, take_block, take_blocks,
  find_free_range, fresh_ret,
}

-- The arrays of the log blocks end where they are full.
abbrev pub InBounds : {E : Type 0} → Logs E → Type 0
InBounds l = (l.map_idx ≤ length_version_log_block) × (l.tdmd_idx ≤ length_td_log_block)

-- There is room for another entry, in the timelock log if it is kept.
abbrev pub HasRoom : {E : Type 0} → Bool → Logs E → Type 0
HasRoom td l =
    (l.map_idx < length_version_log_block)
    × (l.tdmd_idx ≤ length_td_log_block)
    × (td ≡ true → l.tdmd_idx < length_td_log_block)

module _ {E : Type 0} (ops : EpochMap E) where
  begin_td-idx :
      (l : Logs E)
      → l.tdmd_idx < length_td_log_block
      → ((begin_td l).map_idx ≡ l.map_idx) × ((begin_td l).tdmd_idx < length_td_log_block)
  unfolding begin_td
  begin_td-idx l h = ground arith

  end_td-InBounds :
      (l : Logs E) → InBounds l → InBounds (end_td l) × ((end_td l).map_idx ≡ l.map_idx)
  unfolding end_td
  end_td-InBounds l h = ground arith

  log_block-InBounds :
      (td : Bool) (lba pba : ℕ) (l : Logs E) → HasRoom td l → InBounds (log_block td lba pba l)
  unfolding log_block
  log_block-InBounds true lba pba l h =
      let b = begin_td-idx l (h.2 refl) in
      (end_td-InBounds (record (push_td pba (push_map lba pba (begin_td l))) { tdmd_dirty = true })
        (omega (arith, b.0, b.1, h.0), omega (arith, b.0, b.1, h.0))).0
  log_block-InBounds false lba pba l h = ground arith

  not_full-HasRoom : (td : Bool) (l : Logs E) → InBounds l → is_full td l ≡ false → HasRoom td l
  not_full-HasRoom td l b f = ground arith

  installed-idx :
      (lba front : ℕ) (l : Logs E)
      → ((install lba front (retire lba l)).map_idx ≡ l.map_idx)
        × ((install lba front (retire lba l)).tdmd_idx ≡ l.tdmd_idx)
  unfolding install retire
  installed-idx lba front l = ground arith

  noted-idx :
      (lba : ℕ) (l : Logs E)
      → ((note_epoch ops lba l).map_idx ≡ l.map_idx)
        × ((note_epoch ops lba l).tdmd_idx ≡ l.tdmd_idx)
  noted-idx lba l = ground arith

  -- How a round ends keeps the positions in bounds, with room where the loop goes on.
  unfoldable RoundOk : Bool → Round E → Type 0
  RoundOk td (go_on l range) = HasRoom td l
  RoundOk td (return r l range) = InBounds l

  stop-RoundOk :
      (td : Bool) (r : Option RangeRet) (range : DataRange) (l : Logs E)
      → InBounds l
      → RoundOk td (return r l range)
  unfolding RoundOk
  stop-RoundOk td r range l b = b

  go_on-RoundOk :
      (td : Bool) (range : DataRange) (l : Logs E) → HasRoom td l → RoundOk td (go_on l range)
  unfolding RoundOk
  go_on-RoundOk td range l h = h

  ended-RoundOk :
      (td : Bool) (r : Option RangeRet) (range : DataRange) (l : Logs E)
      → InBounds l
      → RoundOk td (if is_full td l then return r l range else go_on l range)
  ended-RoundOk td r range l b = elim (Bool-cases (is_full td l)) [
    | inl full ↦ rw full (stop-RoundOk td r range l b)
    | inr more ↦ rw more (go_on-RoundOk td range l (not_full-HasRoom td l b more))
  ]

  moved-HasRoom :
      (td : Bool) (l l' : Logs E)
      → (l'.map_idx ≡ l.map_idx) × (l'.tdmd_idx ≡ l.tdmd_idx)
      → HasRoom td l
      → HasRoom td l'
  moved-HasRoom td l l' e h = rw (e.0, e.1) h

  use_entry-RoundOk :
      (vm td : Bool) (lba front : ℕ) (range : DataRange) (l : Logs E)
      → HasRoom td l
      → RoundOk td (use_entry ops vm td lba front range l)
  unfolding use_entry
  use_entry-RoundOk false td lba front range l h =
      go_on-RoundOk td (record range { num_blocks = (range.num_blocks + 1) % 2 ^ 8 })
        (install lba front (retire lba l))
        (moved-HasRoom td l (install lba front (retire lba l)) (installed-idx lba front l) h)
  use_entry-RoundOk true td lba front range l h =
      let mapped = install lba front (retire lba l) in
      let pba = (l.store.cell front).physical_block_id in
      let room =
        moved-HasRoom td mapped (note_epoch ops lba mapped) (noted-idx lba mapped)
          (moved-HasRoom td l mapped (installed-idx lba front l) h) in
      ended-RoundOk td (some fresh_ret)
        (record range { num_blocks = (range.num_blocks + 1) % 2 ^ 8 })
        (log_block td lba pba (note_epoch ops lba mapped))
        (log_block-InBounds td lba pba (note_epoch ops lba mapped) room)

  HasRoom-InBounds : (td : Bool) (l : Logs E) → HasRoom td l → InBounds l
  HasRoom-InBounds td l h = (omega (arith, h.0), h.1)

  if-RoundOk :
      (td b : Bool) (x y : Round E) → RoundOk td x → RoundOk td y → RoundOk td (if b then x else y)
  if-RoundOk td true x y h k = h
  if-RoundOk td false x y h k = k

  after_pop-RoundOk :
      (vm td : Bool) (lba peek : ℕ) (range : DataRange) (l : Logs E) (next : Option (ℕ × Store))
      → HasRoom td l
      → RoundOk td (after_pop ops vm td lba peek range l next)
  unfolding after_pop
  after_pop-RoundOk vm td lba peek range l none h =
      stop-RoundOk td none range l (HasRoom-InBounds td l h)
  after_pop-RoundOk vm td lba peek range l (some (front, store)) h =
      if-RoundOk td _ _ _ (use_entry-RoundOk vm td lba front range (record l { store = store }) h)
        (stop-RoundOk td none range (record l { store = store }) (HasRoom-InBounds td l h))

  take_block-RoundOk :
      (fuel now : ℕ) (vm td : Bool) (lba i : ℕ) (range : DataRange) (l : Logs E)
      → HasRoom td l
      → RoundOk td (take_block ops fuel now vm td lba i range l)
  unfolding take_block
  take_block-RoundOk fuel now vm td lba i range l h =
      let b = HasRoom-InBounds td l h in
      if-RoundOk td _ _ _ (stop-RoundOk td none range l b) (
        if-RoundOk td _ _ _ (stop-RoundOk td (some fresh_ret) range l b) (
          after_pop-RoundOk vm td ((lba + i) % 2 ^ 32) l.store.freelist.head _ l
            (pop_top_of_freelist fuel now l.store) h))

  -- How the round at hand ended, with what that says of the positions.
  data Ended (td : Bool) (r : Round E) : Type 0 where
    goes_on : (l : Logs E) (range : DataRange) → r ≡ go_on l range → HasRoom td l → Ended td r
    returns :
        (o : Option RangeRet) (l : Logs E) (range : DataRange)
        → r ≡ return o l range
        → InBounds l
        → Ended td r

  Round-Ended : (td : Bool) (r : Round E) → RoundOk td r → Ended td r
  unfolding RoundOk
  Round-Ended td (go_on l range) ok = goes_on l range refl ok
  Round-Ended td (return o l range) ok = returns o l range refl ok

  take_blocks-InBounds :
      (fuel now : ℕ) (vm td : Bool) (lba i n : ℕ) (range : DataRange) (l : Logs E)
      → HasRoom td l
      → InBounds (take_blocks ops fuel now vm td lba i n range l).1
  unfolding take_blocks
  take_blocks-InBounds fuel now vm td lba i zero range l h = HasRoom-InBounds td l h
  take_blocks-InBounds fuel now vm td lba i (suc n) range l h =
      elim (Round-Ended td _ (take_block-RoundOk fuel now vm td lba i range l h)) [
        | goes_on l' range' e room ↦
            rw (take_blocks, e) (take_blocks-InBounds fuel now vm td lba (i + 1) n range' l' room)
        | returns o l' range' e b ↦ rw (take_blocks, e) b
      ]

  if-InBounds :
      (b : Bool) (x y : Option RangeRet × Logs E × DataRange)
      → InBounds x.1
      → (b ≡ false → InBounds y.1)
      → InBounds (if b then x else y).1
  if-InBounds true x y h k = h
  if-InBounds false x y h k = k refl

-- What a call of `find_free_range` on the logs `l` gives: the positions stay within the log blocks,
-- and a full block is returned to be written, the logs as they were; a full timelock log block, if it
-- is kept, before a full version log block.
pub record FreeRange {E : Type 0} (td : Bool) (l : Logs E)
    (r : Option RangeRet × Logs E × DataRange) : Type 0 where
  pub positions : InBounds r.1
  pub timelock_full :
      td ≡ true
      → l.tdmd_idx ≡ length_td_log_block
      → r ≡ (
        some (record { versioning_found = false; tdmd_found = true; epoch_reuse = false }),
        l,
        record { pba = l.current_tdmd_block; num_blocks = 1 },
      )
  pub version_full :
      (td ≡ true → l.tdmd_idx ≢ length_td_log_block)
      → l.map_idx ≡ length_version_log_block
      → r ≡ (
        some (record { versioning_found = true; tdmd_found = false; epoch_reuse = false }),
        l,
        record { pba = l.current_vmd_block; num_blocks = 1 },
      )

-- Every call of `find_free_range`, with whatever it is asked for and whatever is on the lists,
-- leaves the positions in the version log block and the timelock log block at most at their ends, if
-- they were there; and if one of them is full, its address is returned, so that it is written, and the
-- logs are left as they were, the timelock log block before the version log block if both are full.
pub find_free_range-InBounds :
    {E : Type 0}
    → (ops : EpochMap E) (fuel now lba : ℕ) (vm td : Bool) (range : DataRange) (num_blocks : ℕ)
      (l : Logs E)
    → InBounds l
    → FreeRange td l (find_free_range ops fuel now lba vm td range num_blocks l)
unfolding find_free_range
find_free_range-InBounds ops fuel now lba vm td range num_blocks l h = record {
  positions = if-InBounds ops (td && l.tdmd_idx == length_td_log_block) _ _ h (λ open_td.
      if-InBounds ops (l.map_idx == length_version_log_block) _ _ h (λ open_map.
        if-InBounds ops _ _ _ h (λ _.
          take_blocks-InBounds ops fuel now vm td lba 0 num_blocks (record range { num_blocks = 0 })
            l (not_full-HasRoom ops td l h (ground (arith, open_td, open_map))))));
  timelock_full = λ kept full.
      if_true (td && l.tdmd_idx == length_td_log_block) _ _ (ground (arith, kept, full));
  version_full = λ open_td full.
      if_false (td && l.tdmd_idx == length_td_log_block) _ _ (ground (arith, open_td))
      ∙ if_true (l.map_idx == length_version_log_block) _ _ (ground (arith, full));
}
