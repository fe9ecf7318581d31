-- ===== src/Logs/Found.antt =====
-- What `find_free_range` returns as a range for data.
use timelock_drive.Prelude.{
  ℕ, ◌+◌, ◌%◌, ◌^◌, ◌≢◌, ◌<◌, ◌≤◌, ◌≡◌, refl, sym, ap, subst, ◌∙◌, Bool, true, false, ◌&&◌, Option,
  none, some, ◌==◌, arith, Bool-cases, inl, inr, if_true, if_false,
}
use timelock_drive.Constants.{DataRange, length_td_log_block, length_version_log_block}
use timelock_drive.Logs.{EpochMap, Logs, RangeRet, find_free_range, take_blocks, fresh_ret, reuses}
use timelock_drive.Logs.Range.{IsBacked, take_blocks_lem}
use timelock_drive.Logs.Range.Frame.{Frame, take_blocks-Frame}

module _ {E : Type 0} (ops : EpochMap E) (fuel now lba : ℕ) (vm td : Bool) (range : DataRange)
    (n : ℕ) (l : Logs E) where
  -- The cases of `find_free_range`: a full log block, a block of the epoch, or new blocks.
  pub data Found : Type 0 where
    td_full :
        (td && l.tdmd_idx == length_td_log_block) ≡ true
        → find_free_range ops fuel now lba vm td range n l ≡ (
          some (record fresh_ret { tdmd_found = true }),
          l,
          record { pba = l.current_tdmd_block; num_blocks = 1 },
        )
        → Found
    map_full :
        (td && l.tdmd_idx == length_td_log_block) ≡ false
        → (l.map_idx == length_version_log_block) ≡ true
        → find_free_range ops fuel now lba vm td range n l ≡ (
          some (record fresh_ret { versioning_found = true }),
          l,
          record { pba = l.current_vmd_block; num_blocks = 1 },
        )
        → Found
    reused :
        reuses ops lba n l ≡ true
        → find_free_range ops fuel now lba vm td range n l ≡ (
          some (record fresh_ret { epoch_reuse = true }),
          l,
          record { pba = (l.store.cell (l.l2pmap lba)).physical_block_id; num_blocks = 1 },
        )
        → Found
    taken :
        (td && l.tdmd_idx == length_td_log_block) ≡ false
        → (l.map_idx == length_version_log_block) ≡ false
        → find_free_range ops fuel now lba vm td range n l
          ≡ take_blocks ops fuel now vm td lba 0 n (record range { num_blocks = 0 }) l
        → Found

  pub find_free_range-Found : Found
  unfolding find_free_range
  find_free_range-Found = elim (Bool-cases (td && l.tdmd_idx == length_td_log_block)) [
    | inl full ↦ td_full full (if_true (td && l.tdmd_idx == length_td_log_block) _ _ full)
    | inr open_td ↦ elim (Bool-cases (l.map_idx == length_version_log_block)) [
      | inl full ↦ map_full open_td full (
          if_false (td && l.tdmd_idx == length_td_log_block) _ _ open_td
          ∙ if_true (l.map_idx == length_version_log_block) _ _ full)
      | inr open_map ↦
          let here =
            if_false (td && l.tdmd_idx == length_td_log_block) _ _ open_td
            ∙ if_false (l.map_idx == length_version_log_block) _ _ open_map in
          elim (Bool-cases (reuses ops lba n l)) [
            | inl again ↦ reused again (here ∙ if_true (reuses ops lba n l) _ _ again)
            | inr new ↦ taken open_td open_map (here ∙ if_false (reuses ops lba n l) _ _ new)
          ]
    ]
  ]

abbrev pub td_of : Option RangeRet → Bool
td_of none = false
td_of (some ret) = ret.tdmd_found

abbrev pub version_of : Option RangeRet → Bool
version_of none = false
version_of (some ret) = ret.versioning_found

not_both : true ≡ false → ⊥
not_both h = cc

module _ {E : Type 0} (ops : EpochMap E) (fuel now lba : ℕ) (vm td : Bool) (range : DataRange)
    (n : ℕ) (l l' : Logs E) (ret : RangeRet) (r : DataRange)
    (found : find_free_range ops fuel now lba vm td range n l ≡ (some ret, l', r))
    (no_td : ret.tdmd_found ≡ false) (no_version : ret.versioning_found ≡ false)
    (no_epoch : l.epoch_mode ≡ false) where
  -- A range for data, neither a log block nor a block of an epoch, is what the loop leaves.
  found-take_blocks :
      take_blocks ops fuel now vm td lba 0 n (record range { num_blocks = 0 }) l ≡ (some ret, l', r)
  found-take_blocks = elim (find_free_range-Found ops fuel now lba vm td range n l) [
    | td_full c e ↦ absurd (not_both (ap (λ x. td_of x.0) (sym e ∙ found) ∙ no_td))
    | map_full c1 c2 e ↦ absurd (not_both (ap (λ x. version_of x.0) (sym e ∙ found) ∙ no_version))
    | reused c e ↦ absurd (ground (arith, c, no_epoch))
    | taken c1 c2 e ↦ sym e ∙ found
  ]

  -- Its blocks are those that the mapping then gives for the logical blocks from `lba` on.
  pub find_free_range-IsBacked : lba + n ≤ 2 ^ 32 → n < 2 ^ 8 → IsBacked lba r.num_blocks r l'
  find_free_range-IsBacked small few =
      subst (λ (x : Option RangeRet × Logs E × DataRange). IsBacked lba x.2.num_blocks x.2 x.1)
        found-take_blocks
        (take_blocks_lem ops fuel now vm td lba n (record range { num_blocks = 0 }) l refl small
          few)

  -- Another logical block is mapped as before, and every entry has its address.
  pub find_free_range-Frame :
      (k : ℕ) → n < 2 ^ 8 → ((j : ℕ) → j < n → k ≢ (lba + (0 + j)) % 2 ^ 32) → Frame k l l'
  find_free_range-Frame k few out =
      subst (λ (x : Option RangeRet × Logs E × DataRange). Frame k l x.1) found-take_blocks
        (take_blocks-Frame ops k fuel now vm td lba 0 n (record range { num_blocks = 0 }) l refl
          (omega (arith, few)) out)
