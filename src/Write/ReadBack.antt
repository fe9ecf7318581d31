-- ===== src/Write/ReadBack.antt =====
-- Reading back what a write has stored.
use timelock_drive.Prelude.{
  ℕ, suc, ◌+◌, ◌-◌, ◌*◌, ◌/◌, ◌%◌, ◌^◌, ◌<◌, ◌≤◌, ◌≡◌, ◌≢◌, refl, sym, ap, ap₂, subst, ◌∙◌, Bool,
  false, Option, none, some, List, length, map, arith, append-nil, ltb, ◌==◌, if_true, if_false,
  lt→ltb, ge→ltb, Bool-cases, inl, inr,
}
use timelock_drive.Constants.{block_size, max_mapping_count}
use timelock_drive.Ranges.{merge_ranges}
use timelock_drive.Ranges.Blocks.{count_up, expand, slice}
use timelock_drive.Ranges.Merge.{merge_ranges-expand}
use timelock_drive.Control.{CachedTdMetadataBlock, Reply}
use timelock_drive.Logs.{EpochMap, Logs}
use timelock_drive.Logs.Range.{IsBacked}
use timelock_drive.Gatekeeper.{Payload, data_block, WriteMessage, Gatekeeper}
use timelock_drive.Metadata.{Driver}
use timelock_drive.Write.{
  Modes, Alloc, go_on, WriteResult, written, erofs, alloc_round, alloc_loop, start_alloc,
  after_round, layout, exchange, request, md_blocks_of, after_byte, device_write,
}
use timelock_drive.Write.Ends.{
  device_write-WriteEnds, refused, failed, unsendable, sent, allocation,
}
use timelock_drive.Write.Membership.{erofs-written, fail-written, result_eq}
use timelock_drive.Write.Remap.{alloc_round-IsBacked, first_round, go_on-go_on}
use timelock_drive.Write.Stored.{put}

abbrev first : WriteResult × (ℕ → CachedTdMetadataBlock) × (ℕ → Bool) → WriteResult
first r = r.0

-- A success means that the gatekeeper accepted the request.
after_byte-accepts :
    (md_blocks : List ℕ) (byte : Option ℕ) (reply : Reply)
    (cm : (ℕ → CachedTdMetadataBlock) × (ℕ → Bool))
    → (after_byte md_blocks byte reply cm).0 ≡ written
    → (s : ℕ) × (byte ≡ some s) × (s ≢ 255) × (s ≢ 254)
unfolding after_byte
after_byte-accepts md_blocks none reply cm h = absurd cc
after_byte-accepts md_blocks (some s) reply cm h = elim (Bool-cases (s == 255)) [
  | inl denied ↦ absurd (fail-written _ (sym (ap first (if_true (s == 255) _ _ denied)) ∙ h))
  | inr allowed ↦ elim (Bool-cases (s == 254)) [
    | inl stale ↦ absurd (
        fail-written _
          (sym (ap first (if_false (s == 255) _ _ allowed ∙ if_true (s == 254) _ _ stale)) ∙ h))
    | inr fresh ↦ (s, refl, ground (arith, allowed), ground (arith, fresh))
  ]
]

module _ {A E G : Type 0} (gk : Gatekeeper A G) (disk : G → ℕ → Payload A)
    (stores : (message : WriteMessage A) (g : G) (s : ℕ)
      → (gk.on_write message g).0.first_byte ≡ some s
      → s ≢ 255
      → s ≢ 254
      → disk (gk.on_write message g).1 ≡ put (expand message.ranges) message.payload (disk g)) where
  exchange-stores :
      (m : Modes) (message : WriteMessage A) (md_blocks : List ℕ) (d d' : Driver E G)
      → exchange gk m message md_blocks d ≡ (written, d')
      → (disk d'.gatekeeper ≡ put (expand message.ranges) message.payload (disk d.gatekeeper))
        × (d'.logs ≡ d.logs)
  unfolding exchange
  exchange-stores m message md_blocks d d' h =
      let reply = (gk.on_write message d.gatekeeper).0 in
      let ok =
        after_byte-accepts md_blocks reply.first_byte reply (d.md_cache, d.md_cache_membership)
          (ap (λ (r : WriteResult × Driver E G). r.0) h) in
      (
        ap (λ r. disk r.1.gatekeeper) (sym h) ∙ stores message d.gatekeeper ok.0 ok.1 ok.2 ok.3,
        ap (λ r. r.1.logs) (sym h),
      )

  module _ (ops : EpochMap E) (fuel now : ℕ) (m : Modes) where
    one_round :
        (lba n slots : ℕ) (l : Logs E) (a : Alloc E)
        → 0 < n
        → alloc_round ops fuel now m lba n (start_alloc l) ≡ go_on a
        → a.cur_lba_offset ≡ n
        → alloc_loop ops fuel now m lba n (suc (suc slots)) (start_alloc l) ≡ go_on a
    unfolding alloc_loop
    one_round lba n slots l a pos r whole =
        let less_none : n - 0 ≡ n = omega arith in
        if_true (ltb 0 n) _ _ (lt→ltb 0 n pos)
        ∙ ap
            (λ k.
              after_round (alloc_loop ops fuel now m lba n (suc slots))
                (alloc_round ops fuel now m lba k (start_alloc l)))
            less_none
        ∙ ap (after_round (alloc_loop ops fuel now m lba n (suc slots))) r
        ∙ if_false (ltb a.cur_lba_offset n) _ _ (ge→ltb a.cur_lba_offset n (omega (arith, whole)))

    -- The request of a write that takes one range.
    one_range :
        (a : Alloc E) (n : ℕ)
        → a.range_count ≡ 1
        → (a.ranges 0).num_blocks ≡ n
        → (a.ranges 0).pba + n < 2 ^ 32
        → n < 2 ^ 8
        → expand (
            slice (merge_ranges a.ranges a.range_count).0 0 (merge_ranges a.ranges a.range_count).1)
          ≡ count_up (a.ranges 0).pba n
    one_range a n count num fits few =
        ap (λ k. expand (slice (merge_ranges a.ranges k).0 0 (merge_ranges a.ranges k).1)) count
        ∙ (merge_ranges-expand a.ranges 1 (omega (arith, num, fits), tt)
            (omega (arith, num, few))).0
        ∙ append-nil _
        ∙ ap (count_up (a.ranges 0).pba) num

    -- The logs with the allocation made.
    abbrev with_logs : Alloc E → Driver E G → Driver E G
    with_logs a d = record d { logs = a.logs }

    some-some : (xs ys : List (Payload A)) → some xs ≡ some ys → xs ≡ ys
    some-some xs ys h = cc

    sent-stores :
        (b : List A) (d d' : Driver E G) (a : Alloc E) (payload : List (Payload A))
        → expand (
            slice (merge_ranges a.ranges a.range_count).0 0 (merge_ranges a.ranges a.range_count).1)
          ≡ count_up (a.ranges 0).pba (length b)
        → payload ≡ map data_block b
        → exchange gk m (request m payload a (with_logs a d)) (md_blocks_of m a d) (with_logs a d)
          ≡ (written, d')
        → (disk d'.gatekeeper
            ≡ put (count_up (a.ranges 0).pba (length b)) (map data_block b) (disk d.gatekeeper))
          × (d'.logs ≡ a.logs)
    sent-stores b d d' a payload ranges same h =
        let x =
          exchange-stores m (request m payload a (with_logs a d)) (md_blocks_of m a d)
            (with_logs a d) d' h in
        (x.0 ∙ ap₂ (λ ps xs. put ps xs (disk d.gatekeeper)) ranges same, x.1)

    -- The allocation finds one range for all of the data, outside an epoch and within the addresses.
    pub record OneRange (b : List A) (lba : ℕ) (d : Driver E G) (a : Alloc E) : Type 0 where
      pub some_data : 0 < length b
      pub few : length b < 2 ^ 8
      pub small : lba + length b ≤ 2 ^ 32
      pub no_epoch : d.logs.epoch_mode ≡ false
      pub round : alloc_round ops fuel now m lba (length b) (start_alloc d.logs) ≡ go_on a
      pub whole : a.cur_lba_offset ≡ length b
      pub fits : (a.ranges 0).pba + length b < 2 ^ 32

    module _ (b : List A) (lba : ℕ) (d d' : Driver E G) (a : Alloc E)
        (one : OneRange b lba d a) where
      moved : 0 < a.cur_lba_offset
      moved = omega (arith, one.whole, one.some_data)

      pub one_range-IsBacked :
          ((a.ranges 0).num_blocks ≡ length b) × IsBacked lba (length b) (a.ranges 0) a.logs
      one_range-IsBacked =
          let found =
            alloc_round-IsBacked ops fuel now m lba (length b) (start_alloc d.logs) a one.round
              moved one.no_epoch one.small one.few in
          let num : (a.ranges 0).num_blocks ≡ length b = omega (arith, found.0, one.whole) in
          (num, subst (λ n. IsBacked lba n (a.ranges 0) a.logs) num found.1)

      one_range-allocation : allocation ops fuel now m b (lba * block_size) d.logs ≡ go_on a
      one_range-allocation =
          let start : lba * block_size / block_size % 2 ^ 32 ≡ lba =
            omega (arith, one.small, one.some_data) in
          ap (λ k. alloc_loop ops fuel now m k (length b) max_mapping_count (start_alloc d.logs))
            start
          ∙ one_round lba (length b) 62 d.logs a one.some_data one.round one.whole

      -- A write that succeeds stores its data in the range.
      pub device_write-stores :
          device_write gk ops fuel now m b (lba * block_size) d ≡ (written, d')
          → (disk d'.gatekeeper
              ≡ put (count_up (a.ranges 0).pba (length b)) (map data_block b) (disk d.gatekeeper))
            × (d'.logs ≡ a.logs)
      unfolding layout
      device_write-stores h =
          let first = first_round ops fuel now m lba (length b) d.logs a one.round moved in
          let ranges = one_range a (length b) first.0 one_range-IsBacked.0 one.fits one.few in
          elim (device_write-WriteEnds gk ops fuel now m b (lba * block_size) d) [
            | refused e ↦ absurd (erofs-written (result_eq erofs written d d' (sym e ∙ h)).0)
            | failed stage a' al e ↦
                absurd (fail-written stage (result_eq _ written _ d' (sym e ∙ h)).0)
            | unsendable stage a' al e ↦
                absurd (fail-written stage (result_eq _ written _ d' (sym e ∙ h)).0)
            | sent a' payload al enough lay e ↦
                let same : a' ≡ a = go_on-go_on a' a (sym al ∙ one_range-allocation) in
                let plain : layout b a'.version a'.hd ≡ some (map data_block b) =
                  ap₂ (layout b) (ap (λ x. x.version) same ∙ first.2)
                    (ap (λ x. x.hd) same ∙ first.1) in
                sent-stores b d d' a payload ranges
                  (some-some payload (map data_block b) (sym lay ∙ plain))
                  (subst
                    (λ x.
                      exchange gk m (request m payload x (with_logs x d)) (md_blocks_of m x d)
                        (with_logs x d)
                      ≡ (written, d'))
                    same (sym e ∙ h))
          ]
