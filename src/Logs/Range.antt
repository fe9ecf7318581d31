-- ===== src/Logs/Range.antt =====
-- The range that `find_free_range` returns for data: the blocks that the mapping then gives.
mod Entry
pub mod Frame
use timelock_drive.Prelude.{
  ℕ, zero, suc, ◌+◌, ◌%◌, ◌^◌, ◌<◌, ◌≤◌, ◌≡◌, ◌≢◌, refl, sym, ap, subst, ◌∙◌, Bool, true, false,
  not, ◌&&◌, Option, none, some, if◌then◌else◌, ltb, ◌==◌, arith, update, Bool-cases, inl, inr,
}
use timelock_drive.Constants.{DataRange, uint32_max}
use timelock_drive.BlockList.{
  Store, enqueue_list, collect_list, mark_reserved_block, pop_head, pop_top_of_freelist,
}
use timelock_drive.BlockList.Ids.{
  mark_reserved_block-cell, enqueue_list-id, pop_top-front, pop_head-id,
}
use timelock_drive.Logs.{
  EpochMap, Logs, RangeRet, begin_td, end_td, log_block, is_full, note_epoch, retire, install,
  fresh_ret, Round, go_on, return, use_entry, after_pop, take_block, take_blocks,
  write_keep_duration_secs,
}
use Entry.{id_at, Maps, Took, goes_on, returns, use_entry-Took}

-- The first `n` logical blocks from `lba` are mapped, to the first `n` blocks of the range.
abbrev pub IsBacked : {E : Type 0} → ℕ → ℕ → DataRange → Logs E → Type 0
IsBacked lba n range l =
    (j : ℕ)
    → j < n
    → (id_at l (l.l2pmap ((lba + j) % 2 ^ 32)) % 2 ^ 32 ≡ (range.pba + j) % 2 ^ 32)
      × (l.l2pmap ((lba + j) % 2 ^ 32) ≢ 0)

module _ {E : Type 0} (ops : EpochMap E) where
  popped : Logs E → Logs E
  popped l = record l { store = (pop_head l.store).1 }

  -- The range that a round starts from: the first one sets its address.
  started : ℕ → DataRange → Logs E → DataRange
  started i range l = if i == 0 then record range { pba = id_at l l.store.freelist.head } else range

  -- A round either returns with nothing changed, or takes the entry at the head of the free list,
  -- whose block is the next of the range.
  data Block (lba i : ℕ) (range : DataRange) (l : Logs E) (r : Round E) : Type 0 where
    stops : (o : Option RangeRet) → r ≡ return o l range → Block lba i range l r
    takes :
        Took ops lba l.store.freelist.head (started i range l) (popped l) r
        → id_at l l.store.freelist.head % 2 ^ 32
          ≡ ((started i range l).pba + range.num_blocks) % 2 ^ 32
        → l.store.freelist.head ≢ 0
        → Block lba i range l r

  self : (p : ℕ) → (p == p) ≡ true
  self p = ground arith

  popped-Took :
      (vm td : Bool) (lba : ℕ) (range : DataRange) (l : Logs E)
      → Took ops lba l.store.freelist.head range (popped l) (
          after_pop ops vm td lba l.store.freelist.head range l
            (some (l.store.freelist.head, (pop_head l.store).1)))
  unfolding after_pop popped
  popped-Took vm td lba range l =
      rw (self l.store.freelist.head)
        (use_entry-Took ops vm td lba l.store.freelist.head range (popped l))

  next-id :
      (i : ℕ) (range : DataRange) (l : Logs E)
      → range.num_blocks ≡ i
      → (not (i == 0)
          && not (id_at l l.store.freelist.head == (range.pba + range.num_blocks) % 2 ^ 32))
        ≡ false
      → id_at l l.store.freelist.head % 2 ^ 32
        ≡ ((started i range l).pba + range.num_blocks) % 2 ^ 32
  unfolding started
  next-id i range l e h = ground arith

  take_block-Block :
      (fuel now : ℕ) (vm td : Bool) (lba i : ℕ) (range : DataRange) (l : Logs E)
      → range.num_blocks ≡ i
      → Block ((lba + i) % 2 ^ 32) i range l (take_block ops fuel now vm td lba i range l)
  unfolding take_block started
  take_block-Block fuel now vm td lba i range l e = elim (Bool-cases (l.store.freelist.head == 0)) [
    | inl none_free ↦ stops none (rw none_free refl)
    | inr free ↦
        elim (Bool-cases (
          not (i == 0)
          && not (id_at l l.store.freelist.head == (range.pba + range.num_blocks) % 2 ^ 32))) [
            | inl apart ↦ stops (some fresh_ret) (rw (free, apart) refl)
            | inr next ↦
                takes
                  (rw (free, next, pop_top-front fuel now l.store free)
                    (popped-Took vm td ((lba + i) % 2 ^ 32) (started i range l) l))
                  (next-id i range l e next) (ground (arith, free))
          ]
  ]

  IsBacked-extend :
      (lba i front : ℕ) (range : DataRange) (l l' : Logs E)
      → IsBacked lba i range l
      → lba + i < 2 ^ 32
      → Maps ops ((lba + i) % 2 ^ 32) front l l'
      → id_at l front % 2 ^ 32 ≡ (range.pba + i) % 2 ^ 32
      → front ≢ 0
      → IsBacked lba (i + 1) range l'
  IsBacked-extend lba i front range l l' ok small m last ne j h = elim (Bool-cases (j == i)) [
    | inl e ↦
        let same : j ≡ i = ground arith in
        let here : l'.l2pmap ((lba + j) % 2 ^ 32) ≡ front =
          ap (λ f. f ((lba + j) % 2 ^ 32)) m.mapping ∙ ground (arith, same) in
        (
          ap (λ q. id_at l' q % 2 ^ 32) here
              ∙ ap (λ x. x % 2 ^ 32) (m.ids front)
              ∙ last
              ∙ ap (λ k. (range.pba + k) % 2 ^ 32) (sym same),
          subst (λ q. q ≢ 0) (sym here) ne,
        )
    | inr other ↦
        let before : l'.l2pmap ((lba + j) % 2 ^ 32) ≡ l.l2pmap ((lba + j) % 2 ^ 32) =
          ap (λ f. f ((lba + j) % 2 ^ 32)) m.mapping ∙ ground arith in
        let earlier = ok j (ground arith) in
        (
          ap (λ q. id_at l' q % 2 ^ 32) before
              ∙ ap (λ x. x % 2 ^ 32) (m.ids (l.l2pmap ((lba + j) % 2 ^ 32)))
              ∙ earlier.0,
          subst (λ q. q ≢ 0) (sym before) earlier.1,
        )
  ]

  popped-id : (l : Logs E) (q : ℕ) → id_at (popped l) q ≡ id_at l q
  unfolding popped
  popped-id l q = pop_head-id l.store q

  started-IsBacked :
      (lba i : ℕ) (range : DataRange) (l : Logs E)
      → IsBacked lba i range l
      → IsBacked lba i (started i range l) (popped l)
  unfolding started popped
  started-IsBacked lba i range l ok j h =
      let earlier = ok j h in
      (
        ap (λ x. x % 2 ^ 32) (popped-id l (l.l2pmap ((lba + j) % 2 ^ 32)))
            ∙ earlier.0
            ∙ ground (arith, h),
        earlier.1,
      )

  started-num :
      (i : ℕ) (range : DataRange) (l : Logs E) → (started i range l).num_blocks ≡ range.num_blocks
  unfolding started
  started-num i range l = ground arith

  -- What the loop leaves: a range whose blocks the mapping gives.
  Fine : ℕ → Option RangeRet × Logs E × DataRange → Type 0
  Fine lba x = IsBacked lba x.2.num_blocks x.2 x.1

  fine :
      (lba i : ℕ) (o : Option RangeRet) (l : Logs E) (range : DataRange)
      → range.num_blocks ≡ i
      → IsBacked lba i range l
      → Fine lba (o, l, range)
  unfolding Fine
  fine lba i o l range e ok = rw e ok

  module _ (fuel now : ℕ) (vm td : Bool) (lba i n : ℕ) (range : DataRange) (l : Logs E)
      (e : range.num_blocks ≡ i) (ok : IsBacked lba i range l) (small : lba + (i + suc n) ≤ 2 ^ 32)
      (few : i + suc n < 2 ^ 8) where
    -- The range and the mapping after a round that takes a block.
    taken-IsBacked :
        (l' : Logs E) (range' : DataRange)
        → range'
          ≡ record (started i range l) { num_blocks = ((started i range l).num_blocks + 1) % 2 ^ 8 }
        → Maps ops ((lba + i) % 2 ^ 32) l.store.freelist.head (popped l) l'
        → id_at l l.store.freelist.head % 2 ^ 32
          ≡ ((started i range l).pba + range.num_blocks) % 2 ^ 32
        → l.store.freelist.head ≢ 0
        → (range'.num_blocks ≡ i + 1) × IsBacked lba (i + 1) range' l'
    taken-IsBacked l' range' re m last ne =
        let num : range'.num_blocks ≡ i + 1 =
          ap (λ r. r.num_blocks) re ∙ omega (arith, started-num i range l, e, few) in
        (
          num,
          subst
              (λ p.
                (j : ℕ)
                → j < i + 1
                → (id_at l' (l'.l2pmap ((lba + j) % 2 ^ 32)) % 2 ^ 32 ≡ (p + j) % 2 ^ 32)
                  × (l'.l2pmap ((lba + j) % 2 ^ 32) ≢ 0))
              (sym (ap (λ r. r.pba) re))
              (IsBacked-extend lba i l.store.freelist.head (started i range l) (popped l) l'
                (started-IsBacked lba i range l ok) (omega (arith, small)) m
                (ap (λ x. x % 2 ^ 32) (popped-id l l.store.freelist.head)
                  ∙ last
                  ∙ ap (λ k. ((started i range l).pba + k) % 2 ^ 32) e)
                ne),
        )

  take_blocks-Fine :
      (fuel now : ℕ) (vm td : Bool) (lba i n : ℕ) (range : DataRange) (l : Logs E)
      → range.num_blocks ≡ i
      → IsBacked lba i range l
      → lba + (i + n) ≤ 2 ^ 32
      → i + n < 2 ^ 8
      → Fine lba (take_blocks ops fuel now vm td lba i n range l)
  unfolding take_blocks
  take_blocks-Fine fuel now vm td lba i zero range l e ok small few =
      fine lba i (some fresh_ret) l range e ok
  take_blocks-Fine fuel now vm td lba i (suc n) range l e ok small few =
      elim (take_block-Block fuel now vm td lba i range l e) [
        | stops o r ↦ rw (take_blocks, r) (fine lba i o l range e ok)
        | takes (goes_on l' range' r re m) last ne ↦
            let t =
              taken-IsBacked fuel now vm td lba i n range l e ok small few l' range' re m last ne in
            rw (take_blocks, r)
              (take_blocks-Fine fuel now vm td lba (i + 1) n range' l' t.0 t.1
                (omega (arith, small)) (omega (arith, few)))
        | takes (returns l' range' r re m) last ne ↦
            let t =
              taken-IsBacked fuel now vm td lba i n range l e ok small few l' range' re m last ne in
            rw (take_blocks, r) (fine lba (i + 1) (some fresh_ret) l' range' t.0 t.1)
      ]

-- The loop of `find_free_range`, for up to 255 blocks, leaves a range whose blocks are those that the
-- mapping then gives for the logical blocks from `lba` on, in order, each with an entry: also when it returns early, for
-- a full log, a gap in the addresses, or an empty free list.
pub take_blocks_lem :
    {E : Type 0}
    → (ops : EpochMap E) (fuel now : ℕ) (vm td : Bool) (lba n : ℕ) (range : DataRange) (l : Logs E)
    → range.num_blocks ≡ 0
    → lba + n ≤ 2 ^ 32
    → n < 2 ^ 8
    → let (r, l', range') = take_blocks ops fuel now vm td lba 0 n range l in
      IsBacked lba range'.num_blocks range' l'
unfolding Fine
take_blocks_lem ops fuel now vm td lba n range l e small few =
    take_blocks-Fine ops fuel now vm td lba 0 n range l e (λ j h. absurd (omega arith))
      (omega (arith, small)) (omega (arith, few))
