-- ===== src/Write/Ends.antt =====
-- How `device_write` ends, before and after its message goes out.
use timelock_drive.Prelude.{
  ℕ, ◌/◌, ◌%◌, ◌^◌, ◌≡◌, ◌⊎◌, refl, ap, ◌∙◌, false, some, List, ltb, length, Bool-cases,
  Option-cases, inl, inr, if_true, if_false,
}
use timelock_drive.Constants.{max_md_blocks_in_header, max_mapping_count, block_size}
use timelock_drive.Logs.{EpochMap, Logs}
use timelock_drive.Gatekeeper.{Payload, Gatekeeper}
use timelock_drive.Metadata.{Driver}
use timelock_drive.Write.{
  Modes, Alloc, Round, go_on, fail, FailStage, erofs, write_fail, alloc_loop, start_alloc, layout,
  exchange, request, md_blocks_of, write_allocated, after_alloc, device_write, num_blocks_underflow,
  too_many_md_blocks_postmerge, tie_break_failed,
}

module _ {A E : Type 0} (ops : EpochMap E) (fuel now : ℕ) (m : Modes) where
  -- The allocation for a request.
  abbrev pub allocation : List A → ℕ → Logs E → Round E
  allocation b offset l =
      alloc_loop ops fuel now m (offset / block_size % 2 ^ 32) (length b) max_mapping_count
        (start_alloc l)

pub Round-cases :
    {E : Type 0}
    → (r : Round E)
    → ((a : Alloc E) × (r ≡ go_on a)) ⊎ ((stage : FailStage) × (a : Alloc E) × (r ≡ fail stage a))
Round-cases (go_on a) = inl (a, refl)
Round-cases (fail stage a) = inr (stage, a, refl)

module _ {A E G : Type 0} (gk : Gatekeeper A G) (ops : EpochMap E) (fuel now : ℕ) (m : Modes) where
  -- It is refused; it fails with nothing sent, whether the allocation failed or not; or it is sent.
  pub data WriteEnds (b : List A) (offset : ℕ) (d : Driver E G) : Type 0 where
    refused : device_write gk ops fuel now m b offset d ≡ (erofs, d) → WriteEnds b offset d
    failed :
        (stage : FailStage) (a : Alloc E)
        → allocation ops fuel now m b offset d.logs ≡ fail stage a
        → device_write gk ops fuel now m b offset d ≡ (write_fail stage, record d { logs = a.logs })
        → WriteEnds b offset d
    unsendable :
        (stage : FailStage) (a : Alloc E)
        → allocation ops fuel now m b offset d.logs ≡ go_on a
        → device_write gk ops fuel now m b offset d ≡ (write_fail stage, record d { logs = a.logs })
        → WriteEnds b offset d
    sent :
        (a : Alloc E) (payload : List (Payload A))
        → allocation ops fuel now m b offset d.logs ≡ go_on a
        → ltb (length b) a.cur_lba_offset ≡ false
        → layout b a.version a.hd ≡ some payload
        → device_write gk ops fuel now m b offset d
          ≡ exchange gk m
              (request m payload a (record d { logs = a.logs }))
              (md_blocks_of m a d)
              (record d { logs = a.logs })
        → WriteEnds b offset d

  ran :
      (b : List A) (offset : ℕ) (d : Driver E G)
      → m.read_only_mode ≡ false
      → (r : Round E) → allocation ops fuel now m b offset d.logs ≡ r
      → device_write gk ops fuel now m b offset d ≡ after_alloc gk m b d r
  unfolding device_write
  ran b offset d w r e = if_false m.read_only_mode _ _ w ∙ ap (after_alloc gk m b d) e

  allocated-WriteEnds :
      (b : List A) (offset : ℕ) (d : Driver E G) (a : Alloc E)
      → allocation ops fuel now m b offset d.logs ≡ go_on a
      → device_write gk ops fuel now m b offset d
        ≡ write_allocated gk m b a (record d { logs = a.logs })
      → WriteEnds b offset d
  unfolding write_allocated
  allocated-WriteEnds b offset d a e w = elim (Bool-cases (ltb (length b) a.cur_lba_offset)) [
    | inl under ↦ unsendable num_blocks_underflow a e (w ∙ if_true _ _ _ under)
    | inr enough ↦
        let w1 = w ∙ if_false _ _ _ enough in
        elim (Bool-cases (ltb max_md_blocks_in_header (length (md_blocks_of m a d)))) [
          | inl many ↦ unsendable too_many_md_blocks_postmerge a e (w1 ∙ if_true _ _ _ many)
          | inr few ↦
              let w2 = w1 ∙ if_false _ _ _ few in
              elim (Option-cases (layout b a.version a.hd)) [
                | inl tie ↦ unsendable tie_break_failed a e (w2 ∙ rw tie refl)
                | inr (payload, l) ↦ sent a payload e enough l (w2 ∙ rw l refl)
              ]
        ]
  ]

  pub device_write-WriteEnds : (b : List A) (offset : ℕ) (d : Driver E G) → WriteEnds b offset d
  unfolding after_alloc
  device_write-WriteEnds b offset d = elim (Bool-cases m.read_only_mode) [
    | inl ro ↦ refused (unfold device_write in if_true _ _ _ ro)
    | inr rw_mode ↦ elim (Round-cases (allocation ops fuel now m b offset d.logs)) [
      | inl (a, e) ↦ allocated-WriteEnds b offset d a e (ran b offset d rw_mode (go_on a) e)
      | inr (stage, a, e) ↦ failed stage a e (ran b offset d rw_mode (fail stage a) e)
    ]
  ]
