-- ===== src/Write/Remap.antt =====
-- Which logical blocks a write maps, when its data takes several ranges.
use timelock_drive.Prelude.{
  ℕ, ◌+◌, ◌^◌, ◌<◌, ◌≤◌, ◌≡◌, ◌≢◌, ◌%◌, refl, sym, ap, subst, ◌∙◌, false, Option, none, some, List,
  arith, Bool-cases, Option-cases, inl, inr, if_true, if_false, update,
}
use timelock_drive.Constants.{DataRange}
use timelock_drive.Logs.{
  EpochMap, Logs, RangeRet, find_free_range, set_pointer_and_reset_tdmd, set_pointer_and_reset_vmd,
}
use timelock_drive.Logs.Range.{IsBacked}
use timelock_drive.Logs.Found.{find_free_range-IsBacked, find_free_range-Frame}
use timelock_drive.Logs.Range.Frame.{Frame}
use timelock_drive.Write.{
  Modes, Alloc, Round, go_on, fail, carry_hd, carry_version, take_range, use_touched, use_range,
  alloc_round, start_alloc,
}

pub go_on-go_on : {E : Type 0} → (a b : Alloc E) → go_on a ≡ go_on b → a ≡ b
go_on-go_on a b h = cc

module _ {E : Type 0} (ops : EpochMap E) (fuel now : ℕ) (m : Modes) where
  -- The round did not move on in the data.
  abbrev Stays : Alloc E → Round E → Type 0
  Stays a (go_on a') = a'.cur_lba_offset ≡ a.cur_lba_offset
  Stays a (fail stage a') = Unit

  carry_hd-Stays : (r : DataRange) (a : Alloc E) → Stays a (carry_hd ops fuel now m r a)
  unfolding carry_hd
  carry_hd-Stays r a = elim (Bool-cases m.td_metadata) [
    | inl on ↦ elim (Option-cases (set_pointer_and_reset_tdmd now m.read_only_mode a.logs)) [
      | inl e ↦ rw (carry_hd, on, e) tt
      | inr (l, e) ↦ rw (carry_hd, on, e) refl
    ]
    | inr off ↦ rw (carry_hd, off) tt
  ]

  carry_version-Stays : (r : DataRange) (a : Alloc E) → Stays a (carry_version ops fuel now m r a)
  unfolding carry_version
  carry_version-Stays r a =
      elim (Option-cases (set_pointer_and_reset_vmd m.read_only_mode a.logs)) [
        | inl e ↦ rw (carry_version, e) tt
        | inr (l, e) ↦ rw (carry_version, e) refl
      ]

  -- A round that moves on in the data has found a range for it, in neither log block.
  pub data Moved (o : Option RangeRet) (r : DataRange) (a a' : Alloc E) : Type 0 where
    moved :
        (ret : RangeRet)
        → o ≡ some ret
        → ret.tdmd_found ≡ false
        → ret.versioning_found ≡ false
        → a'.logs ≡ a.logs
        → a'.ranges ≡ a.ranges
        → a'.cur_lba_offset ≡ a.cur_lba_offset + r.num_blocks
        → a'.range_count ≡ a.range_count + 1
        → a'.hd ≡ a.hd
        → a'.version ≡ a.version
        → Moved o r a a'

  Stays-moved :
      (a a' b : Alloc E) (r : Round E)
      → Stays b r
      → r ≡ go_on a'
      → b.cur_lba_offset ≡ a.cur_lba_offset
      → a.cur_lba_offset < a'.cur_lba_offset
      → ⊥
  Stays-moved a a' b r s e same lt =
      let t : a'.cur_lba_offset ≡ b.cur_lba_offset = subst (Stays b) e s in
      omega (arith, t, same, lt)

  take_range-Moved :
      (ret : RangeRet) (r : DataRange) (a a' : Alloc E) (touched : List ℕ)
      → take_range ops fuel now m ret r (record a { touched_md_blocks = touched }) ≡ go_on a'
      → a.cur_lba_offset < a'.cur_lba_offset
      → Moved (some ret) r a a'
  unfolding take_range
  take_range-Moved ret r a a' touched h lt =
      let b = record a { touched_md_blocks = touched } in
      elim (Bool-cases ret.tdmd_found) [
        | inl td ↦ absurd (
            Stays-moved a a' b _ (carry_hd-Stays r b) (sym (if_true ret.tdmd_found _ _ td) ∙ h) refl
              lt)
        | inr no_td ↦ elim (Bool-cases ret.versioning_found) [
          | inl v ↦ absurd (
              Stays-moved a a' b _ (carry_version-Stays r b)
                (sym (if_false ret.tdmd_found _ _ no_td ∙ if_true ret.versioning_found _ _ v) ∙ h)
                refl lt)
          | inr no_v ↦
              let e = go_on-go_on _ _ (
                sym (if_false ret.tdmd_found _ _ no_td ∙ if_false ret.versioning_found _ _ no_v)
                ∙ h) in
              moved ret refl no_td no_v (ap (λ x. x.logs) (sym e)) (ap (λ x. x.ranges) (sym e))
                (ap (λ x. x.cur_lba_offset) (sym e)) (ap (λ x. x.range_count) (sym e))
                (ap (λ x. x.hd) (sym e)) (ap (λ x. x.version) (sym e))
        ]
      ]

  use_touched-Moved :
      (ret : RangeRet) (r : DataRange) (a a' : Alloc E) (o : Option (List ℕ))
      → use_touched ops fuel now m ret r a o ≡ go_on a'
      → a.cur_lba_offset < a'.cur_lba_offset
      → Moved (some ret) r a a'
  unfolding use_touched
  use_touched-Moved ret r a a' none h lt = absurd cc
  use_touched-Moved ret r a a' (some t) h lt = take_range-Moved ret r a a' t h lt

  use_range-Moved :
      (o : Option RangeRet) (r : DataRange) (a a' : Alloc E)
      → use_range ops fuel now m o r a ≡ go_on a'
      → a.cur_lba_offset < a'.cur_lba_offset
      → Moved o r a a'
  unfolding use_range
  use_range-Moved none r a a' h lt = absurd cc
  use_range-Moved (some ret) r a a' h lt = use_touched-Moved ret r a a' _ h lt

  -- Outside an epoch, a round of `device_write` that finds a range for the data from block
  -- `cur_lba_offset` on maps to the blocks of this range the logical blocks from the first of the
  -- request on, wherever in the data it stands; and it moves on by the length of the range.
  pub alloc_round-IsBacked :
      (lba n : ℕ) (a a' : Alloc E)
      → alloc_round ops fuel now m lba n a ≡ go_on a'
      → a.cur_lba_offset < a'.cur_lba_offset
      → a.logs.epoch_mode ≡ false
      → lba + n ≤ 2 ^ 32
      → n < 2 ^ 8
      → let r = a'.ranges a.range_count in
        (a'.cur_lba_offset ≡ a.cur_lba_offset + r.num_blocks) × IsBacked lba r.num_blocks r a'.logs
  unfolding alloc_round
  alloc_round-IsBacked lba n a a' h lt no_epoch small few =
      let found =
        find_free_range ops fuel now lba m.versioning_metadata m.td_metadata
          (a.ranges a.range_count) n a.logs in
      let b = record a { logs = found.1; ranges = update a.ranges a.range_count found.2 } in
      elim (use_range-Moved found.0 found.2 b a' h lt) [
        | moved ret e no_td no_version l rs c count no_hd no_log ↦
            let here : a'.ranges a.range_count ≡ found.2 =
              ap (λ f. f a.range_count) rs ∙ ground arith in
            let range =
              find_free_range-IsBacked ops fuel now lba m.versioning_metadata m.td_metadata
                (a.ranges a.range_count) n a.logs found.1 ret found.2
                (ap (λ o. (o, found.1, found.2)) e) no_td no_version no_epoch small few in
            (
              c ∙ ap (λ x. a.cur_lba_offset + x.num_blocks) (sym here),
              subst (λ x. IsBacked lba x.num_blocks x a'.logs) (sym here)
                  (subst (λ x. IsBacked lba found.2.num_blocks found.2 x) (sym l) range),
            )
      ]

  -- It leaves every other logical block mapped as before.
  pub alloc_round-Frame :
      (lba n : ℕ) (a a' : Alloc E) (k : ℕ)
      → alloc_round ops fuel now m lba n a ≡ go_on a'
      → a.cur_lba_offset < a'.cur_lba_offset
      → a.logs.epoch_mode ≡ false
      → n < 2 ^ 8
      → ((j : ℕ) → j < n → k ≢ (lba + (0 + j)) % 2 ^ 32)
      → Frame k a.logs a'.logs
  unfolding alloc_round
  alloc_round-Frame lba n a a' k h lt no_epoch few out =
      let found =
        find_free_range ops fuel now lba m.versioning_metadata m.td_metadata
          (a.ranges a.range_count) n a.logs in
      let b = record a { logs = found.1; ranges = update a.ranges a.range_count found.2 } in
      elim (use_range-Moved found.0 found.2 b a' h lt) [
        | moved ret e no_td no_version l rs c count no_hd no_log ↦ subst (Frame k a.logs) (sym l) (
            find_free_range-Frame ops fuel now lba m.versioning_metadata m.td_metadata
              (a.ranges a.range_count) n a.logs found.1 ret found.2
              (ap (λ o. (o, found.1, found.2)) e) no_td no_version no_epoch k few out)
      ]

  -- A first round that moves on carries no log block, and has found the first range.
  pub first_round :
      (lba n : ℕ) (l : Logs E) (a' : Alloc E)
      → alloc_round ops fuel now m lba n (start_alloc l) ≡ go_on a'
      → 0 < a'.cur_lba_offset
      → (a'.range_count ≡ 1) × (a'.hd ≡ none) × (a'.version ≡ none)
  unfolding alloc_round
  first_round lba n l a' h lt =
      let a = start_alloc l in
      let found =
        find_free_range ops fuel now lba m.versioning_metadata m.td_metadata
          (a.ranges a.range_count) n a.logs in
      let b = record a { logs = found.1; ranges = update a.ranges a.range_count found.2 } in
      elim (use_range-Moved found.0 found.2 b a' h lt) [
        | moved ret e no_td no_version same rs c count no_hd no_log ↦ (count, no_hd, no_log)
      ]
