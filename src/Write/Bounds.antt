-- ===== src/Write/Bounds.antt =====
-- A write keeps the positions in both log blocks within their arrays, however it ends.
use timelock_drive.Prelude.{
  ℕ, zero, suc, ◌+◌, ◌-◌, ◌/◌, ◌%◌, ◌^◌, sym, subst, Bool, true, false, not, Option, none, some,
  List, [], ◌∷◌, inl, inr, arith, if◌then◌else◌, ltb, length, take, drop, Bool-cases, Option-cases,
  if_true, if_false, ◌*◌,
}
use timelock_drive.Constants.{DataRange, block_size, max_mapping_count}
use timelock_drive.Logs.{
  EpochMap, Logs, RangeRet, set_pointer_and_reset_tdmd, set_pointer_and_reset_vmd,
}
use timelock_drive.Logs.Bounds.{InBounds, find_free_range-InBounds}
use timelock_drive.Logs.Commit.{set_pointer_and_reset_tdmd_lem, set_pointer_and_reset_vmd_lem}
use timelock_drive.Gatekeeper.{Gatekeeper}
use timelock_drive.Metadata.{Driver}
use timelock_drive.Write.{
  Modes, Alloc, Round, WriteResult, written, erofs, write_fail, carry_hd, carry_version, take_range,
  use_touched, use_range, alloc_round, alloc_loop, start_alloc, device_write, write_chunks,
  device_write_wrapper, after_chunk,
}
use timelock_drive.Write.Ends.{
  device_write-WriteEnds, refused, failed, unsendable, sent, Round-cases,
}
use timelock_drive.Write.Membership.{exchange-Responded}
use timelock_drive.Write.Failure.{logs_of}

-- The logs that a step leaves, if it makes any.
abbrev Fits : {E : Type 0} → Option (Logs E) → Type 0
Fits none = Unit
Fits (some l) = InBounds l

set_tdmd-Fits :
    {E : Type 0}
    → (now : ℕ) (b : Bool) (l : Logs E) → InBounds l
    → Fits (set_pointer_and_reset_tdmd now b l)
set_tdmd-Fits now b l h = elim (set_pointer_and_reset_tdmd_lem now b l) [
  | inl (z, e) ↦ rw e tt
  | inr s ↦ rw s.1 (omega (arith, s.9, h.0), omega (arith, s.3))
]

set_vmd-Fits :
    {E : Type 0} → (b : Bool) (l : Logs E) → InBounds l → Fits (set_pointer_and_reset_vmd b l)
set_vmd-Fits b l h = elim (set_pointer_and_reset_vmd_lem b l) [
  | inl (z, e) ↦ rw e tt
  | inr s ↦ rw s.1 (omega (arith, s.3), omega (arith, s.7, h.1))
]

-- The logs that a round leaves fit.
abbrev RoundFits : {E : Type 0} → Round E → Type 0
RoundFits r = InBounds (logs_of r)

if-RoundFits :
    {E : Type 0}
    → (c : Bool) (x y : Round E) → RoundFits x
    → RoundFits y
    → RoundFits (if c then x else y)
if-RoundFits true x y hx hy = hx
if-RoundFits false x y hx hy = hy

module _ {E : Type 0} (ops : EpochMap E) (fuel now : ℕ) (m : Modes) where
  carry_hd-Fits :
      (r : DataRange) (a : Alloc E) → InBounds a.logs → RoundFits (carry_hd ops fuel now m r a)
  unfolding carry_hd
  carry_hd-Fits r a h =
      let fits = set_tdmd-Fits now m.read_only_mode a.logs h in
      if-RoundFits (not m.td_metadata) _ _ h
        (elim (Option-cases (set_pointer_and_reset_tdmd now m.read_only_mode a.logs)) [
          | inl e ↦ rw e h
          | inr (l, e) ↦ rw e (subst Fits e fits)
        ])

  carry_version-Fits :
      (r : DataRange) (a : Alloc E) → InBounds a.logs → RoundFits (carry_version ops fuel now m r a)
  unfolding carry_version
  carry_version-Fits r a h =
      let fits = set_vmd-Fits m.read_only_mode a.logs h in
      elim (Option-cases (set_pointer_and_reset_vmd m.read_only_mode a.logs)) [
        | inl e ↦ rw (carry_version, e) h
        | inr (l, e) ↦ rw (carry_version, e) (subst Fits e fits)
      ]

  take_range-Fits :
      (ret : RangeRet) (r : DataRange) (a : Alloc E)
      → InBounds a.logs
      → RoundFits (take_range ops fuel now m ret r a)
  unfolding take_range
  take_range-Fits ret r a h =
      if-RoundFits ret.tdmd_found _ _ (carry_hd-Fits r a h)
        (if-RoundFits ret.versioning_found _ _ (carry_version-Fits r a h) h)

  use_touched-Fits :
      (ret : RangeRet) (r : DataRange) (a : Alloc E) (o : Option (List ℕ))
      → InBounds a.logs
      → RoundFits (use_touched ops fuel now m ret r a o)
  unfolding use_touched
  use_touched-Fits ret r a none h = h
  use_touched-Fits ret r a (some touched) h =
      take_range-Fits ret r (record a { touched_md_blocks = touched }) h

  use_range-Fits :
      (o : Option RangeRet) (r : DataRange) (a : Alloc E)
      → InBounds a.logs
      → RoundFits (use_range ops fuel now m o r a)
  unfolding use_range
  use_range-Fits none r a h = h
  use_range-Fits (some ret) r a h = use_touched-Fits ret r a _ h

  alloc_round-Fits :
      (lba n : ℕ) (a : Alloc E) → InBounds a.logs → RoundFits (alloc_round ops fuel now m lba n a)
  unfolding alloc_round
  alloc_round-Fits lba n a h = use_range-Fits _ _ _ (
      (find_free_range-InBounds ops fuel now lba m.versioning_metadata m.td_metadata
        (a.ranges a.range_count) n a.logs h).positions)

  alloc_loop-Fits :
      (lba n slots : ℕ) (a : Alloc E)
      → InBounds a.logs
      → RoundFits (alloc_loop ops fuel now m lba n slots a)
  unfolding alloc_loop
  alloc_loop-Fits lba n zero a h = if-RoundFits (ltb a.cur_lba_offset n) _ _ h h
  alloc_loop-Fits lba n (suc slots) a h =
      let fits = alloc_round-Fits lba (n - a.cur_lba_offset) a h in
      if-RoundFits (ltb a.cur_lba_offset n) _ _
        (elim (Round-cases (alloc_round ops fuel now m lba (n - a.cur_lba_offset) a)) [
          | inl (a', e) ↦ rw e (alloc_loop-Fits lba n slots a' (subst RoundFits e fits))
          | inr (stage, a', e) ↦ rw e (subst RoundFits e fits)
        ])
        h

module _ {A E G : Type 0} (gk : Gatekeeper A G) (ops : EpochMap E) (fuel now : ℕ) (m : Modes) where
  abbrev LogsFit : WriteResult × Driver E G → Type 0
  LogsFit x = InBounds x.1.logs

  -- `device_write`, whatever it is given and however it ends, keeps the positions in both log blocks
  -- within their arrays.
  pub device_write-InBounds :
      (b : List A) (offset : ℕ) (d : Driver E G)
      → InBounds d.logs
      → InBounds (device_write gk ops fuel now m b offset d).1.logs
  device_write-InBounds b offset d h =
      let fits =
        alloc_loop-Fits ops fuel now m (offset / block_size % 2 ^ 32) (length b) max_mapping_count
          (start_alloc d.logs) h in
      elim (device_write-WriteEnds gk ops fuel now m b offset d) [
        | refused e ↦ subst LogsFit (sym e) h
        | failed stage a al e ↦ subst LogsFit (sym e) (subst RoundFits al fits)
        | unsendable stage a al e ↦ subst LogsFit (sym e) (subst RoundFits al fits)
        | sent a payload al enough l e ↦ subst LogsFit (sym e) (
            subst LogsFit (sym (exchange-Responded gk ops fuel now m payload a d).2)
              (subst RoundFits al fits))
      ]

  after_chunk-InBounds :
      (rest : Driver E G → WriteResult × Driver E G) (r : WriteResult × Driver E G)
      → InBounds r.1.logs
      → ((d : Driver E G) → InBounds d.logs → InBounds (rest d).1.logs)
      → InBounds (after_chunk rest r).1.logs
  after_chunk-InBounds rest (written, d) h next = next d h
  after_chunk-InBounds rest (erofs, d) h next = h
  after_chunk-InBounds rest (write_fail stage, d) h next = h

  write_chunks-InBounds :
      (n : ℕ) (b : List A) (offset : ℕ) (d : Driver E G)
      → InBounds d.logs
      → InBounds (write_chunks gk ops fuel now m n b offset d).1.logs
  unfolding write_chunks
  write_chunks-InBounds zero b offset d h = h
  write_chunks-InBounds (suc n) [] offset d h = h
  write_chunks-InBounds (suc n) (x ∷ xs) offset d h =
      let chunk = take max_mapping_count (x ∷ xs) in
      after_chunk-InBounds
        (write_chunks gk ops fuel now m n (drop max_mapping_count (x ∷ xs))
          (offset + block_size * length chunk))
        (device_write gk ops fuel now m chunk offset d) (device_write-InBounds chunk offset d h)
        (λ d' h'.
          write_chunks-InBounds n (drop max_mapping_count (x ∷ xs))
            (offset + block_size * length chunk) d' h')

  -- So does `device_write_wrapper`, over all the chunks.
  pub device_write_wrapper-InBounds :
      (b : List A) (offset : ℕ) (d : Driver E G)
      → InBounds d.logs
      → InBounds (device_write_wrapper gk ops fuel now m b offset d).1.logs
  unfolding device_write_wrapper
  device_write_wrapper-InBounds b offset d h = elim (Bool-cases m.read_only_mode) [
    | inl ro ↦ subst LogsFit (sym (if_true m.read_only_mode _ _ ro)) h
    | inr mutable ↦
        subst LogsFit (sym (if_false m.read_only_mode _ _ mutable))
          (write_chunks-InBounds (length b) b offset d h)
  ]
