-- ===== src/Write/Refines.antt =====
-- A write refines the update of a virtual disk.
use timelock_drive.Prelude.{
  ℕ, ◌+◌, ◌-◌, ◌*◌, ◌%◌, ◌^◌, ◌<◌, ◌≤◌, ◌≡◌, ◌≢◌, ◌⊎◌, sym, ap, ap₂, ◌∙◌, none, some, List, length,
  map, arith, inl, inr, ltb, ltb→lt, ltb_ge, if◌then◌else◌, ◌==◌, Bool-cases,
}
use timelock_drive.Constants.{block_size}
use timelock_drive.Ranges.Blocks.{count_up, expand}
use timelock_drive.Read.Scatter.{block_at, length-map}
use timelock_drive.Logs.{EpochMap, Logs}
use timelock_drive.Logs.Range.Frame.{Frame}
use timelock_drive.Gatekeeper.{Payload, data_block, WriteMessage, Gatekeeper}
use timelock_drive.Metadata.{Driver}
use timelock_drive.Write.{Modes, Alloc, written, start_alloc, device_write}
use timelock_drive.Write.Remap.{alloc_round-Frame}
use timelock_drive.Write.Stored.{put, put-count_up, put-outside}
use timelock_drive.Write.View.{
  mapping_of, mapped-at, view, view-same, overwrite, overwrite-at, overwrite-below, overwrite-above,
  get_elem?-some,
}
use timelock_drive.Write.ReadBack.{OneRange, one_range-IsBacked, device_write-stores}

-- The mapping of a block depends on its entry alone.
mapping_of-Frame :
    {E : Type 0} → (l l' : Logs E) (i : ℕ) → Frame i l l' → mapping_of l' i ≡ mapping_of l i
mapping_of-Frame l l' i f =
    ap (λ q. if q == 0 then none else some ((l'.store.cell q).physical_block_id % 2 ^ 32)) f.mapping
    ∙ ap (λ x. if l.l2pmap i == 0 then none else some (x % 2 ^ 32)) (f.ids (l.l2pmap i))

-- No block of the mapping is among the `n` from `pba` on.
abbrev pub Unmapped : {E : Type 0} → Logs E → ℕ → ℕ → Type 0
Unmapped l pba n = (i p : ℕ) → mapping_of l i ≡ some p → (p < pba) ⊎ (pba + n ≤ p)

module _ {A E G : Type 0} (gk : Gatekeeper A G) (disk : G → ℕ → Payload A)
    (stores : (message : WriteMessage A) (g : G) (s : ℕ)
      → (gk.on_write message g).0.first_byte ≡ some s
      → s ≢ 255
      → s ≢ 254
      → disk (gk.on_write message g).1 ≡ put (expand message.ranges) message.payload (disk g)) where
  -- The virtual disk of a state.
  abbrev pub virtual_disk : Payload A → Driver E G → ℕ → Payload A
  virtual_disk zero_block d = view zero_block (disk d.gatekeeper) d.logs

  module _ (ops : EpochMap E) (fuel now : ℕ) (m : Modes) (b : List A) (lba : ℕ) (d d' : Driver E G)
      (a : Alloc E) (one : OneRange gk disk stores ops fuel now m b lba d a) where
    -- The disk once the data is stored.
    abbrev stored_disk : ℕ → Payload A
    stored_disk = put (count_up (a.ranges 0).pba (length b)) (map data_block b) (disk d.gatekeeper)

    -- A logical block that is not written.
    other :
        Unmapped d.logs (a.ranges 0).pba (length b)
        → (zero_block : Payload A) (i : ℕ) → (i < lba) ⊎ (lba + length b ≤ i)
        → view zero_block stored_disk a.logs i ≡ virtual_disk zero_block d i
    other free zero_block i out =
        let small = one.small in
        let moved : 0 < a.cur_lba_offset = omega (arith, one.whole, one.some_data) in
        let frame =
          alloc_round-Frame ops fuel now m lba (length b) (start_alloc d.logs) a i one.round moved
            one.no_epoch one.few (λ j lt h. apart i j out lt h) in
        view-same zero_block (disk d.gatekeeper) stored_disk d.logs a.logs i
          (mapping_of-Frame d.logs a.logs i frame)
          (λ p e.
            put-outside (a.ranges 0).pba (length b) (map data_block b) (disk d.gatekeeper) p
              (free i p e))
      where
        apart :
            (i j : ℕ)
            → (i < lba) ⊎ (lba + length b ≤ i)
            → j < length b
            → i ≡ (lba + (0 + j)) % 2 ^ 32
            → ⊥
        apart i j (inl lt) k h = omega (arith, one.small, lt, k, h)
        apart i j (inr le) k h = omega (arith, one.small, le, k, h)

    -- A logical block that is written.
    same_block :
        (zero_block : Payload A) (i : ℕ)
        → lba ≤ i
        → i < lba + length b
        → view zero_block stored_disk a.logs i
          ≡ overwrite lba (map data_block b) (virtual_disk zero_block d) i
    same_block zero_block i le lt =
        let xs = map data_block b in
        let len : length xs ≡ length b = length-map data_block b in
        let j = i - lba in
        let at : lba + j ≡ i = omega arith in
        let (x, e) = get_elem?-some xs j (omega (arith, len, le, lt)) in
        let range = one_range-IsBacked gk disk stores ops fuel now m b lba d d' a one in
        let fits = one.fits in
        ap (view zero_block stored_disk a.logs) (sym at)
        ∙ ap (block_at zero_block stored_disk (mapping_of a.logs)) (
            mapped-at a.logs lba (length b) j (a.ranges 0) range.1 one.small (omega (arith, fits))
              (omega (arith, le, lt)))
        ∙ ap (λ n. put (count_up (a.ranges 0).pba n) xs (disk d.gatekeeper) ((a.ranges 0).pba + j))
            (sym len)
        ∙ put-count_up (a.ranges 0).pba xs (disk d.gatekeeper) j x e
        ∙ sym (overwrite-at lba xs (virtual_disk zero_block d) j x e)
        ∙ ap (overwrite lba xs (virtual_disk zero_block d)) at

  -- If the disk behind the gatekeeper stores the blocks of every request that it accepts at the
  -- addresses of the request's ranges, then a `device_write` that succeeds, outside an epoch, whose
  -- allocation finds one range for all of its data, in which no block is mapped, does to the virtual
  -- disk what it should: a reader sees the data written at their logical addresses, and everything else
  -- as before.
  pub device_write-refines :
      (ops : EpochMap E) (fuel now : ℕ) (m : Modes) (b : List A) (lba : ℕ) (d d' : Driver E G)
      (a : Alloc E)
      → OneRange gk disk stores ops fuel now m b lba d a
      → Unmapped d.logs (a.ranges 0).pba (length b)
      → device_write gk ops fuel now m b (lba * block_size) d ≡ (written, d')
      → (zero_block : Payload A) (i : ℕ)
      → virtual_disk zero_block d' i
        ≡ overwrite lba (map data_block b) (virtual_disk zero_block d) i
  device_write-refines ops fuel now m b lba d d' a one free h zero_block i =
      let xs = map data_block b in
      let stored = device_write-stores gk disk stores ops fuel now m b lba d d' a one h in
      let small = one.small in
      let len : length xs ≡ length b = length-map data_block b in
      ap₂ (λ f l. view zero_block f l i) stored.0 stored.1 ∙ elim (Bool-cases (ltb i lba)) [
        | inl below ↦
            let lt = ltb→lt i lba below in
            other ops fuel now m b lba d d' a one free zero_block i (inl lt)
            ∙ sym (overwrite-below lba xs (virtual_disk zero_block d) i lt)
        | inr from ↦ elim (Bool-cases (ltb i (lba + length b))) [
          | inl inside ↦
              same_block ops fuel now m b lba d d' a one zero_block i (ltb_ge i lba from)
                (ltb→lt i (lba + length b) inside)
          | inr above ↦
              let le = ltb_ge i (lba + length b) above in
              other ops fuel now m b lba d d' a one free zero_block i (inr le)
              ∙ sym (overwrite-above lba xs (virtual_disk zero_block d) i (omega (arith, len, le)))
        ]
      ]
