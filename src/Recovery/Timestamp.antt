-- ===== src/Recovery/Timestamp.antt =====
-- `parse_metadata_recovery` against `parse_metadata`: what the recovery timestamp lets through, and
-- what the diagnostics count.
use timelock_drive.Prelude.{
  ℕ, zero, suc, ◌+◌, ◌<◌, ◌≤◌, ◌≡◌, refl, ap, ◌∙◌, false, not, ◌&&◌, if◌then◌else◌, ◌==◌, arith,
  Bool-cases, inl, inr,
}
use timelock_drive.Constants.{MetadataEntry, length_version_log_block}
use timelock_drive.Recovery.{
  L2PEntry, L2PBlock, Tables, Diagnostics, reserve, parse_entry, parse_entries, parse_metadata,
  recover_entry, recover_entries, parse_metadata_recovery, is_uninitialized,
}
use timelock_drive.Recovery.Newest.{is_valid, is_named, mapped, and-true, and-not-or}

-- Every entry seen is counted once as invalid, newer or applied.
abbrev pub IsBalanced : Diagnostics → Type 0
IsBalanced d =
    (d.seen_entries ≡ d.invalid_sentinel_entries + d.invalid_bounds_entries + d.candidate_entries)
    × (d.candidate_entries ≡ d.skipped_newer_entries + d.applied_entries)

recover_entry-old :
    (md : MetadataEntry) (ts : ℕ) (e : L2PEntry) (td : Tables × Diagnostics)
    → md.time_written ≤ ts
    → (recover_entry md ts e td).0 ≡ parse_entry md e td.0
unfolding recover_entry parse_entry
recover_entry-old md ts e (t, d) h = ground arith

recover_entry-counts :
    (md : MetadataEntry) (ts : ℕ) (e : L2PEntry) (td : Tables × Diagnostics)
    → IsBalanced td.1
    → IsBalanced (recover_entry md ts e td).1
      × ((recover_entry md ts e td).1.seen_entries ≡ td.1.seen_entries + 1)
      × ((recover_entry md ts e td).1.skipped_uninitialized_entries
          ≡ td.1.skipped_uninitialized_entries)
unfolding recover_entry
recover_entry-counts md ts e (t, d) b = ground arith

-- An entry that is too new is reserved and not mapped.
recover_entry-new :
    (md : MetadataEntry) (ts : ℕ) (e : L2PEntry) (td : Tables × Diagnostics)
    → ts < md.time_written
    → (recover_entry md ts e td).0
      ≡ (if is_valid e then reserve e.physical_block_address td.0 else td.0)
unfolding recover_entry
recover_entry-new md ts e (t, d) h = ground arith

recover_entries-old :
    (md : MetadataEntry) (ts : ℕ) (map : ℕ → L2PEntry) (i n : ℕ) (td : Tables × Diagnostics)
    → md.time_written ≤ ts
    → (recover_entries md ts map i n td).0 ≡ parse_entries md map i n td.0
unfolding recover_entries parse_entries
recover_entries-old md ts map i zero td h = refl
recover_entries-old md ts map i (suc n) td h =
    recover_entries-old md ts map (i + 1) n (recover_entry md ts (map i) td) h
    ∙ ap (parse_entries md map (i + 1) n) (recover_entry-old md ts (map i) td h)

recover_entries-counts :
    (md : MetadataEntry) (ts : ℕ) (map : ℕ → L2PEntry) (i n : ℕ) (td : Tables × Diagnostics)
    → IsBalanced td.1
    → IsBalanced (recover_entries md ts map i n td).1
      × ((recover_entries md ts map i n td).1.seen_entries ≡ td.1.seen_entries + n)
      × ((recover_entries md ts map i n td).1.skipped_uninitialized_entries
          ≡ td.1.skipped_uninitialized_entries)
unfolding recover_entries
recover_entries-counts md ts map i zero td b = (b, omega arith, refl)
recover_entries-counts md ts map i (suc n) td b =
    let one = recover_entry-counts md ts (map i) td b in
    let rest = recover_entries-counts md ts map (i + 1) n (recover_entry md ts (map i) td) one.0 in
    (rest.0, omega (arith, one.1, rest.1), rest.2 ∙ one.2)

-- The same mapping, and the physical blocks that are still free.
record Reserves (map : ℕ → L2PEntry) (i n : ℕ) (t t' : Tables) : Type 0 where
  cells : t'.cell ≡ t.cell
  l2p : t'.l2pmap ≡ t.l2pmap
  p2l : t'.p2lmap ≡ t.p2lmap
  marks :
      (pba : ℕ) → t'.mark_free_blocks pba ≡ (t.mark_free_blocks pba && not (is_named map pba i n))

mark-new :
    (e : L2PEntry) (t : Tables) (pba : ℕ)
    → (if is_valid e then reserve e.physical_block_address t else t).mark_free_blocks pba
      ≡ (t.mark_free_blocks pba && not (is_valid e && e.physical_block_address == pba))
mark-new e t pba = ground arith

reserved-rest :
    (e : L2PEntry) (t : Tables)
    → let t' = (if is_valid e then reserve e.physical_block_address t else t) in
      (t'.cell ≡ t.cell) × (t'.l2pmap ≡ t.l2pmap) × (t'.p2lmap ≡ t.p2lmap)
reserved-rest e t = ground arith

recover_entries-new :
    (md : MetadataEntry) (ts : ℕ) (map : ℕ → L2PEntry) (i n : ℕ) (td : Tables × Diagnostics)
    → ts < md.time_written
    → Reserves map i n td.0 (recover_entries md ts map i n td).0
unfolding recover_entries
recover_entries-new md ts map i zero td h = record {
  cells = refl;
  l2p = refl;
  p2l = refl;
  marks = λ pba. and-true (td.0.mark_free_blocks pba);
}
recover_entries-new md ts map i (suc n) td h =
    let ih = recover_entries-new md ts map (i + 1) n (recover_entry md ts (map i) td) h in
    let one = recover_entry-new md ts (map i) td h in
    let same = reserved-rest (map i) td.0 in
    record {
      cells = ih.cells ∙ ap (λ t. t.cell) one ∙ same.0;
      l2p = ih.l2p ∙ ap (λ t. t.l2pmap) one ∙ same.1;
      p2l = ih.p2l ∙ ap (λ t. t.p2lmap) one ∙ same.2;
      marks = λ pba.
          ih.marks pba
          ∙ ap (λ t. t.mark_free_blocks pba && not (is_named map pba (i + 1) n)) one
          ∙ ap (λ b. b && not (is_named map pba (i + 1) n)) (mark-new (map i) td.0 pba)
          ∙ and-not-or (td.0.mark_free_blocks pba)
              (is_valid (map i) && (map i).physical_block_address == pba)
              (is_named map pba (i + 1) n);
    }

-- A block whose metadata is not the gatekeeper's default and was written at or before the recovery
-- timestamp changes the tables as `parse_metadata` does.
pub parse_metadata_recovery-old :
    (md : MetadataEntry) (block : L2PBlock) (ts : ℕ) (td : Tables × Diagnostics)
    → is_uninitialized md ≡ false
    → md.time_written ≤ ts
    → (parse_metadata_recovery md block ts td).0 ≡ parse_metadata md block td.0
unfolding parse_metadata_recovery parse_metadata
parse_metadata_recovery-old md block ts (t, d) u h =
    rw u (recover_entries-old md ts block.map 0 length_version_log_block (t, d) h)

-- A block whose metadata is not the gatekeeper's default and was written after the recovery
-- timestamp leaves the mapping as it is, and reserves exactly the physical blocks that its valid
-- entries name.
pub parse_metadata_recovery-newer :
    (md : MetadataEntry) (block : L2PBlock) (ts : ℕ) (td : Tables × Diagnostics)
    → is_uninitialized md ≡ false
    → ts < md.time_written
    → ((lba : ℕ) → mapped (parse_metadata_recovery md block ts td).0 lba ≡ mapped td.0 lba)
      × ((pba : ℕ)
          → (parse_metadata_recovery md block ts td).0.mark_free_blocks pba ≡ (
              td.0.mark_free_blocks pba && not (is_named block.map pba 0 length_version_log_block)))
unfolding parse_metadata_recovery
parse_metadata_recovery-newer md block ts (t, d) u h =
    let done = recover_entries-new md ts block.map 0 length_version_log_block (t, d) h in
    rw u ((λ lba. rw (done.l2p, done.cells) refl), done.marks)

-- Whatever the block and its metadata, each entry seen is counted once, as a sentinel, out of
-- bounds, newer or applied, and the entries seen and those skipped as uninitialized grow together
-- by the entries of one block.
pub parse_metadata_recovery-counts :
    (md : MetadataEntry) (block : L2PBlock) (ts : ℕ) (td : Tables × Diagnostics)
    → IsBalanced td.1
    → let d' = (parse_metadata_recovery md block ts td).1 in
      IsBalanced d'
      × (d'.seen_entries + d'.skipped_uninitialized_entries
          ≡ td.1.seen_entries + td.1.skipped_uninitialized_entries + length_version_log_block)
unfolding parse_metadata_recovery
parse_metadata_recovery-counts md block ts (t, d) b =
    let whole = recover_entries-counts md ts block.map 0 length_version_log_block (t, d) b in
    elim (Bool-cases (is_uninitialized md)) [
      | inl u ↦ rw u (b, omega arith)
      | inr u ↦ rw u (whole.0, omega (arith, whole.1, whole.2))
    ]
