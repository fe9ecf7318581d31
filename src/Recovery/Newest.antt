-- ===== src/Recovery/Newest.antt =====
-- What `parse_metadata` makes of the mapping: the newest valid entry for a logical block wins.
use timelock_drive.Prelude.{
  ℕ, zero, suc, ◌+◌, ◌<◌, ◌≡◌, refl, ap, ◌∙◌, Bool, true, false, not, ◌&&◌, ◌||◌, Option, none,
  some, if◌then◌else◌, ltb, ◌==◌, arith,
}
use timelock_drive.Constants.{
  MetadataEntry, total_physical_num_blocks, total_logical_num_blocks, length_version_log_block,
}
use timelock_drive.Recovery.{
  L2PEntry, L2PBlock, Tables, is_sentinel, parse_entry, parse_entries, parse_metadata,
}

-- The entry has no sentinel and both addresses lie on the disk.
abbrev pub is_valid : L2PEntry → Bool
is_valid e =
    not (is_sentinel e)
    && (ltb e.physical_block_address total_physical_num_blocks
        && ltb e.logical_block_address total_logical_num_blocks)

-- The physical block that the tables give for a logical block.
abbrev pub mapped : Tables → ℕ → Option ℕ
mapped t lba = if t.l2pmap lba == 0 then none else some (t.cell (t.l2pmap lba)).physical_block_id

-- The physical address in the last valid entry for `lba` among `n` from index `i` on, or `old`.
abbrev pub newest : (ℕ → L2PEntry) → ℕ → ℕ → ℕ → Option ℕ → Option ℕ
newest map lba i zero old = old
newest map lba i (suc n) old = newest map lba (i + 1) n (
    if is_valid (map i) && (map i).logical_block_address == lba
    then some (map i).physical_block_address
    else old)

-- Whether a physical block is named by a valid entry among `n` from index `i` on.
abbrev pub is_named : (ℕ → L2PEntry) → ℕ → ℕ → ℕ → Bool
is_named map pba i zero = false
is_named map pba i (suc n) =
    (is_valid (map i) && (map i).physical_block_address == pba) || is_named map pba (i + 1) n

-- `malloc` returns addresses that are in no table.
abbrev pub Allocated : Tables → Type 0
Allocated t = (0 < t.brk) × ((lba : ℕ) → t.l2pmap lba < t.brk)

module _ (md : MetadataEntry) (e : L2PEntry) (t : Tables) (ok : Allocated t) where
  parse_entry-mapped :
      (lba : ℕ)
      → mapped (parse_entry md e t) lba ≡ (
          if is_valid e && e.logical_block_address == lba
          then some e.physical_block_address
          else mapped t lba)
  unfolding parse_entry
  parse_entry-mapped lba = ground (arith, ok.1 lba)

  parse_entry-Allocated : Allocated (parse_entry md e t)
  unfolding parse_entry
  parse_entry-Allocated = (ground arith, λ lba. ground (arith, ok.1 lba))

  parse_entry-marks :
      (pba : ℕ)
      → (parse_entry md e t).mark_free_blocks pba
        ≡ (t.mark_free_blocks pba && not (is_valid e && e.physical_block_address == pba))
  unfolding parse_entry
  parse_entry-marks pba = ground arith

  -- Every other entry of the mapping keeps its timelock and time, and new ones get the block's.
  parse_entry-cells : (p : ℕ) → p < t.brk → (parse_entry md e t).cell p ≡ t.cell p
  unfolding parse_entry
  parse_entry-cells p h = ground arith

-- After the rounds the tables map each logical block to the physical address of the newest valid
-- entry for it, keep the older mapping where there is none, and the physical blocks that are still
-- free are those that were free and that no valid entry names.
record Parses (md : MetadataEntry) (map : ℕ → L2PEntry) (i n : ℕ) (t t' : Tables) : Type 0 where
  mapping : (lba : ℕ) → mapped t' lba ≡ newest map lba i n (mapped t lba)
  marks :
      (pba : ℕ) → t'.mark_free_blocks pba ≡ (t.mark_free_blocks pba && not (is_named map pba i n))
  allocated : Allocated t'

pub and-not-or : (a b c : Bool) → (a && not b) && not c ≡ a && not (b || c)
and-not-or true true c = refl
and-not-or true false c = refl
and-not-or false b c = refl

pub and-true : (a : Bool) → a ≡ a && true
and-true true = refl
and-true false = refl

parse_entries-Parses :
    (md : MetadataEntry) (map : ℕ → L2PEntry) (i n : ℕ) (t : Tables)
    → Allocated t
    → Parses md map i n t (parse_entries md map i n t)
unfolding parse_entries
parse_entries-Parses md map i zero t ok = record {
  mapping = λ lba. refl;
  marks = λ pba. and-true (t.mark_free_blocks pba);
  allocated = ok;
}
parse_entries-Parses md map i (suc n) t ok =
    let ih =
      parse_entries-Parses md map (i + 1) n (parse_entry md (map i) t)
        (parse_entry-Allocated md (map i) t ok) in
    record {
      mapping = λ lba.
          ih.mapping lba ∙ ap (newest map lba (i + 1) n) (parse_entry-mapped md (map i) t ok lba);
      marks = λ pba.
          ih.marks pba
          ∙ ap (λ b. b && not (is_named map pba (i + 1) n)) (parse_entry-marks md (map i) t ok pba)
          ∙ and-not-or (t.mark_free_blocks pba)
              (is_valid (map i) && (map i).physical_block_address == pba)
              (is_named map pba (i + 1) n);
      allocated = ih.allocated;
    }

-- `parse_metadata` maps each logical block to the physical address in the last valid entry of the
-- block for it, and keeps the older mapping of the others; it reserves the physical blocks that
-- valid entries name, and no others.
pub parse_metadata_lem :
    (md : MetadataEntry) (block : L2PBlock) (t : Tables)
    → Allocated t
    → ((lba : ℕ)
        → mapped (parse_metadata md block t) lba
          ≡ newest block.map lba 0 length_version_log_block (mapped t lba))
      × ((pba : ℕ)
          → (parse_metadata md block t).mark_free_blocks pba
            ≡ (t.mark_free_blocks pba && not (is_named block.map pba 0 length_version_log_block)))
      × Allocated (parse_metadata md block t)
unfolding parse_metadata
parse_metadata_lem md block t ok =
    let done = parse_entries-Parses md block.map 0 length_version_log_block t ok in
    (done.mapping, done.marks, done.allocated)
