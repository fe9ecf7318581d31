-- ===== src/Recovery.antt =====
-- `parse_metadata` and `parse_metadata_recovery` of versioning_td_driver/src/versioning.c: the
-- entries of one version log block go into the mapping tables, at start-up without and with a
-- recovery timestamp.
pub mod Newest
pub mod Timestamp
use timelock_drive.Prelude.{
  ℕ, zero, suc, ◌+◌, ◌^◌, Bool, true, false, ◌||◌, ◌&&◌, Option, none, some, if◌then◌else◌, ltb,
  leb, ◌==◌, update,
}
use timelock_drive.Constants.{
  MetadataEntry, uint32_max, total_physical_num_blocks, total_logical_num_blocks,
  length_version_log_block,
}
use timelock_drive.BlockList.{BlockEntry}

pub record L2PEntry : Type 0 where
  pub logical_block_address : ℕ
  pub physical_block_address : ℕ

-- `map` is the array of LENGTH_VERSION_LOG_BLOCK entries.
pub record L2PBlock : Type 0 where
  pub ptr : ℕ
  pub seed : ℕ
  pub map : ℕ → L2PEntry

-- The global tables. `brk` is the address that the next `malloc` returns; a cell from there on
-- holds whatever the memory holds.
pub record Tables : Type 0 where
  pub cell : ℕ → BlockEntry
  pub brk : ℕ
  pub l2pmap : ℕ → ℕ
  pub p2lmap : ℕ → ℕ
  pub mark_free_blocks : ℕ → Bool

-- Either field is UINT32_MAX.
abbrev pub is_sentinel : L2PEntry → Bool
is_sentinel e = (e.logical_block_address == uint32_max) || (e.physical_block_address == uint32_max)

abbrev pub reserve : ℕ → Tables → Tables
reserve pba t = record t { mark_free_blocks = update t.mark_free_blocks pba false }

-- A new entry for the mapping. Its `next` is not set.
abbrev pub map_entry : MetadataEntry → L2PEntry → Tables → Tables
map_entry md e t = record t {
  cell = update t.cell t.brk (record (t.cell t.brk) {
    physical_block_id = e.physical_block_address;
    keep_duration = md.keep_duration;
    time_written = md.time_written;
  });
  brk = t.brk + 1;
  l2pmap = update t.l2pmap e.logical_block_address t.brk;
  p2lmap = update t.p2lmap e.physical_block_address e.logical_block_address;
}

-- One round of the loop of `parse_metadata`.
pub parse_entry : MetadataEntry → L2PEntry → Tables → Tables
parse_entry md e t =
    if is_sentinel e
    then t
    else if leb total_physical_num_blocks e.physical_block_address
    then t
    else if leb total_logical_num_blocks e.logical_block_address
    then t
    else map_entry md e (reserve e.physical_block_address t)

-- The rounds from index `i` on.
pub parse_entries : MetadataEntry → (ℕ → L2PEntry) → ℕ → ℕ → Tables → Tables
unfolding parse_entry
parse_entries md map i zero t = t
parse_entries md map i (suc n) t = parse_entries md map (i + 1) n (parse_entry md (map i) t)

pub parse_metadata : MetadataEntry → L2PBlock → Tables → Tables
parse_metadata md block t = parse_entries md block.map 0 length_version_log_block t

-- The counters of the recovery diagnostics.
pub record Diagnostics : Type 0 where
  pub seen_entries : ℕ
  pub invalid_sentinel_entries : ℕ
  pub invalid_bounds_entries : ℕ
  pub candidate_entries : ℕ
  pub skipped_newer_entries : ℕ
  pub skipped_uninitialized_entries : ℕ
  pub applied_entries : ℕ
  pub min_time_written : ℕ
  pub max_time_written : ℕ
  pub min_applied_time_written : ℕ
  pub max_applied_time_written : ℕ

-- `reset_recovery_diagnostics`
abbrev pub reset_diagnostics : Diagnostics
reset_diagnostics = record {
  seen_entries = 0;
  invalid_sentinel_entries = 0;
  invalid_bounds_entries = 0;
  candidate_entries = 0;
  skipped_newer_entries = 0;
  skipped_uninitialized_entries = 0;
  applied_entries = 0;
  min_time_written = uint32_max;
  max_time_written = 0;
  min_applied_time_written = uint32_max;
  max_applied_time_written = 0;
}

abbrev pub note_candidate : ℕ → Diagnostics → Diagnostics
note_candidate time d = record d {
  candidate_entries = d.candidate_entries + 1;
  min_time_written = if ltb time d.min_time_written then time else d.min_time_written;
  max_time_written = if ltb d.max_time_written time then time else d.max_time_written;
}

abbrev pub note_applied : ℕ → Diagnostics → Diagnostics
note_applied time d = record d {
  applied_entries = d.applied_entries + 1;
  min_applied_time_written =
      if ltb time d.min_applied_time_written then time else d.min_applied_time_written;
  max_applied_time_written =
      if ltb d.max_applied_time_written time then time else d.max_applied_time_written;
}

-- One round of the loop of `parse_metadata_recovery`.
pub recover_entry : MetadataEntry → ℕ → L2PEntry → Tables × Diagnostics → Tables × Diagnostics
recover_entry md timestamp e (t, d0) =
    let d = record d0 { seen_entries = d0.seen_entries + 1 } in
    let time = md.time_written in
    let reserved = reserve e.physical_block_address t in
    let candidate = note_candidate time d in
    if is_sentinel e
    then (t, record d { invalid_sentinel_entries = d.invalid_sentinel_entries + 1 })
    else if leb total_physical_num_blocks e.physical_block_address
    then (t, record d { invalid_bounds_entries = d.invalid_bounds_entries + 1 })
    else if leb total_logical_num_blocks e.logical_block_address
    then (t, record d { invalid_bounds_entries = d.invalid_bounds_entries + 1 })
    else if ltb timestamp time
    then (
      reserved,
      record candidate { skipped_newer_entries = candidate.skipped_newer_entries + 1 },
    )
    else (map_entry md e reserved, note_applied time candidate)

pub recover_entries :
    MetadataEntry → ℕ → (ℕ → L2PEntry) → ℕ → ℕ → Tables × Diagnostics → Tables × Diagnostics
unfolding recover_entry
recover_entries md timestamp map i zero td = td
recover_entries md timestamp map i (suc n) td =
    recover_entries md timestamp map (i + 1) n (recover_entry md timestamp (map i) td)

-- The default that the gatekeeper seeds its metadata blocks with.
abbrev pub is_uninitialized : MetadataEntry → Bool
is_uninitialized md = (md.keep_duration == 0) && (md.time_written == 1)

pub parse_metadata_recovery :
    MetadataEntry → L2PBlock → ℕ → Tables × Diagnostics → Tables × Diagnostics
parse_metadata_recovery md block timestamp (t, d) =
    let whole = recover_entries md timestamp block.map 0 length_version_log_block (t, d) in
    if is_uninitialized md
    then (
      t,
      record d {
        skipped_uninitialized_entries = d.skipped_uninitialized_entries + length_version_log_block;
      },
    )
    else whole
