-- ===== src/Gc.antt =====
-- Blocks that are no longer mapped, on their way to the timelock log and the waiting list:
-- `perform_gc`, `epoch_timelock_physical_block` and `flush_epoch_timelock_set` of
-- versioning_td_driver/src/versioning.c.
pub mod Bounds
pub mod Logged
use timelock_drive.Prelude.{
  ℕ, zero, suc, ◌+◌, ◌%◌, ◌^◌, Bool, true, false, ◌||◌, Option, none, some, List, [], ◌∷◌,
  if◌then◌else◌, ltb, ◌==◌, update,
}
use timelock_drive.Constants.{length_td_log_block, default_keep_duration}
use timelock_drive.BlockList.{BlockEntryList, Store, link, enqueue_list, expiry_list}
use timelock_drive.Logs.{EpochMap, Logs, push_td, begin_td}
use timelock_drive.Gatekeeper.{Gatekeeper}
use timelock_drive.Metadata.{Driver, Outcome, returned, stopped, send_hd_metadata}

-- Another step after one that may end the process.
abbrev pub and_then {ℓ} : {S T : Type ℓ} → Outcome S → (S → Outcome T) → Outcome T
and_then (returned s) f = f s
and_then stopped f = stopped

-- The first entry of the list to collect leaves it; `none` is an empty list.
unfoldable pub take_collected : Store → Option (ℕ × Store)
take_collected s =
    let p = s.gc_list.head in
    let after = (s.cell p).next in
    if p == 0
    then none
    else some (
      p,
      record s {
        cell = link s.cell p 0;
        gc_list = record { head = after; tail = if after == 0 then 0 else s.gc_list.tail };
      },
    )

-- A new timelock log block begins with its own address.
unfoldable pub begin_gc : {E : Type 0} → Logs E → Logs E
begin_gc l = if l.tdmd_idx == 0 then push_td l.current_tdmd_block l else l

-- The block goes into the timelock log, if there is room.
unfoldable pub log_collected : {E : Type 0} → ℕ → Logs E → Logs E
log_collected pba l =
    if ltb l.tdmd_idx length_td_log_block then record (push_td pba l) { tdmd_dirty = true } else l

-- `log_full`: the block was the last that fits.
abbrev pub fills : {E : Type 0} → Logs E → Bool
fills l = l.tdmd_idx + 1 == length_td_log_block

-- `now` is `__rdtsc() >> 32`, in a 32-bit word.
abbrev pub stamp : ℕ → ℕ → Store → Store
stamp now p s = record s {
  cell = update s.cell p (record (s.cell p) {
    time_written = now;
    keep_duration = (now + default_keep_duration) % 2 ^ 32;
  });
}

-- The entry goes to the waiting list.
unfoldable pub wait_expiry : {E G : Type 0} → ℕ → ℕ → Driver E G → Driver E G
wait_expiry now p d = record d {
  logs = record d.logs { store = enqueue_list expiry_list p (stamp now p d.logs.store) };
}

module _ {A E G : Type 0} (gk : Gatekeeper A G) where
  -- The log block is sent if it is full or nothing more is to be collected.
  unfoldable pub send_if : Bool → ℕ → Bool → Driver E G → Outcome (Driver E G)
  send_if send now read_only_mode d =
      if send then send_hd_metadata gk now read_only_mode d else returned d

  -- With the entry at `p` taken off the list; `later` is the time after the log block is sent.
  unfoldable pub gc_entry : ℕ → ℕ → Bool → ℕ → Driver E G → Outcome (Driver E G)
  gc_entry now later read_only_mode p d =
      let begun = begin_gc d.logs in
      let logged = log_collected (d.logs.store.cell p).physical_block_id begun in
      and_then
        (send_if (fills begun || logged.store.gc_list.head == 0) now read_only_mode
          (record d { logs = logged }))
        (λ d'. returned (wait_expiry later p d'))

  -- With what is taken off the list.
  unfoldable pub gc_taken : ℕ → ℕ → Bool → Driver E G → Option (ℕ × Store) → Outcome (Driver E G)
  gc_taken now later read_only_mode d none = returned d
  gc_taken now later read_only_mode d (some (p, store)) =
      gc_entry now later read_only_mode p (record d { logs = record d.logs { store = store } })

  unfoldable pub perform_gc : ℕ → ℕ → Bool → Driver E G → Outcome (Driver E G)
  perform_gc now later read_only_mode d =
      gc_taken now later read_only_mode d (take_collected d.logs.store)

  -- The log block is sent when it is full, also where it was before.
  unfoldable pub epoch_timelock_physical_block : ℕ → Bool → ℕ → Driver E G → Outcome (Driver E G)
  epoch_timelock_physical_block now read_only_mode p d =
      let stamped = record d.logs { store = stamp now p d.logs.store } in
      let logged = log_collected (d.logs.store.cell p).physical_block_id (begin_td stamped) in
      send_if (logged.tdmd_idx == length_td_log_block) now read_only_mode
        (record d { logs = logged })

  -- The loop over the logical blocks of the epoch.
  unfoldable pub timelock_lbas : ℕ → Bool → List ℕ → Driver E G → Outcome (Driver E G)
  timelock_lbas now read_only_mode [] d = returned d
  timelock_lbas now read_only_mode (lba ∷ lbas) d =
      and_then
        (if d.logs.l2pmap lba == 0
          then returned d
          else epoch_timelock_physical_block now read_only_mode (d.logs.l2pmap lba) d)
        (λ d'. timelock_lbas now read_only_mode lbas d')

  -- The keys are those that `kh_begin` to `kh_end` give; each is deleted.
  unfoldable pub delete_keys : EpochMap E → List ℕ → E → E
  delete_keys ops [] e = e
  delete_keys ops (lba ∷ lbas) e =
      delete_keys ops lbas (if ops.kh_get e lba then ops.kh_del e lba else e)

  unfoldable pub flush_epoch_timelock_set :
      EpochMap E → (E → List ℕ) → ℕ → Bool → Driver E G → Outcome (Driver E G)
  flush_epoch_timelock_set ops keys now read_only_mode d =
      let lbas = keys d.logs.epoch_map in
      let emptied = record d {
        logs = record d.logs { epoch_map = delete_keys ops lbas d.logs.epoch_map };
      } in
      and_then (timelock_lbas now read_only_mode lbas emptied)
        (λ d'. send_hd_metadata gk now read_only_mode d')
